-- ===== src/Decoder/Zz/Json/Stream.antt =====
-- A whole chunk: its callbacks, then what is kept of it.
use native.Mathlib.Nat.{mul-le-mul_right, zero-add}
use n2kafka.Prelude.{
  ℕ, ◌+◌, ◌-◌, ◌*◌, ◌^◌, ◌≤◌, ◌<◌, ◌≡◌, refl, sym, ap, ◌∙◌, false, none, some, List, [], ◌∷◌, ◌++◌,
  map, append-nil, arith, length, Bytes, ◌==◌,
}
use n2kafka.Prelude.Run.{Run, ret, ◌>>=◌}
use n2kafka.Util.Str.{string_size}
use n2kafka.Util.Str.Pow2.{max_size}
use n2kafka.Util.MsgArray.{
  Msg, MsgArray, kafka_message_array_size, set_payload_buffer, msg_array_init, Internal, header,
  message, messages_of,
}
use n2kafka.Util.MsgArray.Produce.{IsShared}
use n2kafka.Util.MsgArray.Add.{IsPacked, empty, filled}
use n2kafka.Decoder.Api.{DecoderErr, callback_ok}
use n2kafka.Decoder.Zz.Json.{
  Event, start_map, end_map, JsonSession, Env, run_event, run_events, keep_open, close_chunk,
  process_json_buffer,
}
use n2kafka.Decoder.Zz.Json.Spec.{
  Split, split_event, consumed, split_end, split_from, InOrder, depth-start, depth-end,
}
use n2kafka.Decoder.Zz.Json.Chunk.{Provides, content, Sim, start-Sim}
use n2kafka.Decoder.Zz.Json.Ends.{Steps, end-Sim}
use n2kafka.Decoder.Zz.Json.Keep.{Between, keep-Kept, start-Mode, split_end-out}

abbrev split_events : Bytes → ℕ → List Event → Split → ℕ × Split
split_events chunk at [] st = (at, st)
split_events chunk at (e ∷ es) st = split_events chunk (consumed e) es (split_event chunk at e st)

split_from-split_events :
    (chunk : Bytes) (es : List Event) (at : ℕ) (st : Split)
    → split_from chunk at es st
      ≡ split_end chunk (split_events chunk at es st).0 (split_events chunk at es st).1
split_from-split_events chunk [] at st = refl
split_from-split_events chunk (e ∷ es) at st =
    split_from-split_events chunk es (consumed e) (split_event chunk at e st)

split_events-bound :
    (chunk : Bytes) (es : List Event) (at depth : ℕ) (st : Split)
    → InOrder (length chunk) depth at es
    → (split_events chunk at es st).0 ≤ length chunk
split_events-bound chunk [] at depth st h = h
split_events-bound chunk (start_map c ∷ es) at depth st (h, g, rest) =
    split_events-bound chunk es c (depth + 1) (split_event chunk at (start_map c) st) rest
split_events-bound chunk (end_map c ∷ es) at depth st (k, h, g, rest) =
    split_events-bound chunk es c (depth - 1) (split_event chunk at (end_map c) st) rest

module _ {H : Type 0} (env : Env H) (provides : Provides env) (buffer : ℕ) (chunk : Bytes) where
  weaken :
      (c n m : ℕ) (r : Run (JsonSession H)) (st : Split)
      → n ≤ m
      → Steps env provides buffer chunk c n r st
      → Steps env provides buffer chunk c m r st
  weaken c n m r st h t = record {
    final = t.final;
    msgs = t.msgs;
    returns = t.returns;
    few = omega (arith, t.few);
    sim = t.sim;
  }

  fewer : (x n m w : ℕ) → n ≤ m → x + m * w ≤ max_size → x + n * w ≤ max_size
  fewer x n m w h g = omega (arith, mul-le-mul_right w h)

  run_events-Steps :
      (es : List Event) (at : ℕ) (msgs : List Msg) (s : JsonSession H) (st : Split)
      → InOrder (length chunk) st.depth at es
      → st.depth + length es < 2 ^ 64
      → env.header_size + (length msgs + length es) * env.msg_size ≤ max_size
      → Sim env buffer chunk at msgs s st
      → Steps env provides buffer chunk
          (split_events chunk at es st).0
          (length msgs + length es)
          (run_events env buffer chunk es s)
          (split_events chunk at es st).1
  unfolding run_events run_event
  run_events-Steps [] at msgs s st order big room sim = record {
    final = s;
    msgs = msgs;
    returns = refl;
    few = omega arith;
    sim = sim;
  }
  run_events-Steps (start_map c ∷ es) at msgs s st (lt, le, order) big room sim =
      let st' = split_event chunk at (start_map c) st in
      let d : st'.depth ≡ st.depth + 1 = depth-start chunk at c st in
      let sim' = start-Sim env provides buffer chunk at c msgs s st lt sim in
      weaken _ _ _ _ _ (omega arith) (
        run_events-Steps es c msgs _ st' (rw d order) (omega (arith, d))
          (fewer env.header_size _ _ env.msg_size (omega arith) room) sim')
  run_events-Steps (end_map c ∷ es) at msgs s st (inner, lt, le, order) big room sim =
      let st' = split_event chunk at (end_map c) st in
      let d : st'.depth ≡ st.depth - 1 = depth-end chunk at c st in
      let t =
        end-Sim env provides buffer chunk at c msgs s st lt le inner (omega arith)
          (fewer env.header_size _ _ env.msg_size (omega arith) room) sim in
      rw t.returns (
        weaken _ _ _ _ _ (omega (arith, t.few)) (
          run_events-Steps es c t.msgs t.final st' (rw d order) (omega (arith, d))
            (fewer env.header_size _ _ env.msg_size (omega (arith, t.few)) room) t.sim))

-- The messages that a chunk leaves to produce: none, or a batch that owns the buffer.
pub data Queued (a : MsgArray) (msgs : List Msg) (buffer : ℕ) : Type 0 where
  nothing : msgs ≡ [] → a ≡ msg_array_init → Queued a msgs buffer
  batch : (k : Internal) → IsShared a k buffer → messages_of a.items ≡ msgs → Queued a msgs buffer

messages_of-map : (ms : List Msg) → messages_of (map message ms) ≡ ms
messages_of-map [] = refl
messages_of-map (m ∷ ms) = ap (λ (x : List Msg). m ∷ x) (messages_of-map ms)

-- What process_json_buffer comes to on a chunk that yajl accepts.
pub record Processed {H : Type 0} (buffer : ℕ) (chunk : Bytes)
    (r : Run (JsonSession H × DecoderErr)) (st : Split) : Type 0 where
  pub final : JsonSession H
  pub msgs : List Msg
  pub returns : r ≡ ret (final, callback_ok)
  pub between : Between final st
  pub outputs : st.out ≡ final.sent ++ map (content buffer chunk) msgs
  pub queued : Queued final.kafka_msgs msgs buffer

module _ {H : Type 0} (env : Env H) (provides : Provides env) (buffer : ℕ) (chunk : Bytes) where
  close-Queued :
      (s : JsonSession H) (msgs : List Msg)
      → IsPacked env.header_size env.msg_size s.kafka_msgs msgs
      → (a : MsgArray) × (close_chunk env (some buffer) s
          ≡ ret (record s { kafka_msgs = a; last_open_map = none }))
        × Queued a msgs buffer
  unfolding close_chunk kafka_message_array_size set_payload_buffer
  close-Queued s msgs (empty e m) = rw e (msg_array_init, refl, nothing m refl)
  close-Queued s msgs (filled items some_msg size wf) =
      let stored : (string_size s.kafka_msgs.str == 0) ≡ false =
        ground (arith, size, provides.header_positive) in
      let counted : (length msgs == 0) ≡ false = ground arith in
      let k : Internal = record { payload_buffer = some buffer; count = length msgs } in
      rw (stored, items, counted)
        (
          record s.kafka_msgs { items = header k ∷ map message msgs },
          refl,
          batch k
              (record {
                stored = omega (arith, size, provides.header_positive);
                head = refl;
                shared = refl;
                counted = rw (messages_of-map msgs) refl;
                some_message = some_msg;
              })
              (messages_of-map msgs),
        )

  -- After the callbacks.
  end-Processed :
      (at : ℕ) (st st' : Split) (final : JsonSession H) (msgs : List Msg)
      → at ≤ length chunk
      → st' ≡ split_end chunk at st
      → Sim env buffer chunk at msgs final st
      → Processed buffer chunk
          (do s' ← close_chunk env (some buffer) (keep_open env chunk final); ret (s', callback_ok))
          st'
  end-Processed at st st' final msgs le e sim =
      let k = keep-Kept env provides buffer chunk at msgs final st le sim in
      let (a, closes, queued) =
        close-Queued (record final { last_object = k.object }) msgs sim.packed in
      rw (k.same, closes)
        (record {
          final = record final { last_object = k.object; kafka_msgs = a; last_open_map = none };
          msgs = msgs;
          returns = refl;
          between = rw e (record {
            same_depth = k.between.same_depth;
            closed = refl;
            kept = k.between.kept;
            inside = k.between.inside;
            begun = k.between.begun;
            wf = k.between.wf;
          });
          outputs = rw e (split_end-out env provides buffer chunk at st ∙ sim.outputs);
          queued = queued;
        })

module _ {H : Type 0} (env : Env H) (provides : Provides env) where
  -- On a nonempty chunk that yajl accepts, with an object of any length still open from the chunks before and
  -- no message yet queued: the call returns DECODER_CALLBACK_OK, what it has sent and the messages it
  -- leaves queued are, in order, the objects that the splitting of the stream completes in this chunk, what it
  -- keeps is the object that the splitting leaves begun, and the queue owns the buffer. It is asked that
  -- allocation succeeds, that the buffers stay within 2 ^ 31 bytes, and that single messages are taken.
  pub process_json_buffer-Processed :
      (buffer : ℕ) (chunk : Bytes) (s : JsonSession H) (st : Split) (handler : H)
      (events : List Event)
      → 0 < length chunk
      → Between s st
      → s.kafka_msgs ≡ msg_array_init
      → st.out ≡ s.sent
      → env.yajl_parse s.yajl_handler chunk ≡ (handler, events, none)
      → InOrder (length chunk) st.depth 0 events
      → st.depth + length events < 2 ^ 64
      → env.header_size + length events * env.msg_size ≤ max_size
      → string_size s.last_object + length chunk ≤ max_size
      → Processed buffer chunk
          (process_json_buffer env buffer chunk s)
          (split_from chunk 0 events st)
  unfolding process_json_buffer
  process_json_buffer-Processed buffer [] s st handler events nonempty b fresh sent parse order deep
        room small =
      absurd (omega arith)
  process_json_buffer-Processed buffer (x ∷ xs) s st handler events nonempty b fresh sent parse
        order deep room small =
      let chunk = x ∷ xs in
      let t =
        run_events-Steps env provides buffer chunk events 0 [] (record s { yajl_handler = handler })
          st order deep (rw (zero-add (length events)) room)
          (record {
            same_depth = b.same_depth;
            mode = start-Mode env provides buffer chunk s st b;
            packed = empty fresh refl;
            outputs = sent ∙ sym (append-nil s.sent);
            wf = b.wf;
            small = small;
          }) in
      rw (parse, provides.mallocs (length chunk), t.returns)
        (end-Processed env provides buffer chunk _ _ _ t.final t.msgs
          (split_events-bound chunk events 0 st.depth st order)
          (split_from-split_events chunk events 0 st) t.sim)
