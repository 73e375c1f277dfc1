-- ===== src/Decoder/Zz/Json/Whole.antt =====
-- A body that comes in pieces: process_json_buffer on one after the other, each with an empty queue,
-- as zz_decode calls it.
use mathlib.Core.Path.{subst}
use n2kafka.Prelude.{
  ℕ, ◌+◌, ◌*◌, ◌^◌, ◌≤◌, ◌<◌, ◌≡◌, refl, sym, ap, ◌∙◌, none, List, [], ◌∷◌, ◌++◌, map, append-nil,
  arith, length, length-append, Bytes,
}
use n2kafka.Prelude.Run.{Run, ret, ◌>>=◌}
use n2kafka.Util.Str.Pow2.{max_size}
use n2kafka.Util.MsgArray.{Msg, MsgArray, msg_array_init, messages_of}
use n2kafka.Decoder.Api.{DecoderErr, callback_ok}
use n2kafka.Decoder.Zz.Json.{Event, JsonSession, Env, process_json_buffer}
use n2kafka.Decoder.Zz.Json.Spec.{Split, split_end, split_from, InOrder}
use n2kafka.Decoder.Zz.Json.Chunk.{Provides, content}
use n2kafka.Decoder.Zz.Json.Pieces.{joined, split_from-append, InOrder-append}
use n2kafka.Decoder.Zz.Json.Parser.{Returned, HasParser, process_json_buffer-HasParser}
use n2kafka.Decoder.Zz.Json.Keep.{Between}
use n2kafka.Decoder.Zz.Json.Stream.{Queued, nothing, batch, process_json_buffer-Processed}

-- A piece of the body: where it stands, its bytes, and what yajl makes of it.
pub record Part (H : Type 0) : Type 0 where
  pub buffer : ℕ
  pub chunk : Bytes
  pub handler : H
  pub events : List Event

-- The whole body, and the callbacks that a parser would make on it at once.
abbrev pub body : {H : Type 0} → List (Part H) → Bytes
body [] = []
body (p ∷ ps) = p.chunk ++ body ps

abbrev pub callbacks : {H : Type 0} → List (Part H) → List Event
callbacks [] = []
callbacks (p ∷ ps) = joined p.chunk (body ps) (callbacks ps) p.events

-- The objects queued in the session count as delivered, and the queue is empty for the next chunk.
abbrev pub take_queue : {H : Type 0} → ℕ → Bytes → JsonSession H → JsonSession H
take_queue buffer chunk s = record s {
  kafka_msgs = msg_array_init;
  sent = s.sent ++ map (content buffer chunk) (messages_of s.kafka_msgs.items);
}

-- Goes on after a chunk unless it was refused.
abbrev pub proceed :
    {H : Type 0}
    → (JsonSession H → Run (JsonSession H × DecoderErr))
    → JsonSession H × DecoderErr
    → Run (JsonSession H × DecoderErr)
proceed next (s, callback_ok) = next s
proceed next (s, err) = ret (s, err)

module _ {H : Type 0} (env : Env H) where
  abbrev pub process_parts : List (Part H) → JsonSession H → Run (JsonSession H × DecoderErr)
  process_parts [] s = ret (s, callback_ok)
  process_parts (p ∷ ps) s = do
    processed ← process_json_buffer env p.buffer p.chunk s
    proceed (λ s'. process_parts ps (take_queue p.buffer p.chunk s')) processed

  -- Every piece is nonempty and accepted by yajl in the state that the piece before left, and the
  -- buffers stay within 2 ^ 31 bytes.
  abbrev pub Accepted : H → Split → List (Part H) → Type 0
  Accepted h st [] = Unit
  Accepted h st (p ∷ ps) =
      (0 < length p.chunk)
      × (env.yajl_parse h p.chunk ≡ (p.handler, p.events, none))
      × InOrder (length p.chunk) st.depth 0 p.events
      × (st.depth + length p.events < 2 ^ 64)
      × (env.header_size + length p.events * env.msg_size ≤ max_size)
      × (length st.current + length p.chunk ≤ max_size)
      × Accepted p.handler (split_from p.chunk 0 p.events st) ps

-- What becomes of the whole body: all its objects delivered in order, and the one begun kept.
pub record Delivered {H : Type 0} (r : Run (JsonSession H × DecoderErr)) (st : Split) : Type 0 where
  pub final : JsonSession H
  pub returns : r ≡ ret (final, callback_ok)
  pub delivered : final.sent ≡ st.out
  pub between : Between final st

Queued-messages :
    (a : MsgArray) (msgs : List Msg) (buffer : ℕ)
    → Queued a msgs buffer
    → messages_of a.items ≡ msgs
Queued-messages a msgs buffer (nothing e f) = rw (e, f) refl
Queued-messages a msgs buffer (batch k shared e) = e

split_end-nothing : (st : Split) → split_end [] 0 st ≡ st
split_end-nothing st = ground (arith, append-nil st.current)

module _ {H : Type 0} (env : Env H) where
  body-InOrder :
      (ps : List (Part H)) (h : H) (st : Split)
      → Accepted env h st ps
      → InOrder (length (body ps)) st.depth 0 (callbacks ps)
  body-InOrder [] h st ok = omega arith
  body-InOrder (p ∷ ps) h st (some_bytes, parse, order, deep, room, small, rest) =
      rw (length-append p.chunk (body ps)) (
        InOrder-append p.chunk (body ps) (callbacks ps) p.events 0 st order
          (body-InOrder ps p.handler _ rest))

  module _ (provides : Provides env) where
    -- One piece, with the parser's state and the queue taken.
    part-Processed :
        (p : Part H) (ps : List (Part H)) (s : JsonSession H) (st : Split)
        → Accepted env s.yajl_handler st (p ∷ ps)
        → Between s st
        → s.kafka_msgs ≡ msg_array_init
        → s.sent ≡ st.out
        → (s' : JsonSession H) × (process_json_buffer env p.buffer p.chunk s
            ≡ ret (s', callback_ok))
          × (s'.yajl_handler ≡ p.handler)
          × Between s' (split_from p.chunk 0 p.events st)
          × ((take_queue p.buffer p.chunk s').sent ≡ (split_from p.chunk 0 p.events st).out)
    part-Processed p ps s st (some_bytes, parse, order, deep, room, small, rest) b fresh sent =
        let t =
          process_json_buffer-Processed env provides p.buffer p.chunk s st p.handler p.events
            some_bytes b fresh (sym sent) parse order deep room
            (omega (arith, small, ap length b.kept)) in
        let kept =
          process_json_buffer-HasParser env p.buffer p.chunk s p.handler p.events provides
            some_bytes parse in
        (
          t.final,
          t.returns,
          subst (Returned (λ (q : JsonSession H × DecoderErr). HasParser env p.handler q.0))
              t.returns kept,
          t.between,
          ap (λ (m : List Msg). t.final.sent ++ map (content p.buffer p.chunk) m)
                (Queued-messages t.final.kafka_msgs t.msgs p.buffer t.queued)
              ∙ sym t.outputs,
        )

    -- For a body that comes in any number of nonempty pieces, each accepted by yajl in the state that the
    -- piece before left it, cut anywhere, inside an object too: every call of process_json_buffer returns
    -- DECODER_CALLBACK_OK, and the objects sent alone or queued over the calls, in order, are those of the
    -- splitting of the whole body at the same callbacks; the object still begun at the end is kept. It is
    -- asked that allocation succeeds, that the buffers stay within 2 ^ 31 bytes and the depth and the
    -- callbacks below 2 ^ 64, that single messages are taken, and that the session starts between two
    -- chunks with an empty queue.
    pub process_parts-Delivered :
        (ps : List (Part H)) (s : JsonSession H) (st : Split)
        → Accepted env s.yajl_handler st ps
        → Between s st
        → s.kafka_msgs ≡ msg_array_init
        → s.sent ≡ st.out
        → Delivered (process_parts env ps s) (split_from (body ps) 0 (callbacks ps) st)
    process_parts-Delivered [] s st ok b fresh sent =
        rw (split_end-nothing st)
          (record { final = s; returns = refl; delivered = sent; between = b })
    process_parts-Delivered (p ∷ ps) s st ok b fresh sent =
        let (s', returns, parser, between, delivered) = part-Processed p ps s st ok b fresh sent in
        rw
          (
            returns,
            split_from-append p.chunk (body ps) (callbacks ps) p.events 0 st ok.2
                (body-InOrder ps p.handler _ ok.6),
          )
          (process_parts-Delivered ps (take_queue p.buffer p.chunk s')
            (split_from p.chunk 0 p.events st)
            (subst (λ (h : H). Accepted env h (split_from p.chunk 0 p.events st) ps) (sym parser)
              ok.6)
            (record {
              same_depth = between.same_depth;
              closed = between.closed;
              kept = between.kept;
              inside = between.inside;
              begun = between.begun;
              wf = between.wf;
            })
            refl delivered)
