-- ===== src/Decoder/Zz/Decode/Batch.antt =====
-- A chunk from the request to Kafka: what zz_decode answers, and the batch that it hands over.
use n2kafka.Prelude.{
  ℕ, ◌+◌, ◌*◌, ◌^◌, ◌≤◌, ◌<◌, ◌≡◌, refl, sym, ap, ◌∙◌, [], ◌∷◌, true, false, Option, none, List,
  ◌++◌, map, arith, ◌==◌, length, Bytes,
}
use n2kafka.Prelude.Run.{Run, ret}
use n2kafka.Util.Str.{string_size}
use n2kafka.Util.Str.Pow2.{max_size}
use n2kafka.Util.Pair.{Pair}
use n2kafka.Util.MsgArray.{
  Msg, MsgArray, Produced, msg_array_init, kafka_message_array_size, kafka_message_array_produce,
}
use n2kafka.Util.MsgArray.Produce.{
  BatchLaw, HasTimes, marked, sum, kafka_message_array_produce-Finishes, produce-empty,
}
use n2kafka.Decoder.Api.{DecoderErr, callback_ok}
use n2kafka.Decoder.Zz.Json.{Event, JsonSession, Env, process_json_buffer}
use n2kafka.Decoder.Zz.Json.Spec.{Split, split_from, InOrder}
use n2kafka.Decoder.Zz.Json.Chunk.{Provides, content}
use n2kafka.Decoder.Zz.Json.Keep.{Between}
use n2kafka.Decoder.Zz.Json.Stream.{Queued, nothing, batch, process_json_buffer-Processed}
use n2kafka.Listener.Api.{no_response}
use n2kafka.Decoder.Zz.Decode.{Decoded, other_method, decode_answer, zz_decode}

-- What a POST with an accepted chunk comes to.
pub record Answered {H : Type 0} (buffer : ℕ) (chunk : Bytes) (st : Split) (r : Run (Decoded H))
    : Type 0 where
  pub decoded : Decoded H
  pub returns : r ≡ ret decoded
  pub accepted : decoded.err ≡ callback_ok
  pub all_counted : decoded.produced.msgs_ok ≡ length decoded.produced.batch
  pub between : Between decoded.session st
  pub outputs : st.out ≡ decoded.session.sent ++ map (content buffer chunk) decoded.produced.batch

abbrev mark_all : List Msg → List Msg
mark_all ms = map (λ (m : Msg). record m { private = true }) ms

mark_all-content :
    (buffer : ℕ) (chunk : Bytes) (ms : List Msg)
    → map (content buffer chunk) (mark_all ms) ≡ map (content buffer chunk) ms
mark_all-content buffer chunk [] = refl
mark_all-content buffer chunk (m ∷ ms) =
    ap (λ (x : List Bytes). content buffer chunk m ∷ x) (mark_all-content buffer chunk ms)

length-mark_all : (ms : List Msg) → length (mark_all ms) ≡ length ms
length-mark_all [] = refl
length-mark_all (m ∷ ms) = omega (arith, length-mark_all ms)

module _ {H : Type 0} (env : Env H) (provides : Provides env)
    (produce_batch : List Msg → ℕ × List Msg) (law : BatchLaw produce_batch) (now fuel : ℕ) where
  -- A batch in a shared buffer is produced whole or not: the count returned is that of the messages.
  produce-counts :
      (sched : List ℕ) (a : MsgArray) (msgs : List Msg) (buffer : ℕ) (times : Option (List ℕ))
      → Queued a msgs buffer
      → sum sched ≤ (produce_batch (marked a)).0
      → HasTimes times
      → (p : Produced) × (kafka_message_array_produce produce_batch now sched a times ≡ ret p)
        × (p.msgs_ok ≡ length msgs)
        × (p.batch ≡ mark_all msgs)
        × (kafka_message_array_size a ≡ length msgs)
  unfolding kafka_message_array_size
  produce-counts sched a msgs buffer times (nothing e init) hs ht =
      let (p, returns, none_counted, none_given) = produce-empty produce_batch now sched times in
      (p, rw init returns, rw e none_counted, rw e none_given, rw (init, e) refl)
  produce-counts sched a msgs buffer times (batch k shared same) hs ht =
      let f =
        kafka_message_array_produce-Finishes produce_batch law now sched a k buffer times shared hs
          ht in
      let stored : (string_size a.str == 0) ≡ false = ground (arith, shared.stored) in
      (
        f.final,
        f.returns,
        f.all_counted ∙ ap length same,
        f.given ∙ ap mark_all same,
        rw (stored, shared.head) (shared.counted ∙ ap length same),
      )

  answer-ok :
      (sched : List ℕ) (session : JsonSession H) (p : Produced) (count : ℕ)
      → (count == p.msgs_ok) ≡ true
      → decode_answer env produce_batch now sched fuel session callback_ok count p
        ≡ ret
            (record { session = session; produced = p; err = callback_ok; response = no_response })
  unfolding decode_answer
  answer-ok sched session p count e = rw e refl

  -- A POST whose nonempty chunk yajl accepts, on a session between two chunks, where every allocation is granted and
  -- librdkafka takes the messages that are sent alone: zz_decode returns DECODER_CALLBACK_OK, whichever messages of
  -- the batch librdkafka refuses and whenever the delivery reports come. What was sent alone, then the contents of
  -- the messages handed to rd_kafka_produce_batch, are, in order, the objects that the splitting of the stream
  -- completes in this chunk, and the session is between two chunks again. The buffers stay within 2 ^ 31 bytes
  -- and the depth and the callbacks below 2 ^ 64, at most one report comes for a message, the errors of
  -- librdkafka are the four that its documentation names, and the array of last warnings, if there is one, has its four
  -- places.
  pub zz_decode-Answered :
      (buffer : ℕ) (chunk : Bytes) (props : List Pair) (times : Option (List ℕ)) (sched : List ℕ)
      (s : JsonSession H) (st : Split) (handler : H) (events : List Event)
      → other_method props ≡ false
      → 0 < length chunk
      → Between s st
      → st.out ≡ s.sent
      → env.yajl_parse s.yajl_handler chunk ≡ (handler, events, none)
      → InOrder (length chunk) st.depth 0 events
      → st.depth + length events < 2 ^ 64
      → env.header_size + length events * env.msg_size ≤ max_size
      → string_size s.last_object + length chunk ≤ max_size
      → HasTimes times
      → ((r : JsonSession H × DecoderErr)
          → process_json_buffer env buffer chunk (record s { kafka_msgs = msg_array_init }) ≡ ret r
          → sum sched ≤ (produce_batch (marked r.0.kafka_msgs)).0)
      → Answered buffer chunk
          (split_from chunk 0 events st)
          (zz_decode env produce_batch now sched fuel buffer chunk props times s)
  unfolding zz_decode
  zz_decode-Answered buffer chunk props times sched s st handler events post nonempty b sent parse
        order deep room small ht reports =
      let s0 : JsonSession H = record s { kafka_msgs = msg_array_init } in
      let d =
        process_json_buffer-Processed env provides buffer chunk s0 st handler events nonempty
          (restart s st b) refl sent parse order deep room small in
      let (p, runs, counted, given, size) =
        produce-counts sched d.final.kafka_msgs d.msgs buffer times d.queued
          (reports (d.final, callback_ok) d.returns) ht in
      let all : (kafka_message_array_size d.final.kafka_msgs == p.msgs_ok) ≡ true =
        ground (arith, size, counted) in
      let final : JsonSession H = record d.final { kafka_msgs = msg_array_init } in
      record {
        decoded = record {
          session = final;
          produced = p;
          err = callback_ok;
          response = no_response;
        };
        returns = rw (post, d.returns, runs) (answer-ok sched final p _ all);
        accepted = refl;
        all_counted = counted ∙ sym (ap length given ∙ length-mark_all d.msgs);
        between = restart d.final _ d.between;
        outputs =
            d.outputs
            ∙ ap (λ (x : List Bytes). d.final.sent ++ x)
                (sym (
                  ap (λ (x : List Msg). map (content buffer chunk) x) given
                  ∙ mark_all-content buffer chunk d.msgs));
      }
    where
      restart :
          (t : JsonSession H) (u : Split)
          → Between t u
          → Between (record t { kafka_msgs = msg_array_init }) u
      restart t u x = record {
        same_depth = x.same_depth;
        closed = x.closed;
        kept = x.kept;
        inside = x.inside;
        begun = x.begun;
        wf = x.wf;
      }
