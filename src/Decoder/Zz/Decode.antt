-- ===== src/Decoder/Zz/Decode.antt =====
-- zz_decode of src/decoder/zz_http2k/zz_http2k_decoder.c, with a JSON session, and error_message_json of
-- zz_http2k_parser_json.c.
--
-- `produce_batch` is rd_kafka_produce_batch, `sched` the delivery reports that come during the call, and
-- `now` the clock. The batch that the call hands over is judged by `produced`.
pub mod Batch
mod Tests
use n2kafka.Prelude.{
  ℕ, ◌+◌, Bool, true, false, not, ◌&&◌, ◌||◌, Option, none, some, List, [], ◌∷◌, ◌++◌, ltb, ◌==◌,
  if◌then◌else◌, length, Bytes, codes, equal,
}
use n2kafka.Prelude.Int.{ℤ, pos, is_positive}
use n2kafka.Prelude.Run.{Run, ret, fault, ◌>>=◌}
use n2kafka.Util.Str.{Str, string_init, string_size, string_append_string, string_printf}
use n2kafka.Util.Str.Escape.{decimal, string_append_json_string}
use n2kafka.Util.Pair.{Pair, valueof}
use n2kafka.Util.MsgArray.{
  Msg, Produced, nothing_produced, msg_array_init, kafka_message_array_size,
  kafka_message_array_produce,
}
use n2kafka.Decoder.Api.{DecoderErr, callback_ok, buffer_full, http_method_not_allowed}
use n2kafka.Decoder.Zz.Json.{JsonSession, Env, process_json_buffer}
use n2kafka.Listener.Api.{Response, no_response}

abbrev pub is_ok : DecoderErr → Bool
is_ok callback_ok = true
is_ok _ = false

-- error_message_json: the count of messages, and the parser's error if there is one.
pub error_message_json : (ℕ → Bool) → ℕ → Str → DecoderErr → ℕ → Run Str
error_message_json realloc fuel error_str decoder_rc messages_queued = do
  (started, printf_rc) ←
      string_printf realloc fuel string_init
        (codes "{\"messages_queued\":" ++ decimal messages_queued)
  if is_positive printf_rc
      then (do
        text ←
            (if not (is_ok decoder_rc)
              then (do
                escaped ←
                    string_append_json_string realloc fuel
                      (string_append_string realloc started (codes ",\"json_decoder_error\":\"")).0
                      error_str.bytes
                ret (string_append_string realloc escaped.0 (codes "\"")).0)
              else ret started)
        ret (string_append_string realloc text (codes "}")).0)
      else ret started

-- What a call leaves: the session, what became of the batch, and the answer.
pub record Decoded (H : Type 0) : Type 0 where
  pub session : JsonSession H
  pub produced : Produced
  pub err : DecoderErr
  pub response : Response

-- session->http_response.buf is NULL as long as nothing was allocated.
abbrev pub response_of : Str → Response
response_of s = record { str = if s.cap == 0 then none else some s.bytes; size = string_size s }

-- Whether the request has a method other than POST.
pub other_method : List Pair → Bool
other_method props = elim (valueof props (codes "D-HTTP-method") equal) [
  | none ↦ false
  | some http_method ↦ not (equal (codes "POST") http_method)
]

module _ {H : Type 0} (env : Env H) (produce_batch : List Msg → ℕ × List Msg) (now : ℕ)
    (sched : List ℕ) (fuel : ℕ) where
  -- The information that zz_decode returns.
  pub decode_answer : JsonSession H → DecoderErr → ℕ → Produced → Run (Decoded H)
  unfolding error_message_json
  decode_answer session process_err count produced =
      let failed = if not (is_ok process_err) then process_err else buffer_full in
      if not (is_ok process_err) || not (count == produced.msgs_ok)
      then (do
        full_error ←
            error_message_json env.realloc fuel session.http_response process_err produced.msgs_ok
        let http_response =
            if ltb 0 (string_size full_error) then full_error else session.http_response
        ret (record {
          session = record session { http_response = http_response };
          produced = produced;
          err = failed;
          response = response_of http_response;
        }))
      else ret (record {
        session = session;
        produced = produced;
        err = callback_ok;
        response = no_response;
      })

  -- zz_decode, in a buffer at address `buffer`; `times` is kafka_msgs_last_warning. The code skips
  -- kafka_message_array_produce for an empty array, on which it does nothing.
  pub zz_decode : ℕ → Bytes → List Pair → Option (List ℕ) → JsonSession H → Run (Decoded H)
  unfolding decode_answer other_method
  zz_decode buffer chunk props times session =
      if other_method props
      then ret (record {
        session = session;
        produced = nothing_produced times;
        err = http_method_not_allowed;
        response = no_response;
      })
      else (do
        processed ←
            process_json_buffer env buffer chunk (record session { kafka_msgs = msg_array_init })
        let count = kafka_message_array_size processed.0.kafka_msgs
        produced ← kafka_message_array_produce produce_batch now sched processed.0.kafka_msgs times
        decode_answer (record processed.0 { kafka_msgs = msg_array_init }) processed.1 count
            produced)
