-- ===== src/Decoder/Dumb.antt =====
-- src/decoder/dumb/dumb.c: the decoder that sends what it receives to the default topic.
--
-- `new_rkt` is whether new_rkt_global_config gives the default topic, `produce` is rd_kafka_produce with
-- rd_kafka_last_error, and `err2str` is rd_kafka_err2str. `response` is what the two response pointers point to,
-- none for NULL ones, through which a write is a fault.
mod Tests
use n2kafka.Prelude.{
  ℕ, ◌≡◌, ◌↔◌, refl, ap, ◌∙◌, Option-cases, Bool-cases, ◌⊎◌, inl, inr, arith, Bool, true, false,
  Option, none, some, Bytes, codes, length, if◌then◌else◌,
}
use n2kafka.Util.MsgArray.{RespErr}
use n2kafka.Decoder.Api.{DecoderErr}
use n2kafka.Listener.Api.{Response, no_response, Reply}
use n2kafka.Prelude.Run.{Run, ret, fault, ◌>>=◌}

-- The last switch of dumb_decode.
pub kafka_error2decoder : RespErr → DecoderErr
kafka_error2decoder RespErr.no_error = DecoderErr.callback_ok
kafka_error2decoder RespErr.queue_full = DecoderErr.buffer_full
kafka_error2decoder RespErr.msg_size_too_large = DecoderErr.unknown_topic
kafka_error2decoder RespErr.unknown_partition = DecoderErr.unknown_partition
kafka_error2decoder RespErr.unknown_topic = DecoderErr.msg_too_large
kafka_error2decoder (RespErr.other_error n) = DecoderErr.generic_error

other_error_lem :
    (e : RespErr) → (e ≡ RespErr.no_error → ⊥) → kafka_error2decoder e ≡ DecoderErr.callback_ok → ⊥
unfolding kafka_error2decoder
other_error_lem RespErr.no_error h g = h refl
other_error_lem RespErr.queue_full h g = cc
other_error_lem RespErr.msg_size_too_large h g = cc
other_error_lem RespErr.unknown_partition h g = cc
other_error_lem RespErr.unknown_topic h g = cc
other_error_lem (RespErr.other_error n) h g = cc

-- A message that is too large becomes "unknown topic", and an unknown topic "message too large".
pub kafka_error2decoder-swapped :
    (kafka_error2decoder RespErr.msg_size_too_large ≡ DecoderErr.unknown_topic)
    × (kafka_error2decoder RespErr.unknown_topic ≡ DecoderErr.msg_too_large)
unfolding kafka_error2decoder
kafka_error2decoder-swapped = (refl, refl)

module _ (S : Type 0) {W : Type 0} (new_rkt : Bool) (produce : W → Bytes → W × Option RespErr)
    (err2str : RespErr → Bytes) where
  -- *response and *response_size
  abbrev write_response : Option Response → Bytes → Run Response
  write_response none text = fault
  write_response (some response) text = ret (record { str = some text; size = length text })

  abbrev kept_response : Option Response → Response
  kept_response none = no_response
  kept_response (some response) = response

  pub dumb_decode : W → Bytes → Option Response → Run (Reply W S)
  unfolding kafka_error2decoder
  dumb_decode w buffer response =
      let null_rkt_err = codes "No topic specified in config file" in
      let (w', failed) = produce w buffer in
      if new_rkt
      then elim failed [
        | none ↦ ret (record {
          world = w';
          session = none;
          err = kafka_error2decoder RespErr.no_error;
          response = kept_response response;
        })
        | some error ↦ (do
          written ← write_response response (err2str error)
          ret (record {
            world = w';
            session = none;
            err = kafka_error2decoder error;
            response = written;
          }))
      ]
      else (do
        written ← write_response response null_rkt_err
        ret (record {
          world = w;
          session = none;
          err = DecoderErr.unknown_topic;
          response = written;
        }))

  -- Called with NULL response pointers, as the HTTP listener does at the end of a POST, the decoder comes to its end
  -- exactly if there is a default topic and Kafka takes the buffer, which it is given whole: a message that is not
  -- produced ends in a write through NULL. With response pointers it always returns, and what it returns is
  -- DECODER_CALLBACK_OK exactly in the same case, Kafka's errors being others than "no error".
  pub dumb_decode-taken :
      (w : W) (buffer : Bytes) (response : Response)
      → ((produce w buffer).1 ≡ some RespErr.no_error → ⊥)
      → ((dumb_decode w buffer none ≡ fault)
          ↔ ((new_rkt ≡ false) ⊎ ((e : RespErr) × ((produce w buffer).1 ≡ some e))))
        × ((reply : Reply W S) × (dumb_decode w buffer (some response) ≡ ret reply)
            × ((reply.err ≡ DecoderErr.callback_ok)
                ↔ ((new_rkt ≡ true) × ((produce w buffer).1 ≡ none)))
            × (new_rkt ≡ true → reply.world ≡ (produce w buffer).0))
  unfolding dumb_decode
  dumb_decode-taken w buffer response sound = elim (Bool-cases new_rkt) [
    | inr no_topic ↦ (
      ((λ h. inl no_topic), λ h. rw (dumb_decode, no_topic) refl),
      (
        record {
          world = w;
          session = none;
          err = DecoderErr.unknown_topic;
          response = record {
            str = some (codes "No topic specified in config file");
            size = length (codes "No topic specified in config file");
          };
        },
        rw (dumb_decode, no_topic) refl,
        ((λ h. cc), λ h. absurd (cc (h.0))),
        λ h. cc,
      ),
    )
    | inl topic ↦ elim (Option-cases (produce w buffer).1) [
      | inl taken ↦ (
        (
          (λ h. absurd (cc (rw (dumb_decode, topic, taken) at h))),
          λ h. absurd (not_taken h topic taken),
        ),
        (
          record {
            world = (produce w buffer).0;
            session = none;
            err = DecoderErr.callback_ok;
            response = response;
          },
          rw (dumb_decode, topic, taken, kafka_error2decoder) refl,
          ((λ h. (topic, taken)), λ h. refl),
          λ h. refl,
        ),
      )
      | inr (error, failed) ↦ (
        ((λ h. inr (error, failed)), λ h. rw (dumb_decode, topic, failed) refl),
        (
          record {
            world = (produce w buffer).0;
            session = none;
            err = kafka_error2decoder error;
            response = record { str = some (err2str error); size = length (err2str error) };
          },
          rw (dumb_decode, topic, failed) refl,
          ((λ h. absurd (other_error_lem error (λ e. sound (failed ∙ ap some e)) h)), λ h. cc),
          λ h. refl,
        ),
      )
    ]
  ]
    where
      not_taken :
          (new_rkt ≡ false) ⊎ ((e : RespErr) × ((produce w buffer).1 ≡ some e))
          → new_rkt ≡ true
          → (produce w buffer).1 ≡ none
          → ⊥
      not_taken (inl no_topic) topic taken = cc
      not_taken (inr (e, failed)) topic taken = cc
