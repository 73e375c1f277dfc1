-- ===== src/Decoder/Dumb/Tests.antt =====
-- The theorems on the dumb decoder at a Kafka that refuses what is longer than two bytes.
use n2kafka.Prelude.{
  ℕ, ◌≡◌, ◌↔◌, ◌⊎◌, true, false, Option, none, some, ltb, length, if◌then◌else◌, Bytes, codes,
}
use n2kafka.Util.MsgArray.{RespErr}
use n2kafka.Prelude.Run.{ret, fault}
use n2kafka.Decoder.Api.{DecoderErr}
use n2kafka.Listener.Api.{no_response, Reply}
use n2kafka.Decoder.Dumb.{dumb_decode, dumb_decode-taken}

abbrev small_only : ℕ → Bytes → ℕ × Option RespErr
small_only w b = (w, if ltb 2 (length b) then some RespErr.msg_size_too_large else none)

abbrev err2str : RespErr → Bytes
err2str e = codes "refused"

dumb_decode-taken_example :
    ((dumb_decode ℕ true small_only err2str 0 (codes "abc") none ≡ fault)
      ↔ ((true ≡ false) ⊎ ((e : RespErr) × ((small_only 0 (codes "abc")).1 ≡ some e))))
    × ((reply : Reply ℕ ℕ) × (dumb_decode ℕ true small_only err2str 0
            (codes "abc")
            (some no_response)
          ≡ ret reply)
        × ((reply.err ≡ DecoderErr.callback_ok)
            ↔ ((true ≡ true) × ((small_only 0 (codes "abc")).1 ≡ none)))
        × (true ≡ true → reply.world ≡ (small_only 0 (codes "abc")).0))
dumb_decode-taken_example =
    dumb_decode-taken ℕ true small_only err2str 0 (codes "abc") no_response (λ h. cc)
