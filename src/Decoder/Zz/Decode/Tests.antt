-- ===== src/Decoder/Zz/Decode/Tests.antt =====
-- A POST of the object `{}`, and the theorem at it.
use n2kafka.Prelude.{
  ℕ, map, length, All, inl, ◌≡◌, refl, false, equal, some, List, [], ◌∷◌, arith, codes,
}
use n2kafka.Util.MsgArray.{Msg, no_error}
use n2kafka.Util.MsgArray.Produce.{fails, IsKnown, BatchLaw}
use n2kafka.Util.Pair.{Pair}
use n2kafka.Decoder.Zz.Decode.{other_method, zz_decode}
use n2kafka.Decoder.Zz.Decode.Batch.{Answered, zz_decode-Answered}
use n2kafka.Decoder.Zz.Json.Spec.{split_from}
use n2kafka.Decoder.Zz.Json.Sample.{
  braces, two_braces, test_env, test_env-Provides, new_session, nothing_read, new_session-Between,
}

-- librdkafka with room for every message.
abbrev take_msg : Msg → Msg
take_msg m = record m { err = no_error }

abbrev take_all : List Msg → ℕ × List Msg
take_all ms = (length ms, map take_msg ms)

fails-take : (ms : List Msg) → fails (map take_msg ms) ≡ 0
fails-take [] = refl
fails-take (m ∷ ms) = omega (arith, fails-take ms)

IsKnown-take : (ms : List Msg) → All IsKnown (map take_msg ms)
IsKnown-take [] = tt
IsKnown-take (m ∷ ms) = (inl refl, IsKnown-take ms)

take_all-law : BatchLaw take_all
take_all-law = record { counts = λ ms. omega (arith, fails-take ms); known = IsKnown-take }

abbrev post : List Pair
post = record { key = codes "D-HTTP-method"; value = some (codes "POST") } ∷ []

post_is_post : other_method post ≡ false
unfolding other_method equal
post_is_post = refl

zz_decode-Answered_example :
    Answered 1000 braces (split_from braces 0 two_braces nothing_read) (
      zz_decode test_env take_all 9 [] 100 1000 braces post (some (0 ∷ 0 ∷ 0 ∷ 0 ∷ [])) new_session)
zz_decode-Answered_example =
    zz_decode-Answered test_env test_env-Provides take_all take_all-law 9 100 1000 braces post
      (some (0 ∷ 0 ∷ 0 ∷ 0 ∷ [])) [] new_session nothing_read 0 two_braces post_is_post
      (omega arith) new_session-Between refl refl
      (omega arith, omega arith, (omega arith, omega arith, omega arith, omega arith)) (omega arith)
      (omega arith) (omega arith) refl (λ r e. omega arith)
