-- ===== src/Util/MsgArray/Tests.antt =====
-- Runs of the message array, and the theorems at them.
use n2kafka.Prelude.{
  ℕ, ◌+◌, ◌≡◌, refl, Bool, true, false, some, List, [], ◌∷◌, map, arith, length, All, inl, inr,
}
use n2kafka.Util.MsgArray.{
  kafka_error_to_warning_time_pos, no_error, queue_full, Msg, Internal, header, message, MsgArray,
  msg_array_init, kafka_msg_array_add, kafka_message_array_produce,
}
use n2kafka.Util.MsgArray.Add.{Added, empty, kafka_msg_array_add-Added}
use n2kafka.Util.MsgArray.Produce.{
  fails, IsKnown, BatchLaw, IsShared, Finishes, marked, kafka_message_array_produce-Finishes,
}

abbrev always : ℕ → Bool
always n = true

abbrev test_msg : Msg
test_msg = record { payload = 1000; len = 2; err = no_error; private = false }

kafka_msg_array_add-Added_example :
    Added 32 64 always msg_array_init [] test_msg
      (kafka_msg_array_add always 32 64 msg_array_init test_msg)
kafka_msg_array_add-Added_example =
    kafka_msg_array_add-Added always 32 64 (omega arith) (omega arith) (omega arith) msg_array_init
      [] test_msg (empty refl refl) (omega arith)

-- librdkafka with a full queue: it takes the first message of a batch and refuses the others.
abbrev refuse : Msg → Msg
refuse m = record m { err = queue_full }

abbrev first_only : List Msg → ℕ × List Msg
first_only [] = (0, [])
first_only (m ∷ ms) = (1, record m { err = no_error } ∷ map refuse ms)

fails-refuse : (ms : List Msg) → fails (map refuse ms) ≡ length ms
fails-refuse [] = refl
fails-refuse (m ∷ ms) = omega (arith, fails-refuse ms)

IsKnown-refuse : (ms : List Msg) → All IsKnown (map refuse ms)
IsKnown-refuse [] = tt
IsKnown-refuse (m ∷ ms) =
    (inr (unfold kafka_error_to_warning_time_pos in omega arith), IsKnown-refuse ms)

first_only-law : BatchLaw first_only
first_only-law = record { counts = counts; known = known }
  where
    counts : (ms : List Msg) → (first_only ms).0 + fails (first_only ms).1 ≡ length ms
    counts [] = refl
    counts (m ∷ ms) = omega (arith, fails-refuse ms)

    known : (ms : List Msg) → All IsKnown (first_only ms).1
    known [] = tt
    known (m ∷ ms) = (inl refl, IsKnown-refuse ms)

abbrev shared_internal : Internal
shared_internal = record { payload_buffer = some 1000; count = 2 }

abbrev shared_array : MsgArray
shared_array = record {
  str = record { cap = 4096; bytes = 0 ∷ [] };
  items = header shared_internal ∷ message test_msg ∷ message test_msg ∷ [];
}

shared_array-IsShared : IsShared shared_array shared_internal 1000
shared_array-IsShared = record {
  stored = λ h. absurd (omega (arith, h));
  head = refl;
  shared = refl;
  counted = refl;
  some_message = omega arith;
}

-- One message is taken, and its delivery report comes before the loop's first round.
kafka_message_array_produce-Finishes_example :
    Finishes
      (marked shared_array)
      2
      1
      1
      (kafka_message_array_produce first_only 9 (1 ∷ []) shared_array (some (0 ∷ 0 ∷ 0 ∷ 0 ∷ [])))
kafka_message_array_produce-Finishes_example =
    kafka_message_array_produce-Finishes first_only first_only-law 9 (1 ∷ []) shared_array
      shared_internal 1000 (some (0 ∷ 0 ∷ 0 ∷ 0 ∷ [])) shared_array-IsShared (omega arith) refl
