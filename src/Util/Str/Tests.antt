-- ===== src/Util/Str/Tests.antt =====
-- Runs of the string functions, and the theorems at them.
use n2kafka.Prelude.{inl, ℕ, ◌+◌, ◌≡◌, refl, Bool, true, false, arith, codes, ltb, if◌then◌else◌}
use n2kafka.Prelude.Int.{pos}
use n2kafka.Prelude.Run.{ret, running}
use n2kafka.Util.Str.{
  string_init, string_append, string_grow, string_allocated, clzl, shift_one, bit_length, next_pow2,
  string_pop_back, string_printf,
}
use n2kafka.Util.Str.Grow.{IsWf-init, Appended, string_append-Appended}
use n2kafka.Util.Str.Printf.{room, printed, string_printf_exact}
use n2kafka.Util.Str.Escape.{string_append_json_string}
use n2kafka.Util.Str.Escape.Valid.{done, one}
use n2kafka.Util.Str.Escape.Reads.{Readable, string_append_json_string-Readable}

abbrev always : ℕ → Bool
always n = true

abbrev never : ℕ → Bool
never n = false

appended_text : (string_append always string_init (codes "ab")).0.bytes ≡ codes "ab"
unfolding string_append string_grow string_allocated next_pow2 clzl shift_one bit_length
appended_text = refl

popped :
    string_pop_back (record { cap = 4096; bytes = codes "ab" })
    ≡ ret (record { cap = 4096; bytes = codes "a" })
unfolding string_pop_back
popped = refl

string_append-Appended_example :
    Appended always string_init (codes "ab") (string_append always string_init (codes "ab"))
string_append-Appended_example =
    string_append-Appended always string_init (codes "ab") IsWf-init (omega arith)

string_printf_exact_example : string_printf always 2 string_init (codes "{}") ≡ (
    if ltb (2 + 1) (room string_init)
    then ret (printed string_init (codes "{}"), pos 2)
    else running)
string_printf_exact_example =
    string_printf_exact always string_init (codes "{}") 0 (λ n. refl) IsWf-init (omega arith)

string_append_json_string-Readable_example :
    Readable string_init
      (codes "a\"b")
      (string_append_json_string always 4 string_init (codes "a\"b"))
string_append_json_string-Readable_example =
    string_append_json_string-Readable always (λ n. refl) string_init (codes "a\"b") 4
      (one _ (omega arith) (omega arith)
        (one _ (omega arith) (omega arith) (one _ (omega arith) (omega arith) done)))
      (inl (omega arith), (inl (omega arith), (inl (omega arith), tt))) (omega arith) IsWf-init
      (omega arith)
