-- ===== src/Util/Str/Escape.antt =====
-- The JSON text writer of src/util/string.c: print_utf8 and string_append_json_string.
mod Tables
pub mod Valid
pub mod Reads
use Prim.Native.Nat.{bit_and}
use n2kafka.Prelude.{
  ℕ, zero, suc, ◌+◌, ◌-◌, ◌*◌, ◌/◌, ◌%◌, ◌^◌, Bool, true, false, not, ◌&&◌, ◌||◌, List, [], ◌∷◌,
  ◌++◌, ltb, leb, ◌==◌, if◌then◌else◌, length, take, drop, Bytes, codes,
}
use n2kafka.Prelude.Int.{ℤ, pos, minus_one, is_zero, is_positive, is_negative}
use n2kafka.Prelude.Run.{Run, ret, fault, running, ◌>>=◌}
use n2kafka.Util.Str.{Str, bit_length, string_append, string_append_string, string_printf}

-- The `%u` and `%zu` of vsnprintf: decimal digits, counted up to `fuel`.
unfoldable pub decimal_digits : ℕ → ℕ → Bytes
decimal_digits zero n = []
decimal_digits (suc fuel) n =
    let front = decimal_digits fuel (n / 10) in
    if ltb n 10 then (b'0' + n) ∷ [] else front ++ (b'0' + n % 10) ∷ []

-- A 64 bit number has 20 digits at most.
unfoldable pub decimal : ℕ → Bytes
unfolding decimal_digits
decimal n = decimal_digits 20 n

-- __builtin_clz(~((unsigned)c << 24)), on 32 bits.
pub leading_ones : ℕ → ℕ
leading_ones c = 32 - bit_length 32 (2 ^ 32 - 1 - c * 2 ^ 24 % 2 ^ 32)

-- All UTF-8 trailing bytes start with 10.
pub all_trailing : Bytes → Bool
all_trailing [] = true
all_trailing (c ∷ cs) = bit_and c 0xc0 == 0x80 && all_trailing cs

pub trailing_checked : ℕ → Bytes → ℕ
unfolding all_trailing
trailing_checked ones chunk =
    if ltb (length chunk) ones
    then 0
    else if all_trailing (drop 1 (take ones chunk))
    then ones
    else 0

pub multibyte_utf8_unicode_size : Bytes → Run ℕ
multibyte_utf8_unicode_size [] = fault
multibyte_utf8_unicode_size (c ∷ cs) =
    let ones = leading_ones c in
    ret (
      if ones == 0
      then 1
      else if ones == 2 || ones == 3 || ones == 4
      then trailing_checked ones (c ∷ cs)
      else 0)

pub first_byte : Bytes → ℕ
first_byte [] = 0
first_byte (c ∷ cs) = c

module _ (realloc : ℕ → Bool) (fuel : ℕ) where
  pub print_not_utf8_code : Str → ℕ → Run (Str × ℤ)
  print_not_utf8_code s c = string_printf realloc fuel s (codes "\\\\x" ++ decimal c)

  pub print_utf8 : Str → Bytes → Run (Str × ℤ)
  unfolding first_byte
  print_utf8 s chunk = do
    character_size ← multibyte_utf8_unicode_size chunk
    if character_size == 0
        then (do
          (s', append_rc) ← print_not_utf8_code s (first_byte chunk)
          ret (s', if is_positive append_rc then pos 1 else pos 0))
        else (let (s', append_rc) = string_append realloc s (take character_size chunk) in
            ret (s', if is_zero append_rc then pos character_size else minus_one))

  pub print_json_escaped_character : Str → ℕ → Run (Str × ℤ)
  print_json_escaped_character s c =
      if c == 0x08
      then ret (string_append_string realloc s (codes "\\b"))
      else if c == 0x0c
      then ret (string_append_string realloc s (codes "\\f"))
      else if c == b'\n'
      then ret (string_append_string realloc s (codes "\\n"))
      else if c == b'\r'
      then ret (string_append_string realloc s (codes "\\r"))
      else if c == b'\t'
      then ret (string_append_string realloc s (codes "\\t"))
      else (do
        (s', rc) ← print_not_utf8_code s c
        ret (s', if is_positive rc then pos 1 else pos 0))

-- strchr("\b\f\n\r\t", c) != NULL: strchr finds the terminating '\0' too.
pub is_escaped_control : ℕ → Bool
is_escaped_control c = c == 0x08 || c == 0x0c || c == b'\n' || c == b'\r' || c == b'\t' || c == 0

-- strchr("\"\\", c) != NULL
pub is_auto_escape : ℕ → Bool
is_auto_escape c = c == b'"' || c == b'\\' || c == 0

as_count : ℤ → ℕ
as_count (pos n) = n
as_count _ = 0

module _ (realloc : ℕ → Bool) where
  -- The loop over data[i..data_size), while rc is 0.
  pub json_string_loop : ℕ → Str → Bytes → Run (Str × ℤ)
  unfolding as_count is_escaped_control is_auto_escape
  json_string_loop zero s chunk = running
  json_string_loop (suc fuel) s [] = ret (s, pos 0)
  json_string_loop (suc fuel) s (c ∷ cs) =
      let after_control : Run (Str × ℤ) = (do
        (s', rc) ← print_json_escaped_character realloc fuel s c
        elim (is_zero rc) [ true ↦ json_string_loop fuel s' cs | false ↦ ret (s', pos 1) ]) in
      let after_escape : Run (Str × ℤ) =
        (let (s', rc) = string_append_string realloc s (codes "\\") in
          let (s'', rc') = string_append realloc s' (c ∷ []) in
          let rest = json_string_loop fuel s'' cs in
          if not (is_zero rc)
          then ret (s', pos 1)
          else if not (is_zero rc')
          then ret (s'', pos 1)
          else rest) in
      let after_utf8 : Run (Str × ℤ) = (do
        (s', consumed) ← print_utf8 realloc fuel s (c ∷ cs)
        elim (is_negative consumed) [
          | true ↦ ret (s', pos 1)
          | false ↦ json_string_loop fuel s' (drop (as_count consumed) (c ∷ cs))
        ]) in
      if is_escaped_control c
      then after_control
      else if is_auto_escape c
      then after_escape
      else after_utf8

  pub string_append_json_string : ℕ → Str → Bytes → Run (Str × ℤ)
  unfolding json_string_loop
  string_append_json_string fuel s chunk = json_string_loop fuel s chunk
