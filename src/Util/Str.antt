-- ===== src/Util/Str.antt =====
-- src/util/string.c and string.h: a byte string that grows in powers of two. The size of the
-- allocation is not stored but computed again from the size of the content.
--
-- `Str` is struct string: `cap` is what the last realloc gave to `buf`, 0 for a NULL buf, and `bytes`
-- the first `size` bytes. `realloc n` says whether a realloc to `n` bytes succeeds.
-- size_t arithmetic wraps at 2 ^ 64; `1u << k` is an unsigned int, so it wraps at 2 ^ 32.
pub mod Pow2
pub mod Grow
pub mod Printf
pub mod Pop
pub mod Escape
mod Tests
use n2kafka.Prelude.{
  ℕ, zero, suc, ◌+◌, ◌-◌, ◌*◌, ◌/◌, ◌%◌, ◌^◌, Bool, true, false, not, ◌&&◌, ◌||◌, List, [], ◌∷◌,
  ◌++◌, ltb, leb, ◌==◌, if◌then◌else◌, length, take, drop, Bytes, codes,
}
use n2kafka.Prelude.Int.{ℤ, pos, minus_one, is_zero, is_positive, is_negative}
use n2kafka.Prelude.Run.{Run, ret, fault, running, ◌>>=◌}

pub record Str : Type 0 where
  pub cap : ℕ
  pub bytes : Bytes

-- string_init, N2K_STRING_INITIALIZER
abbrev pub string_init : Str
string_init = record { cap = 0; bytes = [] }

-- string_done
abbrev pub string_done : Str → Str
string_done s = string_init

-- string_size
abbrev pub string_size : Str → ℕ
string_size s = length s.bytes

abbrev pub string_min_size : ℕ
string_min_size = 4096

abbrev pub size_add : ℕ → ℕ → ℕ
size_add a b = (a + b) % 2 ^ 64

-- The number of binary digits of `n`, counted up to `fuel` digits.
pub bit_length : ℕ → ℕ → ℕ
bit_length zero n = 0
bit_length (suc fuel) n = let rest = bit_length fuel (n / 2) in if n == 0 then 0 else rest + 1

-- __builtin_clzl, on 64 bits.
pub clzl : ℕ → ℕ
clzl x = 64 - bit_length 64 x

-- 1u << k
pub shift_one : ℕ → ℕ
shift_one k = 2 ^ k % 2 ^ 32

pub next_pow2 : ℕ → ℕ
next_pow2 x = if not (x == 0) && not (x - 1 == 0) then shift_one (64 - clzl (x - 1)) else 1

pub string_allocated : Str → ℕ
string_allocated s =
    if s.cap == 0
    then 0
    else if ltb (string_size s) string_min_size
    then string_min_size
    else next_pow2 (string_size s)

abbrev pub smax : ℕ → ℕ → ℕ
smax a b = if ltb b a then a else b

module _ (realloc : ℕ → Bool) where
  pub string_grow : Str → ℕ → Str × ℕ
  string_grow s delta =
      let new_allocated_size = next_pow2 (size_add (string_size s) delta) in
      let new_allocated = smax new_allocated_size string_min_size in
      if not (ltb (string_allocated s) new_allocated_size)
      then (s, string_allocated s)
      else if not (realloc new_allocated)
      then (s, string_allocated s)
      else (record s { cap = new_allocated }, new_allocated)

  pub string_append : Str → Bytes → Str × ℤ
  string_append s chunk =
      let (s', new_size) = string_grow s (length chunk) in
      if ltb new_size (size_add (string_size s) (length chunk))
      then (s', minus_one)
      else (record s' { bytes = s'.bytes ++ chunk }, pos 0)

  -- `text` is what vsnprintf renders for the format and its arguments. The -1 branch stores a '\0' at
  -- index `initial_len`.
  printf_loop : ℕ → ℕ → Str → Bytes → Run (Str × ℤ)
  printf_loop zero initial_len s text = running
  printf_loop (suc fuel) initial_len s text =
      let printf_rc = length text in
      let grown = string_grow s (size_add initial_len printf_rc) in
      let again = printf_loop fuel initial_len grown.0 text in
      if ltb (size_add printf_rc 1) (string_allocated s - string_size s)
      then ret (record s { bytes = s.bytes ++ text }, pos printf_rc)
      else if grown.1 == initial_len
      then (if ltb initial_len grown.0.cap then ret (grown.0, minus_one) else fault)
      else again

  pub string_printf : ℕ → Str → Bytes → Run (Str × ℤ)
  unfolding printf_loop
  string_printf fuel s text = printf_loop fuel (string_size s) s text

  -- string_append_string: `text` stops at its first '\0'.
  pub string_append_string : Str → Bytes → Str × ℤ
  string_append_string s text = string_append s text

-- string_pop_back: both asserts, then one byte less.
drop_last : Bytes → Bytes
drop_last [] = []
drop_last (x ∷ []) = []
drop_last (x ∷ y ∷ ys) = x ∷ drop_last (y ∷ ys)

pub string_pop_back : Str → Run Str
unfolding drop_last
string_pop_back s =
    if s.cap == 0 || string_size s == 0 then fault else ret (record s { bytes = drop_last s.bytes })
