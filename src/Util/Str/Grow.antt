-- ===== src/Util/Str/Grow.antt =====
-- string_grow and string_append: the allocation computed from the size never exceeds the real one.
use native.Mathlib.Nat.{le_trans}
use n2kafka.Prelude.{
  ℕ, ◌+◌, ◌≤◌, ◌<◌, ◌≡◌, refl, ap, inl, inr, Bool, true, false, arith, length, ◌++◌, length-append,
  length-zero, append-nil, [], Bytes, Bool-cases, if◌then◌else◌, le→ltb-false, ltb, ltb→lt,
  ltb-false→le,
}
use n2kafka.Prelude.Int.{ℤ, pos, minus_one}
use n2kafka.Util.Str.{
  Str, string_init, string_size, string_min_size, smax, size_add, size_add, next_pow2,
  string_allocated, string_grow, string_append,
}
use n2kafka.Util.Str.Pow2.{
  max_size, next_pow2-bounds, next_pow2_pos, next_pow2_mono, next_pow2_least, next_pow2_min_size,
}

-- The content and the recomputed allocation lie within the real one, which is 0 for a NULL buffer
-- and no less than the minimum otherwise.
pub record IsWf (s : Str) : Type 0 where
  pub fits : string_size s ≤ s.cap
  pub covered : string_allocated s ≤ s.cap
  pub floor : 0 < s.cap → string_min_size ≤ s.cap

pub IsWf-init : IsWf string_init
unfolding string_allocated
IsWf-init = omega arith

-- What string_grow may come to, for `n` bytes in all.
pub data Grown (realloc : ℕ → Bool) (s : Str) (n : ℕ) (r : Str × ℕ) : Type 0 where
  enough : r ≡ (s, string_allocated s) → next_pow2 n ≤ string_allocated s → Grown realloc s n r
  refused :
      r ≡ (s, string_allocated s)
      → string_allocated s < next_pow2 n
      → realloc (smax (next_pow2 n) string_min_size) ≡ false
      → Grown realloc s n r
  moved :
      r ≡ (
        record s { cap = smax (next_pow2 n) string_min_size },
        smax (next_pow2 n) string_min_size,
      )
      → string_allocated s < next_pow2 n
      → realloc (smax (next_pow2 n) string_min_size) ≡ true
      → Grown realloc s n r

pub size_add_lem : (a b : ℕ) → a + b ≤ max_size → size_add a b ≡ a + b
size_add_lem a b h = omega arith

module _ (realloc : ℕ → Bool) where
  pub string_grow-Grown :
      (s : Str) (delta : ℕ)
      → Grown realloc s (size_add (string_size s) delta) (string_grow realloc s delta)
  unfolding string_grow
  string_grow-Grown s delta =
      let n = size_add (string_size s) delta in
      elim (Bool-cases (ltb (string_allocated s) (next_pow2 n))) [
        | inr big ↦ enough (rw big) (ltb-false→le _ _ big)
        | inl small ↦ elim (Bool-cases (realloc (smax (next_pow2 n) string_min_size))) [
          | inr no_room ↦ refused (rw (small, no_room)) (ltb→lt _ _ small) no_room
          | inl given ↦ moved (rw (small, given)) (ltb→lt _ _ small) given
        ]
      ]

  Grown-IsWf :
      (s : Str) (n : ℕ) (r : Str × ℕ)
      → IsWf s
      → string_size s ≤ n
      → n ≤ max_size
      → Grown realloc s n r
      → IsWf r.0
  unfolding string_allocated
  Grown-IsWf s n r wf le hi (enough e _) = rw e wf
  Grown-IsWf s n r wf le hi (refused e _ _) = rw e wf
  Grown-IsWf s n r wf le hi (moved e lt _) =
      rw e (ground (arith, next_pow2-bounds n hi, next_pow2_mono (string_size s) n le hi))

-- string_append with the result of string_grow at hand.
abbrev append_grown : Str × ℕ → Str → Bytes → Str × ℤ
append_grown (s', new_size) s chunk =
    if ltb new_size (size_add (string_size s) (length chunk))
    then (s', minus_one)
    else (record s' { bytes = s'.bytes ++ chunk }, pos 0)

-- Either the bytes are appended, or realloc refused and nothing changed.
pub data Appended (realloc : ℕ → Bool) (s : Str) (chunk : Bytes) (r : Str × ℤ) : Type 0 where
  appended : r.1 ≡ pos 0 → r.0.bytes ≡ s.bytes ++ chunk → IsWf r.0 → Appended realloc s chunk r
  not_appended :
      r ≡ (s, minus_one)
      → (n : ℕ) → realloc n ≡ false
      → string_size s + length chunk ≤ n
      → Appended realloc s chunk r

-- Appending within the allocation keeps a string well-formed.
pub append-IsWf :
    (s : Str) (chunk : Bytes)
    → (0 < s.cap → string_min_size ≤ s.cap)
    → string_size s + length chunk ≤ s.cap
    → next_pow2 (string_size s + length chunk) ≤ s.cap
    → 0 < s.cap
    → IsWf (record s { bytes = s.bytes ++ chunk })
unfolding string_allocated
append-IsWf s chunk least fits covered real =
    ground (arith, length-append s.bytes chunk, ap next_pow2 (length-append s.bytes chunk))

module _ (realloc : ℕ → Bool) (s : Str) (chunk : Bytes) (wf : IsWf s)
    (hi : string_size s + length chunk ≤ max_size) where
  enough-Appended :
      next_pow2 (string_size s + length chunk) ≤ string_allocated s
      → Appended realloc s chunk (append_grown (s, string_allocated s) s chunk)
  enough-Appended le =
      let b = next_pow2-bounds (string_size s + length chunk) hi in
      let positive = next_pow2_pos (string_size s + length chunk) hi in
      let c = wf.covered in
      rw (size_add_lem (string_size s) (length chunk) hi, le→ltb-false _ _ (le_trans b.0 le))
        (appended refl refl
          (append-IsWf s chunk wf.floor (omega arith) (omega arith) (omega arith)))

  -- Where the allocation is too small for the next power of two, it is too small for the content.
  too_small :
      string_allocated s < next_pow2 (string_size s + length chunk)
      → 0 < s.cap
      → string_allocated s < string_size s + length chunk
  unfolding string_allocated
  too_small lt real = ground (
    arith,
    next_pow2_mono (string_size s + length chunk) string_min_size,
    next_pow2_min_size,
    next_pow2_least (string_size s) (string_size s + length chunk),
  )

  empty-chunk :
      string_allocated s < next_pow2 (string_size s + length chunk)
      → string_size s + length chunk ≤ string_allocated s
      → chunk ≡ []
  unfolding string_allocated
  empty-chunk lt le = length-zero chunk (ground (arith, too_small lt))

  refused-Appended :
      string_allocated s < next_pow2 (string_size s + length chunk)
      → realloc (smax (next_pow2 (string_size s + length chunk)) string_min_size) ≡ false
      → Appended realloc s chunk (append_grown (s, string_allocated s) s chunk)
  refused-Appended lt no_room =
      let b = next_pow2-bounds (string_size s + length chunk) hi in
      elim (Bool-cases (ltb (string_allocated s) (string_size s + length chunk))) [
        | inl small ↦
            rw (size_add_lem (string_size s) (length chunk) hi, small)
              (not_appended refl _ no_room (ground arith))
        | inr fits ↦
            let empty = empty-chunk lt (ltb-false→le _ _ fits) in
            rw (size_add_lem (string_size s) (length chunk) hi, fits)
              (appended refl refl (rw (empty, append-nil) wf))
      ]

  moved-Appended :
      (m : ℕ)
      → next_pow2 (string_size s + length chunk) ≤ m
      → string_min_size ≤ m
      → Appended realloc s chunk (append_grown (record s { cap = m }, m) s chunk)
  moved-Appended m le least =
      let b = next_pow2-bounds (string_size s + length chunk) hi in
      rw (size_add_lem (string_size s) (length chunk) hi, le→ltb-false _ _ (le_trans b.0 le))
        (appended refl refl
          (append-IsWf (record s { cap = m }) chunk (λ _. least) (omega arith) le (omega arith)))

module _ (realloc : ℕ → Bool) where
  append_grown-Appended :
      (s : Str) (chunk : Bytes) (g : Str × ℕ)
      → IsWf s
      → string_size s + length chunk ≤ max_size
      → Grown realloc s (string_size s + length chunk) g
      → Appended realloc s chunk (append_grown g s chunk)
  append_grown-Appended s chunk g wf hi (enough e le) =
      rw e (enough-Appended realloc s chunk wf hi le)
  append_grown-Appended s chunk g wf hi (refused e lt no_room) =
      rw e (refused-Appended realloc s chunk wf hi lt no_room)
  append_grown-Appended s chunk g wf hi (moved e lt given) =
      rw e (moved-Appended realloc s chunk wf hi _ (ground arith) (ground arith))

  -- string_append appends all its bytes and keeps the string within its allocation, or it changes
  -- nothing and returns -1, and then realloc has refused a request of at least the new size.
  pub string_append-Appended :
      (s : Str) (chunk : Bytes)
      → IsWf s
      → string_size s + length chunk ≤ max_size
      → Appended realloc s chunk (string_append realloc s chunk)
  unfolding string_append
  string_append-Appended s chunk wf hi =
      append_grown-Appended s chunk (string_grow realloc s (length chunk)) wf hi (
        rw (size_add_lem (string_size s) (length chunk) hi) at
          (string_grow-Grown realloc s (length chunk)))

-- Up to the minimum size an append to an allocated string asks realloc for nothing.
pub string_append_small :
    (realloc : ℕ → Bool) (s : Str) (chunk : Bytes)
    → 0 < s.cap
    → string_size s < string_min_size
    → string_size s + length chunk ≤ string_min_size
    → string_append realloc s chunk ≡ (record s { bytes = s.bytes ++ chunk }, pos 0)
unfolding string_append string_grow string_allocated
string_append_small realloc s chunk real small fits =
    let mono = next_pow2_mono (string_size s + length chunk) string_min_size fits (omega arith) in
    rw (size_add_lem (string_size s) (length chunk) (omega arith))
      (ground (arith, mono, next_pow2_min_size))

pub string_append_small-IsWf :
    (s : Str) (chunk : Bytes)
    → IsWf s
    → 0 < s.cap
    → string_size s + length chunk ≤ string_min_size
    → IsWf (record s { bytes = s.bytes ++ chunk })
string_append_small-IsWf s chunk wf real fits =
    let least = wf.floor real in
    let mono = next_pow2_mono (string_size s + length chunk) string_min_size fits (omega arith) in
    append-IsWf s chunk wf.floor (omega arith) (omega (arith, mono, next_pow2_min_size)) real
