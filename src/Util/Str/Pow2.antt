-- ===== src/Util/Str/Pow2.antt =====
-- next_pow2: the least power of two that is no less than its argument.
use native.Mathlib.Nat.{pow-suc, pow-le-pow_right}
use native.Mathlib.Numerals.{add-one}
use n2kafka.Prelude.{
  ℕ, zero, suc, ◌-◌, ◌*◌, ◌/◌, ◌^◌, ◌≤◌, ◌<◌, ◌≡◌, refl, ap, inl, inr, ◌==◌, arith, Bool-cases,
}
use n2kafka.Util.Str.{string_min_size, bit_length, clzl, shift_one, next_pow2}

-- The largest size at which `1u << k` still fits an unsigned int.
abbrev pub max_size : ℕ
max_size = 2_147_483_648

bit_length-le : (f n : ℕ) → bit_length f n ≤ f
unfolding bit_length
bit_length-le zero n = omega arith
bit_length-le (suc f) n = ground (arith, bit_length-le f (n / 2))

-- `2 ^ bit_length n` is the least power of two above `n`.
bit_length-zero : (f : ℕ) → bit_length f 0 ≡ 0
unfolding bit_length
bit_length-zero zero = refl
bit_length-zero (suc f) = refl

bit_length-bounds :
    (f n : ℕ) → n < 2 ^ f → (n < 2 ^ bit_length f n) × (0 < n → 2 ^ bit_length f n ≤ 2 * n)
unfolding bit_length
bit_length-bounds zero n h = ground arith
bit_length-bounds (suc f) n h = elim (Bool-cases (n == 0)) [
  | inl done ↦ rw done (ground arith)
  | inr more ↦
      let halved : n / 2 < 2 ^ f = omega (arith, pow-suc 2 f) in
      let ih = bit_length-bounds f (n / 2) halved in
      rw (more, add-one, pow-suc)
        (omega arith, λ p. ground (arith, ih, bit_length-zero f, ap (λ (k : ℕ). bit_length f k)))
]

bit_length_mono : (f m n : ℕ) → m ≤ n → bit_length f m ≤ bit_length f n
unfolding bit_length
bit_length_mono zero m n h = omega arith
bit_length_mono (suc f) m n h = ground (arith, bit_length_mono f (m / 2) (n / 2))

clzl-complement : (x : ℕ) → 64 - clzl x ≡ bit_length 64 x
unfolding clzl
clzl-complement x = omega (arith, bit_length-le 64 x)

next_pow2_lem : (x : ℕ) → 2 ≤ x → x ≤ max_size → next_pow2 x ≡ 2 ^ bit_length 64 (x - 1)
unfolding next_pow2 shift_one
next_pow2_lem x lo hi =
    rw (clzl-complement (x - 1)) (ground (arith, bit_length-bounds 64 (x - 1) (omega arith)))

-- Up to 2 ^ 31, next_pow2 is at least its argument, and at most twice a positive one.
pub next_pow2-bounds : (x : ℕ) → x ≤ max_size → (x ≤ next_pow2 x) × (0 < x → next_pow2 x ≤ 2 * x)
next_pow2-bounds zero h = unfold next_pow2 in omega arith
next_pow2-bounds (suc zero) h = unfold next_pow2 in omega arith
next_pow2-bounds (suc (suc x)) h =
    let b = bit_length-bounds 64 (suc (suc x) - 1) (omega arith) in
    rw (next_pow2_lem (suc (suc x)) (omega arith) h)
      (omega (arith, b.0), λ p. omega (arith, b.1 (omega arith)))

pub next_pow2_pos : (n : ℕ) → n ≤ max_size → 1 ≤ next_pow2 n
next_pow2_pos zero h = unfold next_pow2 in omega arith
next_pow2_pos (suc n) h = omega (arith, (next_pow2-bounds (suc n) h).0)

pub next_pow2_mono : (m n : ℕ) → m ≤ n → n ≤ max_size → next_pow2 m ≤ next_pow2 n
next_pow2_mono zero n h hi = unfold next_pow2 in omega (arith, next_pow2_pos n hi)
next_pow2_mono (suc zero) n h hi = unfold next_pow2 in omega (arith, next_pow2_pos n hi)
next_pow2_mono (suc (suc m)) n h hi =
    rw (next_pow2_lem (suc (suc m)) (omega arith) (omega arith), next_pow2_lem n (omega arith) hi)
      (pow-le-pow_right (omega arith) (bit_length_mono 64 (suc (suc m) - 1) (n - 1) (omega arith)))

bit_length_least : (f k n : ℕ) → n < 2 ^ k → bit_length f n ≤ k
unfolding bit_length
bit_length_least zero k n h = omega arith
bit_length_least (suc f) zero n h = ground arith
bit_length_least (suc f) (suc k) n h =
    let halved : n / 2 < 2 ^ k = omega (arith, pow-suc 2 k) in
    ground (arith, bit_length_least f k (n / 2))

-- No power of two between `n` and `next_pow2 n`.
pub next_pow2_least :
    (m n : ℕ) → 2 ≤ m → m ≤ max_size → n ≤ max_size → n ≤ next_pow2 m → next_pow2 n ≤ next_pow2 m
next_pow2_least m zero lo hi hn h = unfold next_pow2 in omega (arith, next_pow2_pos m hi)
next_pow2_least m (suc zero) lo hi hn h = unfold next_pow2 in omega (arith, next_pow2_pos m hi)
next_pow2_least m (suc (suc n)) lo hi hn h =
    let e = next_pow2_lem m lo hi in
    rw (e, next_pow2_lem (suc (suc n)) (omega arith) hn)
      (pow-le-pow_right (omega arith)
        (bit_length_least 64 (bit_length 64 (m - 1)) (suc (suc n) - 1) (omega arith)))

pub next_pow2_min_size : next_pow2 string_min_size ≡ string_min_size
unfolding next_pow2 clzl shift_one bit_length
next_pow2_min_size = refl
