-- ===== src/Decoder/Zz/Xml/BitLaws.antt =====
-- The vector of booleans: writing one bit is read back and leaves all the others.
use native.Mathlib.Nat.{div-div-eq-div-mul}
use n2kafka.Prelude.{
  ℕ, zero, suc, ◌*◌, ◌/◌, ◌%◌, ◌^◌, ◌≡◌, ◌<◌, ◌≤◌, refl, sym, Bool, true, false, List, [], ◌∷◌,
  some, ◌==◌, if◌then◌else◌, get_elem?, set, length, arith, ap, ◌∙◌, Bool-cases, inl, inr,
}
use n2kafka.Prelude.Run.{Run, ret}
use n2kafka.Decoder.Zz.Xml.Bits.{char_test, char_set, char_clear, bit_test, bit_set, bit_clear}

halve_test : (c k : ℕ) → char_test c (suc k) ≡ char_test (c / 2) k
unfolding char_test
halve_test c k =
    let double : 2 ^ suc k ≡ 2 * 2 ^ k = omega arith in
    rw (div-div-eq-div-mul c 2 (2 ^ k), double) refl

test_zero : (c : ℕ) → char_test c 0 ≡ (c % 2 == 1)
unfolding char_test
test_zero c = ground arith

test_le : (c k : ℕ) → char_test c k ≡ true → 2 ^ k ≤ c
unfolding char_test
test_le c zero h = ground arith
test_le c (suc k) h = let ih = test_le (c / 2) k (sym (halve_test c k) ∙ h) in omega arith

halve_set : (c k : ℕ) → char_set c (suc k) / 2 ≡ char_set (c / 2) k
unfolding char_set
halve_set c k = rw (halve_test c k) (ground arith)

parity_set : (c k : ℕ) → char_set c (suc k) % 2 ≡ c % 2
unfolding char_set
parity_set c k = ground arith

halve_clear : (c k : ℕ) → char_clear c (suc k) / 2 ≡ char_clear (c / 2) k
unfolding char_clear
halve_clear c k = rw (halve_test c k) (ground arith)

parity_clear : (c k : ℕ) → char_clear c (suc k) % 2 ≡ c % 2
unfolding char_clear
parity_clear c k = ground (arith, test_le c (suc k))

char_test-set : (c k j : ℕ) → char_test (char_set c k) j ≡ (if k == j then true else char_test c j)
char_test-set c zero zero = unfold char_set char_test in ground arith
char_test-set c zero (suc j) =
    rw (halve_test (char_set c 0) j, halve_test c j)
      (let same : char_set c 0 / 2 ≡ c / 2 = (unfold char_set char_test in ground arith) in
        rw same (ground arith))
char_test-set c (suc k) zero =
    rw (test_zero (char_set c (suc k)), test_zero c, parity_set c k) (ground arith)
char_test-set c (suc k) (suc j) =
    rw (halve_test (char_set c (suc k)) j, halve_test c j, halve_set c k, char_test-set (c / 2) k j)
      (ground arith)

char_test-clear :
    (c k j : ℕ) → char_test (char_clear c k) j ≡ (if k == j then false else char_test c j)
char_test-clear c zero zero = unfold char_clear char_test in ground arith
char_test-clear c zero (suc j) =
    rw (halve_test (char_clear c 0) j, halve_test c j)
      (let same : char_clear c 0 / 2 ≡ c / 2 = (unfold char_clear char_test in ground arith) in
        rw same (ground arith))
char_test-clear c (suc k) zero =
    rw (test_zero (char_clear c (suc k)), test_zero c, parity_clear c k) (ground arith)
char_test-clear c (suc k) (suc j) =
    rw
      (
        halve_test (char_clear c (suc k)) j,
        halve_test c j,
        halve_clear c k,
        char_test-clear (c / 2) k j,
      )
      (ground arith)

module _ {ℓ} {A : Type ℓ} where
  get-set :
      (xs : List A) (i j : ℕ) (x : A)
      → i < length xs
      → get_elem? (set xs i x) j ≡ (if i == j then some x else get_elem? xs j)
  get-set [] i j x h = absurd (omega arith)
  get-set (y ∷ ys) zero zero x h = refl
  get-set (y ∷ ys) zero (suc j) x h = ground arith
  get-set (y ∷ ys) (suc i) zero x h = ground arith
  get-set (y ∷ ys) (suc i) (suc j) x h = ground (arith, get-set ys i j x)

  length-set : (xs : List A) (i : ℕ) (x : A) → length (set xs i x) ≡ length xs
  length-set [] i x = refl
  length-set (y ∷ ys) zero x = refl
  length-set (y ∷ ys) (suc i) x = ap suc (length-set ys i x)

  get_some : (xs : List A) (i : ℕ) → i < length xs → (x : A) × (get_elem? xs i ≡ some x)
  get_some [] i h = absurd (omega arith)
  get_some (y ∷ ys) zero h = (y, refl)
  get_some (y ∷ ys) (suc i) h = get_some ys i (omega arith)

-- `after` is `before` with the bit at `position` made `value`.
pub record Written (before : List ℕ) (position : ℕ) (value : Bool) (after : List ℕ) : Type 0 where
  pub same_length : length after ≡ length before
  pub reads : (j : ℕ) → bit_test after j ≡ (if position == j then ret value else bit_test before j)

test_at :
    (v : List ℕ) (j c : ℕ) → get_elem? v (j / 8) ≡ some c → bit_test v j ≡ ret (char_test c (j % 8))
unfolding bit_test
test_at v j c e = rw (bit_test, e) refl

same_test :
    (v w : List ℕ) (j : ℕ) → get_elem? w (j / 8) ≡ get_elem? v (j / 8) → bit_test w j ≡ bit_test v j
unfolding bit_test
same_test v w j e = rw (bit_test, e) refl

-- A write of `c'` for the char of a position, where `c'` differs from the old char in that bit alone.
write_lem :
    (v : List ℕ) (i c c' : ℕ) (b : Bool)
    → get_elem? v (i / 8) ≡ some c
    → i < 8 * length v
    → ((k : ℕ) → char_test c' k ≡ (if i % 8 == k then b else char_test c k))
    → Written v i b (set v (i / 8) c')
write_lem v i c c' b at_i within differs =
    let inside : i / 8 < length v = omega arith in
    record {
      same_length = length-set v (i / 8) c';
      reads = λ j. elim (Bool-cases (i / 8 == j / 8)) [
        | inl here ↦
            let e : i / 8 ≡ j / 8 = ground arith in
            let got : get_elem? (set v (i / 8) c') (j / 8) ≡ some c' =
              rw (get-set v (i / 8) (j / 8) c' inside, here) refl in
            let was : get_elem? v (j / 8) ≡ some c = rw e at at_i in
            rw (test_at (set v (i / 8) c') j c' got, test_at v j c was, differs (j % 8))
              (ground arith)
        | inr other ↦
            let kept : get_elem? (set v (i / 8) c') (j / 8) ≡ get_elem? v (j / 8) =
              rw (get-set v (i / 8) (j / 8) c' inside, other) refl in
            let apart : (i == j) ≡ false = ground arith in
            rw apart (same_test v (set v (i / 8) c') j kept)
      ];
    }

set_at :
    (v : List ℕ) (i c : ℕ)
    → get_elem? v (i / 8) ≡ some c
    → bit_set v i ≡ ret (set v (i / 8) (char_set c (i % 8)))
unfolding bit_set
set_at v i c e = rw (bit_set, e) refl

pub bit_set-Written :
    (v : List ℕ) (i : ℕ)
    → i < 8 * length v
    → (w : List ℕ) × (bit_set v i ≡ ret w) × Written v i true w
bit_set-Written v i h =
    let (c, at_i) = get_some v (i / 8) (omega arith) in
    (
      set v (i / 8) (char_set c (i % 8)),
      set_at v i c at_i,
      write_lem v i c (char_set c (i % 8)) true at_i h (λ k. char_test-set c (i % 8) k),
    )

clear_at :
    (v : List ℕ) (i c : ℕ)
    → get_elem? v (i / 8) ≡ some c
    → bit_clear v i ≡ ret (set v (i / 8) (char_clear c (i % 8)))
unfolding bit_clear
clear_at v i c e = rw (bit_clear, e) refl

pub bit_clear-Written :
    (v : List ℕ) (i : ℕ)
    → i < 8 * length v
    → (w : List ℕ) × (bit_clear v i ≡ ret w) × Written v i false w
bit_clear-Written v i h =
    let (c, at_i) = get_some v (i / 8) (omega arith) in
    (
      set v (i / 8) (char_clear c (i % 8)),
      clear_at v i c at_i,
      write_lem v i c (char_clear c (i % 8)) false at_i h (λ k. char_test-clear c (i % 8) k),
    )

-- bit_set or bit_clear.
abbrev pub bit_put : Bool → List ℕ → ℕ → Run (List ℕ)
bit_put true = bit_set
bit_put false = bit_clear

-- A bit set or cleared within the vector reads back as what was written, and every other bit as it was
-- before; the vector keeps its length.
pub bit_put-Written :
    (value : Bool) (v : List ℕ) (i : ℕ)
    → i < 8 * length v
    → (w : List ℕ) × (bit_put value v i ≡ ret w) × Written v i value w
bit_put-Written true v i h = bit_set-Written v i h
bit_put-Written false v i h = bit_clear-Written v i h
