-- ===== src/Decoder/Zz/Json/Spec.antt =====
-- What the splitting of a stream means: the objects between an opening brace at depth 0 and its match.
use native.Mathlib.Nat.{zero-add, suc-add}
use n2kafka.Prelude.{
  ℕ, ◌+◌, ◌-◌, ◌≤◌, ◌<◌, ◌≡◌, refl, ap, List, [], ◌∷◌, ◌++◌, arith, length, take, drop, Bytes, ◌==◌,
  if◌then◌else◌, zero, suc,
}
use n2kafka.Decoder.Zz.Json.{Event, start_map, end_map}

-- The bytes from `i` up to `j`.
abbrev pub slice : ℕ → ℕ → Bytes → Bytes
slice i zero chunk = []
slice i (suc j) [] = []
slice zero (suc j) (c ∷ cs) = c ∷ slice zero j cs
slice (suc i) (suc j) (c ∷ cs) = slice i j cs

-- The depth, the object begun, and the objects completed.
pub record Split : Type 0 where
  pub depth : ℕ
  pub current : Bytes
  pub out : List Bytes

-- One event at `c`, with the bytes up to `pos` read.
abbrev pub split_event : Bytes → ℕ → Event → Split → Split
split_event chunk pos (start_map c) st =
    if st.depth == 0
    then record st { depth = 1; current = slice (c - 1) c chunk }
    else record st { depth = st.depth + 1; current = st.current ++ slice pos c chunk }
split_event chunk pos (end_map c) st =
    if st.depth == 1
    then record { depth = 0; current = []; out = st.out ++ (st.current ++ slice pos c chunk) ∷ [] }
    else record st { depth = st.depth - 1; current = st.current ++ slice pos c chunk }

abbrev pub consumed : Event → ℕ
consumed (start_map c) = c
consumed (end_map c) = c

abbrev pub split_end : Bytes → ℕ → Split → Split
split_end chunk pos st =
    if st.depth == 0 then st else record st { current = st.current ++ drop pos chunk }

-- One chunk, from position `pos`.
abbrev pub split_from : Bytes → ℕ → List Event → Split → Split
split_from chunk pos [] st = split_end chunk pos st
split_from chunk pos (e ∷ es) st = split_from chunk (consumed e) es (split_event chunk pos e st)

-- Events in order, within the chunk, and never below depth 0.
abbrev pub InOrder : ℕ → ℕ → ℕ → List Event → Type 0
InOrder len depth pos [] = pos ≤ len
InOrder len depth pos (start_map c ∷ es) = (pos < c) × (c ≤ len) × InOrder len (depth + 1) c es
InOrder len depth pos (end_map c ∷ es) =
    (0 < depth) × (pos < c) × (c ≤ len) × InOrder len (depth - 1) c es

pub depth-start :
    (chunk : Bytes) (at c : ℕ) (st : Split)
    → (split_event chunk at (start_map c) st).depth ≡ st.depth + 1
depth-start chunk at c st = ground arith

pub depth-end :
    (chunk : Bytes) (at c : ℕ) (st : Split)
    → (split_event chunk at (end_map c) st).depth ≡ st.depth - 1
depth-end chunk at c st = ground arith

pub slice-slice :
    (i j k : ℕ) (chunk : Bytes)
    → i ≤ j
    → j ≤ k
    → slice i j chunk ++ slice j k chunk ≡ slice i k chunk
slice-slice i zero zero chunk h g = refl
slice-slice zero zero (suc k) chunk h g = refl
slice-slice (suc i) zero k chunk h g = absurd (omega arith)
slice-slice i (suc j) zero chunk h g = absurd (omega arith)
slice-slice i (suc j) (suc k) [] h g = refl
slice-slice zero (suc j) (suc k) (c ∷ cs) h g =
    ap (λ (x : Bytes). c ∷ x) (slice-slice zero j k cs (omega arith) (omega arith))
slice-slice (suc i) (suc j) (suc k) (c ∷ cs) h g = slice-slice i j k cs (omega arith) (omega arith)

pub slice-take : (j : ℕ) (chunk : Bytes) → slice 0 j chunk ≡ take j chunk
slice-take zero chunk = refl
slice-take (suc j) [] = refl
slice-take (suc j) (c ∷ cs) = ap (λ (x : Bytes). c ∷ x) (slice-take j cs)

pub slice-drop : (i : ℕ) (chunk : Bytes) → slice i (length chunk) chunk ≡ drop i chunk
slice-drop zero [] = refl
slice-drop zero (c ∷ cs) = ap (λ (x : Bytes). c ∷ x) (slice-drop zero cs)
slice-drop (suc i) [] = refl
slice-drop (suc i) (c ∷ cs) = slice-drop i cs

pub length-slice :
    (i j : ℕ) (chunk : Bytes) → i ≤ j → j ≤ length chunk → length (slice i j chunk) ≡ j - i
length-slice i zero chunk h g = omega arith
length-slice i (suc j) [] h g = absurd (omega arith)
length-slice zero (suc j) (c ∷ cs) h g =
    omega (arith, length-slice zero j cs (omega arith) (omega arith))
length-slice (suc i) (suc j) (c ∷ cs) h g =
    omega (arith, length-slice i j cs (omega arith) (omega arith))

-- Past the first chunk of two, and across them.
pub slice-append_right :
    (a b : Bytes) (i j : ℕ) → slice (length a + i) (length a + j) (a ++ b) ≡ slice i j b
slice-append_right [] b i j = rw (zero-add i, zero-add j)
slice-append_right (c ∷ cs) b i j =
    rw (suc-add (length cs) i, suc-add (length cs) j) (slice-append_right cs b i j)

pub slice-append_left : (a b : Bytes) (i j : ℕ) → j ≤ length a → slice i j (a ++ b) ≡ slice i j a
slice-append_left a b i zero h = refl
slice-append_left [] b i (suc j) h = absurd (omega arith)
slice-append_left (c ∷ cs) b zero (suc j) h =
    ap (λ (x : Bytes). c ∷ x) (slice-append_left cs b zero j (omega arith))
slice-append_left (c ∷ cs) b (suc i) (suc j) h = slice-append_left cs b i j (omega arith)
