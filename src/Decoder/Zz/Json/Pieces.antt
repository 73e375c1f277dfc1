-- ===== src/Decoder/Zz/Json/Pieces.antt =====
-- The splitting of Spec does not depend on where a stream is cut: two chunks one after the other, and
-- the one that holds them both.
use native.Mathlib.Nat.{add-zero}
use n2kafka.Prelude.{
  ℕ, ◌+◌, ◌-◌, ◌≤◌, ◌<◌, ◌≡◌, refl, sym, ap, ◌∙◌, zero, suc, List, [], ◌∷◌, ◌++◌, map, append_assoc,
  arith, length, drop, drop-append, Bytes,
}
use n2kafka.Decoder.Zz.Json.{Event, start_map, end_map}
use n2kafka.Decoder.Zz.Json.Spec.{
  slice, Split, split_event, consumed, split_end, split_from, InOrder, slice-slice, slice-drop,
  slice-append_left, slice-append_right, depth-start, depth-end,
}

-- The same callback, with `n` bytes before the chunk.
abbrev pub later : ℕ → Event → Event
later n (start_map c) = start_map (n + c)
later n (end_map c) = end_map (n + c)

pub split_end-depth :
    (chunk : Bytes) (at : ℕ) (st : Split) → (split_end chunk at st).depth ≡ st.depth
split_end-depth chunk at st = ground arith

slice-across :
    (a b : Bytes) (p c : ℕ)
    → p ≤ length a
    → drop p a ++ slice 0 c b ≡ slice p (length a + c) (a ++ b)
slice-across a b p c h =
    rw
      (
        sym (slice-drop p a),
        sym (slice-append_left a b p (length a) (omega arith)),
        sym (slice-append_right a b 0 c),
        add-zero (length a),
      )
      (slice-slice p (length a) (length a + c) (a ++ b) h (omega arith))

drop-across : (a b : Bytes) (p : ℕ) → p ≤ length a → drop p (a ++ b) ≡ drop p a ++ b
drop-across a b zero h = refl
drop-across [] b (suc p) h = absurd (omega arith)
drop-across (c ∷ a) b (suc p) h = drop-across a b p (omega arith)

module _ (a b : Bytes) where
  -- A callback in the first of the two.
  split_event-left :
      (p : ℕ) (e : Event) (st : Split)
      → consumed e ≤ length a
      → split_event (a ++ b) p e st ≡ split_event a p e st
  split_event-left p (start_map c) st h =
      rw (slice-append_left a b (c - 1) c h, slice-append_left a b p c h) refl
  split_event-left p (end_map c) st h = rw (slice-append_left a b p c h) refl

  -- A callback in the second, after one that stood there as well.
  split_event-right :
      (p : ℕ) (e : Event) (st : Split)
      → p < consumed e
      → split_event (a ++ b) (length a + p) (later (length a) e) st ≡ split_event b p e st
  split_event-right p (start_map c) st h =
      let before : length a + c - 1 ≡ length a + (c - 1) = omega arith in
      rw (before, slice-append_right a b (c - 1) c, slice-append_right a b p c) refl
  split_event-right p (end_map c) st h = rw (slice-append_right a b p c) refl

  -- The first callback of the second chunk.
  split_event-across :
      (p : ℕ) (e : Event) (st : Split) (rest : List Event)
      → p ≤ length a
      → InOrder (length b) st.depth 0 (e ∷ rest)
      → split_event (a ++ b) p (later (length a) e) st ≡ split_event b 0 e (split_end a p st)
  split_event-across p (start_map c) st rest h (lt, le, order) =
      let before : length a + c - 1 ≡ length a + (c - 1) = omega arith in
      let joined =
        append_assoc st.current (drop p a) (slice 0 c b)
        ∙ ap (λ (x : Bytes). st.current ++ x) (slice-across a b p c h) in
      rw (before, slice-append_right a b (c - 1) c) (ground (arith, joined))
  split_event-across p (end_map c) st rest h (inner, lt, le, order) =
      let joined =
        append_assoc st.current (drop p a) (slice 0 c b)
        ∙ ap (λ (x : Bytes). st.current ++ x) (slice-across a b p c h) in
      ground (arith, joined)

  -- The callbacks of the second, from one that stands at `c`.
  abbrev later_on : ℕ → List Event → Split → Split
  later_on c fs st = split_from (a ++ b) (length a + c) (map (later (length a)) fs) st

  split_from-right :
      (fs : List Event) (p depth : ℕ) (st : Split)
      → InOrder (length b) depth p fs
      → split_from (a ++ b) (length a + p) (map (later (length a)) fs) st ≡ split_from b p fs st
  split_from-right [] p depth st order = rw (drop-append a b p) refl
  split_from-right (start_map c ∷ fs) p depth st (lt, le, order) =
      ap (later_on c fs) (split_event-right p (start_map c) st lt)
      ∙ split_from-right fs c (depth + 1) (split_event b p (start_map c) st) order
  split_from-right (end_map c ∷ fs) p depth st (inner, lt, le, order) =
      ap (later_on c fs) (split_event-right p (end_map c) st lt)
      ∙ split_from-right fs c (depth - 1) (split_event b p (end_map c) st) order

  split_end-across :
      (p : ℕ) (st : Split)
      → p ≤ length a
      → split_end (a ++ b) p st ≡ split_end b 0 (split_end a p st)
  split_end-across p st h =
      let joined =
        ap (λ (x : Bytes). st.current ++ x) (drop-across a b p h)
        ∙ sym (append_assoc st.current (drop p a) b) in
      ground (arith, joined)

  split_from-across :
      (fs : List Event) (p : ℕ) (st : Split)
      → p ≤ length a
      → InOrder (length b) st.depth 0 fs
      → split_from (a ++ b) p (map (later (length a)) fs) st ≡ split_from b 0 fs (split_end a p st)
  split_from-across [] p st h order = split_end-across p st h
  split_from-across (start_map c ∷ fs) p st h order =
      ap (later_on c fs) (split_event-across p (start_map c) st fs h order)
      ∙ split_from-right fs c (st.depth + 1) _ order.2
  split_from-across (end_map c ∷ fs) p st h order =
      ap (later_on c fs) (split_event-across p (end_map c) st fs h order)
      ∙ split_from-right fs c (st.depth - 1) _ order.3

module _ (a b : Bytes) (fs : List Event) where
  -- The callbacks of both chunks, in the chunk that holds them.
  abbrev pub joined : List Event → List Event
  joined es = es ++ map (later (length a)) fs

  pub split_from-append :
      (es : List Event) (p : ℕ) (st : Split)
      → InOrder (length a) st.depth p es
      → InOrder (length b) (split_from a p es st).depth 0 fs
      → split_from (a ++ b) p (joined es) st ≡ split_from b 0 fs (split_from a p es st)
  split_from-append [] p st order next =
      split_from-across a b fs p st order (rw (sym (split_end-depth a p st)) next)
  split_from-append (start_map c ∷ es) p st (lt, le, order) next =
      ap (split_from (a ++ b) c (joined es)) (split_event-left a b p (start_map c) st le)
      ∙ split_from-append es c (split_event a p (start_map c) st) (rw (depth-start a p c st) order)
          next
  split_from-append (end_map c ∷ es) p st (inner, lt, le, order) next =
      ap (split_from (a ++ b) c (joined es)) (split_event-left a b p (end_map c) st le)
      ∙ split_from-append es c (split_event a p (end_map c) st) (rw (depth-end a p c st) order) next

later-InOrder :
    (n m : ℕ) (fs : List Event) (d p : ℕ)
    → InOrder m d p fs
    → InOrder (n + m) d (n + p) (map (later n) fs)
later-InOrder n m [] d p h = omega arith
later-InOrder n m (start_map c ∷ fs) d p (lt, le, h) =
    (omega arith, omega arith, later-InOrder n m fs (d + 1) c h)
later-InOrder n m (end_map c ∷ fs) d p (inner, lt, le, h) =
    (inner, omega arith, omega arith, later-InOrder n m fs (d - 1) c h)

across-InOrder :
    (n m : ℕ) (fs : List Event) (d p : ℕ)
    → p ≤ n
    → InOrder m d 0 fs
    → InOrder (n + m) d p (map (later n) fs)
across-InOrder n m [] d p g h = omega arith
across-InOrder n m (start_map c ∷ fs) d p g (lt, le, h) =
    (omega arith, omega arith, later-InOrder n m fs (d + 1) c h)
across-InOrder n m (end_map c ∷ fs) d p g (inner, lt, le, h) =
    (inner, omega arith, omega arith, later-InOrder n m fs (d - 1) c h)

pub InOrder-append :
    (a b : Bytes) (fs es : List Event) (p : ℕ) (st : Split)
    → InOrder (length a) st.depth p es
    → InOrder (length b) (split_from a p es st).depth 0 fs
    → InOrder (length a + length b) st.depth p (joined a b fs es)
InOrder-append a b fs [] p st order next =
    across-InOrder (length a) (length b) fs st.depth p order
      (rw (sym (split_end-depth a p st)) next)
InOrder-append a b fs (start_map c ∷ es) p st (lt, le, order) next = (
  lt,
  omega arith,
  rw (sym (depth-start a p c st)) (
      InOrder-append a b fs es c (split_event a p (start_map c) st)
        (rw (depth-start a p c st) order) next),
)
InOrder-append a b fs (end_map c ∷ es) p st (inner, lt, le, order) next = (
  inner,
  lt,
  omega arith,
  rw (sym (depth-end a p c st)) (
      InOrder-append a b fs es c (split_event a p (end_map c) st) (rw (depth-end a p c st) order)
        next),
)
