-- ===== src/Decoder/Zz/Xml/Frames.antt =====
-- The handlers on the stack's frames, while the pen writes: what each calls the generator for, and which bits it
-- changes.
use n2kafka.Prelude.{
  ℕ, ◌+◌, ◌*◌, ◌≤◌, ◌<◌, ◌≡◌, refl, ◌∙◌, Bool, true, false, ◌==◌, List, length, arith,
}
use n2kafka.Prelude.Run.{ret}
use n2kafka.Decoder.Zz.Xml.Bits.{bit_test, bit_set, bit_clear}
use n2kafka.Decoder.Zz.Xml.BitLaws.{Written, bit_set-Written, bit_clear-Written}

-- The two bits of frame `p`.
pub record Frame (v : List ℕ) (p : ℕ) (text children : Bool) : Type 0 where
  pub size : length v ≡ 32
  pub text_bit : bit_test v (p * 2) ≡ ret text
  pub children_bit : bit_test v (p * 2 + 1) ≡ ret children

-- The bits below `n` are the same.
pub record Keeps (n : ℕ) (v w : List ℕ) : Type 0 where
  pub size : length w ≡ length v
  pub same : (j : ℕ) → j < n → bit_test w j ≡ bit_test v j

pub Keeps-trans : (n m : ℕ) (u v w : List ℕ) → n ≤ m → Keeps n u v → Keeps m v w → Keeps n u w
Keeps-trans n m u v w h k l = record {
  size = l.size ∙ k.size;
  same = λ j lt. l.same j (omega arith) ∙ k.same j lt;
}

Written-Keeps : (v w : List ℕ) (i : ℕ) (b : Bool) → Written v i b w → Keeps i v w
Written-Keeps v w i b wrote = record {
  size = wrote.same_length;
  same = λ j lt. wrote.reads j ∙ (let apart : (i == j) ≡ false = ground arith in rw apart refl);
}

other_bit :
    (v w : List ℕ) (i j : ℕ) (b : Bool)
    → Written v i b w
    → (i == j) ≡ false
    → bit_test w j ≡ bit_test v j
other_bit v w i j b wrote apart = wrote.reads j ∙ rw apart refl

this_bit : (v w : List ℕ) (i : ℕ) (b : Bool) → Written v i b w → bit_test w i ≡ ret b
this_bit v w i b wrote = wrote.reads i ∙ (let here : (i == i) ≡ true = ground arith in rw here refl)

pub set_children-Frame :
    (v : List ℕ) (p : ℕ) (t c : Bool)
    → p < 128
    → Frame v p t c
    → (w : List ℕ) × (bit_set v (p * 2 + 1) ≡ ret w) × Frame w p t true × Keeps (p * 2 + 1) v w
set_children-Frame v p t c h f =
    let big = f.size in
    let (w, e, wrote) = bit_set-Written v (p * 2 + 1) (omega arith) in
    (
      w,
      e,
      record {
        size = wrote.same_length ∙ f.size;
        text_bit = other_bit v w (p * 2 + 1) (p * 2) true wrote (ground arith) ∙ f.text_bit;
        children_bit = this_bit v w (p * 2 + 1) true wrote;
      },
      Written-Keeps v w (p * 2 + 1) true wrote,
    )

pub set_text-Frame :
    (v : List ℕ) (p : ℕ) (t c : Bool)
    → p < 128
    → Frame v p t c
    → (w : List ℕ) × (bit_set v (p * 2) ≡ ret w) × Frame w p true c × Keeps (p * 2) v w
set_text-Frame v p t c h f =
    let big = f.size in
    let (w, e, wrote) = bit_set-Written v (p * 2) (omega arith) in
    (
      w,
      e,
      record {
        size = wrote.same_length ∙ f.size;
        text_bit = this_bit v w (p * 2) true wrote;
        children_bit = other_bit v w (p * 2) (p * 2 + 1) true wrote (ground arith) ∙ f.children_bit;
      },
      Written-Keeps v w (p * 2) true wrote,
    )

-- Both bits of a frame are cleared one after the other.
pub clear-Frame :
    (v : List ℕ) (p : ℕ)
    → p < 128
    → length v ≡ 32
    → (u : List ℕ) × (w : List ℕ) × (bit_clear v (p * 2) ≡ ret u)
      × (bit_clear u (p * 2 + 1) ≡ ret w)
      × Frame w p false false
      × Keeps (p * 2) v w
clear-Frame v p h big =
    let (u, e, wrote) = bit_clear-Written v (p * 2) (omega arith) in
    let same = wrote.same_length in
    let (w, e', wrote') = bit_clear-Written u (p * 2 + 1) (omega arith) in
    (
      u,
      w,
      e,
      e',
      record {
        size = wrote'.same_length ∙ wrote.same_length ∙ big;
        text_bit =
            other_bit u w (p * 2 + 1) (p * 2) false wrote' (ground arith)
            ∙ this_bit v u (p * 2) false wrote;
        children_bit = this_bit u w (p * 2 + 1) false wrote';
      },
      Keeps-trans (p * 2) (p * 2 + 1) v u w (omega arith) (Written-Keeps v u (p * 2) false wrote)
          (Written-Keeps u w (p * 2 + 1) false wrote'),
    )
