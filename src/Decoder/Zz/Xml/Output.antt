-- ===== src/Decoder/Zz/Xml/Output.antt =====
-- What the generator writes for a run of calls, and the buffer behind it where realloc grants what is asked.
use n2kafka.Prelude.{
  ℕ, ◌+◌, ◌≤◌, ◌≡◌, refl, sym, ◌∙◌, ap, Bool, true, ◌&&◌, List, [], ◌∷◌, ◌++◌, append-nil,
  append_assoc, length, length-append, Bytes, arith,
}
use n2kafka.Prelude.Int.{ℤ, is_zero}
use n2kafka.Util.Str.{Str, string_size, string_append}
use n2kafka.Util.Str.Pow2.{max_size}
use n2kafka.Util.Str.Grow.{IsWf, Appended, appended, not_appended, string_append-Appended}
use n2kafka.Util.Str.Printf.{Grants}
use n2kafka.Decoder.Zz.Xml.Session.{Call, Yajl}
use n2kafka.Decoder.Zz.Xml.Handlers.{is_gen_ok}
use n2kafka.Decoder.Zz.Xml.Pen.{Pen, write, play_one, play}

abbrev pub concat : List Bytes → Bytes
concat [] = []
concat (str ∷ strs) = str ++ concat strs

-- The generator after some calls, whether it accepted them all, and the bytes it printed.
pub record Spoken (G : Type 0) : Type 0 where
  pub gen : G
  pub accepted : Bool
  pub text : Bytes

unfoldable pub speak : {G : Type 0} → Yajl G → G → List Call → Spoken G
speak yajl g [] = record { gen = g; accepted = true; text = [] }
speak yajl g (c ∷ cs) =
    let (g', status, strs) = yajl.call g c in
    let rest = speak yajl g' cs in
    record {
      gen = rest.gen;
      accepted = is_gen_ok status && rest.accepted;
      text = concat strs ++ rest.text;
    }

-- A string with `text` behind what it held.
pub record Extends (s : Str) (text : Bytes) (t : Str) : Type 0 where
  pub bytes : t.bytes ≡ s.bytes ++ text
  pub wf : IsWf t

Extends-trans : (s t u : Str) (x y : Bytes) → Extends s x t → Extends t y u → Extends s (x ++ y) u
Extends-trans s t u x y e f = record {
  bytes = f.bytes ∙ ap (λ (b : Bytes). b ++ y) e.bytes ∙ (simp append_assoc);
  wf = f.wf;
}

pub Extends-size :
    (s t : Str) (x : Bytes) → Extends s x t → string_size t ≡ string_size s + length x
Extends-size s t x e = ap (λ (b : Bytes). length b) e.bytes ∙ length-append s.bytes x

module _ (realloc : ℕ → Bool) (grants : Grants realloc) where
  pub append-Extends :
      (s : Str) (chunk : Bytes) (r : Str × ℤ)
      → Appended realloc s chunk r
      → (is_zero r.1 ≡ true) × Extends s chunk r.0
  append-Extends s chunk r (appended e b wf) = (rw e refl, record { bytes = b; wf = wf })
  append-Extends s chunk r (not_appended e n refused le) = absurd (cc (grants n))

  write-Extends :
      (s : Str) (strs : List Bytes)
      → IsWf s
      → string_size s + length (concat strs) ≤ max_size
      → ((write realloc s true strs).1 ≡ true)
        × Extends s (concat strs) (write realloc s true strs).0
  unfolding write
  write-Extends s [] wf hi = (refl, record { bytes = sym (append-nil s.bytes); wf = wf })
  write-Extends s (str ∷ strs) wf hi =
      let total = length-append str (concat strs) in
      let r = string_append realloc s str in
      let (good, first) =
        append-Extends s str r (string_append-Appended realloc s str wf (omega (arith, total))) in
      let size = Extends-size s r.0 str first in
      let (fine, rest) = write-Extends r.0 strs first.wf (omega (arith, total, size)) in
      rw (write, good)
        (fine, Extends-trans s r.0 (write realloc r.0 true strs).0 str (concat strs) first rest)

  play_one_good :
      {G : Type 0} (yajl : Yajl G) (g : G) (s : Str) (c : Call)
      → is_gen_ok (yajl.call g c).1 ≡ true
      → (write realloc s true (yajl.call g c).2).1 ≡ true
      → play_one yajl realloc (record { gen = g; buf = s; fine = true }) c ≡ record {
        gen = (yajl.call g c).0;
        buf = (write realloc s true (yajl.call g c).2).0;
        fine = true;
      }
  unfolding play_one
  play_one_good yajl g s c good fine = rw (play_one, good, fine) refl

  -- Where the generator accepts the calls and the text fits, the pen stays fine and the buffer gets the
  -- printed text.
  pub play-Extends :
      {G : Type 0} (yajl : Yajl G) (g : G) (s : Str) (cs : List Call)
      → IsWf s
      → (speak yajl g cs).accepted ≡ true
      → string_size s + length (speak yajl g cs).text ≤ max_size
      → let done = play yajl realloc (record { gen = g; buf = s; fine = true }) cs in
        (done.fine ≡ true) × Extends s (speak yajl g cs).text done.buf
  unfolding speak play
  play-Extends yajl g s [] wf ok hi = (refl, record { bytes = sym (append-nil s.bytes); wf = wf })
  play-Extends yajl g s (c ∷ cs) wf ok hi =
      let (g', status, strs) = yajl.call g c in
      let rest = speak yajl g' cs in
      let total = length-append (concat strs) rest.text in
      let good : is_gen_ok status ≡ true = ground arith in
      let later : rest.accepted ≡ true = ground arith in
      let (fine, first) = write-Extends s strs wf (omega (arith, total)) in
      let t = (write realloc s true strs).0 in
      let size = Extends-size s t (concat strs) first in
      let (done, last) = play-Extends yajl g' t cs first.wf later (omega (arith, total, size)) in
      rw (play, play_one_good yajl g s c good fine)
        (
          done,
          Extends-trans s t (play yajl realloc (record { gen = g'; buf = t; fine = true }) cs).buf
              (concat strs) rest.text first last,
        )

  pub play-gen :
      {G : Type 0} (yajl : Yajl G) (pen : Pen G) (cs : List Call)
      → (play yajl realloc pen cs).gen ≡ (speak yajl pen.gen cs).gen
  unfolding speak play play_one
  play-gen yajl pen [] = refl
  play-gen yajl pen (c ∷ cs) = play-gen yajl (play_one yajl realloc pen c) cs
