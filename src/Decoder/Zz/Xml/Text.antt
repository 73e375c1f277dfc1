-- ===== src/Decoder/Zz/Xml/Text.antt =====
-- The text of an element that expat hands over in several pieces.
use n2kafka.Prelude.{
  ℕ, ◌+◌, ◌*◌, ◌≤◌, ◌≡◌, refl, sym, ◌∙◌, ap, Bool, true, Option, none, some, List, [], ◌∷◌, ◌++◌,
  append_assoc, append-nil, map, length, length-append, Bytes, arith,
}
use mathlib.Core.Path.{subst}
use n2kafka.Prelude.Run.{ret}
use n2kafka.Util.Str.{Str, string_size, string_append, string_pop_back}
use n2kafka.Util.Str.Pow2.{max_size}
use n2kafka.Util.Str.Grow.{IsWf, string_append-Appended}
use n2kafka.Util.Str.Printf.{Grants}
use n2kafka.Util.Str.Pop.{string_pop_back-append, pop_back-IsWf}
use n2kafka.Decoder.Zz.Xml.Bits.{bit_test, text_printed_bit_from_frame}
use n2kafka.Decoder.Zz.Xml.Session.{Yajl, TempYajl, Expat, XmlSession, character_data}
use n2kafka.Decoder.Zz.Xml.Handlers.{
  is_gen_ok, more_text, zz_parse_xml_character_data, handle, handle_all,
}
use n2kafka.Decoder.Zz.Xml.Output.{concat, append-Extends}

abbrev pub quote : ℕ
quote = b'"'

-- The thread's generator prints a text between quotes, escaped by `escape`, and refuses none.
pub record IsQuoter {T : Type 0} (temp : TempYajl T) (escape : Bytes → Bytes) : Type 0 where
  pub first : (t : T) × (temp.alloc ≡ some t)
  pub accepts : (t : T) (text : Bytes) → is_gen_ok (temp.string (temp.clear t) text).1 ≡ true
  pub prints :
      (t : T) (text : Bytes)
      → temp.buffer (temp.string (temp.clear t) text).0 ≡ quote ∷ escape text ++ quote ∷ []

-- The frame's text is begun, and the buffer ends with the string's closing quote.
pub record InText {P G T : Type 0} (s : XmlSession P G T) (front : Bytes) : Type 0 where
  pub begun : bit_test s.stack_boolean_info (s.stack_pos * 2) ≡ ret true
  pub ends : s.yajl_gen_buf.bytes ≡ front ++ quote ∷ []
  pub wf : IsWf s.yajl_gen_buf

module _ {P G T : Type 0} (expat : Expat P) (yajl : Yajl G) (temp : TempYajl T) (realloc : ℕ → Bool)
    (fuel header_size msg_size : ℕ) (grants : Grants realloc) (escape : Bytes → Bytes)
    (quoter : IsQuoter temp escape) where
  handle_of : (o : Option T) → (t : T) × ((elim o [ none ↦ temp.alloc | some t ↦ some t ]) ≡ some t)
  handle_of none = quoter.first
  handle_of (some t) = (t, refl)

  more_step :
      (s : XmlSession P G T) (text : Bytes) (t : T) (cut buf : Str)
      → (elim s.temp_yajl [ none ↦ temp.alloc | some t ↦ some t ]) ≡ some t
      → (rest : Bytes) → temp.buffer (temp.string (temp.clear t) text).0 ≡ quote ∷ rest
      → string_pop_back s.yajl_gen_buf ≡ ret cut
      → (string_append realloc cut rest).0 ≡ buf
      → more_text expat yajl temp realloc fuel header_size msg_size s text
        ≡ ret (
          record s { temp_yajl = some (temp.string (temp.clear t) text).0; yajl_gen_buf = buf },
          none,
        )
  unfolding more_text
  more_step s text t cut buf e rest shown popped same =
      rw (more_text, e, quoter.accepts t text, popped, shown, same) refl

  more_text-InText :
      (s : XmlSession P G T) (front text : Bytes)
      → InText s front
      → string_size s.yajl_gen_buf + length (escape text) ≤ max_size
      → (u : XmlSession P G T) × (more_text expat yajl temp realloc fuel header_size msg_size s text
          ≡ ret (u, none))
        × InText u (front ++ escape text)
  unfolding more_text
  more_text-InText s front text inside hi =
      let (t, e) = handle_of s.temp_yajl in
      let good = quoter.accepts t text in
      let shown = quoter.prints t text in
      let buf = s.yajl_gen_buf in
      let cut : Str = record buf { bytes = front } in
      let popped = string_pop_back-append buf front quote inside.wf inside.ends in
      let shorter_wf = pop_back-IsWf buf front quote inside.wf inside.ends (omega arith) in
      let size = ap (λ (b : Bytes). length b) inside.ends ∙ length-append front (quote ∷ []) in
      let more = length-append (escape text) (quote ∷ []) in
      let r = string_append realloc cut (escape text ++ quote ∷ []) in
      let (appended_all, grown) = append-Extends realloc grants cut (escape text ++ quote ∷ []) r (
        string_append-Appended realloc cut (escape text ++ quote ∷ []) shorter_wf
          (omega (arith, size, more))) in
      (
        record s { temp_yajl = some (temp.string (temp.clear t) text).0; yajl_gen_buf = r.0 },
        more_step s text t cut r.0 e (escape text ++ quote ∷ []) shown popped refl,
        record { begun = inside.begun; ends = grown.bytes ∙ (simp append_assoc); wf = grown.wf },
      )

  -- Text behind the first piece, from a string that ends the buffer: the text's escape stands before the
  -- closing quote.
  pub character_data-InText :
      (s : XmlSession P G T) (front text : Bytes)
      → InText s front
      → string_size s.yajl_gen_buf + length (escape text) ≤ max_size
      → (u : XmlSession P G T) × (zz_parse_xml_character_data expat yajl temp realloc fuel
            header_size msg_size s text
          ≡ ret u)
        × InText u (front ++ escape text)
  unfolding zz_parse_xml_character_data text_printed_bit_from_frame
  character_data-InText s front text inside hi =
      let (u, e, after) = more_text-InText s front text inside hi in
      (u, rw (inside.begun, e) refl, after)

  escaped : List Bytes → Bytes
  escaped [] = []
  escaped (text ∷ texts) = escape text ++ escaped texts

  texts-InText :
      (s : XmlSession P G T) (front : Bytes) (texts : List Bytes)
      → InText s front
      → string_size s.yajl_gen_buf + length (escaped texts) ≤ max_size
      → (u : XmlSession P G T) × (handle_all expat yajl temp realloc fuel header_size msg_size s
            (map character_data texts)
          ≡ ret u)
        × InText u (front ++ escaped texts)
  unfolding handle_all handle escaped
  texts-InText s front [] inside hi = (s, refl, rw (append-nil front) inside)
  texts-InText s front (text ∷ texts) inside hi =
      let total = length-append (escape text) (escaped texts) in
      let (t, e, next) = character_data-InText s front text inside (omega (arith, total)) in
      let before = ap (λ (b : Bytes). length b) inside.ends ∙ length-append front (quote ∷ []) in
      let after =
        ap (λ (b : Bytes). length b) next.ends
        ∙ length-append (front ++ escape text) (quote ∷ [])
        ∙ ap (λ (n : ℕ). n + 1) (length-append front (escape text)) in
      let (u, e', last) =
        texts-InText t (front ++ escape text) texts next (omega (arith, total, before, after)) in
      (u, rw e e', rw (append_assoc front (escape text) (escaped texts)) at last)

  escaped-concat :
      (texts : List Bytes)
      → escape [] ≡ []
      → ((a b : Bytes) → escape (a ++ b) ≡ escape a ++ escape b)
      → escaped texts ≡ escape (concat texts)
  unfolding escaped
  escaped-concat [] none_of pieces = sym none_of
  escaped-concat (text ∷ texts) none_of pieces =
      ap (λ (b : Bytes). escape text ++ b) (escaped-concat texts none_of pieces)
      ∙ sym (pieces text (concat texts))

  -- Behind the first piece of an element's text, with a generator that escapes a text byte by byte, and
  -- realloc granting what is asked: however expat cuts the rest of the text, the handlers return and the
  -- buffer has the escape of the whole rest before the closing quote.
  pub pieces-InText :
      (s : XmlSession P G T) (front : Bytes) (texts : List Bytes)
      → escape [] ≡ []
      → ((a b : Bytes) → escape (a ++ b) ≡ escape a ++ escape b)
      → InText s front
      → string_size s.yajl_gen_buf + length (escape (concat texts)) ≤ max_size
      → (u : XmlSession P G T) × (handle_all expat yajl temp realloc fuel header_size msg_size s
            (map character_data texts)
          ≡ ret u)
        × InText u (front ++ escape (concat texts))
  pieces-InText s front texts none_of pieces inside hi =
      let whole = escaped-concat texts none_of pieces in
      subst
        (λ (b : Bytes).
          (u : XmlSession P G T) × (handle_all expat yajl temp realloc fuel header_size msg_size s
              (map character_data texts)
            ≡ ret u)
          × InText u (front ++ b))
        whole
        (texts-InText s front texts inside (omega (arith, ap (λ (b : Bytes). length b) whole)))
