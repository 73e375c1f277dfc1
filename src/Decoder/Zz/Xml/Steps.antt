-- ===== src/Decoder/Zz/Xml/Steps.antt =====
-- The handlers of elements and text while the pen writes: the calls that each makes and the frames it leaves.
use n2kafka.Prelude.{
  ℕ, ◌+◌, ◌-◌, ◌*◌, ◌<◌, ◌%◌, ◌^◌, ◌≡◌, refl, ◌∙◌, Bool, true, false, ltb, ◌==◌, none, List, [],
  ◌∷◌, ◌++◌, length, Bytes, codes, arith,
}
use n2kafka.Prelude.Run.{Run, ret}
use n2kafka.Util.Str.{string_size}
use n2kafka.Decoder.Zz.Xml.Bits.{text_printed_bit_from_frame, children_printed_bit_from_frame}
use n2kafka.Decoder.Zz.Xml.Session.{
  Call, gen_string, map_close, array_open, array_close, Yajl, TempYajl, Expat, XmlSession,
}
use n2kafka.Decoder.Zz.Xml.Handlers.{
  element_calls, open_children, push_frame, close_children, zz_parse_start_xml_element,
  zz_parse_end_xml_element, zz_parse_xml_character_data, first_text,
}
use n2kafka.Decoder.Zz.Xml.Pen.{
  Pen, play, play-append, play_fine, put, calls_only, gen_or_goto_err-pen,
}
use n2kafka.Decoder.Zz.Xml.Frames.{
  Frame, Keeps, Keeps-trans, set_children-Frame, set_text-Frame, clear-Frame,
}

-- What stands between the last child's text and the next child: the array is opened, or the last child closed.
abbrev pub prefix : Bool → List Call
prefix false = gen_string (codes "children") ∷ array_open ∷ []
prefix true = map_close ∷ []

abbrev pub suffix : Bool → List Call
suffix false = []
suffix true = map_close ∷ array_close ∷ []

module _ {P G T : Type 0} (expat : Expat P) (yajl : Yajl G) (temp : TempYajl T) (realloc : ℕ → Bool)
    (fuel header_size msg_size : ℕ) (s : XmlSession P G T) where
  abbrev Runs : {A : Type 0} → Run A → A → Type 0
  Runs r a = r ≡ ret a

  open_children-Frame :
      (pen : Pen G) (p : ℕ) (v : List ℕ) (t c : Bool)
      → 0 < p
      → p < 128
      → Frame v p t c
      → (play yajl realloc pen (prefix c)).fine ≡ true
      → (w : List ℕ) × (open_children expat yajl temp realloc fuel header_size msg_size
            (put s pen p v)
          ≡ ret (put s (play yajl realloc pen (prefix c)) p w, none))
        × Frame w p t true
        × Keeps (p * 2 + 1) v w
  unfolding open_children children_printed_bit_from_frame
  open_children-Frame pen p v t false real h f fine =
      let (w, e, g, k) = set_children-Frame v p t false h f in
      let some_frame : (p == 0) ≡ false = ground arith in
      let wrote =
        gen_or_goto_err-pen expat yajl temp realloc fuel header_size msg_size s pen p v
          ((codes "Can't gen JSON children key", gen_string (codes "children"))
            ∷ (codes "Can't gen JSON child array open bracket", array_open)
            ∷ [])
          fine in
      (w, rw (some_frame, f.children_bit, wrote, e) refl, g, k)
  open_children-Frame pen p v t true real h f fine =
      let some_frame : (p == 0) ≡ false = ground arith in
      let wrote =
        gen_or_goto_err-pen expat yajl temp realloc fuel header_size msg_size s pen p v
          ((codes "Can't gen JSON child array close brace", map_close) ∷ []) fine in
      (
        v,
        rw (some_frame, f.children_bit, wrote) refl,
        f,
        record { size = refl; same = λ j lt. refl },
      )

  -- A new element: `made` are the calls before it, `w` the bits then.
  abbrev pub described : Pen G → List Call → Bytes → List (Bytes × Bytes) → Pen G
  described pen made el attr = play yajl realloc pen (made ++ calls_only (element_calls el attr))

  pub push_frame-Frame :
      (pen : Pen G) (p : ℕ) (v : List ℕ)
      → p + 1 < 128
      → length v ≡ 32
      → (w : List ℕ) × (push_frame expat yajl temp realloc fuel header_size msg_size (put s pen p v)
          ≡ ret (put s pen (p + 1) w))
        × Frame w (p + 1) false false
        × Keeps ((p + 1) * 2) v w
  unfolding push_frame children_printed_bit_from_frame text_printed_bit_from_frame
  push_frame-Frame pen p v h big =
      let (u, w, e, e', f, k) = clear-Frame v (p + 1) h big in (w, rw (e, e') refl, f, k)

  pub start-Frame :
      (pen : Pen G) (p : ℕ) (v : List ℕ) (t c : Bool) (el : Bytes) (attr : List (Bytes × Bytes))
      → string_size s.http_response ≡ 0
      → 0 < p
      → p + 1 < 128
      → Frame v p t c
      → (described pen (prefix c) el attr).fine ≡ true
      → (w : List ℕ) × (zz_parse_start_xml_element expat yajl temp realloc fuel header_size msg_size
            (put s pen p v)
            el
            attr
          ≡ ret (put s (described pen (prefix c) el attr) (p + 1) w))
        × Frame w p t true
        × Frame w (p + 1) false false
        × Keeps (p * 2 + 1) v w
  unfolding zz_parse_start_xml_element
  start-Frame pen p v t c el attr quiet real h f fine =
      let calls = element_calls el attr in
      let split = play-append yajl realloc pen (prefix c) (calls_only calls) in
      let fine' : (play yajl realloc (play yajl realloc pen (prefix c)) (calls_only calls)).fine
          ≡ true =
        rw split at fine in
      let opened =
        play_fine yajl realloc (play yajl realloc pen (prefix c)) (calls_only calls) fine' in
      let (u, e, g, k) = open_children-Frame pen p v t c real (omega arith) f opened in
      let (w, e', new, k') = push_frame-Frame (play yajl realloc pen (prefix c)) p u h g.size in
      let wrote =
        gen_or_goto_err-pen expat yajl temp realloc fuel header_size msg_size s
          (play yajl realloc pen (prefix c)) (p + 1) w calls fine' in
      let no_error : ltb 0 (string_size s.http_response) ≡ false = ground arith in
      (
        w,
        rw (no_error, e, e', wrote, split) refl,
        record {
          size = new.size;
          text_bit = k'.same (p * 2) (omega arith) ∙ g.text_bit;
          children_bit = k'.same (p * 2 + 1) (omega arith) ∙ g.children_bit;
        },
        new,
        Keeps-trans (p * 2 + 1) ((p + 1) * 2) v u w (omega arith) k k',
      )

  pub text-Frame :
      (pen : Pen G) (p : ℕ) (v : List ℕ) (text : Bytes)
      → p < 128
      → Frame v p false false
      → (play yajl realloc pen (gen_string (codes "text") ∷ gen_string text ∷ [])).fine ≡ true
      → (w : List ℕ) × (zz_parse_xml_character_data expat yajl temp realloc fuel header_size
            msg_size
            (put s pen p v)
            text
          ≡ ret (
              put s (play yajl realloc pen (gen_string (codes "text") ∷ gen_string text ∷ [])) p w))
        × Frame w p true false
        × Keeps (p * 2) v w
  unfolding zz_parse_xml_character_data first_text children_printed_bit_from_frame
      text_printed_bit_from_frame
  text-Frame pen p v text h f fine =
      let what = codes "Can't gen JSON attribute key + val in XML tag text" in
      let (w, e, g, k) = set_text-Frame v p false false h f in
      let wrote =
        gen_or_goto_err-pen expat yajl temp realloc fuel header_size msg_size s pen p v
          ((what, gen_string (codes "text")) ∷ (what, gen_string text) ∷ []) fine in
      (w, rw (f.text_bit, f.children_bit, wrote, e) refl, g, k)

  pub close_children-Frame :
      (pen : Pen G) (p : ℕ) (v : List ℕ) (t c : Bool)
      → Frame v p t c
      → (play yajl realloc pen (suffix c)).fine ≡ true
      → close_children expat yajl temp realloc fuel header_size msg_size (put s pen p v)
        ≡ ret (put s (play yajl realloc pen (suffix c)) p v, none)
  unfolding close_children children_printed_bit_from_frame
  close_children-Frame pen p v t false f fine = rw f.children_bit (unfold play in refl)
  close_children-Frame pen p v t true f fine =
      rw
        (
          f.children_bit,
          gen_or_goto_err-pen expat yajl temp realloc fuel header_size msg_size s pen p v
              ((codes "Can't gen child JSON close key", map_close)
                ∷ (codes "Can't gen JSON child array close bracket", array_close)
                ∷ [])
              fine,
        )
        refl

  pub end-Frame :
      (pen : Pen G) (p : ℕ) (v : List ℕ) (t c : Bool) (el : Bytes)
      → string_size s.http_response ≡ 0
      → 0 < p
      → p < 128
      → Frame v (p + 1) t c
      → (play yajl realloc pen (suffix c)).fine ≡ true
      → zz_parse_end_xml_element expat yajl temp realloc fuel header_size msg_size
          (put s pen (p + 1) v)
          el
        ≡ ret (put s (play yajl realloc pen (suffix c)) p v)
  unfolding zz_parse_end_xml_element
  end-Frame pen p v t c el quiet real h f fine =
      let no_error : ltb 0 (string_size s.http_response) ≡ false = ground arith in
      let back : (p + 1 + (2 ^ 64 - 1)) % 2 ^ 64 ≡ p = omega arith in
      let inner : ltb 0 p ≡ true = ground arith in
      rw (no_error, close_children-Frame pen (p + 1) v t c f fine, back, inner) refl
