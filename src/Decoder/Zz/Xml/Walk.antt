-- ===== src/Decoder/Zz/Xml/Walk.antt =====
-- The handlers on all the events of sibling elements, while the pen writes.
use n2kafka.Prelude.{
  ℕ, suc, ◌+◌, ◌*◌, ◌≤◌, ◌<◌, ◌≡◌, refl, sym, ◌∙◌, ap, Bool, true, false, ◌||◌, Option, none, some,
  List, [], ◌∷◌, ◌++◌, Bytes, arith,
}
use n2kafka.Prelude.Run.{Run, ret, fault, running, ◌>>=◌}
use n2kafka.Util.Str.{string_size}
use n2kafka.Decoder.Zz.Xml.Session.{
  Yajl, TempYajl, Expat, XmlSession, XmlEvent, start_element, end_element,
}
use n2kafka.Decoder.Zz.Xml.Handlers.{element_calls, handle, handle_all}
use n2kafka.Decoder.Zz.Xml.Tree.{Elements, no_elements, element, events, text_events}
use n2kafka.Decoder.Zz.Xml.Pen.{Pen, play, play-append, play_fine, put, calls_only}
use n2kafka.Decoder.Zz.Xml.Frames.{Frame, Keeps, Keeps-trans}
use n2kafka.Decoder.Zz.Xml.Steps.{prefix, suffix, start-Frame, text-Frame, end-Frame}
use n2kafka.Decoder.Zz.Xml.Document.{height, siblings, text_calls, is_some}

height_bounds :
    (name : Bytes) (attr : List (Bytes × Bytes)) (text : Option Bytes) (children next : Elements)
    → (suc (height children) ≤ height (element name attr text children next))
      × (height next ≤ height (element name attr text children next))
unfolding height
height_bounds name attr text children next = (ground arith, ground arith)

or_true : (c : Bool) → (c || true) ≡ true
or_true true = refl
or_true false = refl

or_false : (c : Bool) → (c || false) ≡ c
or_false true = refl
or_false false = refl

abbrev pub has_text : Option Bytes → Bool
has_text none = false
has_text (some text) = true

module _ {P G T : Type 0} (expat : Expat P) (yajl : Yajl G) (temp : TempYajl T) (realloc : ℕ → Bool)
    (fuel header_size msg_size : ℕ) where
  abbrev run : XmlSession P G T → List XmlEvent → Run (XmlSession P G T)
  run = handle_all expat yajl temp realloc fuel header_size msg_size

  abbrev after : {A : Type 0} → Run A → (A → Run (XmlSession P G T)) → Run (XmlSession P G T)
  after m f = m >>= f

  bind_split :
      (m : Run (XmlSession P G T)) (xs ys : List XmlEvent)
      → ((t : XmlSession P G T) → run t (xs ++ ys) ≡ after (run t xs) (λ u. run u ys))
      → after m (λ t. run t (xs ++ ys)) ≡ after (after m (λ t. run t xs)) (λ u. run u ys)
  bind_split (ret t) xs ys h = h t
  bind_split fault xs ys h = refl
  bind_split running xs ys h = refl

  handle_all_split :
      (s : XmlSession P G T) (xs ys : List XmlEvent)
      → run s (xs ++ ys) ≡ after (run s xs) (λ u. run u ys)
  unfolding handle_all
  handle_all_split s [] ys = refl
  handle_all_split s (x ∷ xs) ys =
      bind_split (handle expat yajl temp realloc fuel header_size msg_size s x) xs ys
        (λ t. handle_all_split t xs ys)

  pub handle_all-append :
      (s t : XmlSession P G T) (xs ys : List XmlEvent)
      → run s xs ≡ ret t
      → run s (xs ++ ys) ≡ run t ys
  handle_all-append s t xs ys h = handle_all_split s xs ys ∙ rw h refl

  abbrev step : XmlSession P G T → XmlEvent → Run (XmlSession P G T)
  step = handle expat yajl temp realloc fuel header_size msg_size

  -- A start, what is inside, an end, and what follows.
  pub element_run :
      (s0 s1 s2 s3 s4 : XmlSession P G T) (start : XmlEvent) (inside : List XmlEvent)
      (end : XmlEvent) (next : List XmlEvent)
      → step s0 start ≡ ret s1
      → run s1 inside ≡ ret s2
      → step s2 end ≡ ret s3
      → run s3 next ≡ ret s4
      → run s0 (start ∷ inside ++ end ∷ next) ≡ ret s4
  unfolding handle_all
  element_run s0 s1 s2 s3 s4 start inside end next e1 e2 e3 e4 =
      rw e1 (handle_all-append s1 s2 inside (end ∷ next) e2 ∙ rw e3 e4)

  module _ (s : XmlSession P G T) (quiet : string_size s.http_response ≡ 0) where
    pub text_step :
        (pen : Pen G) (p : ℕ) (v : List ℕ) (text : Option Bytes)
        → p < 128
        → Frame v p false false
        → (play yajl realloc pen (text_calls text)).fine ≡ true
        → (w : List ℕ) × (run (put s pen p v) (text_events text)
            ≡ ret (put s (play yajl realloc pen (text_calls text)) p w))
          × Frame w p (has_text text) false
          × Keeps (p * 2) v w
    unfolding handle_all handle play
    text_step pen p v none h f fine = (v, refl, f, record { size = refl; same = λ j lt. refl })
    text_step pen p v (some text) h f fine =
        let (w, e, g, k) =
          text-Frame expat yajl temp realloc fuel header_size msg_size s pen p v text h f fine in
        (w, rw e refl, g, k)

    -- From a frame with no text after its children, the handlers make the siblings' calls, leave the
    -- frame marked as having children if there are any, and touch no frame below it.
    pub siblings-Frame :
        (es : Elements) (pen : Pen G) (p : ℕ) (v : List ℕ) (t c : Bool)
        → 0 < p
        → p + height es < 128
        → Frame v p t c
        → (play yajl realloc pen (siblings c es)).fine ≡ true
        → (w : List ℕ) × (run (put s pen p v) (events es)
            ≡ ret (put s (play yajl realloc pen (siblings c es)) p w))
          × Frame w p t (c || is_some es)
          × Keeps (p * 2 + 1) v w
    unfolding handle_all handle events siblings play
    siblings-Frame no_elements pen p v t c real h f fine =
        (v, refl, rw (or_false c) f, record { size = refl; same = λ j lt. refl })
    siblings-Frame (element name attr text children next) pen p v t c real h f fine =
        let calls = prefix c ++ calls_only (element_calls name attr) in
        let pen1 = play yajl realloc pen calls in
        let pen2 = play yajl realloc pen1 (text_calls text) in
        let pen3 = play yajl realloc pen2 (siblings false children) in
        let pen4 = play yajl realloc pen3 (suffix (is_some children)) in
        let split : play yajl realloc pen (siblings c (element name attr text children next))
            ≡ play yajl realloc pen4 (siblings true next) =
          simp (play-append yajl realloc) in
        let fine5 : (play yajl realloc pen4 (siblings true next)).fine ≡ true =
          sym (ap (λ (q : Pen G). q.fine) split) ∙ fine in
        let fine4 = play_fine yajl realloc pen4 (siblings true next) fine5 in
        let fine3 = play_fine yajl realloc pen3 (suffix (is_some children)) fine4 in
        let fine2 = play_fine yajl realloc pen2 (siblings false children) fine3 in
        let fine1 = play_fine yajl realloc pen1 (text_calls text) fine2 in
        let (hc, hn) = height_bounds name attr text children next in
        let (w1, e1, f1, g1, k1) =
          start-Frame expat yajl temp realloc fuel header_size msg_size s pen p v t c name attr
            quiet real (omega arith) f fine1 in
        let (w2, e2, g2, k2) = text_step pen1 (p + 1) w1 text (omega arith) g1 fine2 in
        let (w3, e3, g3, k3) =
          siblings-Frame children pen2 (p + 1) w2 (has_text text) false (omega arith) (omega arith)
            g2 fine3 in
        let e4 =
          end-Frame expat yajl temp realloc fuel header_size msg_size s pen3 p w3 (has_text text)
            (is_some children) name quiet real (omega arith) g3 fine4 in
        let k13 = Keeps-trans ((p + 1) * 2) ((p + 1) * 2 + 1) w1 w2 w3 (omega arith) k2 k3 in
        let f3 : Frame w3 p t true = record {
          size = g3.size;
          text_bit = k13.same (p * 2) (omega arith) ∙ f1.text_bit;
          children_bit = k13.same (p * 2 + 1) (omega arith) ∙ f1.children_bit;
        } in
        let (w5, e5, f5, k5) = siblings-Frame next pen4 p w3 t true real (omega arith) f3 fine5 in
        let inner =
          handle_all-append (put s pen1 (p + 1) w1) (put s pen2 (p + 1) w2) (text_events text)
            (events children) e2
          ∙ e3 in
        let ran =
          element_run (put s pen p v) (put s pen1 (p + 1) w1) (put s pen3 (p + 1) w3)
            (put s pen4 p w3) (put s (play yajl realloc pen4 (siblings true next)) p w5)
            (start_element name attr) (text_events text ++ events children) (end_element name)
            (events next) e1 inner e4 e5 in
        (
          w5,
          ran ∙ ap (λ (q : Pen G). ret (put s q p w5)) (sym split),
          rw (or_true c) f5,
          Keeps-trans (p * 2 + 1) (p * 2 + 1) v w3 w5 (omega arith)
              (Keeps-trans (p * 2 + 1) ((p + 1) * 2) v w1 w3 (omega arith) k1 k13) k5,
        )
