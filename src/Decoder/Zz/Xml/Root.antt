-- ===== src/Decoder/Zz/Xml/Root.antt =====
-- A whole XML document: the root element's handlers, the JSON object they write and the message they queue.
use n2kafka.Prelude.{
  ℕ, ◌-◌, ◌<◌, ◌≡◌, refl, sym, ◌∙◌, ap, Bool, true, false, ltb, Option, List, [], ◌∷◌, ◌++◌,
  append-nil, length, Bytes, codes, arith,
}
use n2kafka.Prelude.Int.{pos, is_zero}
use n2kafka.Prelude.Run.{ret}
use n2kafka.Util.Str.{string_size}
use n2kafka.Util.MsgArray.{Msg, no_error, kafka_msg_array_add}
use n2kafka.Decoder.Zz.Xml.Session.{
  Call, map_close, Yajl, TempYajl, Expat, XmlSession, start_element, end_element,
}
use n2kafka.Decoder.Zz.Xml.Handlers.{
  element_calls, open_children, zz_parse_start_xml_element, zz_parse_end_xml_element, queue_message,
  handle, handle_all, no_json_last_open_map,
}
use n2kafka.Decoder.Zz.Xml.Tree.{
  Elements, no_elements, element, events, text_events, emit, values_of, element_json,
}
use n2kafka.Decoder.Zz.Xml.Pen.{
  Pen, play, play-append, play_fine, put, calls_only, gen_or_goto_err-pen,
}
use n2kafka.Decoder.Zz.Xml.Frames.{Frame}
use n2kafka.Decoder.Zz.Xml.Steps.{suffix, push_frame-Frame, close_children-Frame}
use n2kafka.Decoder.Zz.Xml.Document.{height, siblings, text_calls, is_some, siblings-emit}
use n2kafka.Decoder.Zz.Xml.Walk.{
  has_text, text_step, siblings-Frame, handle_all-append, element_run,
}

tail_calls : List Call → List Call
tail_calls [] = []
tail_calls (c ∷ cs) = cs

-- The calls for a root element.
root-emit :
    (name : Bytes) (attr : List (Bytes × Bytes)) (text : Option Bytes) (children : Elements)
    → calls_only (element_calls name attr)
        ++ text_calls text
        ++ siblings false children
        ++ suffix (is_some children)
        ++ map_close ∷ []
      ≡ emit (element_json name attr text (values_of children))
unfolding siblings emit values_of tail_calls
root-emit name attr text children =
    (simp append-nil)
    ∙ ap tail_calls (siblings-emit (element name attr text children no_elements))
    ∙ (simp append-nil)

module _ {P G T : Type 0} (expat : Expat P) (yajl : Yajl G) (temp : TempYajl T) (realloc : ℕ → Bool)
    (fuel header_size msg_size : ℕ) (s : XmlSession P G T)
    (quiet : string_size s.http_response ≡ 0) where
  -- The message of the object that begins at `offset` of the buffer.
  abbrev pub object_msg : ℕ → ℕ → Msg
  object_msg offset size = record {
    payload = offset;
    len = size - offset;
    err = no_error;
    private = false;
  }

  -- The session with the object's start recorded.
  abbrev marked : ℕ → XmlSession P G T
  marked offset = record s { last_open_map = pos offset }

  root_start :
      (pen : Pen G) (v : List ℕ) (el : Bytes) (attr : List (Bytes × Bytes))
      → length v ≡ 32
      → (play yajl realloc pen (calls_only (element_calls el attr))).fine ≡ true
      → (w : List ℕ) × (zz_parse_start_xml_element expat yajl temp realloc fuel header_size msg_size
            (put s pen 0 v)
            el
            attr
          ≡ ret (
              put
                (marked (string_size pen.buf))
                (play yajl realloc pen (calls_only (element_calls el attr)))
                1
                w))
        × Frame w 1 false false
  unfolding zz_parse_start_xml_element open_children
  root_start pen v el attr big fine =
      let m = marked (string_size pen.buf) in
      let (w, e, f, k) =
        push_frame-Frame expat yajl temp realloc fuel header_size msg_size m pen 0 v (omega arith)
          big in
      let wrote =
        gen_or_goto_err-pen expat yajl temp realloc fuel header_size msg_size m pen 1 w
          (element_calls el attr) fine in
      let no_error_yet : ltb 0 (string_size s.http_response) ≡ false = ground arith in
      (w, rw (no_error_yet, e, wrote) refl, f)

  -- The session once the root element is closed.
  abbrev pub closed : ℕ → Pen G → List ℕ → XmlSession P G T
  closed offset pen bits = record s {
    yajl_gen_buf = pen.buf;
    yajl_gen = yajl.reset pen.gen;
    stack_pos = 0;
    stack_boolean_info = bits;
    last_open_map = no_json_last_open_map;
    kafka_msgs =
        (kafka_msg_array_add realloc header_size msg_size s.kafka_msgs
          (object_msg offset (string_size pen.buf))).0;
    expat_handler = expat.stop s.expat_handler;
  }

  root_end :
      (offset : ℕ) (pen : Pen G) (v : List ℕ) (t c : Bool) (el : Bytes)
      → Frame v 1 t c
      → (play yajl realloc pen (suffix c ++ map_close ∷ [])).fine ≡ true
      → offset < string_size (play yajl realloc pen (suffix c ++ map_close ∷ [])).buf
      → (kafka_msg_array_add realloc header_size msg_size s.kafka_msgs (
          object_msg offset
            (string_size (play yajl realloc pen (suffix c ++ map_close ∷ [])).buf))).1
        ≡ pos 0
      → zz_parse_end_xml_element expat yajl temp realloc fuel header_size msg_size
          (put (marked offset) pen 1 v)
          el
        ≡ ret (closed offset (play yajl realloc pen (suffix c ++ map_close ∷ [])) v)
  unfolding zz_parse_end_xml_element queue_message
  root_end offset pen v t c el f fine grown room =
      let m = marked offset in
      let split = play-append yajl realloc pen (suffix c) (map_close ∷ []) in
      let pen' = play yajl realloc pen (suffix c) in
      let fine' : (play yajl realloc pen' (map_close ∷ [])).fine ≡ true = rw split at fine in
      let grown' : ltb offset (string_size (play yajl realloc pen' (map_close ∷ [])).buf) ≡ true =
        rw (sym split) (ground arith) in
      let wrote =
        gen_or_goto_err-pen expat yajl temp realloc fuel header_size msg_size m pen' 0 v
          ((codes "Can't gen child JSON close key", map_close) ∷ []) fine' in
      let no_error_yet : ltb 0 (string_size s.http_response) ≡ false = ground arith in
      let ended = play_fine yajl realloc pen' (map_close ∷ []) fine' in
      let message = object_msg offset (string_size (play yajl realloc pen' (map_close ∷ [])).buf) in
      let added : is_zero (kafka_msg_array_add realloc header_size msg_size s.kafka_msgs message).1
          ≡ true =
        rw (sym split) (rw room refl) in
      rw
        (
          split,
          no_error_yet,
          close_children-Frame expat yajl temp realloc fuel header_size msg_size m pen 1 v t c f
              ended,
          wrote,
          grown',
          added,
        )
        refl

  -- The session behind a document, in the four steps of its calls.
  root_run :
      (pen : Pen G) (v : List ℕ) (name : Bytes) (attr : List (Bytes × Bytes)) (text : Option Bytes)
      (children : Elements) (done : Pen G)
      → let pen1 = play yajl realloc pen (calls_only (element_calls name attr)) in
        let pen3 =
          play yajl realloc (play yajl realloc pen1 (text_calls text)) (siblings false children) in
        done ≡ play yajl realloc pen3 (suffix (is_some children) ++ map_close ∷ [])
        → length v ≡ 32
        → height children < 127
        → done.fine ≡ true
        → string_size pen.buf < string_size done.buf
        → (kafka_msg_array_add realloc header_size msg_size s.kafka_msgs
            (object_msg (string_size pen.buf) (string_size done.buf))).1
          ≡ pos 0
        → (w : List ℕ) × (length w ≡ 32)
          × (handle_all expat yajl temp realloc fuel header_size msg_size
                (put s pen 0 v)
                (events (element name attr text children no_elements))
              ≡ ret (closed (string_size pen.buf) done w))
  unfolding handle handle_all events
  root_run pen v name attr text children done calls big low fine grown room =
      let m = marked (string_size pen.buf) in
      let pen1 = play yajl realloc pen (calls_only (element_calls name attr)) in
      let pen2 = play yajl realloc pen1 (text_calls text) in
      let pen3 = play yajl realloc pen2 (siblings false children) in
      let last = suffix (is_some children) ++ map_close ∷ [] in
      let fine4 : (play yajl realloc pen3 last).fine ≡ true = rw calls at fine in
      let fine3 = play_fine yajl realloc pen3 last fine4 in
      let fine2 = play_fine yajl realloc pen2 (siblings false children) fine3 in
      let fine1 = play_fine yajl realloc pen1 (text_calls text) fine2 in
      let (w1, e1, f1) = root_start pen v name attr big fine1 in
      let (w2, e2, f2, k2) =
        text_step expat yajl temp realloc fuel header_size msg_size m quiet pen1 1 w1 text
          (omega arith) f1 fine2 in
      let (w3, e3, f3, k3) =
        siblings-Frame expat yajl temp realloc fuel header_size msg_size m quiet children pen2 1 w2
          (has_text text) false (omega arith) (omega arith) f2 fine3 in
      let e4 =
        root_end (string_size pen.buf) pen3 w3 (has_text text) (is_some children) name f3 fine4
          (rw calls at grown) (rw calls at room) in
      let inner =
        handle_all-append expat yajl temp realloc fuel header_size msg_size (put m pen1 1 w1)
          (put m pen2 1 w2) (text_events text) (events children) e2
        ∙ e3 in
      let ran =
        element_run expat yajl temp realloc fuel header_size msg_size (put s pen 0 v)
          (put m pen1 1 w1) (put m pen3 1 w3)
          (closed (string_size pen.buf) (play yajl realloc pen3 last) w3)
          (closed (string_size pen.buf) (play yajl realloc pen3 last) w3) (start_element name attr)
          (text_events text ++ events children) (end_element name) [] e1 inner e4 refl in
      (w3, f3.size, ran ∙ ap (λ (q : Pen G). ret (closed (string_size pen.buf) q w3)) (sym calls))

  -- The handlers on a whole document: its JSON object is written, and queued as a message.
  pub document_lem :
      (pen : Pen G) (v : List ℕ) (name : Bytes) (attr : List (Bytes × Bytes)) (text : Option Bytes)
      (children : Elements)
      → length v ≡ 32
      → height children < 127
      → let done =
          play yajl realloc pen (emit (element_json name attr text (values_of children))) in
        done.fine ≡ true
        → string_size pen.buf < string_size done.buf
        → (kafka_msg_array_add realloc header_size msg_size s.kafka_msgs
            (object_msg (string_size pen.buf) (string_size done.buf))).1
          ≡ pos 0
        → (w : List ℕ) × (length w ≡ 32)
          × (handle_all expat yajl temp realloc fuel header_size msg_size
                (put s pen 0 v)
                (events (element name attr text children no_elements))
              ≡ ret (closed (string_size pen.buf) done w))
  document_lem pen v name attr text children big low fine grown room =
      let done = play yajl realloc pen (emit (element_json name attr text (values_of children))) in
      let calls =
        ap (λ (cs : List Call). play yajl realloc pen cs) (sym (root-emit name attr text children))
        ∙ (simp (play-append yajl realloc)) in
      root_run pen v name attr text children done calls big low fine grown room
