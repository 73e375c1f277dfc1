-- ===== src/Decoder/Zz/Xml/Handlers.antt =====
-- src/decoder/zz_http2k/zz_http2k_parser_xml.c: the handlers that expat calls.
--
-- GEN_OR_GOTO_ERR is a generator call with the text of its error; a `goto err` is the failure that a step
-- leaves, and the steps behind it are not taken.
use n2kafka.Prelude.{
  ℕ, ◌+◌, ◌-◌, ◌%◌, ◌^◌, Bool, true, false, not, Option, none, some, List, [], ◌∷◌, ◌++◌, ltb, ◌==◌,
  if◌then◌else◌, Bytes, codes, drop,
}
use n2kafka.Prelude.Int.{ℤ, pos, negsuc, minus_one, is_zero}
use n2kafka.Prelude.Run.{Run, ret, fault, ◌>>=◌}
use n2kafka.Util.Str.{string_append, string_pop_back, string_size}
use n2kafka.Util.MsgArray.{Msg, no_error, kafka_msg_array_add}
use n2kafka.Decoder.Zz.Xml.Bits.{
  set_current_stack_text_printed, clear_current_stack_text_printed, test_current_stack_text_printed,
  set_current_stack_children_printed, clear_current_stack_children_printed,
  test_current_stack_children_printed,
}
use n2kafka.Decoder.Zz.Xml.Errors.{GenStatus, gen_ok}
use n2kafka.Decoder.Zz.Xml.Session.{
  Call, gen_string, map_open, map_close, array_open, array_close, Yajl, TempYajl, XmlEvent,
  start_element, end_element, character_data, Expat, XmlSession, queue_xml_error, print_all,
}

abbrev pub no_json_last_open_map : ℤ
no_json_last_open_map = minus_one

abbrev pub is_gen_ok : GenStatus → Bool
is_gen_ok gen_ok = true
is_gen_ok _ = false

-- error_what and gen_status.
pub record Failure : Type 0 where
  pub error_what : Bytes
  pub gen_status : GenStatus

-- The size_t `n - 1`.
abbrev pub decrement : ℕ → ℕ
decrement n = (n + (2 ^ 64 - 1)) % 2 ^ 64

-- The calls of the loop over the attributes from the i-th on; `first` is `i == 0`.
unfoldable pub attribute_calls : Bool → List (Bytes × Bytes) → List (Bytes × Call)
attribute_calls first [] = []
attribute_calls first ((name, value) ∷ attr) =
    let rest = attribute_calls false attr in
    (if first
      then (codes "Can't gen JSON attributes key", gen_string (codes "attributes"))
        ∷ (codes "Can't gen JSON attributes open brace", map_open)
        ∷ []
      else [])
    ++ (codes "Can't gen JSON attribute key + val", gen_string name)
      ∷ (codes "Can't gen JSON attribute key + val", gen_string value)
      ∷ elim attr [ [] ↦ (codes "Can't gen JSON close brace", map_close) ∷ [] | _ ∷ _ ↦ rest ]

-- The calls for an element's name and attributes.
abbrev pub element_calls : Bytes → List (Bytes × Bytes) → List (Bytes × Call)
element_calls el attr =
    (codes "Can't gen JSON object open brace", map_open)
    ∷ (codes "Can't gen JSON text", gen_string (codes "tag"))
    ∷ (codes "Can't gen JSON text", gen_string el)
    ∷ attribute_calls true attr

module _ {P G T : Type 0} (expat : Expat P) (yajl : Yajl G) (temp : TempYajl T) (realloc : ℕ → Bool)
    (fuel header_size msg_size : ℕ) where
  abbrev State : Type 0
  State = XmlSession P G T

  -- One call of the generator, the print callbacks in it included.
  unfoldable pub generate : State → Call → Run (State × GenStatus)
  generate s c =
      let (yajl_gen, status, strs) = yajl.call s.yajl_gen c in
      print_all expat realloc fuel (record s { yajl_gen = yajl_gen }) strs >>= λ s'.
      ret (s', status)

  unfoldable pub gen_or_goto_err : State → List (Bytes × Call) → Run (State × Option Failure)
  gen_or_goto_err s [] = ret (s, none)
  gen_or_goto_err s ((err_str, c) ∷ calls) = generate s c >>= λ (s', status).
      elim (is_gen_ok status) [
        | true ↦ gen_or_goto_err s' calls
        | false ↦ ret (s', some (record { error_what = err_str; gen_status = status }))
      ]

  -- What follows a step that may have gone to err.
  abbrev pub continue :
      (State → Run (State × Option Failure)) → State × Option Failure → Run (State × Option Failure)
  continue next (s, failed) = elim failed [ none ↦ next s | some f ↦ ret (s, some f) ]

  -- The label err of the element handlers.
  abbrev pub element_err : State × Option Failure → Run State
  element_err (s, failed) = elim failed [
    | none ↦ ret s
    | some f ↦ queue_xml_error expat realloc fuel s f.error_what f.gen_status >>= λ s'.
        ret (record s' { last_open_map = no_json_last_open_map })
  ]

  unfoldable pub open_children : State → Run (State × Option Failure)
  open_children s =
      if s.stack_pos == 0
      then ret (record s { last_open_map = pos (string_size s.yajl_gen_buf) }, none)
      else (test_current_stack_children_printed s.stack_boolean_info s.stack_pos >>= λ printed.
          if not printed
          then (gen_or_goto_err s (
                (codes "Can't gen JSON children key", gen_string (codes "children"))
                ∷ (codes "Can't gen JSON child array open bracket", array_open)
                ∷ [])
              >>= continue (λ t.
                set_current_stack_children_printed t.stack_boolean_info t.stack_pos >>= λ bits.
                ret (record t { stack_boolean_info = bits }, none)))
          else gen_or_goto_err s ((codes "Can't gen JSON child array close brace", map_close) ∷ []))

  unfoldable pub push_frame : State → Run State
  push_frame s =
      let stack_pos = s.stack_pos + 1 in
      clear_current_stack_text_printed s.stack_boolean_info stack_pos >>= λ bits.
      clear_current_stack_children_printed bits stack_pos >>= λ bits'.
      ret (record s { stack_pos = stack_pos; stack_boolean_info = bits' })

  unfoldable pub zz_parse_start_xml_element : State → Bytes → List (Bytes × Bytes) → Run State
  zz_parse_start_xml_element s el attr =
      if ltb 0 (string_size s.http_response)
      then ret s
      else (open_children s
          >>= continue (λ t. push_frame t >>= λ u. gen_or_goto_err u (element_calls el attr))
          >>= element_err)

  unfoldable pub close_children : State → Run (State × Option Failure)
  close_children s =
      test_current_stack_children_printed s.stack_boolean_info s.stack_pos >>= λ printed.
      if printed
      then gen_or_goto_err s (
          (codes "Can't gen child JSON close key", map_close)
          ∷ (codes "Can't gen JSON child array close bracket", array_close)
          ∷ [])
      else ret (s, none)

  -- The message of a root element that has been closed.
  unfoldable pub queue_message : State → Run State
  queue_message s = elim s.last_open_map [
    | negsuc n ↦ fault
    | pos offset ↦
        let buf_siz = string_size s.yajl_gen_buf in
        let msg : Msg = record {
          payload = offset;
          len = buf_siz - offset;
          err = no_error;
          private = false;
        } in
        let (kafka_msgs, add_rc) =
          kafka_msg_array_add realloc header_size msg_size s.kafka_msgs msg in
        let t : State = record s {
          kafka_msgs = kafka_msgs;
          last_open_map = no_json_last_open_map;
          yajl_gen = yajl.reset s.yajl_gen;
        } in
        if not (ltb offset buf_siz)
        then fault
        else ((if is_zero add_rc
              then ret t
              else queue_xml_error expat realloc fuel t (codes "Couldn't add kafka message (OOM?)")
                  gen_ok)
            >>= λ u. ret (record u { expat_handler = expat.stop u.expat_handler }))
  ]

  unfoldable pub zz_parse_end_xml_element : State → Bytes → Run State
  zz_parse_end_xml_element s element_name =
      if ltb 0 (string_size s.http_response)
      then ret s
      else (close_children s >>= λ (t, failed). elim failed [
        | some f ↦ element_err (t, some f)
        | none ↦
            let u = record t { stack_pos = decrement t.stack_pos } in
            if ltb 0 u.stack_pos
            then ret u
            else (gen_or_goto_err u ((codes "Can't gen child JSON close key", map_close) ∷ [])
                >>= λ (v, failed'). elim failed' [
                  | some f ↦ element_err (v, some f)
                  | none ↦ queue_message v
                ])
      ])

  -- The label err of the text handler: the generator's status is not reported.
  abbrev text_err : State × Option Bytes → Run State
  text_err (s, error_what) = elim error_what [
    | none ↦ ret s
    | some what ↦ queue_xml_error expat realloc fuel s what gen_ok
  ]

  -- The first text of a frame.
  unfoldable pub first_text : State → Bytes → Run (State × Option Failure)
  first_text s text =
      test_current_stack_children_printed s.stack_boolean_info s.stack_pos >>= λ printed.
      let key = if printed then codes "tail" else codes "text" in
      let what = codes "Can't gen JSON attribute key + val in XML tag text" in
      gen_or_goto_err s ((what, gen_string key) ∷ (what, gen_string text) ∷ [])
      >>= continue (λ t. set_current_stack_text_printed t.stack_boolean_info t.stack_pos >>= λ bits.
          ret (record t { stack_boolean_info = bits }, none))

  -- More text for the string that ends the buffer. What string_append returns is not looked at.
  unfoldable pub more_text : State → Bytes → Run (State × Option Bytes)
  more_text s text =
      let handle : Option T = elim s.temp_yajl [ none ↦ temp.alloc | some t ↦ some t ] in
      elim handle [
        | none ↦ ret (s, some (codes "Can't allocate temporary JSON generator (OOM?)"))
        | some t ↦
            let (t', gen_status) = temp.string (temp.clear t) text in
            let u : State = record s { temp_yajl = some t' } in
            elim (is_gen_ok gen_status) [
              | false ↦ ret (u, some (codes "Can't generate XML text in JSON string"))
              | true ↦ string_pop_back u.yajl_gen_buf >>= λ buf.
                  let (buf', append_rc) = string_append realloc buf (drop 1 (temp.buffer t')) in
                  ret (record u { yajl_gen_buf = buf' }, none)
            ]
      ]

  unfoldable pub zz_parse_xml_character_data : State → Bytes → Run State
  zz_parse_xml_character_data s text =
      test_current_stack_text_printed s.stack_boolean_info s.stack_pos >>= λ printed.
      if not printed
      then (first_text s text >>= λ (t, failed). elim failed [
        | none ↦ ret t
        | some f ↦ text_err (t, some f.error_what)
      ])
      else (more_text s text >>= text_err)

  -- zz_reset_xml_handler sets these three handlers.
  unfoldable pub handle : State → XmlEvent → Run State
  handle s (start_element el attr) = zz_parse_start_xml_element s el attr
  handle s (end_element el) = zz_parse_end_xml_element s el
  handle s (character_data text) = zz_parse_xml_character_data s text

  unfoldable pub handle_all : State → List XmlEvent → Run State
  handle_all s [] = ret s
  handle_all s (event ∷ events) = handle s event >>= λ s'. handle_all s' events
