-- ===== src/Decoder/Zz/Xml/Process.antt =====
-- src/decoder/zz_http2k/zz_http2k_parser_xml.c: a chunk given to expat, the messages it leaves, the error text sent
-- back, and the session's start.
--
-- `new_buffer` is the address of the buffer that the messages take over.
use n2kafka.Prelude.{
  ℕ, zero, suc, Bool, true, false, not, ◌&&◌, Option, none, some, List, [], ◌∷◌, ◌++◌, leb, ◌==◌,
  if◌then◌else◌, Bytes, codes, drop, length,
}
use n2kafka.Prelude.Int.{ℤ, pos, negsuc, is_positive}
use n2kafka.Prelude.Run.{Run, ret, fault, running, ◌>>=◌}
use n2kafka.Util.Str.{Str, string_init, string_printf, string_size}
use n2kafka.Util.Str.Escape.{decimal}
use n2kafka.Util.MsgArray.{kafka_message_array_size, set_payload_buffer}
use n2kafka.Decoder.Api.{DecoderErr, callback_ok}
use n2kafka.Decoder.Zz.Xml.Errors.{XmlError, xml_aborted, xml_junk_after_doc_element, gen_ok}
use n2kafka.Decoder.Zz.Xml.Session.{
  Yajl, TempYajl, XmlStatus, status_ok, status_error, status_suspended, callback, returns, Expat,
  XmlSession, queue_xml_error,
}
use n2kafka.Decoder.Zz.Xml.Handlers.{handle}

abbrev pub is_junk_or_aborted : XmlError → Bool
is_junk_or_aborted xml_junk_after_doc_element = true
is_junk_or_aborted xml_aborted = true
is_junk_or_aborted _ = false

abbrev pub is_status_ok : XmlStatus → Bool
is_status_ok status_ok = true
is_status_ok _ = false

module _ {P G T : Type 0} (expat : Expat P) (yajl : Yajl G) (temp : TempYajl T) (realloc : ℕ → Bool)
    (fuel header_size msg_size new_buffer : ℕ) where
  abbrev State : Type 0
  State = XmlSession P G T

  -- XML_Parse, once the parser has its input: the calls of the handlers, then its return.
  unfoldable pub xml_parse : ℕ → State → Run (State × XmlStatus)
  xml_parse zero s = running
  xml_parse (suc rounds) s = elim (expat.next s.expat_handler) [
    | returns status p ↦ ret (record s { expat_handler = p }, status)
    | callback event p ↦
        handle expat yajl temp realloc fuel header_size msg_size (record s { expat_handler = p })
          event
        >>= xml_parse rounds
  ]

  unfoldable pub true_error : State → XmlStatus → Bool
  true_error s status_ok = false
  true_error s status_suspended = not (s.http_response.cap == 0)
  true_error s status_error = not (is_junk_or_aborted (expat.error_code s.expat_handler))

  -- zz_reset_xml_handler with the reset.
  abbrev pub zz_reset_xml_handler : State → State
  zz_reset_xml_handler s = record s { expat_handler = expat.reset s.expat_handler }

  -- The rest of the buffer behind the parser's offset: none for the assert. The comparison is one of
  -- size_t, where a negative offset is out of any buffer.
  abbrev pub skip_parsed : ℤ → Bytes → Option Bytes
  skip_parsed (pos offset) buffer =
      if leb offset (length buffer) then some (drop offset buffer) else none
  skip_parsed (negsuc n) buffer = none

  -- The loop's body behind XML_Parse: the session, and the rest of the buffer to go on with.
  unfoldable pub after_parse : Bytes → State × XmlStatus → Run (State × Option Bytes)
  after_parse buffer (s, stat) =
      if is_status_ok stat
      then ret (s, none)
      else if true_error s stat
      then (queue_xml_error expat realloc fuel s (codes "Error parsing XML") gen_ok >>= λ t.
          ret (t, none))
      else if not (is_positive (expat.byte_index s.expat_handler))
          && string_size s.http_response == 0
      then (queue_xml_error expat realloc fuel s (codes "Can't get parse offset") gen_ok >>= λ t.
          ret (t, none))
      else elim (skip_parsed (expat.byte_index s.expat_handler) buffer) [
        | none ↦ fault
        | some rest ↦ ret (zz_reset_xml_handler s, some rest)
      ]

  -- The loop, for at most `rounds` calls of XML_Parse of at most `callbacks` steps.
  unfoldable pub parse_loop : ℕ → ℕ → Bytes → State → Run State
  parse_loop zero callbacks buffer s = running
  parse_loop (suc rounds) callbacks buffer s =
      elim (not (length buffer == 0) && string_size s.http_response == 0) [
        | false ↦ ret s
        | true ↦
            xml_parse callbacks (record s { expat_handler = expat.feed s.expat_handler buffer })
            >>= after_parse buffer
            >>= λ (t, left). elim left [
              | none ↦ ret t
              | some rest ↦ parse_loop rounds callbacks rest t
            ]
      ]

  -- Behind the loop: the messages take the buffer over, or it is freed.
  unfoldable pub give_buffer : State → Run (State × DecoderErr)
  give_buffer s =
      let t = record s { yajl_gen_buf = string_init } in
      if kafka_message_array_size s.kafka_msgs == 0
      then ret (t, s.rc)
      else (set_payload_buffer s.kafka_msgs (some new_buffer) true >>= λ kafka_msgs.
          ret (record t { kafka_msgs = kafka_msgs }, s.rc))

  unfoldable pub process_xml_buffer : ℕ → ℕ → Bytes → State → Run (State × DecoderErr)
  process_xml_buffer rounds callbacks buffer s =
      parse_loop rounds callbacks buffer s >>= give_buffer

abbrev pub is_ok : DecoderErr → Bool
is_ok callback_ok = true
is_ok _ = false

-- A string_printf into a fresh string, whose return value is not looked at.
unfoldable pub xml_error_message : (ℕ → Bool) → ℕ → Str → DecoderErr → ℕ → Run Str
xml_error_message realloc fuel error_str decoder_rc messages_queued =
    string_printf realloc fuel string_init (
      codes "<result><messages_queued>"
      ++ decimal messages_queued
      ++ codes "</messages_queued>"
      ++ (if is_ok decoder_rc then [] else error_str.bytes)
      ++ codes "</result>")
    >>= λ (s, printf_rc). ret s

-- What new_zz_session_xml does with the two libraries, in order.
pub data SetUp : Type 0 where
  set_handlers configure_generator parser_freed : SetUp

-- new_zz_session_xml: its return code and its calls. `parser_created` and `generator_created` say which
-- allocation succeeds.
unfoldable pub new_zz_session_xml : Bool → Bool → ℤ × List SetUp
new_zz_session_xml parser_created generator_created =
    if not parser_created
    then (negsuc 0, [])
    else if not generator_created
    then (negsuc 0, set_handlers ∷ parser_freed ∷ parser_freed ∷ [])
    else (pos 0, set_handlers ∷ configure_generator ∷ [])
