-- ===== src/Decoder/Zz/Xml/Session.antt =====
-- src/decoder/zz_http2k/zz_http2k_parser_xml.c and .h: the session's state and its error texts.
--
-- expat and yajl's generator are the arguments `expat` and `yajl`; `P` and `G` are their handles, `T` the
-- handle of the generator that a thread keeps for the text of an element.
use n2kafka.Prelude.{
  ℕ, ◌+◌, Bool, Option, none, some, List, [], ◌∷◌, ◌++◌, if◌then◌else◌, Bytes, codes,
}
use n2kafka.Prelude.Int.{ℤ, pos, negsuc, is_zero, is_negative}
use n2kafka.Prelude.Run.{Run, ret, ◌>>=◌}
use n2kafka.Util.Str.{Str, string_append, string_printf}
use n2kafka.Util.Str.Escape.{decimal}
use n2kafka.Util.MsgArray.{MsgArray}
use n2kafka.Decoder.Api.{DecoderErr, callback_ok}
use n2kafka.Decoder.Zz.Xml.Errors.{
  XmlError, GenStatus, gen_ok, expat_err2codestr, yajl_gen_err2codestr,
}

-- The calls of yajl_gen_string, yajl_gen_map_open, and so on.
pub data Call : Type 0 where
  gen_string : Bytes → Call
  map_open map_close array_open array_close : Call

-- yajl's generator: a call gives its status and the texts that it hands to the print callback.
-- `reset` is yajl_gen_reset with no separator.
pub record Yajl (G : Type 0) : Type 0 where
  pub call : G → Call → G × GenStatus × List Bytes
  pub reset : G → G

-- The generator with no print callback: `none` of `alloc` is a NULL, `clear` is yajl_gen_reset with an
-- empty separator and yajl_gen_clear, and `buffer` is yajl_gen_get_buf.
pub record TempYajl (T : Type 0) : Type 0 where
  pub alloc : Option T
  pub clear : T → T
  pub string : T → Bytes → T × GenStatus
  pub buffer : T → Bytes

pub data XmlEvent : Type 0 where
  start_element : Bytes → List (Bytes × Bytes) → XmlEvent
  end_element : Bytes → XmlEvent
  character_data : Bytes → XmlEvent

pub data XmlStatus : Type 0 where
  status_ok status_error status_suspended : XmlStatus

-- What XML_Parse does next: it calls a handler, or it returns.
pub data Step (P : Type 0) : Type 0 where
  callback : XmlEvent → P → Step P
  returns : XmlStatus → P → Step P

-- expat: XML_Parse is `feed` with the buffer, then `next` until it returns.
pub record Expat (P : Type 0) : Type 0 where
  pub feed : P → Bytes → P
  pub next : P → Step P
  pub stop : P → P
  pub reset : P → P
  pub error_code : P → XmlError
  pub error_string : XmlError → Option Bytes
  pub line : P → ℕ
  pub column : P → ℕ
  pub byte_index : P → ℤ

-- The parts of zz_session that the XML parser uses, zz_xml_session among them, and the thread's generator.
pub record XmlSession (P G T : Type 0) : Type 0 where
  pub http_response : Str
  pub kafka_msgs : MsgArray
  pub yajl_gen_buf : Str
  pub last_open_map : ℤ
  pub stack_pos : ℕ
  pub stack_boolean_info : List ℕ
  pub expat_handler : P
  pub yajl_gen : G
  pub temp_yajl : Option T
  pub rc : DecoderErr

-- The %ld of vsnprintf.
abbrev pub signed_decimal : ℤ → Bytes
signed_decimal (pos n) = decimal n
signed_decimal (negsuc n) = codes "-" ++ decimal (n + 1)

-- The %s of glibc's vsnprintf.
abbrev pub shown : Option Bytes → Bytes
shown none = codes "(null)"
shown (some text) = text

abbrev pub or_code : DecoderErr → DecoderErr → DecoderErr
or_code callback_ok e = e
or_code e _ = e

pub error_text : Bytes → Option Bytes → Option Bytes → ℕ → ℕ → ℤ → Bytes
error_text what json xml line column byte =
    codes "<errors><error><what>"
    ++ what
    ++ codes "</what><json><detail>"
    ++ shown json
    ++ codes "</<detail></json><input_parser><detail>"
    ++ shown xml
    ++ codes "</detail><line>"
    ++ decimal line
    ++ codes "</line><column>"
    ++ decimal column
    ++ codes "</column><byte>"
    ++ signed_decimal byte
    ++ codes "</byte></input_parser></error></errors>"

module _ {P G T : Type 0} (expat : Expat P) (realloc : ℕ → Bool) (fuel : ℕ) where
  -- After string_printf.
  queued : XmlSession P G T → Str × ℤ → XmlSession P G T
  queued s (response, printf_rc) =
      if is_negative printf_rc
      then record s { http_response = response }
      else record s { http_response = response; expat_handler = expat.stop s.expat_handler }

  pub queue_xml_error0 :
      XmlSession P G T → Bytes → Option Bytes → Option Bytes → DecoderErr → Run (XmlSession P G T)
  unfolding queued error_text
  queue_xml_error0 s what json xml return_code =
      let p = s.expat_handler in
      string_printf realloc fuel s.http_response
        (error_text what json xml (expat.line p) (expat.column p) (expat.byte_index p))
      >>= λ printed. ret (queued (record s { rc = return_code }) printed)

  unfoldable pub queue_xml_error : XmlSession P G T → Bytes → GenStatus → Run (XmlSession P G T)
  unfolding queue_xml_error0
  queue_xml_error s text yajl_gen_status =
      let yajl_rc = yajl_gen_err2codestr yajl_gen_status in
      let xml_rc = expat_err2codestr expat.error_string (expat.error_code s.expat_handler) in
      queue_xml_error0 s text yajl_rc.err xml_rc.err (or_code yajl_rc.err_code xml_rc.err_code)

  unfoldable pub yajl_print_callback : XmlSession P G T → Bytes → Run (XmlSession P G T)
  yajl_print_callback s str =
      let (buf, append_rc) = string_append realloc s.yajl_gen_buf str in
      let appended = record s { yajl_gen_buf = buf } in
      if is_zero append_rc
      then ret appended
      else queue_xml_error appended (codes "Unable to append JSON text (OOM?)") gen_ok

  -- The calls of the print callback in one call of the generator.
  unfoldable pub print_all : XmlSession P G T → List Bytes → Run (XmlSession P G T)
  print_all s [] = ret s
  print_all s (str ∷ strs) = yajl_print_callback s str >>= λ s'. print_all s' strs
