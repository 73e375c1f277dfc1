-- ===== src/Decoder/Zz/Xml/Sample.antt =====
-- A generator of the JSON text of its calls, and an XML parser, to run the XML session on concrete input.
use n2kafka.Prelude.{ℕ, ◌+◌, Bool, true, false, none, some, List, [], ◌∷◌, ◌++◌, Bytes, codes, drop}
use n2kafka.Prelude.Int.{pos, minus_one}
use n2kafka.Util.Str.{string_init}
use n2kafka.Util.MsgArray.{msg_array_init}
use n2kafka.Decoder.Api.{callback_ok}
use n2kafka.Decoder.Zz.Xml.Errors.{xml_aborted, gen_ok, GenStatus}
use n2kafka.Decoder.Zz.Xml.Session.{
  Call, gen_string, map_open, map_close, array_open, array_close, Yajl, TempYajl, XmlEvent,
  status_ok, status_error, Step, callback, returns, Expat, XmlSession,
}

-- Where the generator stands in each open object or array.
pub data Place : Type 0 where
  map_start map_key map_value array_start in_array : Place

abbrev separator : List Place → Bytes
separator (map_key ∷ places) = codes ":"
separator (map_value ∷ places) = codes ","
separator (in_array ∷ places) = codes ","
separator _ = []

abbrev placed : List Place → List Place
placed (map_start ∷ places) = map_key ∷ places
placed (map_key ∷ places) = map_value ∷ places
placed (map_value ∷ places) = map_key ∷ places
placed (array_start ∷ places) = in_array ∷ places
placed places = places

abbrev call : List Place → Call → List Place × GenStatus × List Bytes
call places (gen_string text) =
    (placed places, gen_ok, separator places ∷ (codes "\"" ++ text ++ codes "\"") ∷ [])
call places map_open = (map_start ∷ placed places, gen_ok, separator places ∷ codes "{" ∷ [])
call places array_open = (array_start ∷ placed places, gen_ok, separator places ∷ codes "[" ∷ [])
call places map_close = (drop 1 places, gen_ok, codes "}" ∷ [])
call places array_close = (drop 1 places, gen_ok, codes "]" ∷ [])

abbrev pub printer : Yajl (List Place)
printer = record { call = call; reset = λ places. [] }

-- It holds the text last printed.
abbrev pub temp_printer : TempYajl Bytes
temp_printer = record {
  alloc = some [];
  clear = λ t. [];
  string = λ t text. (t ++ codes "\"" ++ text ++ codes "\"", gen_ok);
  buffer = λ t. t;
}

-- A parser whose input is given as events, one a byte; it is stopped or not.
abbrev pub Script : Type 0
Script = List XmlEvent × ℕ × Bool

abbrev next : Script → Step Script
next (events, used, true) = returns status_error (events, used, true)
next ([], used, false) = returns status_ok ([], used, false)
next (event ∷ events, used, false) = callback event (events, used + 1, false)

abbrev pub scripted : Expat Script
scripted = record {
  feed = λ p buffer. p;
  next = next;
  stop = λ (events, used, stopped). (events, used, true);
  reset = λ (events, used, stopped). (events, 0, false);
  error_code = λ p. xml_aborted;
  error_string = λ e. some (codes "parsing aborted");
  line = λ p. 1;
  column = λ p. 0;
  byte_index = λ (events, used, stopped). pos used;
}

abbrev pub zero_bytes : Bytes
zero_bytes =
    0 ∷ 0 ∷ 0 ∷ 0 ∷ 0 ∷ 0 ∷ 0 ∷ 0 ∷ 0 ∷ 0 ∷ 0 ∷ 0 ∷ 0 ∷ 0 ∷ 0 ∷ 0 ∷ 0 ∷ 0 ∷ 0 ∷ 0 ∷ 0 ∷ 0 ∷ 0 ∷ 0
    ∷ 0 ∷ 0 ∷ 0 ∷ 0 ∷ 0 ∷ 0 ∷ 0 ∷ 0 ∷ []

-- A session that new_zz_session_xml has just set up, with a parser for these events.
abbrev pub fresh : List XmlEvent → XmlSession Script (List Place) Bytes
fresh events = record {
  http_response = string_init;
  kafka_msgs = msg_array_init;
  yajl_gen_buf = string_init;
  last_open_map = minus_one;
  stack_pos = 0;
  stack_boolean_info = zero_bytes;
  expat_handler = (events, 0, false);
  yajl_gen = [];
  temp_yajl = none;
  rc = callback_ok;
}
