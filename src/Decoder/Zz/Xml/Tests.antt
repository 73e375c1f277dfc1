-- ===== src/Decoder/Zz/Xml/Tests.antt =====
-- Runs of the XML session, and the theorems at concrete sessions.
use n2kafka.Prelude.{
  ℕ, ◌≡◌, refl, Bool, true, none, some, List, [], ◌∷◌, ◌++◌, Bytes, codes, arith, map,
}
use n2kafka.Prelude.Run.{ret}
use n2kafka.Util.Str.{string_init, string_append}
use n2kafka.Decoder.Api.{invalid_request}
use n2kafka.Decoder.Zz.Xml.Bits.{bit_test, char_test}
use n2kafka.Decoder.Zz.Xml.BitLaws.{Written, bit_put, bit_put-Written}
use n2kafka.Decoder.Zz.Xml.Session.{XmlEvent, start_element, character_data, XmlSession}
use n2kafka.Decoder.Zz.Xml.Handlers.{handle_all}
use n2kafka.Util.Str.Grow.{IsWf-init, string_append-Appended}
use n2kafka.Prelude.Int.{pos}
use n2kafka.Util.MsgArray.Add.{empty}
use n2kafka.Decoder.Zz.Xml.Tree.{
  Elements, no_elements, element, events, emit, values_of, element_json,
}
use n2kafka.Decoder.Zz.Xml.Document.{height}
use n2kafka.Decoder.Zz.Xml.Output.{speak, Extends, Extends-size, append-Extends}
use n2kafka.Decoder.Zz.Xml.Message.{Delivered, document-Delivered}
use n2kafka.Decoder.Zz.Xml.Process.{parse_loop}
use n2kafka.Decoder.Zz.Xml.Loop.{parse_loop_enough}
use n2kafka.Decoder.Zz.Xml.Text.{InText, IsQuoter, pieces-InText}
use n2kafka.Decoder.Zz.Xml.Sample.{
  Script, Place, printer, temp_printer, scripted, fresh, zero_bytes,
}

abbrev grant : ℕ → Bool
grant n = true

-- <a k="v">x<b/></a>
abbrev children : Elements
children = element (codes "b") [] none no_elements no_elements

document-Delivered_example :
    (t : XmlSession Script (List Place) Bytes) × (handle_all scripted printer temp_printer grant 4
        32 64
        (fresh [])
        (events (
          element
            (codes "a")
            ((codes "k", codes "v") ∷ [])
            (some (codes "x"))
            children
            no_elements))
      ≡ ret t)
    × Delivered scripted printer 32 64
        (fresh [])
        []
        (codes
          "{\"tag\":\"a\",\"attributes\":{\"k\":\"v\"},\"text\":\"x\",\"children\":[{\"tag\":\"b\"}]}")
        (speak printer (fresh []).yajl_gen (
          emit (
            element_json
              (codes "a")
              ((codes "k", codes "v") ∷ [])
              (some (codes "x"))
              (values_of children)))).gen
        t
unfolding speak emit values_of height
document-Delivered_example =
    document-Delivered scripted printer temp_printer grant 4 32 64 (λ n. refl) (omega arith)
      (omega arith) (omega arith) (fresh []) [] (codes "a") ((codes "k", codes "v") ∷ [])
      (some (codes "x")) children
      (record {
        quiet = refl;
        outside = refl;
        bits = refl;
        buffer = IsWf-init;
        queue = empty refl refl;
      })
      (omega arith) refl (omega arith) (omega arith) (omega arith)

abbrev one_start : List XmlEvent
one_start = start_element (codes "a") [] ∷ []

parse_loop_enough_example :
    parse_loop scripted printer temp_printer grant 4 32 64 5000 4 9 (codes "<a>") (fresh one_start)
    ≡ parse_loop scripted printer temp_printer grant 4 32 64 5000 9 9
        (codes "<a>")
        (fresh one_start)
parse_loop_enough_example =
    parse_loop_enough scripted printer temp_printer grant 4 32 64 5000 3 8 9 (codes "<a>")
      (fresh one_start) (omega arith) (omega arith)

-- A session with an error queued.
abbrev refused : XmlSession Script (List Place) Bytes
refused = record (fresh []) {
  http_response = record { cap = 4096; bytes = codes "<errors/>" };
  rc = invalid_request;
}

-- Frame 1 has its text begun, and the buffer ends with the text `a`.
abbrev in_text : XmlSession Script (List Place) Bytes
in_text = record (fresh []) {
  yajl_gen_buf = (string_append grant string_init (codes "\"a\"")).0;
  last_open_map = pos 0;
  stack_pos = 1;
  stack_boolean_info = 4 ∷ zero_bytes;
}

text_begun : Extends string_init (codes "\"a\"") in_text.yajl_gen_buf
text_begun =
    (append-Extends grant (λ n. refl) string_init (codes "\"a\"")
      (string_append grant string_init (codes "\"a\""))
      (string_append-Appended grant string_init (codes "\"a\"") IsWf-init (omega arith))).1

temp_printer-IsQuoter : IsQuoter temp_printer (λ text. text)
temp_printer-IsQuoter = record {
  first = ([], refl);
  accepts = λ t text. refl;
  prints = λ t text. refl;
}

in_text-InText : InText in_text (codes "\"a")
unfolding bit_test char_test
in_text-InText = record { begun = refl; ends = text_begun.bytes; wf = text_begun.wf }

pieces-InText_example :
    (u : XmlSession Script (List Place) Bytes) × (handle_all scripted printer temp_printer grant 4
        32 64 in_text
        (map character_data (codes "b" ∷ codes "cd" ∷ []))
      ≡ ret u)
    × InText u (codes "\"a" ++ codes "bcd")
pieces-InText_example =
    pieces-InText scripted printer temp_printer grant 4 32 64 (λ n. refl) (λ text. text)
      temp_printer-IsQuoter in_text (codes "\"a") (codes "b" ∷ codes "cd" ∷ []) refl (λ a b. refl)
      in_text-InText
      (omega (arith, Extends-size string_init in_text.yajl_gen_buf (codes "\"a\"") text_begun))

bit_put-Written_example :
    (w : List ℕ) × (bit_put true zero_bytes 255 ≡ ret w) × Written zero_bytes 255 true w
bit_put-Written_example = bit_put-Written true zero_bytes 255 (omega arith)
