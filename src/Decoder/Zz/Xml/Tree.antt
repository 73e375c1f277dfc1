-- ===== src/Decoder/Zz/Xml/Tree.antt =====
-- XML elements, what expat calls for them, and the JSON values that they stand for, by the generator calls
-- that write a value.
use n2kafka.Prelude.{Option, none, some, List, [], ◌∷◌, ◌++◌, Bytes, codes}
use n2kafka.Decoder.Zz.Xml.Session.{
  Call, gen_string, map_open, map_close, array_open, array_close, XmlEvent, start_element,
  end_element, character_data,
}

-- Sibling elements: the first one's name, attributes, text and child elements, and the siblings behind it.
-- All text of an element stands before its first child.
pub data Elements : Type 0 where
  no_elements : Elements
  element : Bytes → List (Bytes × Bytes) → Option Bytes → Elements → Elements → Elements

abbrev pub text_events : Option Bytes → List XmlEvent
text_events none = []
text_events (some text) = character_data text ∷ []

unfoldable pub events : Elements → List XmlEvent
events no_elements = []
events (element name attr text children next) =
    start_element name attr ∷ text_events text ++ events children ++ end_element name ∷ events next

-- JSON values; `member` and `value` list an object's members and an array's values.
pub data Json : Type 0 where
  string : Bytes → Json
  object array : Json → Json
  nothing : Json
  member : Bytes → Json → Json → Json
  value : Json → Json → Json

-- The generator calls that write a value.
unfoldable pub emit : Json → List Call
emit (string text) = gen_string text ∷ []
emit (object members) = map_open ∷ emit members ++ map_close ∷ []
emit (array values) = array_open ∷ emit values ++ array_close ∷ []
emit nothing = []
emit (member key json members) = gen_string key ∷ emit json ++ emit members
emit (value json values) = emit json ++ emit values

abbrev pub attribute_members : List (Bytes × Bytes) → Json
attribute_members [] = nothing
attribute_members ((name, text) ∷ attr) = member name (string text) (attribute_members attr)

abbrev pub attributes_member : List (Bytes × Bytes) → Json → Json
attributes_member [] json = json
attributes_member (a ∷ attr) json =
    member (codes "attributes") (object (attribute_members (a ∷ attr))) json

abbrev pub text_member : Option Bytes → Json → Json
text_member none json = json
text_member (some text) json = member (codes "text") (string text) json

abbrev pub children_member : Json → Json
children_member (value json values) = member (codes "children") (array (value json values)) nothing
children_member _ = nothing

-- An element's object, given its children's values.
abbrev pub element_json : Bytes → List (Bytes × Bytes) → Option Bytes → Json → Json
element_json name attr text values = object (
    member (codes "tag") (string name)
      (attributes_member attr (text_member text (children_member values))))

unfoldable pub values_of : Elements → Json
values_of no_elements = nothing
values_of (element name attr text children next) =
    value (element_json name attr text (values_of children)) (values_of next)
