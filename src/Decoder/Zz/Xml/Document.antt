-- ===== src/Decoder/Zz/Xml/Document.antt =====
-- The handlers on all the events of sibling elements, and of a whole document.
use n2kafka.Prelude.{
  ℕ, suc, ◌≡◌, refl, sym, ◌∙◌, ap, Bool, true, false, ltb, Option, none, some, List, [], ◌∷◌, ◌++◌,
  append-nil, append_assoc, if◌then◌else◌, Bytes, codes,
}
use n2kafka.Decoder.Zz.Xml.Session.{Call, gen_string, map_open, map_close, array_open, array_close}
use n2kafka.Decoder.Zz.Xml.Handlers.{element_calls, attribute_calls}
use n2kafka.Decoder.Zz.Xml.Tree.{
  Elements, no_elements, element, Json, emit, attribute_members, attributes_member, text_member,
  children_member, values_of,
}
use n2kafka.Decoder.Zz.Xml.Pen.{calls_only}
use n2kafka.Decoder.Zz.Xml.Steps.{prefix, suffix}

-- How many frames the elements take.
unfoldable pub height : Elements → ℕ
height no_elements = 0
height (element name attr text children next) =
    let h = height children in let k = height next in if ltb k (suc h) then suc h else k

abbrev pub text_calls : Option Bytes → List Call
text_calls none = []
text_calls (some text) = gen_string (codes "text") ∷ gen_string text ∷ []

abbrev pub is_some : Elements → Bool
is_some no_elements = false
is_some (element name attr text children next) = true

-- The calls for sibling elements, the last one left without its closing brace. The flag tells whether a child
-- stands before them.
unfoldable pub siblings : Bool → Elements → List Call
siblings c no_elements = []
siblings c (element name attr text children next) =
    (prefix c ++ calls_only (element_calls name attr))
    ++ text_calls text
    ++ siblings false children
    ++ suffix (is_some children)
    ++ siblings true next

attribute_rest :
    (a : Bytes × Bytes) (attr : List (Bytes × Bytes))
    → calls_only (attribute_calls false (a ∷ attr))
      ≡ emit (attribute_members (a ∷ attr)) ++ map_close ∷ []
unfolding attribute_calls emit
attribute_rest a [] = refl
attribute_rest a (b ∷ attr) = rw (attribute_rest b attr) refl

attribute_lem :
    (attr : List (Bytes × Bytes)) (json : Json)
    → calls_only (attribute_calls true attr) ++ emit json ≡ emit (attributes_member attr json)
unfolding attribute_calls emit
attribute_lem [] json = refl
attribute_lem (a ∷ []) json = refl
attribute_lem (a ∷ b ∷ attr) json =
    ap
      (λ (cs : List Call).
        (gen_string (codes "attributes") ∷ map_open ∷ gen_string a.0 ∷ gen_string a.1 ∷ cs)
        ++ emit json)
      (attribute_rest b attr)
    ∙ simp append_assoc

tail_calls : List Call → List Call
tail_calls [] = []
tail_calls (c ∷ cs) = cs

-- The children's member, from what their calls come to behind an earlier child.
children_lem :
    (es : Elements)
    → siblings true es ++ map_close ∷ [] ≡ map_close ∷ emit (values_of es)
    → siblings false es ++ suffix (is_some es) ≡ emit (children_member (values_of es))
unfolding siblings emit tail_calls values_of
children_lem no_elements h = refl
children_lem (element name attr text children next) h =
    (simp append_assoc)
    ∙ (ap
        (λ (cs : List Call).
          gen_string (codes "children") ∷ array_open ∷ tail_calls cs ++ array_close ∷ [])
        h)
    ∙ (simp append-nil)

text_lem :
    (text : Option Bytes) (json : Json)
    → emit (text_member text json) ≡ text_calls text ++ emit json
unfolding emit
text_lem none json = refl
text_lem (some text) json = refl

-- Behind an earlier child, the siblings' calls and a closing brace are that child's brace and the calls of
-- their JSON values.
pub siblings-emit :
    (es : Elements) → siblings true es ++ map_close ∷ [] ≡ map_close ∷ emit (values_of es)
unfolding siblings emit values_of
siblings-emit no_elements = refl
siblings-emit (element name attr text children next) =
    let json = children_member (values_of children) in
    let inner = sym (children_lem children (siblings-emit children)) in
    let members =
      sym (attribute_lem attr (text_member text json))
      ∙ ap (λ (cs : List Call). calls_only (attribute_calls true attr) ++ cs)
          (text_lem text json ∙ ap (λ (cs : List Call). text_calls text ++ cs) inner) in
    rw members (simp (append_assoc, siblings-emit next))
