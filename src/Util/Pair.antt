-- ===== src/Util/Pair.antt =====
-- src/util/pair.c and pair.h: the key-value list that listeners give to decoders.
use n2kafka.Prelude.{Bool, Option, none, List, [], ◌∷◌, ◌++◌, Bytes, if◌then◌else◌}

pub record Pair : Type 0 where
  pub key : Bytes
  pub value : Option Bytes

abbrev pub add_key_value_pair : List Pair → Pair → List Pair
add_key_value_pair list pair = list ++ pair ∷ []

-- The value of the first key that compares equal, or NULL.
abbrev pub valueof : List Pair → Bytes → (Bytes → Bytes → Bool) → Option Bytes
valueof [] key string_compare_callback = none
valueof (i ∷ list) key string_compare_callback =
    let rest = valueof list key string_compare_callback in
    if string_compare_callback key i.key then i.value else rest
