-- ===== src/Decoder/Meraki/Tests.antt =====
-- A listener for the topic "ap", and the theorems at it.
use n2kafka.Prelude.{ℕ, ◌+◌, ◌-◌, Bool, Option, some, List, [], ◌∷◌, Bytes, codes}
use n2kafka.Util.Pair.{Pair}

abbrev get_any : ℕ → Bytes → ℕ × Option Bytes
get_any w topic = (w + 1, some topic)

abbrev give_back : ℕ → Bytes → ℕ
give_back w topic = w - 1

abbrev a_parser : Bool → Option Bool
a_parser xml = some xml

abbrev free_nothing : ℕ → Bool → ℕ
free_nothing w parser = w

-- The client asks for another topic, in XML.
abbrev client_vars : List Pair
client_vars =
    record { key = codes "D-HTTP-URI"; value = some (codes "/v1/data/other") }
    ∷ record { key = codes "Content-type"; value = some (codes "text/xml") }
    ∷ []
