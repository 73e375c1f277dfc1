-- ===== src/Decoder/Zz/Session/Tests.antt =====
-- A request with a consumer id, and the theorems at it.
use n2kafka.Prelude.{
  ℕ, ◌+◌, ◌-◌, ◌≡◌, ◌↔◌, refl, Bool, Option, some, List, [], ◌∷◌, ◌++◌, Bytes, codes, equal,
  equal_nocase, starts_with,
}
use n2kafka.Prelude.Run.{ret}
use n2kafka.Util.Pair.{Pair, valueof}
use n2kafka.Decoder.Zz.Session.{
  extract_url_topic, is_xml_content_type, uuid_topic, ZzSession, open_topic, new_zz_session,
}
use n2kafka.Decoder.Zz.Session.Laws.{IsTopicUrl, extract_url_topic_iff, new_zz_session-own_topic}

-- A database that gives its topics by name and counts the references.
abbrev give : ℕ → Bytes → ℕ × Option Bytes
give refs name = (refs + 1, some name)

abbrev take_back : ℕ → Bytes → ℕ
take_back refs t = refs - 1

abbrev json_only : Bool → Option ℕ
json_only xml = some 0

abbrev keep : ℕ → ℕ → ℕ
keep refs p = refs

abbrev request : List Pair
request =
    record { key = codes "D-HTTP-URI"; value = some (codes "/v1/data/flow?x") }
    ∷ record { key = codes "x-consumer-id"; value = some (codes "u1") }
    ∷ []

abbrev session : ZzSession Bytes ℕ
session = record { topic_handler = codes "u1_flow"; parser = 0 }

session_opens : new_zz_session give take_back json_only keep 0 request ≡ ret (1, some session)
unfolding new_zz_session extract_url_topic uuid_topic open_topic is_xml_content_type equal
    equal_nocase starts_with
session_opens = refl

extract_url_topic_iff_example :
    (extract_url_topic (codes "/v1/data/flow?x") ≡ some (codes "flow"))
    ↔ IsTopicUrl (codes "/v1/data/flow?x") (codes "flow")
extract_url_topic_iff_example = extract_url_topic_iff (codes "/v1/data/flow?x") (codes "flow")

request_id : valueof request (codes "X-Consumer-ID") equal_nocase ≡ some (codes "u1")
unfolding equal equal_nocase
request_id = refl

new_zz_session-own_topic_example :
    (url : Bytes) × (topic : Bytes) × (valueof request (codes "D-HTTP-URI") equal ≡ some url)
    × IsTopicUrl url topic
    × ((give 0 (codes "u1" ++ codes "_" ++ topic)).1 ≡ some (codes "u1_flow"))
new_zz_session-own_topic_example =
    new_zz_session-own_topic give take_back json_only keep 0 1 request (codes "u1") session
      request_id session_opens
