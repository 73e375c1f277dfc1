-- ===== src/Decoder/Zz/Session.antt =====
-- src/decoder/zz_http2k/zz_http2k_parser.c: the topic of a request, and the life of its session.
--
-- `get_topic` is zz_http2k_database_get_topic and `topic_decref` gives a topic back. `new_parser` is
-- new_zz_session_xml or new_zz_session_json, told apart by its argument, and `free_parser` is the session's
-- free_session.
pub mod Laws
mod Tests
use n2kafka.Prelude.{
  ℕ, zero, suc, ◌+◌, ◌-◌, Bool, true, false, not, ◌||◌, Option, none, some, List, [], ◌∷◌, ◌++◌,
  ltb, ◌==◌, if◌then◌else◌, length, take, drop, Bytes, codes, equal, equal_nocase, starts_with,
}
use n2kafka.Prelude.Run.{Run, ret, fault}
use n2kafka.Util.Pair.{Pair, valueof}

abbrev pub url_specials : Bytes
url_specials = codes ";/?:@=&"

abbrev pub valid_prefix_str : Bytes
valid_prefix_str = codes "/v1/data/"

abbrev pub one_of : ℕ → Bytes → Bool
one_of c [] = false
one_of c (x ∷ xs) = c == x || one_of c xs

-- The bytes that strcspn counts.
abbrev pub span_without : Bytes → Bytes → Bytes
span_without [] specials = []
span_without (c ∷ cs) specials =
    let rest = span_without cs specials in if one_of c specials then [] else c ∷ rest

-- extract_url_topic: none is -1.
unfoldable pub extract_url_topic : Bytes → Option Bytes
extract_url_topic url =
    let topic = span_without (drop (length valid_prefix_str) url) url_specials in
    if not (starts_with valid_prefix_str url)
    then none
    else if length topic == 0
    then none
    else some topic

unfoldable pub is_xml_content_type : Option Bytes → Bool
is_xml_content_type content_type = elim content_type [
  | none ↦ false
  | some text ↦
      if ltb (length text) (length (codes "xml"))
      then false
      else equal_nocase (drop (length text - length (codes "xml")) text) (codes "xml")
]

-- The topic's name in Kafka: with a consumer id, `<id>_<topic>`.
unfoldable pub uuid_topic : Option Bytes → Bytes → Bytes
uuid_topic client_uuid topic = elim client_uuid [
  | none ↦ topic
  | some uuid ↦ uuid ++ codes "_" ++ topic
]

-- The parts of zz_session that the constructor sets.
pub record ZzSession (T P : Type 0) : Type 0 where
  pub topic_handler : T
  pub parser : P

module _ {W T P : Type 0} (get_topic : W → Bytes → W × Option T) (topic_decref : W → T → W)
    (new_parser : Bool → Option P) (free_parser : W → P → W) where
  -- Once the topic's name is known.
  unfoldable pub open_topic : W → Bytes → List Pair → W × Option (ZzSession T P)
  unfolding is_xml_content_type
  open_topic w name msg_vars =
      let (w', topic_handler) = get_topic w name in
      let content_type = valueof msg_vars (codes "Content-type") equal_nocase in
      elim topic_handler [
        | none ↦ (w', none)
        | some topic ↦ elim (new_parser (is_xml_content_type content_type)) [
          | none ↦ (topic_decref w' topic, none)
          | some parser ↦ (w', some (record { topic_handler = topic; parser = parser }))
        ]
      ]

  -- new_zz_session: none is -1. A request without "D-HTTP-URI" fails an assert.
  unfoldable pub new_zz_session : W → List Pair → Run (W × Option (ZzSession T P))
  unfolding extract_url_topic uuid_topic open_topic
  new_zz_session w msg_vars = elim (valueof msg_vars (codes "D-HTTP-URI") equal) [
    | none ↦ fault
    | some url ↦ elim (extract_url_topic url) [
      | none ↦ ret (w, none)
      | some topic ↦ ret (
          open_topic w (uuid_topic (valueof msg_vars (codes "X-Consumer-ID") equal_nocase) topic)
            msg_vars)
    ]
  ]

  pub free_zz_session : W → ZzSession T P → W
  free_zz_session w sess = topic_decref (free_parser w sess.parser) sess.topic_handler
