-- ===== src/Decoder/Meraki/Laws.antt =====
-- Where a Meraki session sends its messages, and which URLs the validator answers.
use n2kafka.Prelude.{
  ℕ, ◌≡◌, ◌↔◌, refl, ap, ◌∙◌, Bool, false, Option, none, some, List, [], ◌∷◌, ◌++◌, arith, ◌==◌,
  length, drop, Bytes, equal, starts_with, Bool-cases, inl, inr,
}
use n2kafka.Prelude.Run.{ret, fault}
use n2kafka.Util.Pair.{Pair}
use n2kafka.Decoder.Zz.Session.{extract_url_topic, new_zz_session, ZzSession}
use n2kafka.Decoder.Zz.Session.Laws.{prefix-split}
use n2kafka.Decoder.Meraki.{meraki_topic, meraki_prefix, url_validator, new_meraki_session}

module _ {W T P : Type 0} (get_topic : W → Bytes → W × Option T) (topic_decref : W → T → W)
    (new_parser : Bool → Option P) (free_parser : W → P → W)
    (default_topic_name : Option Bytes) where
  -- What a session on `topic` with the JSON parser is made of: the topic is asked for once, and given back if
  -- the parser fails.
  abbrev pub json_session : W → Bytes → W × Option (ZzSession T P)
  json_session w topic = elim (get_topic w topic).1 [
    | none ↦ ((get_topic w topic).0, none)
    | some handler ↦ elim (new_parser false) [
      | none ↦ (topic_decref (get_topic w topic).0 handler, none)
      | some parser ↦
          ((get_topic w topic).0, some (record { topic_handler = handler; parser = parser }))
    ]
  ]

  -- Without a topic of the listener and a default topic no session is made, and nothing is taken.
  pub new_meraki_session-none :
      (w : W) (listener_opaque : Option Bytes) (msg_vars : List Pair)
      → meraki_topic listener_opaque default_topic_name ≡ []
      → new_meraki_session get_topic topic_decref new_parser free_parser default_topic_name w
          listener_opaque msg_vars
        ≡ ret (w, none)
  unfolding new_meraki_session new_zz_session extract_url_topic equal starts_with
  new_meraki_session-none w listener_opaque msg_vars empty = rw empty refl

-- What stands behind the prefix of an answered URL.
validator-rest :
    (url rest s : Bytes)
    → url ≡ meraki_prefix ++ rest
    → url_validator url ≡ ret (some s)
    → (c : ℕ) × (rest ≡ c ∷ s)
unfolding url_validator starts_with
validator-rest url [] s split answered = absurd (cc (rw split at answered))
validator-rest url (c ∷ cs) s split answered =
    let longer : (length (meraki_prefix ++ (c ∷ cs)) == length meraki_prefix) ≡ false =
      ground arith in
    (c, cc (rw (split, longer) at answered))

-- The validator answers a URL with `s` exactly if the URL is the prefix, one more byte of any kind, and
-- `s`.
pub url_validator_iff :
    (url s : Bytes)
    → (url_validator url ≡ ret (some s)) ↔ ((c : ℕ) × (url ≡ meraki_prefix ++ (c ∷ s)))
unfolding url_validator starts_with
url_validator_iff url s = (
  λ answered. elim (Bool-cases (starts_with meraki_prefix url)) [
    | inr other ↦ absurd (cc (rw (url_validator, other) at answered))
    | inl good ↦
        let split = prefix-split meraki_prefix url good in
        let (c, e) = validator-rest url (drop (length meraki_prefix) url) s split answered in
        (c, split ∙ ap (λ (x : Bytes). meraki_prefix ++ x) e)
  ],
  λ found.
      let (c, e) = found in
      let longer : (length (meraki_prefix ++ (c ∷ s)) == length meraki_prefix) ≡ false =
        ground arith in
      rw (e, longer) refl,
)

-- A URL that is the prefix only is read past its end.
pub url_validator-prefix : url_validator meraki_prefix ≡ fault
unfolding url_validator starts_with
url_validator-prefix = refl
