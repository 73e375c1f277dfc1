-- ===== src/Decoder/Zz/Session/Laws.antt =====
-- Which topics a request can reach.
use mathlib.Core.Path.{subst}
use n2kafka.Prelude.{
  ℕ, ◌<◌, ◌≡◌, ◌↔◌, refl, ap, sym, ◌∙◌, Bool, true, false, Option, none, some, List, [], ◌∷◌, ◌++◌,
  arith, ◌==◌, length, drop, Bytes, codes, equal, equal_nocase, starts_with, All, Bool-cases,
  Option-cases, inl, inr, ◌⊎◌,
}
use n2kafka.Prelude.Run.{ret}
use n2kafka.Util.Pair.{Pair, valueof}
use n2kafka.Decoder.Zz.Session.{
  url_specials, valid_prefix_str, one_of, span_without, extract_url_topic, is_xml_content_type,
  uuid_topic, ZzSession, open_topic, new_zz_session,
}

abbrev pub IsTopicByte : ℕ → Type 0
IsTopicByte c = one_of c url_specials ≡ false

-- Nothing, or something that begins with a separator of URLs.
abbrev pub IsEnd : Bytes → Type 0
IsEnd [] = Unit
IsEnd (c ∷ cs) = one_of c url_specials ≡ true

span-split :
    (s : Bytes)
    → (rest : Bytes) × (s ≡ span_without s url_specials ++ rest)
      × All IsTopicByte (span_without s url_specials)
      × IsEnd rest
span-split [] = ([], refl, tt, tt)
span-split (c ∷ cs) =
    let (rest, e, all, end) = span-split cs in
    elim (Bool-cases (one_of c url_specials)) [
      | inl special ↦ rw special (c ∷ cs, refl, tt, special)
      | inr plain ↦ rw plain (rest, ap (λ (x : Bytes). c ∷ x) e, (plain, all), end)
    ]

span_unique :
    (t rest : Bytes) → All IsTopicByte t → IsEnd rest → span_without (t ++ rest) url_specials ≡ t
span_unique [] [] all end = refl
span_unique [] (c ∷ cs) all end = rw end refl
span_unique (x ∷ xs) rest (plain, all) end = rw (plain, span_unique xs rest all end) refl

pub prefix-split : (p s : Bytes) → starts_with p s ≡ true → s ≡ p ++ drop (length p) s
unfolding starts_with
prefix-split [] s h = refl
prefix-split (x ∷ xs) [] h = cc
prefix-split (x ∷ xs) (y ∷ ys) h =
    let (same, rest) : (x ≡ y) × (starts_with xs ys ≡ true) = ground (arith, h) in
    rw same (ap (λ (t : Bytes). y ∷ t) (prefix-split xs ys rest))

-- What a URL must be for a topic: the prefix, the topic, and then nothing or a separator.
pub record IsTopicUrl (url topic : Bytes) : Type 0 where
  pub rest : Bytes
  pub parts : url ≡ valid_prefix_str ++ (topic ++ rest)
  pub plain : All IsTopicByte topic
  pub ends : IsEnd rest
  pub nonempty : 0 < length topic

topic_of_url : (url topic : Bytes) → extract_url_topic url ≡ some topic → IsTopicUrl url topic
unfolding extract_url_topic
topic_of_url url topic h =
    let after = drop (length valid_prefix_str) url in
    let found : (starts_with valid_prefix_str url ≡ true)
        × ((length (span_without after url_specials) == 0) ≡ false)
        × (span_without after url_specials ≡ topic) =
      ground (arith, h) in
    let (good, nonzero, e) = found in
    let (rest, split, plain, ends) = span-split after in
    record {
      rest = rest;
      parts =
          prefix-split valid_prefix_str url good
          ∙ ap (λ (x : Bytes). valid_prefix_str ++ x) (split ∙ ap (λ (x : Bytes). x ++ rest) e);
      plain = subst (λ (x : Bytes). All IsTopicByte x) e plain;
      ends = ends;
      nonempty = ground (arith, nonzero, ap length e);
    }

url_of_topic : (url topic : Bytes) → IsTopicUrl url topic → extract_url_topic url ≡ some topic
unfolding extract_url_topic starts_with
url_of_topic url topic u =
    let nonzero : (length topic == 0) ≡ false = ground (arith, u.nonempty) in
    rw (u.parts, span_unique topic u.rest u.plain u.ends, nonzero) refl

-- extract_url_topic gives a topic exactly for the URLs `/v1/data/<topic>` with a nonempty topic free
-- of URL separators, whatever follows behind a separator.
pub extract_url_topic_iff :
    (url topic : Bytes) → (extract_url_topic url ≡ some topic) ↔ IsTopicUrl url topic
extract_url_topic_iff url topic = (topic_of_url url topic, url_of_topic url topic)

module _ {W T P : Type 0} (get_topic : W → Bytes → W × Option T) (topic_decref : W → T → W)
    (new_parser : Bool → Option P) (free_parser : W → P → W) where
  -- A session that was tried: the URL has no topic, or it came to open_topic.
  session_cases :
      (w : W) (msg_vars : List Pair) (r : W × Option (ZzSession T P))
      → new_zz_session get_topic topic_decref new_parser free_parser w msg_vars ≡ ret r
      → ((w, none) ≡ r)
        ⊎ ((url : Bytes) × (topic : Bytes) × (valueof msg_vars (codes "D-HTTP-URI") equal
              ≡ some url)
            × (extract_url_topic url ≡ some topic)
            × (open_topic get_topic topic_decref new_parser free_parser w
                  (uuid_topic (valueof msg_vars (codes "X-Consumer-ID") equal_nocase) topic)
                  msg_vars
                ≡ r))
  unfolding new_zz_session
  session_cases w msg_vars r runs =
      elim (Option-cases (valueof msg_vars (codes "D-HTTP-URI") equal)) [
        | inl no_url ↦ absurd (cc (rw (new_zz_session, no_url) at runs))
        | inr (url, found) ↦ elim (Option-cases (extract_url_topic url)) [
          | inl bad ↦ inl (cc (rw (new_zz_session, found, bad) at runs))
          | inr (topic, good) ↦
              inr (url, topic, found, good, cc (rw (new_zz_session, found, good) at runs))
        ]
      ]

  -- What open_topic comes to.
  data Opens (w : W) (name : Bytes) (r : W × Option (ZzSession T P)) : Type 0 where
    no_topic : (get_topic w name).1 ≡ none → r ≡ ((get_topic w name).0, none) → Opens w name r
    no_parser :
        (topic : T)
        → (get_topic w name).1 ≡ some topic
        → r ≡ (topic_decref (get_topic w name).0 topic, none)
        → Opens w name r
    opened :
        (topic : T) (parser : P)
        → (get_topic w name).1 ≡ some topic
        → r ≡ ((get_topic w name).0, some (record { topic_handler = topic; parser = parser }))
        → Opens w name r

  open_topic-Opens :
      (w : W) (name : Bytes) (msg_vars : List Pair)
      → Opens w name (open_topic get_topic topic_decref new_parser free_parser w name msg_vars)
  unfolding open_topic
  open_topic-Opens w name msg_vars = elim (Option-cases (get_topic w name).1) [
    | inl none_given ↦ no_topic none_given (rw (open_topic, none_given) refl)
    | inr (topic, given) ↦
        elim (Option-cases (
          new_parser
            (is_xml_content_type (valueof msg_vars (codes "Content-type") equal_nocase)))) [
              | inl failed ↦ no_parser topic given (rw (open_topic, given, failed) refl)
              | inr (parser, made) ↦ opened topic parser given (rw (open_topic, given, made) refl)
            ]
  ]

  some_inj : (a b : ZzSession T P) → some a ≡ some b → a ≡ b
  some_inj a b e = cc

  handler-Opens :
      (w : W) (name : Bytes) (r : W × Option (ZzSession T P)) (sess : ZzSession T P)
      → r.1 ≡ some sess
      → Opens w name r
      → (get_topic w name).1 ≡ some sess.topic_handler
  handler-Opens w name r sess is (no_topic refused e) =
      absurd (cc (sym is ∙ ap (λ (x : W × Option (ZzSession T P)). x.1) e))
  handler-Opens w name r sess is (no_parser topic given e) =
      absurd (cc (sym is ∙ ap (λ (x : W × Option (ZzSession T P)). x.1) e))
  handler-Opens w name r sess is (opened topic parser given e) =
      given
      ∙ ap (λ (x : ZzSession T P). some x.topic_handler)
          (some_inj _ sess (sym (ap (λ (x : W × Option (ZzSession T P)). x.1) e) ∙ is))

  -- A client with a consumer id: a session that opens has a topic that the database gave for the name
  -- `<id>_<topic>`, where the topic is the one that the request's own "D-HTTP-URI" names.
  pub new_zz_session-own_topic :
      (w w' : W) (msg_vars : List Pair) (uuid : Bytes) (sess : ZzSession T P)
      → valueof msg_vars (codes "X-Consumer-ID") equal_nocase ≡ some uuid
      → new_zz_session get_topic topic_decref new_parser free_parser w msg_vars
        ≡ ret (w', some sess)
      → (url : Bytes) × (topic : Bytes) × (valueof msg_vars (codes "D-HTTP-URI") equal ≡ some url)
        × IsTopicUrl url topic
        × ((get_topic w (uuid ++ codes "_" ++ topic)).1 ≡ some sess.topic_handler)
  unfolding uuid_topic
  new_zz_session-own_topic w w' msg_vars uuid sess id opens =
      elim (session_cases w msg_vars (w', some sess) opens) [
        | inl none_opened ↦ absurd (cc (ap (λ (x : W × Option (ZzSession T P)). x.1) none_opened))
        | inr (url, topic, found, good, e) ↦ (
          url,
          topic,
          found,
          topic_of_url url topic good,
          handler-Opens w _ (w', some sess) sess refl
              (rw (id) at (
                subst
                  (λ (x : W × Option (ZzSession T P)).
                    Opens w
                      (uuid_topic (valueof msg_vars (codes "X-Consumer-ID") equal_nocase) topic) x)
                  e (open_topic-Opens w _ msg_vars))),
        )
      ]
