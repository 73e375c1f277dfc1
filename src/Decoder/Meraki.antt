-- ===== src/Decoder/Meraki.antt =====
-- src/decoder/meraki/meraki.c: the decoder for Meraki's access points, a zz_http2k session on the topic of the
-- listener.
--
-- The parameters of the section are those of the zz_http2k session, and `default_topic_name` what the function of
-- that name returns. An opaque is the text of listener_topic. Fields for the debug mark are left out.
mod Tests
pub mod Laws
use n2kafka.Prelude.{
  ℕ, ◌+◌, Bool, true, false, Option, none, some, List, [], ◌∷◌, ◌++◌, ◌==◌, if◌then◌else◌, length,
  drop, Bytes, codes, equal, starts_with,
}
use n2kafka.Prelude.Int.{ℤ, pos, minus_one}
use n2kafka.Prelude.Run.{Run, ret, fault, ◌>>=◌}
use n2kafka.Util.Pair.{Pair, add_key_value_pair, valueof}
use n2kafka.Decoder.Api.{DecoderErr}
use n2kafka.Decoder.Zz.Session.{ZzSession, new_zz_session}
use n2kafka.Listener.Api.{Response, no_response, Reply}

-- The value at "topic" of the listener's configuration.
pub data JsonTopic : Type 0 where
  missing not_string : JsonTopic
  string_value : Bytes → JsonTopic

-- A C string ends at its first NUL.
abbrev pub c_string : Bytes → Bytes
c_string [] = []
c_string (c ∷ cs) = let rest = c_string cs in if c == 0 then [] else c ∷ rest

-- `topic_of` is json_object_get, and `alloc` what calloc answers.
unfoldable pub meraki_opaque_creator :
    {W : Type 0} → (Bytes → JsonTopic) → Bool → W → Bytes → W × Option Bytes × ℤ
meraki_opaque_creator topic_of alloc w config = elim (topic_of config) [
  | missing ↦ (w, none, pos 0)
  | not_string ↦ if alloc then (w, some [], pos 0) else (w, none, minus_one)
  | string_value text ↦ if alloc then (w, some text, pos 0) else (w, none, minus_one)
]

abbrev pub meraki_opaque_destructor : {W : Type 0} → W → Option Bytes → W
meraki_opaque_destructor w opaque = w

abbrev pub meraki_topic_prefix : Bytes
meraki_topic_prefix = codes "/v1/data/"

abbrev pub meraki_prefix : Bytes
meraki_prefix = codes "/v1/meraki"

-- The topic of a session.
abbrev pub meraki_topic : Option Bytes → Option Bytes → Bytes
meraki_topic (some listener_topic) default_topic_name = c_string listener_topic
meraki_topic none (some topic) = topic
meraki_topic none none = []

-- zz_keyvals
abbrev pub meraki_keyvals : Bytes → List Pair → List Pair
meraki_keyvals topic msg_vars =
    add_key_value_pair
      (add_key_value_pair []
        (record { key = codes "D-HTTP-URI"; value = some (meraki_topic_prefix ++ topic) }))
      (record { key = codes "D-Client-IP"; value = valueof msg_vars (codes "D-Client-IP") equal })

-- url_validator: the returned pointer stands sizeof(meraki_prefix) behind the URL's start, which is past the
-- NUL of a URL that is the prefix only.
unfoldable pub url_validator : Bytes → Run (Option Bytes)
url_validator url =
    if starts_with meraki_prefix url
    then if length url == length meraki_prefix then fault else ret (some (drop 11 url))
    else ret none

module _ {W T P : Type 0} (get_topic : W → Bytes → W × Option T) (topic_decref : W → T → W)
    (new_parser : Bool → Option P) (free_parser : W → P → W)
    (default_topic_name : Option Bytes) where
  unfoldable pub new_meraki_session :
      W → Option Bytes → List Pair → Run (W × Option (ZzSession T P))
  new_meraki_session zz_sess listener_opaque msg_vars =
      let topic = meraki_topic listener_opaque default_topic_name in
      new_zz_session get_topic topic_decref new_parser free_parser zz_sess
        (meraki_keyvals topic msg_vars)

-- meraki_decode; `zz_callback` is the callback of zz_decoder.
unfoldable pub meraki_decode :
    {W S : Type 0}
    → (W → Bytes → List Pair → Option S → Run (Reply W S))
    → W
    → Bytes
    → List Pair
    → Option S
    → Run (Reply W S)
unfolding url_validator
meraki_decode zz_callback w buffer attrs session =
    elim (valueof attrs (codes "D-HTTP-method") equal) [
      | none ↦ fault
      | some http_method ↦
          if equal http_method (codes "GET")
          then elim (valueof attrs (codes "D-HTTP-URI") equal) [
            | none ↦ fault
            | some uri ↦ url_validator uri >>= λ found. elim found [
              | none ↦ ret (record {
                world = w;
                session = session;
                err = DecoderErr.resource_not_found;
                response = no_response;
              })
              | some response ↦ ret (record {
                world = w;
                session = session;
                err = DecoderErr.callback_ok;
                response = record { str = some response; size = length response };
              })
            ]
          ]
          else zz_callback w buffer attrs session
    ]
