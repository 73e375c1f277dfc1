-- ===== src/Engine/Config.antt =====
-- src/engine/global_config.c: the settings of librdkafka, from the environment and from the JSON configuration.
--
-- A setting is what the code does with one variable or one property; rd_kafka_conf_set itself is the
-- library's. `stale` is what the variable's buffer holds before it is filled.
use n2kafka.Prelude.{
  ◌⊎◌, inl, inr, ℕ, ◌+◌, ◌≤◌, ◌<◌, ◌≡◌, refl, ◌∙◌, Bool, false, ◌&&◌, Option, none, some, [], ◌∷◌,
  ◌++◌, map, length, drop, ltb, leb, ◌==◌, if◌then◌else◌, Bytes, codes, equal, equal_nocase,
  starts_with, to_lower, arith, All,
}
use n2kafka.Prelude.Run.{Run, ret, fault}

pub data Setting : Type 0 where
  ignored : Setting
  stats_enrich default_topic statistics_topic : Bytes → Setting
  conf_set : Bytes → Bytes → Setting

abbrev pub rdkafka_env_prefix : Bytes
rdkafka_env_prefix = codes "RDKAFKA_"

abbrev pub config_rdkafka_key : Bytes
config_rdkafka_key = codes "rdkafka."

abbrev pub stats_add_key : Bytes
stats_add_key = codes "rdkafka.n2kafka.stats.append"

-- sizeof(env_key)
abbrev pub env_key_size : ℕ
env_key_size = 64

-- strncasecmp(p, s, strlen(p)) == 0
abbrev starts_with_nocase : Bytes → Bytes → Bool
starts_with_nocase p s = starts_with (map to_lower p) (map to_lower s)

unfoldable pub parse_rdkafka_keyval_config : Bytes → Bytes → Setting
parse_rdkafka_keyval_config key value =
    let name = drop (length config_rdkafka_key) key in
    let name' =
      if starts_with (codes "topic.") name then drop (length (codes "topic.")) name else name in
    if equal name' (codes "n2kafka.statistics.topic")
    then statistics_topic value
    else conf_set name' value

abbrev is_upper : ℕ → Bool
is_upper c = leb b'A' c && leb c b'Z'

abbrev is_digit : ℕ → Bool
is_digit c = leb b'0' c && leb c b'9'

-- The character of env_key for one of the variable's name; any other leaves the buffer as it is.
unfoldable pub env_char : ℕ → ℕ → ℕ
env_char old c =
    if c == b'_' then b'.' else if is_upper c then to_lower c else if is_digit c then c else old

unfoldable pub env_key : Bytes → Bytes → Bytes
env_key stale [] = []
env_key [] (c ∷ cs) = env_char 0 c ∷ env_key [] cs
env_key (old ∷ stale) (c ∷ cs) = env_char old c ∷ env_key stale cs

-- The parts of a string before and behind its first '='.
unfoldable pub split_equal : Bytes → Option (Bytes × Bytes)
split_equal [] = none
split_equal (c ∷ cs) =
    let rest = split_equal cs in
    if c == b'='
    then some ([], cs)
    else elim rest [ none ↦ none | some (key, value) ↦ some (c ∷ key, value) ]

-- One round of the loop over the environment, its buffer cut at the name's end.
unfoldable pub env_setting : Bytes → Bytes → Run Setting
env_setting stale variable =
    if starts_with rdkafka_env_prefix variable
    then (elim (split_equal variable) [
      | none ↦ fault
      | some (name, value) ↦ ret (
          if ltb env_key_size (length name + 1)
          then ignored
          else if length value == 0
          then ignored
          else if equal stats_add_key (env_key stale name)
          then stats_enrich value
          else parse_rdkafka_keyval_config (env_key stale name) value)
    ])
    else ret ignored

-- parse_rdkafka_config_keyval on a string value.
unfoldable pub parse_rdkafka_config_keyval : Bytes → Bytes → Setting
parse_rdkafka_config_keyval key value =
    if equal_nocase key (codes "topic")
    then default_topic value
    else if equal_nocase key (codes "brokers")
    then parse_rdkafka_keyval_config (codes "rdkafka.metadata.broker.list") value
    else if starts_with_nocase config_rdkafka_key key
    then parse_rdkafka_keyval_config key value
    else ignored

-- One round of the loop over the JSON properties, for a string.
unfoldable pub json_setting : Bytes → Bytes → Setting
json_setting key value =
    if equal stats_add_key key then stats_enrich value else parse_rdkafka_config_keyval key value

-- A byte of a variable's name that has its place in a JSON property: A to Z, 0 to 9 and _.
unfoldable pub IsNameByte : ℕ → Type 0
IsNameByte c = ((65 ≤ c) × (c ≤ 90)) ⊎ (((48 ≤ c) × (c ≤ 57)) ⊎ (c ≡ 95))

-- What stands for it in the property: small letters, digits and dots.
abbrev pub property_byte : ℕ → ℕ
property_byte c = if leb 65 c && leb c 90 then c + 32 else if c == 95 then 46 else c

-- The JSON property for a variable's name.
abbrev pub property_of : Bytes → Bytes
property_of name = codes "rdkafka." ++ map property_byte name

env_char-IsNameByte : (old c : ℕ) → IsNameByte c → env_char old c ≡ property_byte c
unfolding env_char IsNameByte
env_char-IsNameByte old c h = ground (arith, h)

env_key-IsNameByte :
    (stale name : Bytes) → All IsNameByte name → env_key stale name ≡ map property_byte name
unfolding env_key
env_key-IsNameByte stale [] h = refl
env_key-IsNameByte [] (c ∷ cs) (h, hs) =
    rw (env_char-IsNameByte 0 c h, env_key-IsNameByte [] cs hs) refl
env_key-IsNameByte (old ∷ stale) (c ∷ cs) (h, hs) =
    rw (env_char-IsNameByte old c h, env_key-IsNameByte stale cs hs) refl

split_equal-append :
    (name value : Bytes)
    → All IsNameByte name
    → split_equal (name ++ b'=' ∷ value) ≡ some (name, value)
unfolding split_equal
split_equal-append [] value h = refl
split_equal-append (c ∷ cs) value (h, hs) =
    let other : (c == b'=') ≡ false = (unfold IsNameByte in ground arith) in
    rw (split_equal, other, split_equal-append cs value hs) refl

full-IsNameByte : (name : Bytes) → All IsNameByte name → All IsNameByte (rdkafka_env_prefix ++ name)
unfolding IsNameByte
full-IsNameByte name h = (
  inl (omega arith, omega arith),
  (
    inl (omega arith, omega arith),
    (
      inl (omega arith, omega arith),
      (
        inl (omega arith, omega arith),
        (
          inl (omega arith, omega arith),
          (inl (omega arith, omega arith), (inl (omega arith, omega arith), (inr (inr refl), h))),
        ),
      ),
    ),
  ),
)

property_lem : (name : Bytes) → map property_byte (rdkafka_env_prefix ++ name) ≡ property_of name
property_lem name = refl

-- A variable whose name is `RDKAFKA_` and capitals, digits and underscores, short enough for the buffer,
-- with a value: it does what the JSON property of that name in small letters with dots does, whatever the
-- buffer held.
pub env_setting-json :
    (stale name value : Bytes)
    → All IsNameByte name
    → length name ≤ 55
    → 0 < length value
    → env_setting stale (rdkafka_env_prefix ++ name ++ b'=' ∷ value)
      ≡ ret (json_setting (property_of name) value)
unfolding json_setting parse_rdkafka_config_keyval equal_nocase equal starts_with env_setting
env_setting-json stale name value h short real =
    let full = rdkafka_env_prefix ++ name in
    let all : All IsNameByte full = full-IsNameByte name h in
    let split = split_equal-append full value all in
    let fits : ltb env_key_size (length full + 1) ≡ false = ground arith in
    let some_value : (length value == 0) ≡ false = ground arith in
    let key : env_key stale full ≡ property_of name =
      env_key-IsNameByte stale full all ∙ property_lem name in
    rw (env_setting, split, fits, some_value, key) refl
