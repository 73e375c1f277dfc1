-- ===== src/Engine/Reload.antt =====
-- src/engine/global_config.c: the listeners of a configuration, and the reload that closes, reloads and creates
-- them.
--
-- `J` is a listener's JSON object. jansson's json_unpack_ex is `unpack` for the names and `port_of` for
-- the port, `none` where it fails. `L` is a listener behind its struct.
pub mod Ports
use n2kafka.Prelude.{
  ℕ, ◌+◌, ◌-◌, ◌%◌, ◌^◌, Bool, true, false, ◌&&◌, Option, none, some, List, [], ◌∷◌, ◌++◌, ltb,
  ◌==◌, if◌then◌else◌, Bytes, codes, equal,
}
use n2kafka.Prelude.Int.{ℤ, pos, negsuc, to_uint16}

-- The fields of struct listener that the reload uses; `reload` and `join` are whether they are set.
pub record Entry (L : Type 0) : Type 0 where
  pub listener : L
  pub port : ℕ
  pub reload : Bool
  pub join : Bool

-- What the reload asks of a listener, or of a factory.
pub data Action (J L : Type 0) : Type 0 where
  reloaded : L → J → Action J L
  joined : L → Action J L
  created : J → Action J L

-- What parse_listener comes to: a log line only, exit(-1), or a new listener.
pub data Parsed (L : Type 0) : Type 0 where
  skipped exited : Parsed L
  inserted : Entry L → Parsed L

-- n2k_listener_factory and a decoder, by their names.
pub record Factory (J D L : Type 0) : Type 0 where
  pub name : Bytes
  pub create : J → D → Option (Entry L)

-- A search for the first element with a name.
pub find_named : {A : Type 0} → (A → Bytes) → Bytes → List A → Option A
find_named name_of name [] = none
find_named name_of name (x ∷ xs) =
    let rest = find_named name_of name xs in if equal (name_of x) name then some x else rest

abbrev pub or_empty : Option Bytes → Bytes
or_empty none = []
or_empty (some name) = name

module _ {J D L : Type 0} (unpack : J → Option (Bytes × Option Bytes))
    (registered_listeners : List (Factory J D L)) (registered_decoders : List (Bytes × D)) where
  abbrev pub listener_for : Bytes → Option (Factory J D L)
  listener_for proto = find_named (λ factory. factory.name) proto registered_listeners

  abbrev pub locate_registered_decoder : Bytes → Option (Bytes × D)
  locate_registered_decoder decode_as = find_named (λ d. d.0) decode_as registered_decoders

  unfoldable pub parse_listener : J → Parsed L
  unfolding find_named
  parse_listener config = elim (unpack config) [
    | none ↦ skipped
    | some (proto, decode_as) ↦ elim (listener_for proto) [
      | none ↦ skipped
      | some listener_factory ↦ elim (locate_registered_decoder (or_empty decode_as)) [
        | none ↦ exited
        | some (name, decoder) ↦ elim (listener_factory.create config decoder) [
          | none ↦ exited
          | some proto_listener ↦ inserted proto_listener
        ]
      ]
    ]
  ]

abbrev shutdown_listener : {J L : Type 0} → Entry L → List (Action J L)
shutdown_listener i = if i.join then joined i.listener ∷ [] else []

-- shutdown_listeners
abbrev pub shutdown_listeners : {J L : Type 0} → List (Entry L) → List (Action J L)
shutdown_listeners [] = []
shutdown_listeners (i ∷ listeners) = shutdown_listener i ++ shutdown_listeners listeners

-- The int that json_unpack_ex leaves where it finds no port.
abbrev pub or_zero : Option ℤ → ℤ
or_zero none = pos 0
or_zero (some port) = port

abbrev same_port : ℕ → ℤ → Bool
same_port i_port (pos port) = ltb 0 port && port == i_port
same_port i_port (negsuc n) = false

module _ {J L : Type 0} (port_of : J → Option ℤ) (parse_listener : J → Parsed L) where
  -- The first new configuration for a port.
  unfoldable pub find_value : ℕ → List J → Option J
  find_value i_port [] = none
  find_value i_port (value ∷ values) =
      let rest = find_value i_port values in
      if same_port i_port (or_zero (port_of value)) then some value else rest

  -- The listeners that stay, and what is asked of all.
  unfoldable pub reload_listeners_check_already_present :
      List J → List (Entry L) → List (Entry L) × List (Action J L)
  reload_listeners_check_already_present new_listeners [] = ([], [])
  reload_listeners_check_already_present new_listeners (i ∷ listeners) =
      let (kept, actions) = reload_listeners_check_already_present new_listeners listeners in
      elim (find_value i.port new_listeners) [
        | none ↦ (kept, shutdown_listener i ++ actions)
        | some found_value ↦
            if i.reload
            then (i ∷ kept, reloaded i.listener found_value ∷ actions)
            else (kept, shutdown_listener i ++ actions)
      ]

  -- Whether a listener has this port.
  unfoldable pub has_port : ℕ → List (Entry L) → Bool
  has_port searched_port [] = false
  has_port searched_port (i ∷ listeners) =
      let rest = has_port searched_port listeners in
      if ltb 0 i.port && i.port == searched_port then true else rest

  -- The listeners and the actions behind the configurations, `none` for the end of the process.
  unfoldable pub reload_listeners_create_new_ones :
      List J → List (Entry L) → Option (List (Entry L) × List (Action J L))
  reload_listeners_create_new_ones [] listeners = some (listeners, [])
  reload_listeners_create_new_ones (new_config ∷ configs) listeners =
      if has_port (to_uint16 (or_zero (port_of new_config))) listeners
      then reload_listeners_create_new_ones configs listeners
      else elim (parse_listener new_config) [
        | skipped ↦ reload_listeners_create_new_ones configs listeners
        | exited ↦ none
        | inserted proto_listener ↦
            elim (reload_listeners_create_new_ones configs (proto_listener ∷ listeners)) [
              | none ↦ none
              | some (listeners', actions) ↦ some (listeners', created new_config ∷ actions)
            ]
      ]

  -- reload_listeners on the listeners of the configuration; `none` of the array is a missing one.
  unfoldable pub reload_listeners :
      Option (List J) → List (Entry L) → Option (List (Entry L) × List (Action J L))
  reload_listeners none listeners = some (listeners, [])
  reload_listeners (some listeners_array) listeners =
      let (kept, actions) = reload_listeners_check_already_present listeners_array listeners in
      elim (reload_listeners_create_new_ones listeners_array kept) [
        | none ↦ none
        | some (listeners', actions') ↦ some (listeners', actions ++ actions')
      ]
