-- ===== src/Engine/Program.antt =====
-- src/engine/n2kafka.c and src/engine/global_config.c: the program from its configuration file to its end.
--
-- `parse_listener` and `port_of` are those of the reload. A reload is given the listeners of the new file,
-- `none` where there is no array of them. `none` as a result is the end of the process by exit.
pub mod Balance
use n2kafka.Prelude.{
  ℕ, suc, Bool, true, false, Option, none, some, List, [], ◌∷◌, ◌++◌, map, if◌then◌else◌, Bytes,
}
use n2kafka.Prelude.Int.{ℤ, is_zero}
use n2kafka.Engine.Reload.{
  Entry, Action, created, Parsed, skipped, exited, inserted, shutdown_listeners, reload_listeners,
}

-- What of a decoder's table the program calls by itself.
pub record DecoderHooks : Type 0 where
  pub name : Bytes
  pub init : Option ℤ
  pub done : Bool

-- What the program does, in order.
pub data Event (J L : Type 0) : Type 0 where
  decoder_initialised decoder_init_failed decoder_done : Bytes → Event J L
  listener : Action J L → Event J L
  kafka_created kafka_polled kafka_stopped blacklist_freed : Event J L

module _ {J L : Type 0} where
  -- The loop of init_global_config; a failure is only logged.
  unfoldable pub init_decoders : List DecoderHooks → List (Event J L)
  init_decoders [] = []
  init_decoders (d ∷ decoders) =
      let rest = init_decoders decoders in
      elim d.init [
        | none ↦ rest
        | some rc ↦
            (if is_zero rc then decoder_initialised d.name else decoder_init_failed d.name) ∷ rest
      ]

  -- The loop of free_global_config over the decoders.
  unfoldable pub finish_decoders : List DecoderHooks → List (Event J L)
  finish_decoders [] = []
  finish_decoders (d ∷ decoders) =
      let rest = finish_decoders decoders in if d.done then decoder_done d.name ∷ rest else rest

  unfoldable pub free_global_config : List DecoderHooks → List (Entry L) → List (Event J L)
  unfolding finish_decoders
  free_global_config decoders listeners =
      map listener (shutdown_listeners listeners)
      ++ (finish_decoders decoders ++ kafka_polled ∷ kafka_stopped ∷ blacklist_freed ∷ [])

  module _ (port_of : J → Option ℤ) (parse_listener : J → Parsed L) where
    -- The loop of parse_config over the listeners.
    unfoldable pub parse_listeners :
        List J → List (Entry L) → Option (List (Entry L) × List (Action J L))
    parse_listeners [] listeners = some (listeners, [])
    parse_listeners (config ∷ configs) listeners = elim (parse_listener config) [
      | skipped ↦ parse_listeners configs listeners
      | exited ↦ none
      | inserted proto_listener ↦ elim (parse_listeners configs (proto_listener ∷ listeners)) [
        | none ↦ none
        | some (listeners', actions) ↦ some (listeners', created config ∷ actions)
      ]
    ]

    -- The reloads of the main loop.
    unfoldable pub main_loop :
        List (Option (List J)) → List (Entry L) → Option (List (Entry L) × List (Action J L))
    main_loop [] listeners = some (listeners, [])
    main_loop (new_config ∷ reloads) listeners =
        elim (reload_listeners port_of parse_listener new_config listeners) [
          | none ↦ none
          | some (listeners', actions) ↦ elim (main_loop reloads listeners') [
            | none ↦ none
            | some (listeners'', actions') ↦ some (listeners'', actions ++ actions')
          ]
        ]

    -- main, with `kafka` whether init_rdkafka makes a producer.
    unfoldable pub main :
        List DecoderHooks → Bool → List J → List (Option (List J)) → Option (List (Event J L))
    unfolding init_decoders free_global_config
    main decoders kafka configs reloads =
        if kafka
        then elim (parse_listeners configs []) [
          | none ↦ none
          | some (listeners, actions) ↦ elim (main_loop reloads listeners) [
            | none ↦ none
            | some (listeners', actions') ↦ some (
                init_decoders decoders
                ++ (kafka_created
                    ∷ (map listener (actions ++ actions')
                        ++ free_global_config decoders listeners')))
          ]
        ]
        else none
