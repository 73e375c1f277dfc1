-- ===== src/Engine/Tests.antt =====
-- The configuration's theorems at concrete input.
use n2kafka.Prelude.{
  ℕ, ◌≡◌, refl, inl, inr, true, Option, none, some, false, map, List, [], ◌∷◌, ◌++◌, Bytes, codes,
  arith,
}
use n2kafka.Prelude.Int.{ℤ, pos, to_uint16}
use n2kafka.Prelude.Run.{ret}
use n2kafka.Engine.Config.{IsNameByte, env_setting, json_setting, property_of, env_setting-json}
use n2kafka.Util.Stats.{enriched}
use n2kafka.Engine.Extra.{saved, stats_extra, stats_extra-enriched}
use n2kafka.Engine.Program.{
  DecoderHooks, Event, decoder_initialised, decoder_done, listener, kafka_created, kafka_polled,
  kafka_stopped, blacklist_freed, main, init_decoders, finish_decoders, free_global_config,
  parse_listeners, main_loop,
}
use n2kafka.Engine.Program.Balance.{makes, joins, ending, main-Balanced}
use n2kafka.Engine.Reload.{
  Entry, Action, created, joined, reloaded, Parsed, inserted, reload_listeners, has_port,
  find_value, reload_listeners_check_already_present, reload_listeners_create_new_ones,
}
use n2kafka.Engine.Reload.Ports.{Distinct, has_value, reload_listeners-Ports}

env_setting-json_example :
    env_setting [] (codes "RDKAFKA_QUEUE_MS=5")
    ≡ ret (json_setting (property_of (codes "QUEUE_MS")) (codes "5"))
unfolding IsNameByte
env_setting-json_example =
    env_setting-json [] (codes "QUEUE_MS") (codes "5")
      (
        inl (omega arith, omega arith),
        (
          inl (omega arith, omega arith),
          (
            inl (omega arith, omega arith),
            (
              inl (omega arith, omega arith),
              (
                inl (omega arith, omega arith),
                (
                  inr (inr refl),
                  (inl (omega arith, omega arith), (inl (omega arith, omega arith), tt)),
                ),
              ),
            ),
          ),
        ),
      )
      (omega arith) (omega arith)

-- A configuration is its port, and a listener too.
abbrev port_of : ℕ → Option ℤ
port_of n = some (pos n)

abbrev entry_of : ℕ → Entry ℕ
entry_of n = record { listener = n; port = n; reload = true; join = true }

abbrev make : ℕ → Parsed ℕ
make n = inserted (entry_of n)

reload_listeners-Ports_example :
    (done : List (Entry ℕ)) × (actions : List (Action ℕ ℕ)) × (reload_listeners port_of make
        (some (80 ∷ 90 ∷ []))
        (entry_of 70 ∷ entry_of 80 ∷ [])
      ≡ some (done, actions))
    × Distinct port_of make done
    × ((p : ℕ) → has_port port_of make p done ≡ has_value port_of make p (80 ∷ 90 ∷ []))
unfolding has_port
reload_listeners-Ports_example =
    reload_listeners-Ports port_of make (80 ∷ 90 ∷ []) (entry_of 70 ∷ entry_of 80 ∷ [])
      (
        (80, refl, omega arith, omega arith, entry_of 80, refl, refl),
        ((90, refl, omega arith, omega arith, entry_of 90, refl, refl), tt),
      )
      (refl, (refl, tt))

-- A value in the environment with blanks around the object.
abbrev append_value : Bytes
append_value = codes " {" ++ (codes "\"a\":1" ++ codes "} ")

stats_extra-enriched_example :
    (stats_extra (λ text. some (some 1)) true append_value
      ≡ ret (saved (codes "\"a\":1" ++ 0 ∷ []) 6))
    × (enriched true (codes "\"a\":1" ++ 0 ∷ []) (codes "{\"b\":2" ++ b'}' ∷ [])
        ≡ ret (codes "{\"b\":2,\"a\":1}", 13))
stats_extra-enriched_example =
    stats_extra-enriched (λ text. some (some 1)) (codes " ") (codes "\"a\":1") (codes " ")
      (codes "{\"b\":2") 0 true (refl, tt) (refl, tt) refl

-- Addresses are their texts.
abbrev to_addr : Bytes → ℤ × Option Bytes
to_addr text = (pos 1, some text)

abbrev two_decoders : List DecoderHooks
two_decoders =
    record { name = codes "dumb"; init = none; done = false }
    ∷ record { name = codes "zz_http2k"; init = some (pos 0); done = true }
    ∷ []

-- Two listeners, of which a reload replaces one.
abbrev a_trace : List (Event ℕ ℕ)
a_trace =
    decoder_initialised (codes "zz_http2k")
    ∷ kafka_created
    ∷ listener (created 80)
    ∷ listener (created 90)
    ∷ listener (reloaded 90 90)
    ∷ listener (joined 80)
    ∷ listener (created 70)
    ∷ listener (joined 70)
    ∷ listener (joined 90)
    ∷ decoder_done (codes "zz_http2k")
    ∷ kafka_polled
    ∷ kafka_stopped
    ∷ blacklist_freed
    ∷ []

a_trace_runs :
    main port_of make two_decoders true (80 ∷ 90 ∷ []) (some (90 ∷ 70 ∷ []) ∷ []) ≡ some a_trace
unfolding main init_decoders finish_decoders free_global_config parse_listeners main_loop
    reload_listeners reload_listeners_check_already_present reload_listeners_create_new_ones
    find_value has_port to_uint16
a_trace_runs = refl

main-Balanced_example :
    (actions : List (Action ℕ ℕ)) × (makes actions ≡ joins actions)
    × (a_trace
        ≡ init_decoders two_decoders
          ++ (kafka_created ∷ (map listener actions ++ ending two_decoders)))
main-Balanced_example =
    main-Balanced port_of make (λ config i e. cc e) two_decoders true (80 ∷ 90 ∷ [])
      (some (90 ∷ 70 ∷ []) ∷ []) a_trace a_trace_runs
