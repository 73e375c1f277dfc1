-- ===== src/Engine/Program/Balance.antt =====
-- Every listener that the program makes is joined, once, before the decoders and Kafka end.
use mathlib.Core.Path.{subst}
use mathlib.Core.List.{map-append}
use n2kafka.Prelude.{
  ℕ, suc, ◌+◌, ◌≡◌, refl, ap, sym, ◌∙◌, Bool, true, false, Option, none, some, List, [], ◌∷◌, ◌++◌,
  map, append_assoc, length, arith, All, Bool-cases, Option-cases, inl, inr, ◌⊎◌,
}
use n2kafka.Prelude.Int.{ℤ, to_uint16}
use n2kafka.Engine.Reload.{
  Entry, Action, created, joined, reloaded, Parsed, skipped, exited, inserted, shutdown_listeners,
  find_value, has_port, or_zero, reload_listeners_check_already_present,
  reload_listeners_create_new_ones, reload_listeners,
}
use n2kafka.Engine.Program.{
  DecoderHooks, Event, listener, kafka_created, kafka_polled, kafka_stopped, blacklist_freed,
  init_decoders, finish_decoders, free_global_config, parse_listeners, main_loop, main,
}

abbrev pub HasJoin : {L : Type 0} → Entry L → Type 0
HasJoin i = i.join ≡ true

module _ {J L : Type 0} where
  abbrev pub makes : List (Action J L) → ℕ
  makes [] = 0
  makes (created config ∷ actions) = suc (makes actions)
  makes (reloaded l config ∷ actions) = makes actions
  makes (joined l ∷ actions) = makes actions

  abbrev pub joins : List (Action J L) → ℕ
  joins [] = 0
  joins (created config ∷ actions) = joins actions
  joins (reloaded l config ∷ actions) = joins actions
  joins (joined l ∷ actions) = suc (joins actions)

  makes-append : (xs ys : List (Action J L)) → makes (xs ++ ys) ≡ makes xs + makes ys
  makes-append [] ys = omega arith
  makes-append (created c ∷ xs) ys = omega (arith, makes-append xs ys)
  makes-append (reloaded l c ∷ xs) ys = makes-append xs ys
  makes-append (joined l ∷ xs) ys = makes-append xs ys

  joins-append : (xs ys : List (Action J L)) → joins (xs ++ ys) ≡ joins xs + joins ys
  joins-append [] ys = omega arith
  joins-append (created c ∷ xs) ys = joins-append xs ys
  joins-append (reloaded l c ∷ xs) ys = joins-append xs ys
  joins-append (joined l ∷ xs) ys = omega (arith, joins-append xs ys)

  -- The listeners before and behind some actions: each one more is made, each one less joined.
  pub record Balanced (before after : List (Entry L)) (actions : List (Action J L)) : Type 0 where
    pub joinable : All HasJoin after
    pub count : length before + makes actions ≡ length after + joins actions

  append-Balanced :
      (a b c : List (Entry L)) (xs ys : List (Action J L))
      → Balanced a b xs
      → Balanced b c ys
      → Balanced a c (xs ++ ys)
  append-Balanced a b c xs ys first second = record {
    joinable = second.joinable;
    count = omega (arith, first.count, second.count, makes-append xs ys, joins-append xs ys);
  }

  -- What a phase of the program comes to, unless it ends the process.
  abbrev pub Sound : List (Entry L) → Option (List (Entry L) × List (Action J L)) → Type 0
  Sound before none = Unit
  Sound before (some (after, actions)) = Balanced before after actions

  made-Sound :
      (config : J) (i : Entry L) (before : List (Entry L))
      (o : Option (List (Entry L) × List (Action J L)))
      → Sound (i ∷ before) o
      → Sound before
          (elim o [ none ↦ none | some (after, actions) ↦ some (after, created config ∷ actions) ])
  made-Sound config i before none s = tt
  made-Sound config i before (some (after, actions)) s = record {
    joinable = s.joinable;
    count = omega (arith, s.count);
  }

  then-Sound :
      (a b : List (Entry L)) (xs : List (Action J L))
      (o : Option (List (Entry L) × List (Action J L)))
      → Balanced a b xs
      → Sound b o
      → Sound a (elim o [ none ↦ none | some (after, actions) ↦ some (after, xs ++ actions) ])
  then-Sound a b xs none first s = tt
  then-Sound a b xs (some (after, actions)) first s = append-Balanced a b after xs actions first s

  chain-Sound :
      (a : List (Entry L)) (o : Option (List (Entry L) × List (Action J L)))
      (next : List (Entry L) → Option (List (Entry L) × List (Action J L)))
      → Sound a o
      → ((b : List (Entry L)) → All HasJoin b → Sound b (next b))
      → Sound a (elim o [
        | none ↦ none
        | some (b, xs) ↦ elim (next b) [
          | none ↦ none
          | some (after, actions) ↦ some (after, xs ++ actions)
        ]
      ])
  chain-Sound a none next s rest = tt
  chain-Sound a (some (b, xs)) next s rest = then-Sound a b xs (next b) s (rest b s.joinable)

pub shutdown-joins :
    (J : Type 0) {L : Type 0} (listeners : List (Entry L))
    → All HasJoin listeners
    → (joins (shutdown_listeners {J = J} listeners) ≡ length listeners)
      × (makes (shutdown_listeners {J = J} listeners) ≡ 0)
shutdown-joins J [] all = (refl, refl)
shutdown-joins J (i ∷ listeners) (join, all) =
    let (j, m) = shutdown-joins J listeners all in rw join (ap suc j, m)

module _ {J L : Type 0} where
  -- The decoders' and Kafka's end.
  abbrev pub ending : List DecoderHooks → List (Event J L)
  ending decoders = finish_decoders decoders ++ kafka_polled ∷ kafka_stopped ∷ blacklist_freed ∷ []

  module _ (port_of : J → Option ℤ) (parse_listener : J → Parsed L)
      (joinable : (config : J) (i : Entry L) → parse_listener config ≡ inserted i → HasJoin i) where
    Parsed-cases :
        (r : Parsed L) → (r ≡ skipped) ⊎ ((r ≡ exited) ⊎ ((i : Entry L) × (r ≡ inserted i)))
    Parsed-cases skipped = inl refl
    Parsed-cases exited = inr (inl refl)
    Parsed-cases (inserted i) = inr (inr (i, refl))

    nothing-Balanced :
        (listeners : List (Entry L))
        → All HasJoin listeners
        → Balanced {J = J} listeners listeners []
    nothing-Balanced listeners all = record { joinable = all; count = refl }

    parse-Sound :
        (configs : List J) (listeners : List (Entry L))
        → All HasJoin listeners
        → Sound listeners (parse_listeners port_of parse_listener configs listeners)
    unfolding parse_listeners
    parse-Sound [] listeners all = nothing-Balanced listeners all
    parse-Sound (config ∷ configs) listeners all = elim (Parsed-cases (parse_listener config)) [
      | inl skips ↦ rw (parse_listeners, skips) (parse-Sound configs listeners all)
      | inr rest ↦ elim rest [
        | inl exits ↦ rw (parse_listeners, exits) tt
        | inr (i, made) ↦
            rw (parse_listeners, made)
              (made-Sound config i listeners _
                (parse-Sound configs (i ∷ listeners) (joinable config i made, all)))
      ]
    ]

    check-Balanced :
        (configs : List J) (listeners : List (Entry L))
        → All HasJoin listeners
        → let r = reload_listeners_check_already_present port_of parse_listener configs listeners in
          Balanced listeners r.0 r.1
    unfolding reload_listeners_check_already_present
    check-Balanced configs [] all = nothing-Balanced [] tt
    check-Balanced configs (i ∷ listeners) (join, all) =
        let rest = check-Balanced configs listeners all in
        elim (Option-cases (find_value port_of parse_listener i.port configs)) [
          | inl gone ↦
              rw (reload_listeners_check_already_present, gone, join)
                (record { joinable = rest.joinable; count = omega (arith, rest.count) })
          | inr (value, found) ↦ elim (Bool-cases i.reload) [
            | inl reloads ↦
                rw (reload_listeners_check_already_present, found, reloads)
                  (record { joinable = (join, rest.joinable); count = omega (arith, rest.count) })
            | inr fixed ↦
                rw (reload_listeners_check_already_present, found, fixed, join)
                  (record { joinable = rest.joinable; count = omega (arith, rest.count) })
          ]
        ]

    abbrev served : J → List (Entry L) → Bool
    served config listeners =
        has_port port_of parse_listener (to_uint16 (or_zero (port_of config))) listeners

    create-Sound :
        (configs : List J) (listeners : List (Entry L))
        → All HasJoin listeners
        → Sound listeners
            (reload_listeners_create_new_ones port_of parse_listener configs listeners)
    unfolding reload_listeners_create_new_ones
    create-Sound [] listeners all = nothing-Balanced listeners all
    create-Sound (config ∷ configs) listeners all = elim (Bool-cases (served config listeners)) [
      | inl here ↦ rw (reload_listeners_create_new_ones, here) (create-Sound configs listeners all)
      | inr new ↦ elim (Parsed-cases (parse_listener config)) [
        | inl skips ↦
            rw (reload_listeners_create_new_ones, new, skips) (create-Sound configs listeners all)
        | inr rest ↦ elim rest [
          | inl exits ↦ rw (reload_listeners_create_new_ones, new, exits) tt
          | inr (i, made) ↦
              rw (reload_listeners_create_new_ones, new, made)
                (made-Sound config i listeners _
                  (create-Sound configs (i ∷ listeners) (joinable config i made, all)))
        ]
      ]
    ]

    reload-Sound :
        (new_config : Option (List J)) (listeners : List (Entry L))
        → All HasJoin listeners
        → Sound listeners (reload_listeners port_of parse_listener new_config listeners)
    unfolding reload_listeners
    reload-Sound none listeners all = nothing-Balanced listeners all
    reload-Sound (some configs) listeners all =
        let r = reload_listeners_check_already_present port_of parse_listener configs listeners in
        let kept = check-Balanced configs listeners all in
        then-Sound listeners r.0 r.1 _ kept (create-Sound configs r.0 kept.joinable)

    loop-Sound :
        (reloads : List (Option (List J))) (listeners : List (Entry L))
        → All HasJoin listeners
        → Sound listeners (main_loop port_of parse_listener reloads listeners)
    unfolding main_loop
    loop-Sound [] listeners all = nothing-Balanced listeners all
    loop-Sound (new_config ∷ reloads) listeners all =
        chain-Sound listeners (reload_listeners port_of parse_listener new_config listeners)
          (main_loop port_of parse_listener reloads) (reload-Sound new_config listeners all)
          (loop-Sound reloads)

    -- Where every listener that is made can be joined, a run of the program to its end, through any reloads,
    -- initialises the decoders, makes the producer, then starts, reloads and joins listeners, as many joins
    -- as starts, and only then ends the decoders and Kafka.
    pub main-Balanced :
        (decoders : List DecoderHooks) (kafka : Bool) (configs : List J)
        (reloads : List (Option (List J))) (trace : List (Event J L))
        → main port_of parse_listener decoders kafka configs reloads ≡ some trace
        → (actions : List (Action J L)) × (makes actions ≡ joins actions)
          × (trace
              ≡ init_decoders decoders
                ++ (kafka_created ∷ (map listener actions ++ ending decoders)))
    unfolding main free_global_config
    main-Balanced decoders false configs reloads trace ran = absurd (cc ran)
    main-Balanced decoders true configs reloads trace ran =
        elim (Option-cases (parse_listeners port_of parse_listener configs [])) [
          | inl exits ↦ absurd (cc (rw (main, exits) at ran))
          | inr ((l, xs), parsed) ↦
              elim (Option-cases (main_loop port_of parse_listener reloads l)) [
                | inl exits ↦ absurd (cc (rw (main, parsed, exits) at ran))
                | inr ((l', ys), looped) ↦
                    let first : Balanced [] l xs =
                      subst (Sound []) parsed (parse-Sound configs [] tt) in
                    let second : Balanced l l' ys =
                      subst (Sound l) looped (loop-Sound reloads l first.joinable) in
                    let both = append-Balanced [] l l' xs ys first second in
                    let (j, m) = shutdown-joins J l' both.joinable in
                    let stops = shutdown_listeners {J = J} l' in
                    let count : makes (xs ++ ys ++ stops) ≡ joins (xs ++ ys ++ stops) = omega (
                      arith,
                      both.count,
                      j,
                      m,
                      makes-append (xs ++ ys) stops,
                      joins-append (xs ++ ys) stops,
                    ) in
                    let same : map listener (xs ++ ys) ++ (map listener stops ++ ending decoders)
                        ≡ map listener (xs ++ ys ++ stops) ++ ending decoders =
                      sym (
                        append_assoc (map listener (xs ++ ys)) (map listener stops)
                          (ending decoders))
                      ∙ ap (λ (x : List (Event J L)). x ++ ending decoders)
                          (sym (map-append listener (xs ++ ys) stops)) in
                    let run : init_decoders decoders
                          ++ (kafka_created
                              ∷ (map listener (xs ++ ys)
                                  ++ (map listener stops ++ ending decoders)))
                        ≡ trace =
                      cc (rw (main, parsed, looped) at ran) in
                    (
                      xs ++ ys ++ stops,
                      count,
                      sym run
                          ∙ ap
                              (λ (x : List (Event J L)).
                                init_decoders decoders ++ (kafka_created ∷ x))
                              same,
                    )
              ]
        ]
