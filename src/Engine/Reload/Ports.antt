-- ===== src/Engine/Reload/Ports.antt =====
-- The ports that are served after a reload.
use n2kafka.Prelude.{
  ℕ, ◌^◌, ◌<◌, ◌≡◌, refl, sym, ◌∙◌, ap, ◌⊎◌, inl, inr, Bool, true, false, ◌&&◌, ◌||◌, Option, none,
  some, List, [], ◌∷◌, ◌++◌, ltb, ◌==◌, arith, All, Bool-cases, Option-cases,
}
use n2kafka.Prelude.Int.{ℤ, pos, to_uint16}
use n2kafka.Engine.Reload.{
  Entry, Action, Parsed, inserted, created, find_value, has_port,
  reload_listeners_check_already_present, reload_listeners_create_new_ones, reload_listeners,
}

abbrev is_found : {J : Type 0} → Option J → Bool
is_found none = false
is_found (some value) = true

or_absorb : (s a v : Bool) → (a ≡ true → s ≡ true) → (s || v) ≡ (s || (a || v))
or_absorb true a v h = refl
or_absorb false false v h = refl
or_absorb false true v h = absurd (cc (h refl))

or_kept : (s v : Bool) → (s ≡ true → v ≡ true) → (s || v) ≡ v
or_kept true v h = sym (h refl)
or_kept false v h = refl

or_shuffle : (a s v : Bool) → ((a || s) || v) ≡ (s || (a || v))
or_shuffle true true v = refl
or_shuffle true false v = refl
or_shuffle false s v = refl

-- No two listeners have one port.
abbrev pub Distinct : {J L : Type 0} → (J → Option ℤ) → (J → Parsed L) → List (Entry L) → Type 0
Distinct port_of parse_listener [] = Unit
Distinct port_of parse_listener (i ∷ listeners) =
    (has_port port_of parse_listener i.port listeners ≡ false)
    × Distinct port_of parse_listener listeners

module _ {J L : Type 0} (port_of : J → Option ℤ) (parse_listener : J → Parsed L) where
  -- A configuration with a port, for which the factory makes a listener on that port.
  abbrev pub IsServed : J → Type 0
  IsServed config =
      (p : ℕ) × (port_of config ≡ some (pos p))
      × (0 < p)
      × (p < 2 ^ 16)
      × (i : Entry L) × (parse_listener config ≡ inserted i)
      × (i.port ≡ p)

  -- Whether some configuration has this port.
  abbrev pub has_value : ℕ → List J → Bool
  has_value p configs = is_found (find_value port_of parse_listener p configs)

  abbrev served : ℕ → List (Entry L) → Bool
  served = has_port port_of parse_listener

  check : List J → List (Entry L) → List (Entry L) × List (Action J L)
  check = reload_listeners_check_already_present port_of parse_listener

  -- A listener is dropped, or it stays and is configured.
  check-step :
      (configs : List J) (i : Entry L) (listeners : List (Entry L))
      → ((check configs (i ∷ listeners)).0 ≡ (check configs listeners).0)
        ⊎ (((check configs (i ∷ listeners)).0 ≡ i ∷ (check configs listeners).0)
            × (has_value i.port configs ≡ true))
  unfolding check reload_listeners_check_already_present
  check-step configs i listeners =
      elim (Option-cases (find_value port_of parse_listener i.port configs)) [
        | inl gone ↦ inl (rw (reload_listeners_check_already_present, gone) refl)
        | inr (value, found) ↦ elim (Bool-cases i.reload) [
          | inl reload ↦
              inr (rw (reload_listeners_check_already_present, found, reload) refl, rw found refl)
          | inr old ↦ inl (rw (reload_listeners_check_already_present, found, old) refl)
        ]
      ]

  served_cases :
      (i : Entry L) (listeners : List (Entry L)) (p : ℕ)
      → served p (i ∷ listeners) ≡ (ltb 0 i.port && i.port == p || served p listeners)
  unfolding has_port
  served_cases i listeners p = ground arith

  none_served : (p : ℕ) → served p [] ≡ false
  unfolding has_port
  none_served p = refl

  check-kept :
      (configs : List J) (listeners : List (Entry L)) (p : ℕ)
      → served p (check configs listeners).0 ≡ true
      → (has_value p configs ≡ true) × (served p listeners ≡ true)
  unfolding check reload_listeners_check_already_present
  check-kept configs [] p h = absurd (cc (sym (none_served p) ∙ h))
  check-kept configs (i ∷ listeners) p h = elim (check-step configs i listeners) [
    | inl e ↦
        let ih = check-kept configs listeners p (rw e at h) in
        (ih.0, served_cases i listeners p ∙ ground (arith, ih.1))
    | inr (e, wanted) ↦ elim (Bool-cases (ltb 0 i.port && i.port == p)) [
      | inl here ↦
          let same : i.port ≡ p = ground arith in
          (
            sym (ap (λ (q : ℕ). has_value q configs) same) ∙ wanted,
            served_cases i listeners p ∙ ground (arith, here),
          )
      | inr other ↦
          let left = sym (served_cases i (check configs listeners).0 p) ∙ (rw e at h) in
          let ih = check-kept configs listeners p (ground (arith, left, other)) in
          (ih.0, served_cases i listeners p ∙ ground (arith, ih.1))
    ]
  ]

  abbrev Apart : List (Entry L) → Type 0
  Apart = Distinct port_of parse_listener

  check-Distinct :
      (configs : List J) (listeners : List (Entry L))
      → Apart listeners
      → Apart (check configs listeners).0
  check-Distinct configs [] apart = unfold check reload_listeners_check_already_present in apart
  check-Distinct configs (i ∷ listeners) (alone, apart) = elim (check-step configs i listeners) [
    | inl e ↦ rw e (check-Distinct configs listeners apart)
    | inr (e, wanted) ↦ rw e (
      (elim (Bool-cases (served i.port (check configs listeners).0)) [
        | inl twice ↦ absurd (cc (check-kept configs listeners i.port twice).1)
        | inr once ↦ once
      ]),
      check-Distinct configs listeners apart,
    )
  ]

  value_cases :
      (config : J) (configs : List J) (q p : ℕ)
      → port_of config ≡ some (pos q)
      → has_value p (config ∷ configs) ≡ (ltb 0 q && q == p || has_value p configs)
  unfolding find_value
  value_cases config configs q p e = elim (Bool-cases (ltb 0 q && q == p)) [
    | inl here ↦ rw (find_value, e, here) refl
    | inr other ↦ rw (find_value, e, other) refl
  ]

  uint16_port : (q : ℕ) → q < 2 ^ 16 → to_uint16 (pos q) ≡ q
  unfolding to_uint16
  uint16_port q h = omega arith

  -- What the second half of the reload leaves.
  record Created (configs : List J) (listeners : List (Entry L))
      (r : Option (List (Entry L) × List (Action J L))) : Type 0 where
    done : List (Entry L)
    actions : List (Action J L)
    returns : r ≡ some (done, actions)
    apart : Apart done
    ports : (p : ℕ) → served p done ≡ (served p listeners || has_value p configs)

  create : List J → List (Entry L) → Option (List (Entry L) × List (Action J L))
  create = reload_listeners_create_new_ones port_of parse_listener

  already-Created :
      (config : J) (configs : List J) (listeners : List (Entry L)) (q : ℕ)
      → port_of config ≡ some (pos q)
      → q < 2 ^ 16
      → served q listeners ≡ true
      → Created configs listeners (create configs listeners)
      → Created (config ∷ configs) listeners (create (config ∷ configs) listeners)
  unfolding create reload_listeners_create_new_ones
  already-Created config configs listeners q e small here rest =
      let low = uint16_port q small in
      record {
        done = rest.done;
        actions = rest.actions;
        returns = rw (reload_listeners_create_new_ones, e, low, here) rest.returns;
        apart = rest.apart;
        ports = λ p.
            rest.ports p
            ∙ or_absorb (served p listeners) (ltb 0 q && q == p) (has_value p configs) (λ h.
              let same : q ≡ p = ground (arith, h) in
              sym (ap (λ (n : ℕ). served n listeners) same) ∙ here)
            ∙ ap (λ (b : Bool). served p listeners || b) (sym (value_cases config configs q p e));
      }

  inserted-Created :
      (config : J) (configs : List J) (listeners : List (Entry L)) (q : ℕ) (i : Entry L)
      → port_of config ≡ some (pos q)
      → q < 2 ^ 16
      → served q listeners ≡ false
      → parse_listener config ≡ inserted i
      → i.port ≡ q
      → Created configs (i ∷ listeners) (create configs (i ∷ listeners))
      → Created (config ∷ configs) listeners (create (config ∷ configs) listeners)
  unfolding create reload_listeners_create_new_ones
  inserted-Created config configs listeners q i e small free made port rest =
      let low = uint16_port q small in
      record {
        done = rest.done;
        actions = created config ∷ rest.actions;
        returns = rw (reload_listeners_create_new_ones, e, low, free, made, rest.returns) refl;
        apart = rest.apart;
        ports = λ p.
            rest.ports p
            ∙ ap (λ (b : Bool). b || has_value p configs) (served_cases i listeners p)
            ∙ ap (λ (n : ℕ). (ltb 0 n && n == p || served p listeners) || has_value p configs) port
            ∙ or_shuffle (ltb 0 q && q == p) (served p listeners) (has_value p configs)
            ∙ ap (λ (b : Bool). served p listeners || b) (sym (value_cases config configs q p e));
      }

  create-Created :
      (configs : List J) (listeners : List (Entry L))
      → All IsServed configs
      → Apart listeners
      → Created configs listeners (create configs listeners)
  create-Created [] listeners good apart =
      unfold create reload_listeners_create_new_ones find_value in
      record {
        done = listeners;
        actions = [];
        returns = refl;
        apart = apart;
        ports = λ p. ground arith;
      }
  create-Created (config ∷ configs) listeners (good, goods) apart =
      let (q, e, real, small, i, made, port) = good in
      elim (Bool-cases (served q listeners)) [
        | inl here ↦
            already-Created config configs listeners q e small here
              (create-Created configs listeners goods apart)
        | inr free ↦
            let alone : served i.port listeners ≡ false = rw port free in
            inserted-Created config configs listeners q i e small free made port
              (create-Created configs (i ∷ listeners) goods (alone, apart))
      ]

  -- Every configuration names a port, for which a listener can be made, and no two listeners have one
  -- port: the reload does not end the process, a port is served after it exactly if the new configuration
  -- names it, and no two listeners have one port.
  pub reload_listeners-Ports :
      (configs : List J) (listeners : List (Entry L))
      → All IsServed configs
      → Apart listeners
      → (done : List (Entry L)) × (actions : List (Action J L)) × (reload_listeners port_of
            parse_listener
            (some configs)
            listeners
          ≡ some (done, actions))
        × Apart done
        × ((p : ℕ) → served p done ≡ has_value p configs)
  unfolding reload_listeners create check
  reload_listeners-Ports configs listeners good apart =
      let kept = (check configs listeners).0 in
      let rest = create-Created configs kept good (check-Distinct configs listeners apart) in
      (
        rest.done,
        (check configs listeners).1 ++ rest.actions,
        rw (reload_listeners, rest.returns) refl,
        rest.apart,
        λ p.
            rest.ports p
            ∙ or_kept (served p kept) (has_value p configs)
                (λ h. (check-kept configs listeners p h).0),
      )
