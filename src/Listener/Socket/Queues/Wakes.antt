-- ===== src/Listener/Socket/Queues/Wakes.antt =====
-- No connection waits in a queue unless a call of the worker is due, and none overtakes another.
use mathlib.Core.Path.{subst}
use n2kafka.Prelude.{
  ℕ, ◌≡◌, refl, ap, sym, ◌∙◌, ◌⊎◌, inl, inr, true, false, none, some, List, [], ◌∷◌, ◌++◌,
  append_assoc, append-nil, ◌==◌, ==_iff, arith, All, Bool-cases, Option-cases,
}
use n2kafka.Listener.Socket.{SocketConfig, Accept, handed, accept_cb}
use n2kafka.Listener.Socket.Queues.{
  Queues, Step, accepts, sends, wakes, pops, no_connections, add_watcher, send_event,
  enter_callback, pop_watcher, step, run_steps,
}

-- libev calls no callback with EV_ERROR.
abbrev pub IsFine : {C : Type 0} → Step C → Type 0
IsFine (wakes i error_event) = error_event ≡ false
IsFine _ = Unit

module _ {C : Type 0} where
  -- A worker's part of the state: its watchers stand in order, and a queue with something in it has a
  -- callback that runs, an event that was sent, or one about to be sent.
  pub record Served (q : Queues C) (i : ℕ) : Type 0 where
    pub order : q.started i ++ q.watchers_queue i ≡ q.handed_over i
    pub awake :
        (q.watchers_queue i ≡ [])
        ⊎ (q.in_callback i ≡ true)
        ⊎ (q.sent i ≡ true)
        ⊎ (q.sending ≡ some i)

  add_watcher-Served :
      (c : C) (r : Accept × ℕ) (q : Queues C) (j : ℕ)
      → q.sending ≡ none
      → Served q j
      → Served (add_watcher c r q) j
  unfolding add_watcher
  add_watcher-Served c (handed i, idx) q j idle s = elim (Bool-cases (j == i)) [
    | inl same ↦
        let e = (==_iff j i).0 same in
        let s' = subst (Served q) e s in
        record {
          order =
              rw (same, e)
                (sym (append_assoc (q.started i) (q.watchers_queue i) (c ∷ []))
                  ∙ ap (λ (x : List C). x ++ c ∷ []) s'.order);
          awake = inr (inr (inr (ap some (sym e))));
        }
    | inr other ↦ record {
      order = rw other s.order;
      awake = rw other (ground (arith, s.awake, idle));
    }
  ]
  add_watcher-Served c (Accept.invalid_event, idx) q j idle s = record {
    order = s.order;
    awake = s.awake;
  }
  add_watcher-Served c (Accept.accept_error, idx) q j idle s = record {
    order = s.order;
    awake = s.awake;
  }
  add_watcher-Served c (Accept.no_address, idx) q j idle s = record {
    order = s.order;
    awake = s.awake;
  }
  add_watcher-Served c (Accept.rejected, idx) q j idle s = record {
    order = s.order;
    awake = s.awake;
  }
  add_watcher-Served c (Accept.exits, idx) q j idle s = record { order = s.order; awake = s.awake }
  add_watcher-Served c (Accept.no_memory, idx) q j idle s = record {
    order = s.order;
    awake = s.awake;
  }

  send_event-Served :
      (i : ℕ) (q : Queues C) (j : ℕ) → q.sending ≡ some i → Served q j → Served (send_event i q) j
  unfolding send_event
  send_event-Served i q j due s = elim (Bool-cases (j == i)) [
    | inl same ↦ record { order = s.order; awake = inr (inr (inl (rw same refl))) }
    | inr other ↦ record { order = s.order; awake = rw other (ground (arith, s.awake, due, other)) }
  ]

  enter_callback-Served :
      (i : ℕ) (q : Queues C) (j : ℕ) → Served q j → Served (enter_callback i false q) j
  unfolding enter_callback
  enter_callback-Served i q j s = elim (Bool-cases (j == i)) [
    | inl same ↦ record { order = s.order; awake = inr (inl (rw same refl)) }
    | inr other ↦ record { order = s.order; awake = rw other s.awake }
  ]

  pop_watcher-Served :
      (i : ℕ) (found : List C) (q : Queues C) (j : ℕ)
      → q.in_callback i ≡ true
      → q.watchers_queue i ≡ found
      → Served q j
      → Served (pop_watcher i found q) j
  unfolding pop_watcher
  pop_watcher-Served i [] q j busy empty s = elim (Bool-cases (j == i)) [
    | inl same ↦ let e = (==_iff j i).0 same in record { order = s.order; awake = inl (rw e empty) }
    | inr other ↦ record { order = s.order; awake = rw other s.awake }
  ]
  pop_watcher-Served i (w_client ∷ others) q j busy full s = elim (Bool-cases (j == i)) [
    | inl same ↦
        let e = (==_iff j i).0 same in
        let s' = subst (Served q) e s in
        record {
          order =
              rw (same, e)
                (append_assoc (q.started i) (w_client ∷ []) others
                  ∙ ap (λ (x : List C). q.started i ++ x) (sym full)
                  ∙ s'.order);
          awake = inr (inl (rw e busy));
        }
    | inr other ↦ record { order = rw other s.order; awake = rw other s.awake }
  ]

  step-Served :
      (config : SocketConfig) (t : Step C) (q : Queues C)
      → IsFine t
      → ((i : ℕ) → Served q i)
      → (i : ℕ) → Served (step config t q) i
  unfolding step
  step-Served config (accepts client c) q fine all i = elim (Option-cases q.sending) [
    | inl idle ↦
        rw (step, idle)
          (add_watcher-Served c (accept_cb config q.accept_current_worker_idx client) q i idle
            (all i))
    | inr (j, due) ↦ rw (step, due) (all i)
  ]
  step-Served config sends q fine all i = elim (Option-cases q.sending) [
    | inl idle ↦ rw (step, idle) (all i)
    | inr (j, due) ↦ rw (step, due) (send_event-Served j q i due (all i))
  ]
  step-Served config (wakes j error_event) q fine all i = elim (Bool-cases (q.sent j)) [
    | inr unsent ↦ rw (step, unsent) (all i)
    | inl sent ↦ elim (Bool-cases (q.in_callback j)) [
      | inl busy ↦ rw (step, sent, busy) (all i)
      | inr out ↦ rw (step, sent, out, fine) (enter_callback-Served j q i (all i))
    ]
  ]
  step-Served config (pops j) q fine all i = elim (Bool-cases (q.in_callback j)) [
    | inr out ↦ rw (step, out) (all i)
    | inl busy ↦ rw (step, busy) (pop_watcher-Served j (q.watchers_queue j) q i busy refl (all i))
  ]

  run_steps-Served_from :
      (config : SocketConfig) (steps : List (Step C)) (q : Queues C)
      → All IsFine steps
      → ((i : ℕ) → Served q i)
      → (i : ℕ) → Served (run_steps config steps q) i
  unfolding run_steps
  run_steps-Served_from config [] q fine all i = all i
  run_steps-Served_from config (t ∷ steps) q (fine, others) all i =
      run_steps-Served_from config steps (step config t q) others (step-Served config t q fine all)
        i

  -- Under every interleaving of the accepting thread with the workers, without libev errors: each worker has
  -- started its watchers in the order in which they were handed to it, the rest stands in its queue in that
  -- order, and if that is not empty the worker's callback runs or an event for it is sent or about to be.
  pub run_steps-Served :
      (config : SocketConfig) (steps : List (Step C))
      → All IsFine steps
      → (i : ℕ) → Served (run_steps config steps no_connections) i
  run_steps-Served config steps fine =
      run_steps-Served_from config steps no_connections fine
        (λ i. record { order = refl; awake = inl refl })

  -- One round of the callback for each of some watchers.
  abbrev pub pop_each : ℕ → List C → List (Step C)
  pop_each i [] = []
  pop_each i (w ∷ ws) = pops i ∷ pop_each i ws

  pop_each-IsFine : (i : ℕ) (ws : List C) → All IsFine (pop_each i ws)
  pop_each-IsFine i [] = tt
  pop_each-IsFine i (w ∷ ws) = (tt, pop_each-IsFine i ws)

  drain :
      (config : SocketConfig) (i : ℕ) (ws : List C) (q : Queues C)
      → q.in_callback i ≡ true
      → q.watchers_queue i ≡ ws
      → ((run_steps config (pop_each i ws) q).watchers_queue i ≡ [])
        × ((run_steps config (pop_each i ws) q).handed_over i ≡ q.handed_over i)
  unfolding run_steps step pop_watcher
  drain config i [] q busy waiting = (waiting, refl)
  drain config i (w ∷ ws) q busy waiting =
      let self : (i == i) ≡ true = (==_iff i i).1 refl in
      let next : step config (pops i) q ≡ pop_watcher i (w ∷ ws) q =
        rw (step, busy, waiting) refl in
      rw (run_steps, next) (drain config i ws (pop_watcher i (w ∷ ws) q) busy (rw self refl))

  -- The accepting thread's event, if one is due.
  sends-sent :
      (config : SocketConfig) (i : ℕ) (q : Queues C)
      → ((step config sends q).sending ≡ none)
        × ((step config sends q).watchers_queue i ≡ q.watchers_queue i)
        × ((step config sends q).handed_over i ≡ q.handed_over i)
  unfolding step send_event
  sends-sent config i q = elim (Option-cases q.sending) [
    | inl idle ↦ rw (step, idle) (idle, refl, refl)
    | inr (j, due) ↦ rw (step, due) (refl, refl, refl)
  ]

  wakes-kept :
      (config : SocketConfig) (i : ℕ) (q : Queues C)
      → ((step config (wakes i false) q).watchers_queue i ≡ q.watchers_queue i)
        × ((step config (wakes i false) q).handed_over i ≡ q.handed_over i)
  unfolding step enter_callback
  wakes-kept config i q = elim (Bool-cases (q.sent i)) [
    | inr unsent ↦ rw (step, unsent) (refl, refl)
    | inl sent ↦ elim (Bool-cases (q.in_callback i)) [
      | inl busy ↦ rw (step, sent, busy) (refl, refl)
      | inr out ↦ rw (step, sent, out) (refl, refl)
    ]
  ]

  wakes-called :
      (config : SocketConfig) (i : ℕ) (q : Queues C)
      → (q.in_callback i ≡ true) ⊎ (q.sent i ≡ true)
      → (step config (wakes i false) q).in_callback i ≡ true
  unfolding step enter_callback
  wakes-called config i q due = elim (Bool-cases (q.in_callback i)) [
    | inl busy ↦ elim (Bool-cases (q.sent i)) [
      | inl sent ↦ rw (step, sent, busy) busy
      | inr unsent ↦ rw (step, unsent) busy
    ]
    | inr out ↦
        let sent : q.sent i ≡ true = ground (arith, due, out) in
        let self : (i == i) ≡ true = (==_iff i i).1 refl in rw (step, sent, out) (rw self refl)
  ]

  wakes-due :
      (config : SocketConfig) (i : ℕ) (q : Queues C)
      → q.sending ≡ none
      → Served q i
      → (q.watchers_queue i ≡ []) ⊎ ((step config (wakes i false) q).in_callback i ≡ true)
  wakes-due config i q idle s =
      let due : (q.watchers_queue i ≡ []) ⊎ ((q.in_callback i ≡ true) ⊎ (q.sent i ≡ true)) =
        ground (arith, s.awake, idle) in
      elim due [ inl empty ↦ inl empty | inr called ↦ inr (wakes-called config i q called) ]

  drain_due :
      (config : SocketConfig) (i : ℕ) (ws : List C) (q : Queues C)
      → q.watchers_queue i ≡ ws
      → (ws ≡ []) ⊎ (q.in_callback i ≡ true)
      → ((run_steps config (pop_each i ws) q).watchers_queue i ≡ [])
        × ((run_steps config (pop_each i ws) q).handed_over i ≡ q.handed_over i)
  unfolding run_steps
  drain_due config i [] q waiting due = (waiting, refl)
  drain_due config i (w ∷ ws) q waiting (inl none_left) = cc
  drain_due config i (w ∷ ws) q waiting (inr busy) = drain config i (w ∷ ws) q busy waiting

  -- What is due for a worker: the event, the call of its callback, and a round for each waiting watcher.
  abbrev pub catch_up : ℕ → Queues C → List (Step C)
  catch_up i q = sends ∷ wakes i false ∷ pop_each i (q.watchers_queue i)

  -- From any state that the two sides reach, the steps that are due for a worker leave its queue empty and
  -- have started, in order, every watcher that was handed to it.
  pub catch_up-started :
      (config : SocketConfig) (steps : List (Step C)) (i : ℕ)
      → All IsFine steps
      → let q = run_steps config steps no_connections in
        ((run_steps config (catch_up i q) q).watchers_queue i ≡ [])
        × ((run_steps config (catch_up i q) q).started i ≡ q.handed_over i)
  unfolding run_steps
  catch_up-started config steps i fine =
      let q = run_steps config steps no_connections in
      let q1 = step config sends q in
      let q2 = step config (wakes i false) q1 in
      let end = run_steps config (pop_each i (q.watchers_queue i)) q2 in
      let (idle, same1, handed1) = sends-sent config i q in
      let served1 = step-Served config sends q tt (run_steps-Served config steps fine) in
      let served2 = step-Served config (wakes i false) q1 refl served1 in
      let served =
        run_steps-Served_from config (pop_each i (q.watchers_queue i)) q2
          (pop_each-IsFine i (q.watchers_queue i)) served2 i in
      let (same2, handed2) = wakes-kept config i q1 in
      let due : (q.watchers_queue i ≡ []) ⊎ (q2.in_callback i ≡ true) =
        rw (← same1) (wakes-due config i q1 idle (served1 i)) in
      let (empty, handed3) = drain_due config i (q.watchers_queue i) q2 (same2 ∙ same1) due in
      (
        empty,
        sym (append-nil (end.started i))
            ∙ ap (λ (x : List C). end.started i ++ x) (sym empty)
            ∙ served.order
            ∙ handed3
            ∙ handed2
            ∙ handed1,
      )
