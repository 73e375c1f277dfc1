-- ===== src/Listener/Socket/Queues.antt =====
-- src/listener/socket/socket.c: the queues between the thread that accepts and the workers, in accept_cb and
-- async_cb.
--
-- The two sides run in threads of their own. A step is what one of them does at once: accept_cb adds the
-- watcher to a queue and then sends the event; libev calls async_cb for an event that was sent, and the
-- callback takes one watcher after the other until the queue is empty. An event that is sent again before
-- the callback runs counts once. `C` is a watcher, and `handed` keeps what was ever added.
pub mod Wakes
use n2kafka.Prelude.{
  ℕ, Bool, true, false, Option, none, some, List, [], ◌∷◌, ◌++◌, ◌==◌, if◌then◌else◌,
}
use n2kafka.Listener.Socket.{SocketConfig, Client, Accept, handed, accept_cb}

pub record Queues (C : Type 0) : Type 0 where
  pub accept_current_worker_idx : ℕ
  pub watchers_queue : ℕ → List C
  pub started : ℕ → List C
  pub handed_over : ℕ → List C
  pub sent : ℕ → Bool
  pub in_callback : ℕ → Bool
  pub sending : Option ℕ

abbrev pub set_at : {A : Type 0} → (ℕ → A) → ℕ → A → ℕ → A
set_at f i v j = if j == i then v else f j

pub data Step (C : Type 0) : Type 0 where
  accepts : Client → C → Step C
  sends : Step C
  wakes : ℕ → Bool → Step C
  pops : ℕ → Step C

module _ {C : Type 0} where
  abbrev pub no_connections : Queues C
  no_connections = record {
    accept_current_worker_idx = 0;
    watchers_queue = λ i. [];
    started = λ i. [];
    handed_over = λ i. [];
    sent = λ i. false;
    in_callback = λ i. false;
    sending = none;
  }

  -- rd_fifoq_add at the worker that accept_cb chooses.
  unfoldable pub add_watcher : C → Accept × ℕ → Queues C → Queues C
  add_watcher c (handed i, idx) q = record q {
    accept_current_worker_idx = idx;
    watchers_queue = set_at q.watchers_queue i (q.watchers_queue i ++ c ∷ []);
    handed_over = set_at q.handed_over i (q.handed_over i ++ c ∷ []);
    sending = some i;
  }
  add_watcher c (other, idx) q = record q { accept_current_worker_idx = idx }

  -- ev_async_send
  unfoldable pub send_event : ℕ → Queues C → Queues C
  send_event i q = record q { sent = set_at q.sent i true; sending = none }

  -- The beginning of async_cb, for an event that was sent.
  unfoldable pub enter_callback : ℕ → Bool → Queues C → Queues C
  enter_callback i error_event q =
      if error_event
      then record q { sent = set_at q.sent i false }
      else record q { sent = set_at q.sent i false; in_callback = set_at q.in_callback i true }

  -- One round of the loop of async_cb, with the queue that it finds.
  unfoldable pub pop_watcher : ℕ → List C → Queues C → Queues C
  pop_watcher i [] q = record q { in_callback = set_at q.in_callback i false }
  pop_watcher i (w_client ∷ others) q = record q {
    watchers_queue = set_at q.watchers_queue i others;
    started = set_at q.started i (q.started i ++ w_client ∷ []);
  }

  -- A step, where its thread can do it.
  unfoldable pub step : SocketConfig → Step C → Queues C → Queues C
  unfolding add_watcher send_event enter_callback pop_watcher
  step config (accepts client c) q = elim q.sending [
    | none ↦ add_watcher c (accept_cb config q.accept_current_worker_idx client) q
    | some i ↦ q
  ]
  step config sends q = elim q.sending [ none ↦ q | some i ↦ send_event i q ]
  step config (wakes i error_event) q =
      if q.sent i then if q.in_callback i then q else enter_callback i error_event q else q
  step config (pops i) q = if q.in_callback i then pop_watcher i (q.watchers_queue i) q else q

  unfoldable pub run_steps : SocketConfig → List (Step C) → Queues C → Queues C
  unfolding step
  run_steps config [] q = q
  run_steps config (s ∷ steps) q = run_steps config steps (step config s q)
