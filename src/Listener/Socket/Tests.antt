-- ===== src/Listener/Socket/Tests.antt =====
-- The socket listener's theorems at a concrete run.
use n2kafka.Prelude.{
  ℕ, ◌≡◌, ◌≤◌, ◌<◌, refl, Bool, true, false, none, some, List, [], ◌∷◌, codes, All,
}
use n2kafka.Prelude.Int.{pos}
use n2kafka.Listener.Socket.{
  SocketConfig, Unpacked, Client, create_socket_listener, accept_all, accept_cb, thread_count,
  mode_epoll,
}
use n2kafka.Listener.Socket.Workers.{round_robin, create-round_robin}
use n2kafka.Listener.Socket.Queues.{
  Step, accepts, sends, wakes, pops, no_connections, run_steps, step, add_watcher, send_event,
  enter_callback, pop_watcher,
}
use n2kafka.Listener.Socket.Queues.Wakes.{
  IsFine, Served, catch_up, run_steps-Served, catch_up-started,
}

abbrev asked : Unpacked
asked = record { proto = codes "tcp"; num_threads = 2; tcp_keepalive = false; mode = none }

abbrev two_workers : SocketConfig
two_workers = record {
  proto = codes "tcp";
  threads = 2;
  tcp_keepalive = false;
  thread_mode = mode_epoll;
}

abbrev client : Bool → Client
client blacklisted = record {
  error_event = false;
  accepted = true;
  address = some (codes "10.0.0.1");
  blacklisted = blacklisted;
  allocated = true;
}

create-round_robin_example : (0 ∷ 1 ∷ 0 ∷ [] ≡ round_robin 2 0 3) × (1 < 2) × (2 ≤ 256)
unfolding create_socket_listener thread_count accept_all accept_cb round_robin
create-round_robin_example =
    create-round_robin true true asked (pos 0) (pos 0) two_workers
      (client false ∷ client true ∷ client false ∷ client false ∷ []) refl

-- Two connections; the first worker's callback runs while the second is handed over.
abbrev a_run : List (Step ℕ)
a_run =
    accepts (client false) 7
    ∷ sends
    ∷ accepts (client false) 8
    ∷ wakes 0 false
    ∷ pops 0
    ∷ sends
    ∷ []

a_run-IsFine : All IsFine a_run
a_run-IsFine = (tt, (tt, (tt, (refl, (tt, (tt, tt))))))

-- The first worker has started its connection; the second one's event is sent.
a_run_state :
    let q = run_steps two_workers a_run no_connections in
    (q.started 0 ≡ 7 ∷ []) × (q.watchers_queue 1 ≡ 8 ∷ []) × (q.sent 1 ≡ true)
unfolding run_steps step add_watcher send_event enter_callback pop_watcher accept_cb
a_run_state = (refl, refl, refl)

run_steps-Served_example : Served (run_steps two_workers a_run no_connections) 1
run_steps-Served_example = run_steps-Served two_workers a_run a_run-IsFine 1

catch_up-started_example :
    let q = run_steps two_workers a_run no_connections in
    ((run_steps two_workers (catch_up 1 q) q).watchers_queue 1 ≡ [])
    × ((run_steps two_workers (catch_up 1 q) q).started 1 ≡ q.handed_over 1)
catch_up-started_example = catch_up-started two_workers a_run 1 a_run-IsFine
