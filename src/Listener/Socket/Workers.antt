-- ===== src/Listener/Socket/Workers.antt =====
-- The workers that get the accepted connections.
use native.Mathlib.Nat.{mod-lt, mod-eq_of_lt, mod_self, mod-mod, mod-add-mod}
use mathlib.Core.Path.{subst}
use n2kafka.Prelude.{
  ℕ, zero, suc, ◌+◌, ◌%◌, ◌≤◌, ◌<◌, ◌≡◌, refl, sym, ◌∙◌, ap, inl, inr, Bool, true, false, not, ◌&&◌,
  Option, none, some, List, [], ◌∷◌, leb, if◌then◌else◌, length, Bytes, arith, Bool-cases,
}
use n2kafka.Prelude.Int.{ℤ, is_zero}
use n2kafka.Listener.Socket.{
  SocketConfig, Unpacked, Client, Accept, handed, no_memory, invalid_event, accept_error,
  no_address, rejected, exits, is_per_connection, accept_cb, accept_all, create_socket_listener,
  thread_count, max_num_threads,
}

-- The workers that got a connection, in order.
abbrev pub workers : List Accept → List ℕ
workers [] = []
workers (handed i ∷ results) = i ∷ workers results
workers (_ ∷ results) = workers results

-- A round over `threads` workers from `start`, `n` steps long.
unfoldable pub round_robin : ℕ → ℕ → ℕ → List ℕ
round_robin threads start zero = []
round_robin threads start (suc n) = start % threads ∷ round_robin threads (start + 1) n

-- An accept hands the connection to the worker at the index and moves on, or it leaves the index.
data Accepted (threads idx : ℕ) (r : Accept × ℕ) : Type 0 where
  took : r.0 ≡ handed idx → r.1 ≡ (idx + 1) % threads → Accepted threads idx r
  left : workers (r.0 ∷ []) ≡ [] → r.1 ≡ idx → Accepted threads idx r

next_index :
    (threads idx : ℕ)
    → idx < threads
    → (if leb threads (idx + 1) then 0 else idx + 1) ≡ (idx + 1) % threads
next_index threads idx h = elim (Bool-cases (leb threads (idx + 1))) [
  | inl last ↦
      let same : idx + 1 ≡ threads = ground arith in
      rw last (sym (mod_self threads) ∙ ap (λ (n : ℕ). n % threads) (sym same))
  | inr more ↦ rw more (sym (mod-eq_of_lt (ground arith)))
]

accept_lem :
    (config : SocketConfig) (idx : ℕ) (error_event accepted : Bool) (address : Option Bytes)
    (blacklisted allocated : Bool)
    → idx < config.threads
    → Accepted config.threads idx (
        accept_cb config idx (record {
          error_event = error_event;
          accepted = accepted;
          address = address;
          blacklisted = blacklisted;
          allocated = allocated;
        }))
unfolding accept_cb
accept_lem config idx true a addr b al h = left refl refl
accept_lem config idx false false addr b al h = left refl refl
accept_lem config idx false true none b al h = left refl refl
accept_lem config idx false true (some addr) true al h = left refl refl
accept_lem config idx false true (some addr) false al h =
    elim (Bool-cases (is_per_connection config.thread_mode)) [
      | inl not_implemented ↦ rw not_implemented (left refl refl)
      | inr event_loop ↦
          rw event_loop
            (elim al
              as (λ b. Accepted config.threads idx (
                if not b
                then (no_memory, idx)
                else (handed idx, if leb config.threads (idx + 1) then 0 else idx + 1))) [
                  | false ↦ left refl refl
                  | true ↦ took refl (next_index config.threads idx h)
                ])
    ]

round_robin-mod :
    (threads start n : ℕ) → round_robin threads (start % threads) n ≡ round_robin threads start n
unfolding round_robin
round_robin-mod threads start zero = refl
round_robin-mod threads start (suc n) =
    let rest =
      sym (round_robin-mod threads (start % threads + 1) n)
      ∙ ap (λ (k : ℕ). round_robin threads k n) (mod-add-mod start threads 1)
      ∙ round_robin-mod threads (start + 1) n in
    rw (mod-mod start threads) (ap (λ (ws : List ℕ). start % threads ∷ ws) rest)

workers_cons :
    (result : Accept) (results : List Accept)
    → workers (result ∷ []) ≡ []
    → workers (result ∷ results) ≡ workers results
workers_cons invalid_event results h = refl
workers_cons accept_error results h = refl
workers_cons no_address results h = refl
workers_cons rejected results h = refl
workers_cons exits results h = refl
workers_cons no_memory results h = refl
workers_cons (handed i) results h = absurd (cc h)

Accepted-index :
    (threads idx : ℕ) (r : Accept × ℕ) → Accepted threads idx r → idx < threads → r.1 < threads
Accepted-index threads idx r (took here moved) h =
    let low = mod-lt (idx + 1) {m = threads} (omega arith) in omega (arith, moved, low)
Accepted-index threads idx r (left none_handed same) h = omega (arith, same)

run_cons :
    (threads idx : ℕ) (r : Accept × ℕ) (rest : List Accept)
    → Accepted threads idx r
    → idx < threads
    → workers rest ≡ round_robin threads r.1 (length (workers rest))
    → workers (r.0 ∷ rest) ≡ round_robin threads idx (length (workers (r.0 ∷ rest)))
unfolding round_robin
run_cons threads idx r rest (took here moved) h e =
    let n = length (workers rest) in
    let tail =
      e ∙ ap (λ (k : ℕ). round_robin threads k n) moved ∙ round_robin-mod threads (idx + 1) n in
    subst
      (λ (result : Accept).
        workers (result ∷ rest) ≡ round_robin threads idx (length (workers (result ∷ rest))))
      (sym here)
      (ap (λ (ws : List ℕ). idx ∷ ws) tail
        ∙ ap (λ (k : ℕ). k ∷ round_robin threads (idx + 1) n) (sym (mod-eq_of_lt h)))
run_cons threads idx r rest (left none_handed same) h e =
    let skip = workers_cons r.0 rest none_handed in
    skip
    ∙ e
    ∙ ap (λ (k : ℕ). round_robin threads k (length (workers rest))) same
    ∙ ap (λ (ws : List ℕ). round_robin threads idx (length ws)) (sym skip)

-- Over any run of accepts the connections that are handed over go round the workers, from the current one on, and
-- the current worker stays one of them.
accept_all-round_robin :
    (config : SocketConfig) (idx : ℕ) (clients : List Client)
    → idx < config.threads
    → (workers (accept_all config idx clients).0
        ≡ round_robin config.threads idx (length (workers (accept_all config idx clients).0)))
      × ((accept_all config idx clients).1 < config.threads)
unfolding accept_all round_robin
accept_all-round_robin config idx [] h = (refl, h)
accept_all-round_robin config idx (client ∷ clients) h =
    let r = accept_cb config idx client in
    let one =
      accept_lem config idx client.error_event client.accepted client.address client.blacklisted
        client.allocated h in
    let rest =
      accept_all-round_robin config r.1 clients (Accepted-index config.threads idx r one h) in
    (run_cons config.threads idx r (accept_all config r.1 clients).0 one h rest.0, rest.1)

thread_count-bounds : (n : ℕ) → (0 < thread_count n) × (thread_count n ≤ max_num_threads)
unfolding thread_count
thread_count-bounds n = (ground arith, ground arith)

some_threads :
    (c d : SocketConfig) → ◌≡◌ {A = Option SocketConfig} (some c) (some d) → c.threads ≡ d.threads
some_threads c d h = let same : c ≡ d = cc h in ap (λ (x : SocketConfig). x.threads) same

create_threads :
    (allocated copied : Bool) (u : Unpacked) (init_rc pcreate_rc : ℤ) (config : SocketConfig)
    → create_socket_listener allocated (some u) copied init_rc pcreate_rc ≡ some config
    → thread_count u.num_threads ≡ config.threads
unfolding create_socket_listener
create_threads allocated copied u init_rc pcreate_rc config h =
    elim (Bool-cases (allocated && copied && is_zero init_rc && is_zero pcreate_rc)) [
      | inl made ↦ some_threads _ config (rw (create_socket_listener, made) at h)
      | inr failed ↦ absurd (cc (rw (create_socket_listener, failed) at h))
    ]

-- For a listener that create_socket_listener makes, from whatever number of threads the configuration asks: over
-- any run of accepts the connections that are handed over go round the workers, from the first on, and the
-- current worker stays below the number of threads, which is 256 at most, the size of the arrays.
pub create-round_robin :
    (allocated copied : Bool) (u : Unpacked) (init_rc pcreate_rc : ℤ) (config : SocketConfig)
    (clients : List Client)
    → create_socket_listener allocated (some u) copied init_rc pcreate_rc ≡ some config
    → (workers (accept_all config 0 clients).0
        ≡ round_robin config.threads 0 (length (workers (accept_all config 0 clients).0)))
      × ((accept_all config 0 clients).1 < config.threads)
      × (config.threads ≤ max_num_threads)
create-round_robin allocated copied u init_rc pcreate_rc config clients h =
    let same = create_threads allocated copied u init_rc pcreate_rc config h in
    let (low, high) = thread_count-bounds u.num_threads in
    let (round, index) = accept_all-round_robin config 0 clients (omega arith) in
    (round, index, omega arith)
