-- ===== src/Listener/Socket.antt =====
-- src/listener/socket/socket.c: the TCP and UDP listeners. Sockets, select, libev and pthreads are outside: what
-- they return is an argument.
pub mod Workers
pub mod Queues
mod Tests
use n2kafka.Prelude.{
  ℕ, zero, suc, ◌+◌, ◌-◌, Bool, true, false, not, ◌&&◌, Option, none, some, List, [], ◌∷◌, ◌++◌,
  ltb, leb, ◌==◌, if◌then◌else◌, Bytes, codes, equal,
}
use n2kafka.Prelude.Int.{ℤ, pos, negsuc, is_zero, is_positive}
use n2kafka.Prelude.Run.{Run, ret, fault, running}
use n2kafka.Util.Pair.{Pair}
use n2kafka.Listener.Api.{Listener, Reply, listener_decode}

abbrev pub max_num_threads : ℕ
max_num_threads = 256

-- enum thread_mode
pub data ThreadMode : Type 0 where
  thread_per_connection mode_select mode_poll mode_epoll mode_invalid : ThreadMode

unfoldable pub thread_mode_str : Option Bytes → ThreadMode
thread_mode_str none = thread_per_connection
thread_mode_str (some mode_str) =
    if equal (codes "thread_per_connection") mode_str
    then thread_per_connection
    else if equal (codes "select") mode_str
    then mode_select
    else if equal (codes "poll") mode_str
    then mode_poll
    else if equal (codes "epoll") mode_str
    then mode_epoll
    else mode_invalid

-- The config of struct socket_listener.
pub record SocketConfig : Type 0 where
  pub proto : Bytes
  pub threads : ℕ
  pub tcp_keepalive : Bool
  pub thread_mode : ThreadMode

-- What json_unpack_ex finds; the thread count and the keepalive have their defaults where it finds none.
pub record Unpacked : Type 0 where
  pub proto : Bytes
  pub num_threads : ℕ
  pub tcp_keepalive : Bool
  pub mode : Option Bytes

unfoldable pub thread_count : ℕ → ℕ
thread_count n = if n == 0 then 1 else if ltb max_num_threads n then max_num_threads else n

-- create_socket_listener: the memory, the unpacking, the copy of the name, listener_init and pthread_create.
unfoldable pub create_socket_listener : Bool → Option Unpacked → Bool → ℤ → ℤ → Option SocketConfig
create_socket_listener allocated none copied listener_init_rc pcreate_rc = none
create_socket_listener allocated (some u) copied listener_init_rc pcreate_rc =
    if allocated && copied && is_zero listener_init_rc && is_zero pcreate_rc
    then some (record {
      proto = u.proto;
      threads = thread_count u.num_threads;
      tcp_keepalive = u.tcp_keepalive;
      thread_mode = elim u.mode [ none ↦ mode_epoll | some mode ↦ thread_mode_str (some mode) ];
    })
    else none

-- What the calls of one accept_cb return.
pub record Client : Type 0 where
  pub error_event : Bool
  pub accepted : Bool
  pub address : Option Bytes
  pub blacklisted : Bool
  pub allocated : Bool

-- `handed` is to which worker's queue the connection is added; `exits` is exit(-1).
pub data Accept : Type 0 where
  invalid_event accept_error no_address rejected exits no_memory : Accept
  handed : ℕ → Accept

abbrev pub is_per_connection : ThreadMode → Bool
is_per_connection thread_per_connection = true
is_per_connection _ = false

-- The result, and accept_current_worker_idx behind it.
unfoldable pub accept_cb : SocketConfig → ℕ → Client → Accept × ℕ
accept_cb config idx client =
    if client.error_event
    then (invalid_event, idx)
    else if not client.accepted
    then (accept_error, idx)
    else elim client.address [
      | none ↦ (no_address, idx)
      | some client_addr ↦
          if client.blacklisted
          then (rejected, idx)
          else if is_per_connection config.thread_mode
          then (exits, idx)
          else if not client.allocated
          then (no_memory, idx)
          else (handed idx, if leb config.threads (idx + 1) then 0 else idx + 1)
    ]

-- A run of accepts.
unfoldable pub accept_all : SocketConfig → ℕ → List Client → List Accept × ℕ
accept_all config idx [] = ([], idx)
accept_all config idx (client ∷ clients) =
    let (result, idx') = accept_cb config idx client in
    let (results, last) = accept_all config idx' clients in (result ∷ results, last)

module _ {W S O : Type 0} where
  -- process_data_received_from_socket
  abbrev pub process_data_received_from_socket :
      W → Listener W S O → Bytes → Option Bytes → Reply W S
  process_data_received_from_socket w l buffer client =
      listener_decode w l buffer (record { key = codes "client_ip"; value = client } ∷ []) none none

-- What read_cb does with the data and with the socket.
pub data ReadAction : Type 0 where
  decoded closed : ReadAction

-- send_to_socket, with what select and write return.
abbrev pub send_to_socket : ℤ → ℤ → ℤ
send_to_socket select_result written = if is_positive select_result then written else select_result

-- The first response: `response_len` is the configured one's, `none` for no response. A failed send
-- frees the connection, and first_response_sent is stored in it.
unfoldable pub first_response : Option ℕ → Bool → ℤ → Run (List ReadAction × Bool)
first_response none first_response_sent sent = ret ([], first_response_sent)
first_response (some response_len) first_response_sent sent =
    if first_response_sent
    then ret ([], true)
    else if response_len == 0
    then ret ([], true)
    else if is_positive sent
    then ret ([], true)
    else fault

-- read_cb: the actions, and first_response_sent behind them. `again` is errno == EAGAIN.
unfoldable pub read_cb : Option ℕ → Bool → ℤ → Bool → ℤ → Run (List ReadAction × Bool)
read_cb response first_response_sent (negsuc n) again sent =
    if again then ret ([], first_response_sent) else ret (closed ∷ [], first_response_sent)
read_cb response first_response_sent (pos zero) again sent = ret (closed ∷ [], first_response_sent)
read_cb response first_response_sent (pos (suc n)) again sent =
    elim (first_response response first_response_sent sent) [
      | ret (actions, first_response_sent') ↦ ret (decoded ∷ actions, first_response_sent')
      | fault ↦ fault
      | running ↦ running
    ]

-- What the calls of a round of the UDP loop return; `again` is errno == EAGAIN.
pub record Round : Type 0 where
  pub select_result : ℤ
  pub recv_result : ℤ
  pub again : Bool

-- main_consumer_loop_udp until its shutdown: the sizes of the data given to the decoder.
unfoldable pub main_consumer_loop_udp : List Round → List ℕ
main_consumer_loop_udp [] = []
main_consumer_loop_udp (round ∷ rounds) =
    let rest = main_consumer_loop_udp rounds in
    elim (if is_positive round.select_result then round.recv_result else pos 0) [
      | pos size ↦ size ∷ rest
      | negsuc n ↦ if round.again then rest else []
    ]
