-- ===== src/Listener/Http/Config/Args.antt =====
-- src/listener/http/http_config.c: the settings of an HTTP listener, and the flags that start_http_loop makes of
-- them.
use n2kafka.Prelude.{
  Bool, true, false, Option, none, some, List, [], ◌∷◌, if◌then◌else◌, Bytes, codes, equal,
}
use n2kafka.Prelude.Int.{ℤ}

-- struct http_loop_args
pub record HttpLoopArgs : Type 0 where
  pub port : ℤ
  pub num_threads : ℤ
  pub connection_memory_limit : ℤ
  pub connection_limit : ℤ
  pub connection_timeout : ℤ
  pub per_ip_connection_limit : ℤ
  pub mode : Option Bytes
  pub https_key_filename : Option Bytes
  pub https_cert_filename : Option Bytes
  pub https_key_password : Option Bytes
  pub https_clients_ca_filename : Option Bytes
  pub htpasswd_filename : Option Bytes

-- The flags of MHD_start_daemon.
pub data Flag : Type 0 where
  use_thread_per_connection use_select_internally use_poll_internally : Flag
  use_epoll_internally_linux_only use_debug use_tls : Flag

abbrev pub is_set : Option Bytes → Bool
is_set none = false
is_set (some text) = true

unfoldable pub mode_flag : Option Bytes → Option Flag
mode_flag none = some use_thread_per_connection
mode_flag (some mode) =
    if equal (codes "thread_per_connection") mode
    then some use_thread_per_connection
    else if equal (codes "select") mode
    then some use_select_internally
    else if equal (codes "poll") mode
    then some use_poll_internally
    else if equal (codes "epoll") mode
    then some use_epoll_internally_linux_only
    else none

-- The three tests of the settings: none where start_http_loop returns NULL at once.
unfoldable pub config_flags : HttpLoopArgs → Option (List Flag)
config_flags args = elim (mode_flag args.mode) [
  | none ↦ none
  | some flag ↦ elim (is_set args.https_key_filename) [
    | true ↦
        if is_set args.https_cert_filename then some (flag ∷ use_debug ∷ use_tls ∷ []) else none
    | false ↦
        if is_set args.https_cert_filename
        then none
        else if is_set args.https_clients_ca_filename
        then none
        else some (flag ∷ use_debug ∷ [])
  ]
]

-- flags & MHD_USE_TLS || args->htpasswd_filename
unfoldable pub wants_secrets : HttpLoopArgs → Bool
wants_secrets args = if is_set args.https_key_filename then true else is_set args.htpasswd_filename
