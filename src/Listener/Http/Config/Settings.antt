-- ===== src/Listener/Http/Config/Settings.antt =====
-- Where the settings of an HTTP listener come from, and which of them start_http_loop accepts.
use n2kafka.Prelude.{
  ℕ, ◌≡◌, ◌↔◌, ◌⊎◌, refl, inl, inr, true, false, Option, none, some, List, [], ◌∷◌, Bytes, codes,
  equal_iff, arith, Bool-cases, Option-cases,
}
use n2kafka.Prelude.Int.{ℤ, pos}
use n2kafka.Listener.Http.Config.Args.{
  HttpLoopArgs, Flag, is_set, mode_flag, config_flags, use_thread_per_connection, use_debug,
  use_tls,
}
use n2kafka.Listener.Http.Config.Create.{Outside, default_args, env_or, environ_args, unpack_args}

-- No mode, or one of the four names.
abbrev pub IsMode : Option Bytes → Type 0
IsMode none = Unit
IsMode (some mode) =
    (codes "thread_per_connection" ≡ mode)
    ⊎ (codes "select" ≡ mode)
    ⊎ (codes "poll" ≡ mode)
    ⊎ (codes "epoll" ≡ mode)

pub record IsValid (args : HttpLoopArgs) : Type 0 where
  pub mode : IsMode args.mode
  pub pair : is_set args.https_key_filename ≡ is_set args.https_cert_filename
  pub ca : is_set args.https_clients_ca_filename ≡ true → is_set args.https_key_filename ≡ true

mode_flag-IsMode : (mode : Option Bytes) (flag : Flag) → mode_flag mode ≡ some flag → IsMode mode
unfolding mode_flag
mode_flag-IsMode none flag h = tt
mode_flag-IsMode (some mode) flag h = ground (
  arith,
  h,
  equal_iff (codes "thread_per_connection") mode,
  equal_iff (codes "select") mode,
  equal_iff (codes "poll") mode,
  equal_iff (codes "epoll") mode,
)

flag_of_mode : (mode : Option Bytes) → IsMode mode → (flag : Flag) × (mode_flag mode ≡ some flag)
unfolding mode_flag
flag_of_mode none h = (use_thread_per_connection, refl)
flag_of_mode (some mode) h = elim (Option-cases (mode_flag (some mode))) [
  | inr found ↦ found
  | inl missing ↦ absurd (
      ground (
        arith,
        h,
        missing,
        equal_iff (codes "thread_per_connection") mode,
        equal_iff (codes "select") mode,
        equal_iff (codes "poll") mode,
        equal_iff (codes "epoll") mode,
      ))
]

flags_of_valid :
    (args : HttpLoopArgs) → IsValid args → (flags : List Flag) × (config_flags args ≡ some flags)
unfolding config_flags
flags_of_valid args v =
    let (flag, mode) = flag_of_mode args.mode v.mode in
    elim (Bool-cases (is_set args.https_key_filename)) [
      | inl key ↦
          let cert : is_set args.https_cert_filename ≡ true = cc (key, v.pair) in
          (flag ∷ use_debug ∷ use_tls ∷ [], rw (config_flags, mode, key, cert) refl)
      | inr no_key ↦
          let no_cert : is_set args.https_cert_filename ≡ false = cc (no_key, v.pair) in
          let no_ca : is_set args.https_clients_ca_filename ≡ false =
            elim (Bool-cases (is_set args.https_clients_ca_filename)) [
              | inr unset ↦ unset
              | inl ca ↦ absurd (cc (v.ca ca, no_key))
            ] in
          (flag ∷ use_debug ∷ [], rw (config_flags, mode, no_key, no_cert, no_ca) refl)
    ]

config_flags-IsValid :
    (args : HttpLoopArgs) (flags : List Flag) → config_flags args ≡ some flags → IsValid args
unfolding config_flags
config_flags-IsValid args flags accepted = elim (Option-cases (mode_flag args.mode)) [
  | inl unknown ↦ absurd (cc (rw (config_flags, unknown) at accepted))
  | inr (flag, known) ↦ record {
    mode = mode_flag-IsMode args.mode flag known;
    pair = ground (arith, rw (config_flags, known) at accepted);
    ca = λ set. ground (arith, rw (config_flags, known) at accepted, set);
  }
]

-- start_http_loop accepts its settings exactly if the mode is not given or known, the key and the
-- certificate are given together, and client authorities only with a key.
pub config_flags_iff :
    (args : HttpLoopArgs) → ((flags : List Flag) × (config_flags args ≡ some flags)) ↔ IsValid args
config_flags_iff args =
    (λ found. config_flags-IsValid args found.0 found.1, λ v. flags_of_valid args v)

abbrev pub or_int : Option ℤ → ℤ → ℤ
or_int none current = current
or_int (some n) current = n

-- The settings layer by layer: the JSON value if the key is there, else the environment's where the
-- setting has a variable, else the default.
abbrev pub layered :
    (Bytes → Option ℤ) → (Bytes → Option Bytes) → (Bytes → Option Bytes) → ℤ → HttpLoopArgs
layered ints strings getenv port =
    let int = λ (key : Bytes) (default : ℕ). or_int (ints key) (pos default) in
    let string = λ (key variable : Bytes). env_or (strings key) (env_or (getenv variable) none) in
    record {
      port = port;
      num_threads = int (codes "num_threads") 1;
      connection_memory_limit = int (codes "connection_memory_limit") 131072;
      connection_limit = int (codes "connection_limit") 1024;
      connection_timeout = int (codes "connection_timeout") 30;
      per_ip_connection_limit = int (codes "per_ip_connection_limit") 0;
      mode = env_or (strings (codes "mode")) (some (codes "poll"));
      https_key_filename = string (codes "https_key_filename") (codes "HTTP_TLS_KEY_FILE");
      https_cert_filename = string (codes "https_cert_filename") (codes "HTTP_TLS_CERT_FILE");
      https_key_password = string (codes "https_key_password") (codes "HTTP_TLS_KEY_PASSWORD");
      https_clients_ca_filename =
          string (codes "https_clients_ca_filename") (codes "HTTP_TLS_CLIENT_CA_FILE");
      htpasswd_filename = string (codes "htpasswd_filename") (codes "HTTP_HTPASSWD_FILE");
    }

-- With jansson leaving a setting alone where its optional key is missing, and setting it to the value of
-- the right type otherwise, and a port given: the configuration overrides the environment, and that the defaults.
pub unpack_args-layered :
    (out : Outside) (config : Bytes) (ints : Bytes → Option ℤ) (strings : Bytes → Option Bytes)
    (port : ℤ)
    → ((current : ℤ) → out.unpack_int config false (codes "port") current ≡ some port)
    → ((key : Bytes) (current : ℤ)
        → out.unpack_int config true key current ≡ some (or_int (ints key) current))
    → ((key : Bytes) (current : Option Bytes)
        → out.unpack_string config key current ≡ some (env_or (strings key) current))
    → unpack_args out config (environ_args out.getenv default_args)
      ≡ some (layered ints strings out.getenv port)
unfolding unpack_args environ_args
unpack_args-layered out config ints strings port given optional text =
    rw
      (
        given,
        optional (codes "num_threads"),
        optional (codes "connection_memory_limit"),
        optional (codes "connection_limit"),
        optional (codes "connection_timeout"),
        optional (codes "per_ip_connection_limit"),
        text (codes "mode"),
        text (codes "https_key_filename"),
        text (codes "https_cert_filename"),
        text (codes "https_key_password"),
        text (codes "https_clients_ca_filename"),
        text (codes "htpasswd_filename"),
      )
      refl
