-- ===== src/Listener/Http/Config/Create.antt =====
-- src/listener/http/http_config.c, create_http_listener0: the settings from the defaults, the environment and the
-- JSON configuration, and the listener of them.
--
-- jansson is outside: `unpack_int` and `unpack_string` are what json_unpack_ex does for one key of the object,
-- from the value that the setting has, and none where it fails. The flag says that the key is optional.
use n2kafka.Prelude.{
  ℕ, Bool, true, false, Option, none, some, List, [], ◌∷◌, ◌==◌, if◌then◌else◌, length, Bytes,
  codes,
}
use n2kafka.Prelude.Int.{ℤ, pos}
use n2kafka.Prelude.Run.{Run, ret, ◌>>=◌}
use n2kafka.Util.MsgArray.{zeros}
use n2kafka.Listener.Api.{Decoder}
use n2kafka.Listener.Http.Responses.{Headers}
use n2kafka.Listener.Http.Config.Args.{HttpLoopArgs, Flag}
use n2kafka.Listener.Http.Config.Secrets.{System}
use n2kafka.Listener.Http.Config.Start.{HttpListener, Process, MhdOption, start_http_loop}

pub record Outside : Type 0 where
  pub getenv : Bytes → Option Bytes
  pub json_deep_copy : Bytes → Option Bytes
  pub unpack_int : Bytes → Bool → Bytes → ℤ → Option ℤ
  pub unpack_string : Bytes → Bytes → Option Bytes → Option (Option Bytes)
  pub rd_file_read : Bytes → Option Bytes

-- X_DEFAULTS_N2K_CONFIG
abbrev pub default_args : HttpLoopArgs
default_args = record {
  port = pos 0;
  num_threads = pos 1;
  connection_memory_limit = pos 131072;
  connection_limit = pos 1024;
  connection_timeout = pos 30;
  per_ip_connection_limit = pos 0;
  mode = some (codes "poll");
  https_key_filename = none;
  https_cert_filename = none;
  https_key_password = none;
  https_clients_ca_filename = none;
  htpasswd_filename = none;
}

abbrev pub env_or : Option Bytes → Option Bytes → Option Bytes
env_or none current = current
env_or (some env_val) current = some env_val

-- X_ENVIRON_N2K_CONFIG, for the settings with a variable.
unfoldable pub environ_args : (Bytes → Option Bytes) → HttpLoopArgs → HttpLoopArgs
environ_args getenv args = record args {
  https_key_filename = env_or (getenv (codes "HTTP_TLS_KEY_FILE")) args.https_key_filename;
  https_cert_filename = env_or (getenv (codes "HTTP_TLS_CERT_FILE")) args.https_cert_filename;
  https_key_password = env_or (getenv (codes "HTTP_TLS_KEY_PASSWORD")) args.https_key_password;
  https_clients_ca_filename =
      env_or (getenv (codes "HTTP_TLS_CLIENT_CA_FILE")) args.https_clients_ca_filename;
  htpasswd_filename = env_or (getenv (codes "HTTP_HTPASSWD_FILE")) args.htpasswd_filename;
}

abbrev and_then : {A B : Type 0} → Option A → (A → Option B) → Option B
and_then none f = none
and_then (some a) f = f a

-- The keys with a number, then those with a text.
unfoldable pub unpack_args : Outside → Bytes → HttpLoopArgs → Option HttpLoopArgs
unpack_args out config args =
    let int = out.unpack_int config in
    let string = out.unpack_string config in
    and_then (int false (codes "port") args.port) λ port.
      and_then (int true (codes "num_threads") args.num_threads) λ num_threads.
        and_then (int true (codes "connection_memory_limit") args.connection_memory_limit) λ memory.
          and_then (int true (codes "connection_limit") args.connection_limit) λ connections.
            and_then (int true (codes "connection_timeout") args.connection_timeout) λ timeout.
              and_then (int true (codes "per_ip_connection_limit") args.per_ip_connection_limit)
                λ per_ip. and_then (string (codes "mode") args.mode) λ mode.
                  and_then (string (codes "https_key_filename") args.https_key_filename) λ key.
                    and_then (string (codes "https_cert_filename") args.https_cert_filename) λ cert.
                      and_then (string (codes "https_key_password") args.https_key_password)
                        λ password.
                          and_then
                            (string (codes "https_clients_ca_filename")
                              args.https_clients_ca_filename)
                            λ ca.
                              and_then (string (codes "htpasswd_filename") args.htpasswd_filename)
                                λ htpasswd. some (record {
                                  port = port;
                                  num_threads = num_threads;
                                  connection_memory_limit = memory;
                                  connection_limit = connections;
                                  connection_timeout = timeout;
                                  per_ip_connection_limit = per_ip;
                                  mode = mode;
                                  https_key_filename = key;
                                  https_cert_filename = cert;
                                  https_key_password = password;
                                  https_clients_ca_filename = ca;
                                  htpasswd_filename = htpasswd;
                                })

-- The buffer of a password that stands in a file, and the password.
unfoldable pub key_password : Outside → Option Bytes → Option Bytes × Option Bytes
key_password out none = (none, none)
key_password out (some []) = (none, some [])
key_password out (some (c ∷ name)) =
    if c == b'@' then (out.rd_file_read name, out.rd_file_read name) else (none, some (c ∷ name))

-- json_decref of the deep copy, the only reference: its text is given back as it is.
abbrev pub free_config : {W : Type 0} → Bytes → Process W → Process W
free_config config p = record p { freed = config ∷ p.freed }

abbrev pub free_password : {W : Type 0} → Option Bytes → Process W → Process W
free_password none p = p
free_password (some text) p = record p { freed = zeros (length text) ∷ p.freed }

module _ {W S O D : Type 0} where
  unfoldable pub create_http_listener0 :
      Option Headers
      → (List Flag → ℕ → List MhdOption → Option D)
      → System
      → Outside
      → Bytes
      → Decoder W S O
      → Process W
      → Run (Process W × Option (HttpListener W S O D))
  unfolding environ_args unpack_args key_password
  create_http_listener0 create mhd_start_daemon sys out t_config decoder p =
      elim (out.json_deep_copy t_config) [
        | none ↦ ret (p, none)
        | some config ↦ elim (unpack_args out config (environ_args out.getenv default_args)) [
          | none ↦ ret (free_config config p, none)
          | some handler_args ↦
              let (buffer, password) = key_password out handler_args.https_key_password in
              start_http_loop create mhd_start_daemon
                (record handler_args { https_key_password = password }) decoder config sys p
              >>= λ r. ret (free_password buffer (free_config config r.0), r.1)
        ]
      ]
