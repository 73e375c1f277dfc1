-- ===== src/Listener/Http/Config/Tests.antt =====
-- An HTTPS listener with a password file, from its settings to its end, and the theorems at it.
use n2kafka.Prelude.{
  ℕ, ◌+◌, ◌≡◌, ◌↔◌, refl, true, false, Option, none, some, List, [], ◌∷◌, ◌++◌, Bytes, codes, equal,
  starts_with, if◌then◌else◌, inr,
}
use n2kafka.Prelude.Int.{ℤ, pos, to_uint16}
use n2kafka.Prelude.Run.{ret}
use n2kafka.Util.File.{Stream, file_size}
use n2kafka.Util.MsgArray.{zeros}
use n2kafka.Listener.Api.{Decoder, no_response}
use n2kafka.Decoder.Api.{DecoderErr}
use n2kafka.Listener.Http.Responses.{responses_for, responses_listener_counter_incref}
use n2kafka.Listener.Http.Auth.{
  http_auth_extract_data, http_auth_extract_data0, extract_lines, extract_line,
  tokenize_user_pass_line, password_hashing_callback,
}
use n2kafka.Listener.Http.Auth.Laws.{weight}
use n2kafka.Listener.Http.Auth.Extract.{entry_of, entries_of, all_but_last}
use n2kafka.Listener.Http.Config.Args.{HttpLoopArgs, Flag, mode_flag, config_flags, wants_secrets}
use n2kafka.Listener.Http.Config.Secrets.{
  key_file, htpasswd, System, SecretFile, open_secrets, read_secrets, read_secret, open_secret,
  permissions_pass, file_size_callback, file_read_callback, tls_files_size, write, entries_image,
  htpasswd_size, htpasswd_fread,
}
use n2kafka.Listener.Http.Config.Passwords.{htpasswd_fread-htpasswd_size}
use n2kafka.Listener.Http.Config.Start.{
  break_http_loops, HttpListener, Process, MhdOption, http_private_magic, load_listener, after_read,
  start_listener, start_http_loop,
}
use n2kafka.Listener.Http.Config.Create.{Outside, default_args, env_or, create_http_listener0}
use n2kafka.Listener.Http.Config.Settings.{IsValid, or_int, config_flags_iff}
use n2kafka.Listener.Http.Config.Layout.{Reads, read_secrets-Reads}
use n2kafka.Listener.Http.Config.Outcome.{Ends, start_http_loop-Outcome}
use n2kafka.Listener.Http.Config.Balance.{Reach, initial, starts, Balanced, Reach-Balanced}
use n2kafka.Listener.Http.Config.Scrub.{Frees, create_http_listener0-Frees}
use n2kafka.Listener.Http.Config.Opened.{configured}

abbrev two_users : List Bytes
two_users = codes "ann:{PLAIN}a" ∷ codes "bob:{PLAIN}b" ∷ []

abbrev a_file : Stream
a_file = record {
  position = some 0;
  seek_end = true;
  end_position = some 2;
  seek_set = true;
  content = codes "ab";
  getline = two_users;
  ended = true;
}

htpasswd_fread-htpasswd_size_example :
    (htpasswd_size a_file ≡ weight (entries_of two_users))
    × (htpasswd_fread (htpasswd_size a_file) a_file
        ≡ (entries_image (all_but_last (entries_of two_users)), htpasswd_size a_file))
htpasswd_fread-htpasswd_size_example = htpasswd_fread-htpasswd_size a_file 0 refl refl refl

-- Of two users only the first can log in.
bob_is_lost : entries_image (all_but_last (entries_of two_users)) ≡ codes "ann:{PLAIN}a" ++ 0 ∷ []
unfolding entries_of entry_of starts_with
bob_is_lost = refl

abbrev tls_args : HttpLoopArgs
tls_args = record default_args {
  port = pos 8443;
  https_key_filename = some (codes "k");
  https_cert_filename = some (codes "c");
  htpasswd_filename = some (codes "p");
}

abbrev a_system : System
a_system = record { stat = λ name. some 384; fopen = λ name. some a_file; calloc = λ size. true }

abbrev a_decoder : Decoder ℕ ℕ ℕ
a_decoder = record {
  callback = λ w buffer params opaque response session. record {
    world = w;
    session = session;
    err = DecoderErr.callback_ok;
    response = no_response;
  };
  opaque_creator = some (λ w config. (w + 1, some 0, pos 0));
  opaque_reload = none;
  opaque_destructor = none;
  new_session = none;
  delete_session = none;
}

abbrev a_daemon : List Flag → ℕ → List MhdOption → Option ℕ
a_daemon flags port options = some port

abbrev a_process : Process ℕ
a_process = record {
  world = 0;
  responses = responses_for (some []) 0;
  open_files = 3;
  daemons = 0;
  freed = [];
}

start_http_loop-Outcome_example :
    Ends
      (some [])
      a_daemon
      tls_args
      a_decoder
      []
      a_system
      (configured a_system tls_args)
      a_process
      (start_http_loop (some []) a_daemon tls_args a_decoder [] a_system a_process)
start_http_loop-Outcome_example =
    start_http_loop-Outcome (some []) a_daemon tls_args a_decoder [] a_system a_process

config_flags_iff_example :
    ((flags : List Flag) × (config_flags tls_args ≡ some flags)) ↔ IsValid tls_args
config_flags_iff_example = config_flags_iff tls_args

-- The listener that runs: both files with their NUL, and the one entry in the room for two.
abbrev a_listener : HttpListener ℕ ℕ ℕ ℕ
a_listener = record {
  listener = some (record { decoder = a_decoder; decoder_opaque = some 0; port = 8443 });
  join = some break_http_loops;
  magic = http_private_magic;
  tls_data_size = 33;
  d = some 8443;
  htpasswd_mem = some 6;
  client_tls_cert = false;
  tls_data = codes "ab" ++ 0 ∷ codes "ab" ++ 0 ∷ codes "ann:{PLAIN}a" ++ zeros 15;
}

abbrev started_process : Process ℕ
started_process = record a_process { world = 1; responses = responses_for (some []) 1; daemons = 1 }

a_listener_starts :
    start_http_loop (some []) a_daemon tls_args a_decoder [] a_system a_process
    ≡ ret (started_process, some a_listener)
unfolding start_http_loop load_listener after_read start_listener open_secrets read_secrets
    read_secret open_secret permissions_pass file_size_callback file_read_callback tls_files_size
    htpasswd_size htpasswd_fread http_auth_extract_data file_size write config_flags mode_flag
    wants_secrets equal starts_with to_uint16 http_auth_extract_data0 extract_lines extract_line
    tokenize_user_pass_line password_hashing_callback responses_listener_counter_incref
a_listener_starts = refl

a_history : Reach (some []) started_process (a_listener ∷ [])
a_history =
    starts a_daemon tls_args a_decoder [] a_system a_process [] (started_process, some a_listener)
      (initial 0 3) a_listener_starts

Reach-Balanced_example : Balanced (some []) started_process (a_listener ∷ [])
Reach-Balanced_example = Reach-Balanced (some []) started_process (a_listener ∷ []) a_history

abbrev no_listeners : List (HttpListener ℕ ℕ ℕ ℕ)
no_listeners = []

-- A configuration with a port and a password file; the environment names the TLS files.
abbrev json_ints : Bytes → Option ℤ
json_ints key = none

abbrev json_strings : Bytes → Option Bytes
json_strings key = if equal key (codes "https_key_password") then some (codes "@pw") else none

abbrev an_outside : Outside
an_outside = record {
  getenv = λ name. if equal name (codes "HTTP_TLS_KEY_FILE") then some (codes "k") else none;
  json_deep_copy = λ config. some config;
  unpack_int = λ config optional key current.
      if optional then some (or_int (json_ints key) current) else some (pos 8443);
  unpack_string = λ config key current. some (env_or (json_strings key) current);
  rd_file_read = λ name. some (codes "secret");
}

-- A configuration with the key's password in it.
abbrev a_configuration : Bytes
a_configuration = codes "{\"https_key_password\":\"pw\"}"

create_http_listener0-Frees_example :
    (r : Process ℕ × Option (HttpListener ℕ ℕ ℕ ℕ)) × (create_http_listener0
        (some [])
        a_daemon
        a_system
        an_outside
        a_configuration
        a_decoder
        a_process
      ≡ ret r)
    × Frees a_configuration r.0.freed
create_http_listener0-Frees_example =
    create_http_listener0-Frees (some []) a_daemon a_system an_outside a_configuration
      a_configuration a_decoder a_process refl tt

abbrev opened_files : List SecretFile
opened_files =
    record {
      kind = key_file;
      filename = some (codes "k");
      file = some a_file;
      filesize = 2;
      mem = none;
    }
    ∷ record {
      kind = htpasswd;
      filename = some (codes "p");
      file = some a_file;
      filesize = 26;
      mem = none;
    }
    ∷ []

read_secrets-Reads_example : Reads [] opened_files
read_secrets-Reads_example =
    read_secrets-Reads opened_files (inr (a_file, refl), (inr (a_file, refl), tt)) []
