-- ===== src/Listener/Http/Config/Start.antt =====
-- src/listener/http/http_config.c: the start of an HTTP listener and its end.
--
-- `D` is a daemon of libmicrohttpd. `mhd_start_daemon` is MHD_start_daemon, whose array of options it reads up to the
-- first end, and `create` is what MHD_create_response_from_buffer gives. The process is what the two
-- functions change outside the listener.
use n2kafka.Prelude.{
  ℕ, suc, ◌+◌, ◌-◌, Bool, true, false, Option, none, some, List, [], ◌∷◌, ◌++◌, ltb, ◌==◌,
  if◌then◌else◌, drop, get_elem?, Bytes,
}
use n2kafka.Prelude.Int.{ℤ, is_zero, to_uint16}
use n2kafka.Prelude.Run.{Run, ret, fault, ◌>>=◌}
use n2kafka.Util.MsgArray.{zeros}
use n2kafka.Listener.Api.{Decoder, Listener, listener_init, listener_join}
use n2kafka.Listener.Http.Responses.{
  Headers, HttpResponses, responses_listener_counter_incref, responses_listener_counter_decref,
}
use n2kafka.Listener.Http.Config.Args.{HttpLoopArgs, Flag, is_set, config_flags, wants_secrets}
use n2kafka.Listener.Http.Config.Secrets.{
  SecretKind, key_file, cert_file, client_ca_trust, htpasswd, System, SecretFile, Image,
  open_secrets, tls_files_size, read_secrets, count_open,
}

-- The join of a listener, once it is set.
pub data Join : Type 0 where
  listener_joins break_http_loops : Join

-- struct http_listener; what calloc leaves zero is `none` or 0.
pub record HttpListener (W S O D : Type 0) : Type 0 where
  pub listener : Option (Listener W S O)
  pub join : Option Join
  pub magic : ℕ
  pub tls_data_size : ℕ
  pub d : Option D
  pub htpasswd_mem : Option ℕ
  pub client_tls_cert : Bool
  pub tls_data : Bytes

-- `freed` are the blocks of secrets given back, as they were then.
pub record Process (W : Type 0) : Type 0 where
  pub world : W
  pub responses : HttpResponses
  pub open_files : ℕ
  pub daemons : ℕ
  pub freed : List Bytes

pub data MhdOption : Type 0 where
  notify_completed option_end : MhdOption
  nonce_nc_size : ℕ → MhdOption
  connection_limit per_ip_connection_limit connection_timeout : ℤ → MhdOption
  connection_memory_limit thread_pool_size : ℤ → MhdOption
  https_mem_key https_mem_cert https_mem_trust : Option ℕ → MhdOption
  https_key_password : Option Bytes → MhdOption

abbrev pub http_private_magic : ℕ
http_private_magic = 3232973310

abbrev pub secret_file : SecretKind → Option Bytes → SecretFile
secret_file kind filename = record {
  kind = kind;
  filename = filename;
  file = none;
  filesize = 0;
  mem = none;
}

-- The table secret_files.
abbrev pub secret_files : HttpLoopArgs → List SecretFile
secret_files args =
    secret_file key_file args.https_key_filename
    ∷ secret_file cert_file args.https_cert_filename
    ∷ secret_file client_ca_trust args.https_clients_ca_filename
    ∷ secret_file htpasswd args.htpasswd_filename
    ∷ []

-- secret_files[i].mem
abbrev pub mem_at : ℕ → List SecretFile → Option ℕ
mem_at i ss = elim (get_elem? ss i) [ none ↦ none | some s ↦ s.mem ]

-- opts
unfoldable pub daemon_options : HttpLoopArgs → List SecretFile → List MhdOption
daemon_options args ss =
    notify_completed
    ∷ nonce_nc_size 0
    ∷ connection_limit args.connection_limit
    ∷ per_ip_connection_limit args.per_ip_connection_limit
    ∷ connection_timeout args.connection_timeout
    ∷ connection_memory_limit args.connection_memory_limit
    ∷ thread_pool_size args.num_threads
    ∷ (if is_set args.https_key_filename then https_mem_key (mem_at 0 ss) else option_end)
    ∷ https_mem_cert (mem_at 1 ss)
    ∷ https_key_password args.https_key_password
    ∷ (if is_set args.https_clients_ca_filename then https_mem_trust (mem_at 2 ss) else option_end)
    ∷ option_end
    ∷ []

abbrev pub open_files_of : {W : Type 0} → List SecretFile → Process W → Process W
open_files_of ss p = record p { open_files = p.open_files + count_open ss }

-- The loop behind tls_err.
abbrev pub close_files : {W : Type 0} → List SecretFile → Process W → Process W
close_files ss p = record p { open_files = p.open_files - count_open ss }

module _ {W S O D : Type 0} where
  -- What calloc gives, with the fields that are set before the files are read.
  abbrev pub fresh_listener : Bool → ℕ → HttpListener W S O D
  fresh_listener client_tls_cert size = record {
    listener = none;
    join = none;
    magic = 0;
    tls_data_size = size;
    d = none;
    htpasswd_mem = none;
    client_tls_cert = client_tls_cert;
    tls_data = zeros size;
  }

  -- http_listener_scrub_tls_data
  unfoldable pub http_listener_scrub_tls_data : HttpListener W S O D → Bytes
  http_listener_scrub_tls_data l = zeros l.tls_data_size ++ drop l.tls_data_size l.tls_data

  -- The scrub, where there are secrets, and the free.
  unfoldable pub free_listener : HttpListener W S O D → Process W → Process W
  unfolding http_listener_scrub_tls_data
  free_listener l p = record p {
    freed =
        (if ltb 0 l.tls_data_size then http_listener_scrub_tls_data l else l.tls_data) ∷ p.freed;
  }

  unfoldable pub break_http_loop : Process W → HttpListener W S O D → Run (Process W)
  unfolding free_listener
  break_http_loop p l =
      if l.magic == http_private_magic
      then elim l.listener [
        | none ↦ fault
        | some listener ↦
            let p' = free_listener l (record p {
              world = listener_join p.world listener;
              daemons = elim l.d as (λ (x : Option D). ℕ) [
                | none ↦ p.daemons
                | some d ↦ p.daemons - 1
              ];
            }) in
            ret (record p' { responses = responses_listener_counter_decref p'.responses })
      ]
      else fault

  module _ (create : Option Headers) (mhd_start_daemon : List Flag → ℕ → List MhdOption → Option D)
      (args : HttpLoopArgs) (decoder : Decoder W S O) (decoder_conf : Bytes) where
    -- From listener_init on, with the secrets read.
    unfoldable pub start_listener :
        List Flag
        → List SecretFile
        → HttpListener W S O D
        → Process W
        → Process W × Option (HttpListener W S O D)
    unfolding free_listener daemon_options
    start_listener flags ss l p =
        let port = to_uint16 args.port in
        let (w, listener, rc) = listener_init p.world port decoder decoder_conf in
        let p' = record p {
          world = w;
          responses = responses_listener_counter_incref create p.responses;
        } in
        elim (is_zero rc) [
          | false ↦ (free_listener l (record p { world = w }), none)
          | true ↦ elim (mhd_start_daemon flags port (daemon_options args ss)) [
            | none ↦ (
              free_listener l (record p' {
                world = listener_join w listener;
                responses = responses_listener_counter_decref p'.responses;
              }),
              none,
            )
            | some d ↦ (
              close_files ss (record p' { daemons = suc p'.daemons }),
              some (record l {
                listener = some listener;
                join = some break_http_loops;
                magic = http_private_magic;
                d = some d;
              }),
            )
          ]
        ]

    -- Behind the second loop; the assert is on the cursor.
    unfoldable pub after_read :
        List Flag
        → ℕ
        → HttpListener W S O D
        → Process W
        → List SecretFile × Image
        → Run (Process W × Option (HttpListener W S O D))
    unfolding start_listener
    after_read flags size fresh p (ss, im) = elim im.complete [
      | false ↦ ret (close_files ss p, some (record fresh { tls_data = im.tls_data }))
      | true ↦
          if im.cursor == size
          then ret (
              start_listener flags ss
                (record fresh {
                  tls_data = im.tls_data;
                  htpasswd_mem = if is_set args.htpasswd_filename then mem_at 3 ss else none;
                })
                p)
          else fault
    ]

    module _ (sys : System) where
      -- The reading of the secrets into a fresh listener, and what follows.
      unfoldable pub load_listener :
          List Flag → List SecretFile → Process W → Run (Process W × Option (HttpListener W S O D))
      unfolding start_listener after_read
      load_listener flags ss p =
          let size = if wants_secrets args then tls_files_size ss else 0 in
          let client_tls_cert =
            if wants_secrets args then is_set args.https_clients_ca_filename else false in
          let fresh = fresh_listener client_tls_cert size in
          elim (sys.calloc size) [
            | false ↦ ret (p, none)
            | true ↦ elim (wants_secrets args) [
              | false ↦ ret (start_listener flags ss fresh p)
              | true ↦
                  read_secrets (record { tls_data = zeros size; cursor = 0; complete = true }) ss
                  >>= after_read flags size fresh p
            ]
          ]

      unfoldable pub start_http_loop : Process W → Run (Process W × Option (HttpListener W S O D))
      unfolding load_listener
      start_http_loop p = elim (config_flags args) [
        | none ↦ ret (p, none)
        | some flags ↦
            let (ss, opened) =
              if wants_secrets args
              then open_secrets sys (secret_files args)
              else (secret_files args, true) in
            if opened
            then load_listener flags ss (open_files_of ss p)
            else ret (close_files ss (open_files_of ss p), none)
      ]
