-- ===== src/Listener/Http/Config/Outcome.antt =====
-- What start_http_loop comes to, on every path.
use mathlib.Core.Path.{subst}
use n2kafka.Prelude.{
  ℕ, suc, ◌+◌, ◌-◌, ◌≡◌, refl, sym, ap, ◌∙◌, ◌⊎◌, inl, inr, Bool, true, false, Option, none, some,
  List, [], ◌∷◌, ◌==◌, if◌then◌else◌, length, Bytes, arith, All, Bool-cases, Option-cases,
}
use n2kafka.Prelude.Int.{is_zero, to_uint16}
use n2kafka.Prelude.Run.{Run, ret}
use n2kafka.Util.MsgArray.{zeros}
use n2kafka.Listener.Api.{Decoder, listener_init, listener_join}
use n2kafka.Listener.Http.Responses.{
  Headers, responses_listener_counter_incref, responses_listener_counter_decref,
}
use n2kafka.Listener.Http.Config.Args.{HttpLoopArgs, Flag, is_set, config_flags, wants_secrets}
use n2kafka.Listener.Http.Config.Secrets.{
  System, SecretFile, open_secrets, tls_files_size, count_open,
}
use n2kafka.Listener.Http.Config.Layout.{IsReady, image, place, Reads, read_secrets-Reads}
use n2kafka.Listener.Http.Config.Opened.{
  configured, open_secrets-configured, unnamed-configured, unnamed-size, open_secrets-IsReady,
  unnamed, nothing_wanted, free_listener-zeros, close-open,
}
use n2kafka.Listener.Http.Config.Start.{
  break_http_loops, HttpListener, Process, MhdOption, http_private_magic, secret_files, mem_at,
  daemon_options, open_files_of, fresh_listener, start_listener, after_read, load_listener,
  start_http_loop,
}

module _ {W S O D : Type 0} where
  module _ (create : Option Headers) (mhd_start_daemon : List Flag → ℕ → List MhdOption → Option D)
      (args : HttpLoopArgs) (decoder : Decoder W S O) (decoder_conf : Bytes) where
    -- A listener whose daemon runs: its fields, and the block of its files.
    pub record Started (p : Process W) (files : List SecretFile) (l : HttpListener W S O D)
        : Type 0 where
      pub init_rc :
          is_zero (listener_init p.world (to_uint16 args.port) decoder decoder_conf).2 ≡ true
      pub listener_set :
          l.listener ≡ some (listener_init p.world (to_uint16 args.port) decoder decoder_conf).1
      pub join_set : l.join ≡ some break_http_loops
      pub magic_set : l.magic ≡ http_private_magic
      pub size_set : l.tls_data_size ≡ length l.tls_data
      pub block : l.tls_data ≡ image files
      pub passwords :
          is_set args.htpasswd_filename ≡ true → l.htpasswd_mem ≡ mem_at 3 (place 0 files)
      pub flags : List Flag
      pub accepted : config_flags args ≡ some flags
      pub daemon : D
      pub daemon_set : l.d ≡ some daemon
      pub daemon_runs :
          mhd_start_daemon flags (to_uint16 args.port) (daemon_options args (place 0 files))
          ≡ some daemon

    -- The paths of start_http_loop for the files of its settings, with the reason of each and what it leaves of
    -- the process.
    pub data Outcome (sys : System) (files : List SecretFile) (p : Process W)
        : Process W × Option (HttpListener W S O D) → Type 0 where
      refused :
          (config_flags args ≡ none) ⊎ ((open_secrets sys (secret_files args)).1 ≡ false)
          → Outcome sys files p (p, none)
      no_memory :
          sys.calloc (tls_files_size files) ≡ false
          → Outcome sys files p (open_files_of files p, none)
      cut_short :
          (r : Reads [] files) (l : HttpListener W S O D)
          → r.im.complete ≡ false
          → (l.listener ≡ none) × (l.join ≡ none) × (l.magic ≡ 0) × (l.d ≡ none)
          → Outcome sys files p (p, some l)
      no_opaque :
          is_zero (listener_init p.world (to_uint16 args.port) decoder decoder_conf).2 ≡ false
          → Outcome sys files p (
            record (open_files_of files p) {
              world = (listener_init p.world (to_uint16 args.port) decoder decoder_conf).0;
              freed = zeros (length (image files)) ∷ p.freed;
            },
            none,
          )
      no_daemon :
          (flags : List Flag)
          → config_flags args ≡ some flags
          → mhd_start_daemon flags (to_uint16 args.port) (daemon_options args (place 0 files))
            ≡ none
          → Outcome sys files p (
            record (open_files_of files p) {
              world =
                  listener_join
                    (listener_init p.world (to_uint16 args.port) decoder decoder_conf).0
                    (listener_init p.world (to_uint16 args.port) decoder decoder_conf).1;
              responses =
                  responses_listener_counter_decref
                    (responses_listener_counter_incref create p.responses);
              freed = zeros (length (image files)) ∷ p.freed;
            },
            none,
          )
      started :
          (l : HttpListener W S O D)
          → Started p files l
          → Outcome sys files p (
            record p {
              world = (listener_init p.world (to_uint16 args.port) decoder decoder_conf).0;
              responses = responses_listener_counter_incref create p.responses;
              daemons = suc p.daemons;
            },
            some l,
          )

    start_listener-Outcome :
        (sys : System) (flags : List Flag) (files placed : List SecretFile)
        (l : HttpListener W S O D) (p : Process W)
        → config_flags args ≡ some flags
        → placed ≡ place 0 files
        → count_open placed ≡ count_open files
        → l.tls_data ≡ image files
        → length l.tls_data ≡ l.tls_data_size
        → (is_set args.htpasswd_filename ≡ true → l.htpasswd_mem ≡ mem_at 3 (place 0 files))
        → Outcome sys files p (
            start_listener create mhd_start_daemon args decoder decoder_conf flags placed l
              (open_files_of files p))
    unfolding start_listener
    start_listener-Outcome sys flags files placed l p accepted same count block size passwords =
        let whole : l.tls_data_size ≡ length (image files) = sym size ∙ ap length block in
        let init = listener_init p.world (to_uint16 args.port) decoder decoder_conf in
        let p0 = open_files_of files p in
        let shared = responses_listener_counter_incref create p.responses in
        let kept : p.open_files + count_open files - count_open placed ≡ p.open_files =
          omega (arith, count) in
        elim (Bool-cases (is_zero init.2)) [
          | inr failed ↦
              rw
                (
                  start_listener,
                  failed,
                  free_listener-zeros l (record p0 { world = init.0 }) size,
                  whole,
                )
                (no_opaque failed)
          | inl ready ↦
              elim (Option-cases
                (mhd_start_daemon flags (to_uint16 args.port) (daemon_options args placed))) [
                  | inl down ↦
                      let p' = record p0 {
                        world = listener_join init.0 init.1;
                        responses = responses_listener_counter_decref shared;
                      } in
                      rw (start_listener, ready, down, free_listener-zeros l p' size, whole)
                        (no_daemon flags accepted (rw (← same) down))
                  | inr (d, up) ↦
                      rw (start_listener, ready, up, kept)
                        (started _ (record {
                          init_rc = ready;
                          listener_set = refl;
                          join_set = refl;
                          magic_set = refl;
                          size_set = sym size;
                          block = block;
                          passwords = passwords;
                          flags = flags;
                          accepted = accepted;
                          daemon = d;
                          daemon_set = refl;
                          daemon_runs = rw (← same) up;
                        }))
                ]
        ]

    -- A run of the start, and the path that it took.
    pub record Ends (sys : System) (files : List SecretFile) (p : Process W)
        (m : Run (Process W × Option (HttpListener W S O D))) : Type 0 where
      pub result : Process W × Option (HttpListener W S O D)
      pub returns : m ≡ ret result
      pub outcome : Outcome sys files p result

    after_read-Ends :
        (sys : System) (flags : List Flag) (files : List SecretFile) (client_tls_cert : Bool)
        (p : Process W)
        → config_flags args ≡ some flags
        → (r : Reads [] files)
        → Ends sys files p (
            after_read create mhd_start_daemon args decoder decoder_conf flags
              (tls_files_size files)
              (fresh_listener client_tls_cert (tls_files_size files))
              (open_files_of files p)
              (r.files, r.im))
    unfolding after_read
    after_read-Ends sys flags files client_tls_cert p accepted r =
        let size : length r.im.tls_data ≡ tls_files_size files = omega (arith, r.size_kept) in
        elim (Bool-cases r.im.complete) [
          | inr short ↦ record {
            result = (
              p,
              some (record (fresh_listener client_tls_cert (tls_files_size files)) {
                tls_data = r.im.tls_data;
              }),
            );
            returns = rw (after_read, short, close-open files r.files p r.same_open) refl;
            outcome = cut_short r _ short (refl, refl, refl, refl);
          }
          | inl whole ↦
              let (block, end, same) = r.laid_out whole in
              let at_end : (r.im.cursor == tls_files_size files) ≡ true =
                ground (arith, end, size) in
              let l : HttpListener W S O D =
                record (fresh_listener client_tls_cert (tls_files_size files)) {
                  tls_data = r.im.tls_data;
                  htpasswd_mem = if is_set args.htpasswd_filename then mem_at 3 r.files else none;
                } in
              record {
                result =
                    start_listener create mhd_start_daemon args decoder decoder_conf flags r.files l
                      (open_files_of files p);
                returns = rw (after_read, whole, at_end) refl;
                outcome =
                    start_listener-Outcome sys flags files r.files l p accepted same r.same_open
                      block size (λ asked. rw (asked, same) refl);
              }
        ]

    module _ (sys : System) where
      load_listener-Ends :
          (flags : List Flag) (files : List SecretFile) (p : Process W)
          → config_flags args ≡ some flags
          → wants_secrets args ≡ true
          → All IsReady files
          → Ends sys files p (
              load_listener create mhd_start_daemon args decoder decoder_conf sys flags files
                (open_files_of files p))
      unfolding load_listener
      load_listener-Ends flags files p accepted wanted ready =
          let r = read_secrets-Reads files ready [] in
          elim (Bool-cases (sys.calloc (tls_files_size files))) [
            | inr refusing ↦ record {
              result = (open_files_of files p, none);
              returns = rw (load_listener, wanted, refusing) refl;
              outcome = no_memory refusing;
            }
            | inl given ↦
                let e =
                  after_read-Ends sys flags files (is_set args.https_clients_ca_filename) p accepted
                    r in
                record {
                  result = e.result;
                  returns = rw (load_listener, wanted, given, wanted, wanted, r.returns) e.returns;
                  outcome = e.outcome;
                }
          ]

      -- Without TLS and passwords there is no file to read.
      load_nothing-Ends :
          (flags : List Flag) (p : Process W)
          → config_flags args ≡ some flags
          → wants_secrets args ≡ false
          → Ends sys (secret_files args) p (
              load_listener create mhd_start_daemon args decoder decoder_conf sys flags
                (secret_files args)
                (open_files_of (secret_files args) p))
      unfolding load_listener
      load_nothing-Ends flags p accepted unwanted =
          let files = secret_files args in
          let names = nothing_wanted args flags accepted unwanted in
          let (flat, same) = unnamed files 0 names in
          elim (Bool-cases (sys.calloc 0)) [
            | inr refusing ↦ record {
              result = (open_files_of files p, none);
              returns = rw (load_listener, unwanted, refusing) refl;
              outcome = no_memory (rw (unnamed-size files names) refusing);
            }
            | inl given ↦ record {
              result =
                  start_listener create mhd_start_daemon args decoder decoder_conf flags files
                    (fresh_listener false 0) (open_files_of files p);
              returns = rw (load_listener, unwanted, given, unwanted, unwanted) refl;
              outcome =
                  start_listener-Outcome sys flags files files (fresh_listener false 0) p accepted
                    (sym same) refl (sym flat) refl (λ asked. rw same refl);
            }
          ]

      -- For any settings, system, decoder and daemon, start_http_loop returns; it never fails an assert or
      -- writes outside its block, and what it leaves is one of six outcomes, each with its reason, for the files that
      -- the settings name as the key, the certificate, the clients' authorities and the passwords: settings
      -- refused or a file not opened, no memory, a file cut short, no opaque of the decoder, no daemon, or a
      -- listener that runs with the image of these files as its block. Where it fails later than the
      -- opening, before the files are read or after, the files stay open, unless one was cut short; then a listener without
      -- functions is returned.
      pub start_http_loop-Outcome :
          (p : Process W)
          → Ends sys
              (configured sys args)
              p
              (start_http_loop create mhd_start_daemon args decoder decoder_conf sys p)
      unfolding start_http_loop load_listener
      start_http_loop-Outcome p = elim (Option-cases (config_flags args)) [
        | inl bad ↦ record {
          result = (p, none);
          returns = rw (start_http_loop, bad) refl;
          outcome = refused (inl bad);
        }
        | inr (flags, accepted) ↦ elim (Bool-cases (wants_secrets args)) [
          | inr unwanted ↦
              let e = load_nothing-Ends flags p accepted unwanted in
              let same =
                unnamed-configured sys args (nothing_wanted args flags accepted unwanted) in
              record {
                result = e.result;
                returns = rw (start_http_loop, accepted, unwanted) e.returns;
                outcome =
                    subst (λ (fs : List SecretFile). Outcome sys fs p e.result) same e.outcome;
              }
          | inl wanted ↦ elim (Bool-cases (open_secrets sys (secret_files args)).1) [
            | inr shut ↦ record {
              result = (p, none);
              returns =
                  rw
                    (
                      start_http_loop,
                      accepted,
                      wanted,
                      shut,
                      close-open (open_secrets sys (secret_files args)).0
                          (open_secrets sys (secret_files args)).0 p refl,
                    )
                    refl;
              outcome = refused (inr shut);
            }
            | inl opened ↦
                let files = (open_secrets sys (secret_files args)).0 in
                let e =
                  load_listener-Ends flags files p accepted wanted
                    (open_secrets-IsReady sys (secret_files args) opened) in
                record {
                  result = e.result;
                  returns = rw (start_http_loop, accepted, wanted, opened) e.returns;
                  outcome =
                      subst (λ (fs : List SecretFile). Outcome sys fs p e.result)
                        (open_secrets-configured sys args opened) e.outcome;
                }
          ]
        ]
      ]
