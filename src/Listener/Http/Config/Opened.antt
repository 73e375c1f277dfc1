-- ===== src/Listener/Http/Config/Opened.antt =====
-- Parts of the outcome of start_http_loop: the opened files, a listener without files, and the scrub.
use n2kafka.Prelude.{
  ℕ, ◌≡◌, refl, ap, inl, inr, true, false, Option, none, some, List, [], ◌∷◌, ◌++◌, append-nil, ltb,
  if◌then◌else◌, length, drop, Bytes, arith, All, Bool-cases, Option-cases, lt→ltb,
}
use n2kafka.Util.MsgArray.{zeros}
use n2kafka.Listener.Http.Config.Args.{HttpLoopArgs, Flag, is_set, config_flags, wants_secrets}
use n2kafka.Listener.Http.Config.Secrets.{
  System, SecretKind, SecretFile, permissions_pass, file_size_callback, open_secret, open_secrets,
  tls_files_size, count_open,
}
use n2kafka.Listener.Http.Config.Layout.{IsReady, image, place}
use n2kafka.Listener.Http.Config.Start.{
  HttpListener, Process, secret_file, secret_files, open_files_of, close_files,
  http_listener_scrub_tls_data, free_listener,
}

-- What the first loop leaves of one file, where it does not jump.
open_secret-IsReady :
    (sys : System) (s : SecretFile) → (open_secret sys s).1 ≡ true → IsReady (open_secret sys s).0
unfolding open_secret
open_secret-IsReady sys s passed = elim (Option-cases s.filename) [
  | inl unnamed ↦ rw (open_secret, unnamed) (inl unnamed)
  | inr (name, named) ↦ elim (Bool-cases (permissions_pass sys s.kind name)) [
    | inr shut ↦ absurd (cc (rw (open_secret, named, shut) at passed))
    | inl allowed ↦ elim (Option-cases (sys.fopen name)) [
      | inl missing ↦ absurd (cc (rw (open_secret, named, allowed, missing) at passed))
      | inr (stream, found) ↦ elim (Option-cases (file_size_callback s.kind stream)) [
        | inl unsized ↦ absurd (cc (rw (open_secret, named, allowed, found, unsized) at passed))
        | inr (n, sized) ↦ rw (open_secret, named, allowed, found, sized) (inr (stream, refl))
      ]
    ]
  ]
]

pub open_secrets-IsReady :
    (sys : System) (ss : List SecretFile)
    → (open_secrets sys ss).1 ≡ true
    → All IsReady (open_secrets sys ss).0
unfolding open_secrets
open_secrets-IsReady sys [] opened = tt
open_secrets-IsReady sys (s ∷ ss) opened = elim (Bool-cases (open_secret sys s).1) [
  | inl passed ↦
      rw (open_secrets, passed)
        (
          open_secret-IsReady sys s passed,
          open_secrets-IsReady sys ss (rw (open_secrets, passed) at opened),
        )
  | inr failed ↦ absurd (cc (rw (open_secrets, failed) at opened))
]

-- A file that a setting names, as it is opened and sized; an unnamed one is left alone.
abbrev pub configured_file : System → SecretKind → Option Bytes → SecretFile
configured_file sys kind none = record {
  kind = kind;
  filename = none;
  file = none;
  filesize = 0;
  mem = none;
}
configured_file sys kind (some name) = record {
  kind = kind;
  filename = some name;
  file = sys.fopen name;
  filesize = elim (sys.fopen name) [
    | none ↦ 0
    | some stream ↦ elim (file_size_callback kind stream) [ none ↦ 0 | some n ↦ n ]
  ];
  mem = none;
}

-- The files of the settings: the private key, the certificate, the clients' authorities and the passwords.
abbrev pub configured : System → HttpLoopArgs → List SecretFile
configured sys args =
    configured_file sys SecretKind.key_file args.https_key_filename
    ∷ configured_file sys SecretKind.cert_file args.https_cert_filename
    ∷ configured_file sys SecretKind.client_ca_trust args.https_clients_ca_filename
    ∷ configured_file sys SecretKind.htpasswd args.htpasswd_filename
    ∷ []

open_secret-configured :
    (sys : System) (kind : SecretKind) (filename : Option Bytes)
    → (open_secret sys (secret_file kind filename)).1 ≡ true
    → (open_secret sys (secret_file kind filename)).0 ≡ configured_file sys kind filename
unfolding open_secret
open_secret-configured sys kind none passed = refl
open_secret-configured sys kind (some name) passed =
    elim (Bool-cases (permissions_pass sys kind name)) [
      | inr shut ↦ absurd (cc (rw shut at passed))
      | inl allowed ↦ elim (Option-cases (sys.fopen name)) [
        | inl missing ↦ absurd (cc (rw (allowed, missing) at passed))
        | inr (stream, found) ↦ elim (Option-cases (file_size_callback kind stream)) [
          | inl unsized ↦ absurd (cc (rw (allowed, found, unsized) at passed))
          | inr (n, sized) ↦ rw (allowed, found, sized) refl
        ]
      ]
    ]

open_secrets-next :
    (sys : System) (s : SecretFile) (ss : List SecretFile)
    → (open_secrets sys (s ∷ ss)).1 ≡ true
    → ((open_secret sys s).1 ≡ true)
      × ((open_secrets sys ss).1 ≡ true)
      × ((open_secrets sys (s ∷ ss)).0 ≡ (open_secret sys s).0 ∷ (open_secrets sys ss).0)
unfolding open_secrets
open_secrets-next sys s ss opened = elim (Bool-cases (open_secret sys s).1) [
  | inl passed ↦ (passed, rw (open_secrets, passed) at opened, rw (open_secrets, passed) refl)
  | inr failed ↦ absurd (cc (rw (open_secrets, failed) at opened))
]

-- The files of the settings, once the first loop has passed.
pub open_secrets-configured :
    (sys : System) (args : HttpLoopArgs)
    → (open_secrets sys (secret_files args)).1 ≡ true
    → (open_secrets sys (secret_files args)).0 ≡ configured sys args
unfolding open_secrets
open_secrets-configured sys args opened =
    let key = secret_file SecretKind.key_file args.https_key_filename in
    let cert = secret_file SecretKind.cert_file args.https_cert_filename in
    let trust = secret_file SecretKind.client_ca_trust args.https_clients_ca_filename in
    let passwords = secret_file SecretKind.htpasswd args.htpasswd_filename in
    let (a, more, e) = open_secrets-next sys key (cert ∷ trust ∷ passwords ∷ []) opened in
    let (b, more', f) = open_secrets-next sys cert (trust ∷ passwords ∷ []) more in
    let (c, more'', g) = open_secrets-next sys trust (passwords ∷ []) more' in
    let (d, last, h) = open_secrets-next sys passwords [] more'' in
    rw
      (
        e,
        f,
        g,
        h,
        open_secret-configured sys SecretKind.key_file args.https_key_filename a,
        open_secret-configured sys SecretKind.cert_file args.https_cert_filename b,
        open_secret-configured sys SecretKind.client_ca_trust args.https_clients_ca_filename c,
        open_secret-configured sys SecretKind.htpasswd args.htpasswd_filename d,
      )
      refl

pub unnamed-configured :
    (sys : System) (args : HttpLoopArgs)
    → All (λ (s : SecretFile). s.filename ≡ none) (secret_files args)
    → secret_files args ≡ configured sys args
unnamed-configured sys args (key, (cert, (ca, (htpasswd, done)))) =
    rw (key, cert, ca, htpasswd) refl

drop-length : {A : Type 0} (xs : List A) → drop (length xs) xs ≡ []
drop-length [] = refl
drop-length (x ∷ xs) = drop-length xs

-- The scrub of a block that is all secrets.
scrubbed :
    (block : Bytes)
    → (if ltb 0 (length block) then zeros (length block) ++ drop (length block) block else block)
      ≡ zeros (length block)
scrubbed [] = refl
scrubbed (x ∷ xs) =
    rw (lt→ltb 0 (length (x ∷ xs)) (omega arith), drop-length xs, append-nil (zeros (length xs)))
      refl

-- A listener without a configured file has nothing to lay out.
pub unnamed :
    (ss : List SecretFile) (n : ℕ)
    → All (λ (s : SecretFile). s.filename ≡ none) ss
    → (image ss ≡ []) × (place n ss ≡ ss)
unnamed [] n none_named = (refl, refl)
unnamed (s ∷ ss) n (no_name, others) =
    let (flat, same) = unnamed ss n others in (rw (no_name, flat) refl, simp (no_name, same))

pub unnamed-size :
    (ss : List SecretFile) → All (λ (s : SecretFile). s.filename ≡ none) ss → tls_files_size ss ≡ 0
unfolding tls_files_size
unnamed-size [] none_named = refl
unnamed-size (s ∷ ss) (no_name, others) = rw no_name (unnamed-size ss others)

not_set : (o : Option Bytes) → is_set o ≡ false → o ≡ none
not_set none h = refl
not_set (some text) h = cc

pub nothing_wanted :
    (args : HttpLoopArgs) (flags : List Flag)
    → config_flags args ≡ some flags
    → wants_secrets args ≡ false
    → All (λ (s : SecretFile). s.filename ≡ none) (secret_files args)
unfolding config_flags wants_secrets
nothing_wanted args flags accepted unwanted =
    let tests : (is_set args.https_key_filename ≡ false)
        × (is_set args.https_cert_filename ≡ false)
        × (is_set args.https_clients_ca_filename ≡ false)
        × (is_set args.htpasswd_filename ≡ false) =
      ground (arith, accepted, unwanted) in
    let (key, cert, ca, htpasswd) = tests in
    (not_set _ key, (not_set _ cert, (not_set _ ca, (not_set _ htpasswd, tt))))

pub close-open :
    {W : Type 0} (opened closed : List SecretFile) (p : Process W)
    → count_open closed ≡ count_open opened
    → close_files closed (open_files_of opened p) ≡ p
close-open opened closed p same = ap (λ (n : ℕ). record p { open_files = n }) (omega (arith, same))

module _ {W S O D : Type 0} where
  pub freed-zeros :
      (l : HttpListener W S O D)
      → length l.tls_data ≡ l.tls_data_size
      → (if ltb 0 l.tls_data_size then http_listener_scrub_tls_data l else l.tls_data)
        ≡ zeros l.tls_data_size
  unfolding http_listener_scrub_tls_data
  freed-zeros l size = rw (← size) (scrubbed l.tls_data)

  -- What is given back holds no byte of a secret.
  pub free_listener-zeros :
      (l : HttpListener W S O D) (p : Process W)
      → length l.tls_data ≡ l.tls_data_size
      → free_listener l p ≡ record p { freed = zeros l.tls_data_size ∷ p.freed }
  unfolding free_listener
  free_listener-zeros l p size = rw (freed-zeros l size) refl
