-- ===== src/Listener/Http/Config/Scrub.antt =====
-- What create_http_listener0 gives back to the allocator: blocks of zeros, and the copy of the configuration.
use n2kafka.Prelude.{
  ℕ, zero, suc, ◌≡◌, refl, inl, inr, Option, none, some, List, [], ◌∷◌, ◌++◌, length, Bytes, All,
  Option-cases,
}
use n2kafka.Prelude.Run.{ret}
use n2kafka.Util.MsgArray.{zeros}
use n2kafka.Listener.Api.{Decoder}
use n2kafka.Listener.Http.Responses.{Headers}
use n2kafka.Listener.Http.Config.Args.{HttpLoopArgs, Flag}
use n2kafka.Listener.Http.Config.Secrets.{System, SecretFile}
use n2kafka.Listener.Http.Config.Start.{HttpListener, Process, MhdOption}
use n2kafka.Listener.Http.Config.Create.{
  Outside, default_args, environ_args, unpack_args, key_password, free_config, free_password,
  create_http_listener0,
}
use n2kafka.Listener.Http.Config.Outcome.{
  Outcome, refused, no_memory, cut_short, no_opaque, no_daemon, started, start_http_loop-Outcome,
}

-- A block of zeros.
abbrev pub IsScrubbed : Bytes → Type 0
IsScrubbed = All (λ (c : ℕ). c ≡ 0)

pub zeros-IsScrubbed : (n : ℕ) → IsScrubbed (zeros n)
zeros-IsScrubbed zero = tt
zeros-IsScrubbed (suc n) = (refl, zeros-IsScrubbed n)

-- The freed blocks, the last one first: those of zeros, the configuration as it stands, and more of zeros.
pub record Frees (config : Bytes) (freed : List Bytes) : Type 0 where
  pub after : List Bytes
  pub before : List Bytes
  pub in_order : freed ≡ after ++ config ∷ before
  pub after_clean : All IsScrubbed after
  pub before_clean : All IsScrubbed before

free_password-Frees :
    {W : Type 0} (config : Bytes) (buffer : Option Bytes) (p : Process W)
    → All IsScrubbed p.freed
    → Frees config (free_password buffer (free_config config p)).freed
free_password-Frees config none p clean = record {
  after = [];
  before = p.freed;
  in_order = refl;
  after_clean = tt;
  before_clean = clean;
}
free_password-Frees config (some text) p clean = record {
  after = zeros (length text) ∷ [];
  before = p.freed;
  in_order = refl;
  after_clean = (zeros-IsScrubbed (length text), tt);
  before_clean = clean;
}

module _ {W S O D : Type 0} (create : Option Headers)
    (mhd_start_daemon : List Flag → ℕ → List MhdOption → Option D) where
  outcome-IsScrubbed :
      (sys : System) (args : HttpLoopArgs) (decoder : Decoder W S O) (decoder_conf : Bytes)
      (p : Process W) (files : List SecretFile) (r : Process W × Option (HttpListener W S O D))
      → Outcome create mhd_start_daemon args decoder decoder_conf sys files p r
      → All IsScrubbed p.freed
      → All IsScrubbed r.0.freed
  outcome-IsScrubbed sys a d c p files _ (refused why) clean = clean
  outcome-IsScrubbed sys a d c p files _ (no_memory why) clean = clean
  outcome-IsScrubbed sys a d c p files _ (cut_short r l why shell) clean = clean
  outcome-IsScrubbed sys a d c p files _ (no_opaque why) clean = (zeros-IsScrubbed _, clean)
  outcome-IsScrubbed sys a d c p files _ (no_daemon flags accepted why) clean =
      (zeros-IsScrubbed _, clean)
  outcome-IsScrubbed sys a d c p files _ (started l s) clean = clean

  -- Once the configuration is copied, and where every block given back before is zeros, create_http_listener0 always
  -- returns, started or not, and of the blocks that have been given back then all but one are zeros, the text of a
  -- password file and the block of the listener's files included. The other is the copy of the configuration,
  -- given back as it stands: a key password that is written in it, and not in a file, is not scrubbed.
  pub create_http_listener0-Frees :
      (sys : System) (out : Outside) (t_config config : Bytes) (decoder : Decoder W S O)
      (p : Process W)
      → out.json_deep_copy t_config ≡ some config
      → All IsScrubbed p.freed
      → (r : Process W × Option (HttpListener W S O D)) × (create_http_listener0 create
            mhd_start_daemon sys out t_config decoder p
          ≡ ret r)
        × Frees config r.0.freed
  unfolding create_http_listener0
  create_http_listener0-Frees sys out t_config config decoder p copied clean =
      elim (Option-cases (unpack_args out config (environ_args out.getenv default_args))) [
        | inl bad ↦ (
          (free_config config p, none),
          rw (create_http_listener0, copied, bad) refl,
          free_password-Frees config none p clean,
        )
        | inr (args, unpacked) ↦
            let buffer = (key_password out args.https_key_password).0 in
            let args' = record args {
              https_key_password = (key_password out args.https_key_password).1;
            } in
            let e = start_http_loop-Outcome create mhd_start_daemon args' decoder config sys p in
            (
              (free_password buffer (free_config config e.result.0), e.result.1),
              rw (create_http_listener0, copied, unpacked, e.returns) refl,
              free_password-Frees config buffer e.result.0
                  (outcome-IsScrubbed sys args' decoder config p _ e.result e.outcome clean),
            )
      ]
