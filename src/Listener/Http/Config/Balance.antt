-- ===== src/Listener/Http/Config/Balance.antt =====
-- What a history of starts and stops of HTTP listeners leaves: the responses are there exactly while a
-- listener runs, and no block is given back with a secret in it.
use mathlib.Core.Path.{subst}
use n2kafka.Prelude.{
  ℕ, suc, ◌-◌, ◌≡◌, refl, ap, sym, true, Option, none, some, List, [], ◌∷◌, ◌++◌, ◌==◌, ==_iff,
  length, Bytes, arith, All,
}
use n2kafka.Prelude.Run.{ret}
use n2kafka.Util.MsgArray.{zeros}
use n2kafka.Listener.Api.{Decoder, Listener, listener_join}
use n2kafka.Listener.Http.Responses.{
  Headers, responses_listener_counter_decref, responses_for, incref-responses_for,
  decref-responses_for,
}
use n2kafka.Listener.Http.Config.Args.{HttpLoopArgs, Flag}
use n2kafka.Listener.Http.Config.Secrets.{System, SecretFile}
use n2kafka.Listener.Http.Config.Start.{
  HttpListener, Process, MhdOption, http_private_magic, break_http_loop, start_http_loop,
}
use n2kafka.Listener.Http.Config.Opened.{freed-zeros}
use n2kafka.Listener.Http.Config.Scrub.{IsScrubbed, zeros-IsScrubbed}
use n2kafka.Listener.Http.Config.Outcome.{
  Outcome, refused, no_memory, cut_short, no_opaque, no_daemon, started, start_http_loop-Outcome,
}

-- The listeners that run after a start: one without a join is none.
abbrev pub kept :
    {W S O D : Type 0}
    → Option (HttpListener W S O D)
    → List (HttpListener W S O D)
    → List (HttpListener W S O D)
kept none ls = ls
kept (some l) ls = elim l.join [ none ↦ ls | some j ↦ l ∷ ls ]

-- What a running listener has.
pub record IsLive {W S O D : Type 0} (l : HttpListener W S O D) : Type 0 where
  pub magic_set : l.magic ≡ http_private_magic
  pub listener : Listener W S O
  pub listener_set : l.listener ≡ some listener
  pub daemon : D
  pub daemon_set : l.d ≡ some daemon
  pub size_set : l.tls_data_size ≡ length l.tls_data

module _ {W S O D : Type 0} (create : Option Headers) where
  -- The processes that starts and stops lead to, each with the listeners that run in it. Every start
  -- has settings, a decoder and a system of its own.
  pub data Reach : Process W → List (HttpListener W S O D) → Type 0 where
    initial :
        (w : W) (open_files : ℕ)
        → Reach
            (record {
              world = w;
              responses = responses_for create 0;
              open_files = open_files;
              daemons = 0;
              freed = [];
            })
            []
    starts :
        (mhd_start_daemon : List Flag → ℕ → List MhdOption → Option D) (args : HttpLoopArgs)
        (decoder : Decoder W S O) (decoder_conf : Bytes) (sys : System) (p : Process W)
        (ls : List (HttpListener W S O D)) (r : Process W × Option (HttpListener W S O D))
        → Reach p ls
        → start_http_loop create mhd_start_daemon args decoder decoder_conf sys p ≡ ret r
        → Reach r.0 (kept r.1 ls)
    stops :
        (p q : Process W) (l : HttpListener W S O D) (ls ms : List (HttpListener W S O D))
        → Reach p (ls ++ l ∷ ms)
        → break_http_loop p l ≡ ret q
        → Reach q (ls ++ ms)

  -- The invariant of the process with its running listeners.
  pub record Balanced (p : Process W) (ls : List (HttpListener W S O D)) : Type 0 where
    pub responses : p.responses ≡ responses_for create (length ls)
    pub daemons : p.daemons ≡ length ls
    pub scrubbed : All IsScrubbed p.freed
    pub live : All IsLive ls

  outcome-Balanced :
      (mhd_start_daemon : List Flag → ℕ → List MhdOption → Option D) (args : HttpLoopArgs)
      (decoder : Decoder W S O) (decoder_conf : Bytes) (sys : System) (files : List SecretFile)
      (p : Process W) (ls : List (HttpListener W S O D))
      (r : Process W × Option (HttpListener W S O D))
      → Outcome create mhd_start_daemon args decoder decoder_conf sys files p r
      → Balanced p ls
      → Balanced r.0 (kept r.1 ls)
  outcome-Balanced m a d c sys files p ls _ (refused why) b = b
  outcome-Balanced m a d c sys files p ls _ (no_memory why) b = record {
    responses = b.responses;
    daemons = b.daemons;
    scrubbed = b.scrubbed;
    live = b.live;
  }
  outcome-Balanced m a d c sys files p ls _ (cut_short r l why (unset, no_join, no_magic, no_d)) b =
      rw no_join b
  outcome-Balanced m a d c sys files p ls _ (no_opaque why) b = record {
    responses = b.responses;
    daemons = b.daemons;
    scrubbed = (zeros-IsScrubbed _, b.scrubbed);
    live = b.live;
  }
  outcome-Balanced m a d c sys files p ls _ (no_daemon flags accepted why) b = record {
    responses =
        rw
          (
            b.responses,
            incref-responses_for create (length ls),
            decref-responses_for create (length ls),
          )
          refl;
    daemons = b.daemons;
    scrubbed = (zeros-IsScrubbed _, b.scrubbed);
    live = b.live;
  }
  outcome-Balanced m a d c sys files p ls _ (started l s) b = rw s.join_set (record {
    responses = rw (b.responses) (incref-responses_for create (length ls));
    daemons = omega (arith, b.daemons);
    scrubbed = b.scrubbed;
    live = (
      record {
        magic_set = s.magic_set;
        listener = _;
        listener_set = s.listener_set;
        daemon = s.daemon;
        daemon_set = s.daemon_set;
        size_set = s.size_set;
      },
      b.live,
    );
  })

  -- The stop of a running listener fails no assert.
  break_http_loop-IsLive :
      (p : Process W) (l : HttpListener W S O D)
      → (live : IsLive l)
      → break_http_loop p l
        ≡ ret (record p {
          world = listener_join p.world live.listener;
          responses = responses_listener_counter_decref p.responses;
          daemons = p.daemons - 1;
          freed = zeros l.tls_data_size ∷ p.freed;
        })
  unfolding break_http_loop
  break_http_loop-IsLive p l live =
      let magic : (l.magic == http_private_magic) ≡ true = (==_iff _ _).1 live.magic_set in
      rw
        (
          break_http_loop,
          magic,
          live.listener_set,
          live.daemon_set,
          freed-zeros l (sym live.size_set),
        )
        refl

  remove-IsLive :
      (ls ms : List (HttpListener W S O D)) (l : HttpListener W S O D)
      → All IsLive (ls ++ l ∷ ms)
      → IsLive l × All IsLive (ls ++ ms)
  remove-IsLive [] ms l (live, others) = (live, others)
  remove-IsLive (x ∷ ls) ms l (first, others) =
      let (live, rest) = remove-IsLive ls ms l others in (live, (first, rest))

  length_removed :
      (ls ms : List (HttpListener W S O D)) (l : HttpListener W S O D)
      → length (ls ++ l ∷ ms) ≡ suc (length (ls ++ ms))
  length_removed [] ms l = refl
  length_removed (x ∷ ls) ms l = ap suc (length_removed ls ms l)

  stop-Balanced :
      (p q : Process W) (l : HttpListener W S O D) (ls ms : List (HttpListener W S O D))
      → break_http_loop p l ≡ ret q
      → Balanced p (ls ++ l ∷ ms)
      → Balanced q (ls ++ ms)
  stop-Balanced p q l ls ms stopped b =
      let (live, others) = remove-IsLive ls ms l b.live in
      let fewer = length_removed ls ms l in
      let after = record p {
        world = listener_join p.world live.listener;
        responses = responses_listener_counter_decref p.responses;
        daemons = p.daemons - 1;
        freed = zeros l.tls_data_size ∷ p.freed;
      } in
      let same : after ≡ q = cc (break_http_loop-IsLive p l live, stopped) in
      subst (λ (x : Process W). Balanced x (ls ++ ms)) same
        (record {
          responses = rw (b.responses, fewer, decref-responses_for create (length (ls ++ ms))) refl;
          daemons = omega (arith, b.daemons, fewer);
          scrubbed = (zeros-IsScrubbed l.tls_data_size, b.scrubbed);
          live = others;
        })

  -- After any history of starts and stops.
  pub Reach-Balanced :
      (p : Process W) (ls : List (HttpListener W S O D)) → Reach p ls → Balanced p ls
  Reach-Balanced _ _ (initial w n) = record {
    responses = refl;
    daemons = refl;
    scrubbed = tt;
    live = tt;
  }
  Reach-Balanced _ _ (starts m a d c sys p ls r reached ran) =
      let e = start_http_loop-Outcome create m a d c sys p in
      let same : e.result ≡ r = cc (e.returns, ran) in
      outcome-Balanced m a d c sys _ p ls r (subst (Outcome create m a d c sys _ p) same e.outcome)
        (Reach-Balanced p ls reached)
  Reach-Balanced _ _ (stops p q l ls ms reached stopped) =
      stop-Balanced p q l ls ms stopped (Reach-Balanced p (ls ++ l ∷ ms) reached)

  -- So every running listener can be stopped.
  pub Reach-stops :
      (p : Process W) (ls ms : List (HttpListener W S O D)) (l : HttpListener W S O D)
      → Reach p (ls ++ l ∷ ms)
      → (q : Process W) × (break_http_loop p l ≡ ret q) × Balanced q (ls ++ ms)
  Reach-stops p ls ms l reached =
      let b = Reach-Balanced p (ls ++ l ∷ ms) reached in
      let stopped = break_http_loop-IsLive p l (remove-IsLive ls ms l b.live).0 in
      (_, stopped, stop-Balanced p _ l ls ms stopped b)
