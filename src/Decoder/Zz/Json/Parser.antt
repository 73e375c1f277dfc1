-- ===== src/Decoder/Zz/Json/Parser.antt =====
-- What a chunk does to the state of the parser: only yajl_parse changes it.
use mathlib.Core.Path.{subst}
use n2kafka.Prelude.{ℕ, ◌<◌, some, ◌≡◌, refl, ◌∙◌, none, List, [], ◌∷◌, arith, length, Bytes}
use n2kafka.Prelude.Run.{Run, ret, fault, running, ◌>>=◌}
use n2kafka.Decoder.Zz.Json.Chunk.{Provides}
use n2kafka.Decoder.Api.{DecoderErr}
use n2kafka.Decoder.Zz.Json.{
  Event, start_map, end_map, JsonSession, Env, zz_parse_start_json_map,
  zz_parse_generate_rdkafka_message, zz_parse_end_json_map0, zz_parse_end_json_map_split,
  zz_parse_end_json_map, run_event, run_events, keep_open, close_chunk, process_json_buffer,
}

-- A predicate on what a run returns.
abbrev pub Returned : {A : Type 0} → (A → Type 0) → Run A → Type 0
Returned P (ret a) = P a
Returned P fault = Unit
Returned P running = Unit

bind-Returned :
    {A B : Type 0} (P : A → Type 0) (Q : B → Type 0) (m : Run A) (f : A → Run B)
    → Returned P m
    → ((a : A) → P a → Returned Q (f a))
    → Returned Q (m >>= f)
bind-Returned P Q (ret a) f h g = g a h
bind-Returned P Q fault f h g = tt
bind-Returned P Q running f h g = tt

module _ {H : Type 0} (env : Env H) where
  abbrev pub HasParser : H → JsonSession H → Type 0
  HasParser h s = s.yajl_handler ≡ h

  end_map-HasParser :
      (buffer : ℕ) (chunk : Bytes) (s : JsonSession H) (c : ℕ)
      → Returned (HasParser s.yajl_handler) (zz_parse_end_json_map env buffer chunk s c)
  unfolding zz_parse_end_json_map zz_parse_end_json_map0 zz_parse_end_json_map_split
      zz_parse_generate_rdkafka_message
  end_map-HasParser buffer chunk s c = ground arith

  run_events-HasParser :
      (buffer : ℕ) (chunk : Bytes) (es : List Event) (h : H) (s : JsonSession H)
      → s.yajl_handler ≡ h
      → Returned (HasParser h) (run_events env buffer chunk es s)
  unfolding run_events run_event zz_parse_start_json_map
  run_events-HasParser buffer chunk [] h s e = e
  run_events-HasParser buffer chunk (start_map c ∷ es) h s e =
      run_events-HasParser buffer chunk es h _ (ground (arith, e))
  run_events-HasParser buffer chunk (end_map c ∷ es) h s e =
      bind-Returned (HasParser s.yajl_handler) (HasParser h)
        (zz_parse_end_json_map env buffer chunk s c) _ (end_map-HasParser buffer chunk s c)
        (λ s' e'. run_events-HasParser buffer chunk es h s' (e' ∙ e))

  keep_open-HasParser :
      (chunk : Bytes) (s : JsonSession H) → (keep_open env chunk s).yajl_handler ≡ s.yajl_handler
  unfolding keep_open
  keep_open-HasParser chunk s = ground arith

  close_chunk-HasParser :
      (buffer : ℕ) (s : JsonSession H)
      → Returned (HasParser s.yajl_handler) (close_chunk env (some buffer) s)
  unfolding close_chunk
  close_chunk-HasParser buffer s = ground arith

  end-HasParser :
      (buffer : ℕ) (chunk : Bytes) (h : H) (s : JsonSession H)
      → s.yajl_handler ≡ h
      → Returned (HasParser h) (close_chunk env (some buffer) (keep_open env chunk s))
  end-HasParser buffer chunk h s e =
      let same = keep_open-HasParser chunk s ∙ e in
      subst
        (λ (x : H). Returned (HasParser x) (close_chunk env (some buffer) (keep_open env chunk s)))
        same (close_chunk-HasParser buffer (keep_open env chunk s))

  -- The state of the parser after a chunk that yajl accepts is the one that yajl_parse leaves.
  pub process_json_buffer-HasParser :
      (buffer : ℕ) (chunk : Bytes) (s : JsonSession H) (handler : H) (events : List Event)
      → Provides env
      → 0 < length chunk
      → env.yajl_parse s.yajl_handler chunk ≡ (handler, events, none)
      → Returned
          (λ (p : JsonSession H × DecoderErr). HasParser handler p.0)
          (process_json_buffer env buffer chunk s)
  unfolding process_json_buffer
  process_json_buffer-HasParser buffer [] s handler events provides some_bytes parse =
      absurd (omega arith)
  process_json_buffer-HasParser buffer (x ∷ xs) s handler events provides some_bytes parse =
      let chunk = x ∷ xs in
      rw (parse, provides.mallocs (length chunk))
        (bind-Returned (HasParser handler) _ _ _
          (run_events-HasParser buffer chunk events handler _ refl)
          (λ s' e.
            bind-Returned (HasParser handler) _
              (close_chunk env (some buffer) (keep_open env chunk s')) _
              (end-HasParser buffer chunk handler s' e) (λ s2 e2. e2)))
