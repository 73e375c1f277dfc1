-- ===== src/Decoder/Zz/Json/Keep.antt =====
-- The bytes of an object that a chunk leaves open: what keep_open keeps for the next chunk.
use n2kafka.Prelude.{
  ℕ, ◌+◌, ◌≤◌, ◌<◌, ◌≡◌, refl, sym, ap, ◌∙◌, true, false, none, some, List, [], ◌++◌, append-nil,
  ◌⊎◌, inl, inr, append_assoc, arith, length, length-append, length-drop, drop, Bytes, ◌==◌,
}
use n2kafka.Prelude.Int.{ℤ}
use n2kafka.Util.Str.{Str, string_append}
use n2kafka.Util.Str.Pow2.{max_size}
use n2kafka.Util.Str.Grow.{IsWf, Appended, appended, not_appended, string_append-Appended}
use n2kafka.Util.MsgArray.{Msg}
use n2kafka.Decoder.Zz.Json.{JsonSession, Env, keep_open}
use n2kafka.Decoder.Zz.Json.Spec.{slice, Split, split_end, slice-drop, slice-slice}
use n2kafka.Decoder.Zz.Json.Chunk.{Provides, Mode, idle, here, carried, Sim}

-- Between two chunks: the bytes of the object begun are kept.
pub record Between {H : Type 0} (s : JsonSession H) (st : Split) : Type 0 where
  pub same_depth : s.stack_pos ≡ st.depth
  pub closed : s.last_open_map ≡ none
  pub kept : s.last_object.bytes ≡ st.current
  pub inside : (0 < st.depth) ⊎ ((st.depth ≡ 0) × (st.current ≡ []))
  pub begun : 0 < st.depth → 0 < length st.current
  pub wf : IsWf s.last_object

-- A session that differs in the kept bytes, and is between two chunks once last_open_map is reset.
pub record Kept {H : Type 0} (s : JsonSession H) (st : Split) (s' : JsonSession H) : Type 0 where
  pub object : Str
  pub same : s' ≡ record s { last_object = object }
  pub between : Between (record s { last_object = object; last_open_map = none }) st

module _ {H : Type 0} (env : Env H) (provides : Provides env) (buffer : ℕ) (chunk : Bytes) where
  append-all :
      (o x : Bytes) (l : Str)
      → l.bytes ≡ o
      → IsWf l
      → length o + length x ≤ max_size
      → (string_append env.realloc l x).0.bytes ≡ o ++ x × IsWf (string_append env.realloc l x).0
  append-all o x l e wf room =
      go _ (string_append-Appended env.realloc l x wf (omega (arith, ap length e)))
    where
      go : (r : Str × ℤ) → Appended env.realloc l x r → (r.0.bytes ≡ o ++ x) × IsWf r.0
      go r (appended ok bytes wf') = (rw (bytes, e) refl, wf')
      go r (not_appended _ n refused _) = absurd (cc (provides.grants n))

  is_empty : (x : Bytes) → x ≡ [] → (length x == 0) ≡ true
  is_empty x e = rw e refl

  join-drop :
      (i at : ℕ) → i ≤ at → at ≤ length chunk → slice i at chunk ++ drop at chunk ≡ drop i chunk
  join-drop i at h g =
      rw (sym (slice-drop at chunk), sym (slice-drop i chunk))
        (slice-slice i at (length chunk) chunk h g)

  keep-here :
      (at o : ℕ) (msgs : List Msg) (s : JsonSession H) (st : Split)
      → at ≤ length chunk
      → 0 < st.depth
      → s.last_open_map ≡ some o
      → o < at
      → s.last_object.bytes ≡ []
      → st.current ≡ slice o at chunk
      → Sim env buffer chunk at msgs s st
      → Kept s (split_end chunk at st) (keep_open env chunk s)
  unfolding keep_open
  keep-here at o msgs s st le d open_map lt kept cur sim =
      let nonzero : (st.depth == 0) ≡ false = ground arith in
      let (bytes, wf) =
        append-all [] (drop o chunk) s.last_object kept sim.wf
          (omega (arith, sim.small, length-drop o chunk)) in
      let joined : st.current ++ drop at chunk ≡ drop o chunk =
        rw cur (join-drop o at (omega arith) le) in
      rw (open_map, nonzero)
        (record {
          object = (string_append env.realloc s.last_object (drop o chunk)).0;
          same = refl;
          between = record {
            same_depth = sim.same_depth;
            closed = refl;
            kept = rw (bytes, joined) refl;
            inside = inl d;
            begun = λ h. omega (arith, length-drop o chunk, ap length joined);
            wf = wf;
          };
        })

  keep-carried :
      (at : ℕ) (msgs : List Msg) (s : JsonSession H) (st : Split)
      → at ≤ length chunk
      → 0 < st.depth
      → s.last_open_map ≡ none
      → 0 < length s.last_object.bytes
      → st.current ≡ s.last_object.bytes ++ slice 0 at chunk
      → Sim env buffer chunk at msgs s st
      → Kept s (split_end chunk at st) (keep_open env chunk s)
  unfolding keep_open
  keep-carried at msgs s st le d open_map kept cur sim =
      let nonzero : (st.depth == 0) ≡ false = ground arith in
      let some_kept : (length s.last_object.bytes == 0) ≡ false = ground arith in
      let (bytes, wf) =
        append-all s.last_object.bytes chunk s.last_object refl sim.wf (omega (arith, sim.small)) in
      let joined : st.current ++ drop at chunk ≡ s.last_object.bytes ++ chunk =
        rw
          (
            cur,
            append_assoc s.last_object.bytes (slice 0 at chunk) (drop at chunk),
            join-drop 0 at (omega arith) le,
          )
          refl in
      rw (open_map, nonzero, some_kept)
        (record {
          object = (string_append env.realloc s.last_object chunk).0;
          same = refl;
          between = record {
            same_depth = sim.same_depth;
            closed = refl;
            kept = rw (bytes, joined) refl;
            inside = inl d;
            begun = λ h. omega (arith, length-append s.last_object.bytes chunk, ap length joined);
            wf = wf;
          };
        })

  keep-idle :
      (at : ℕ) (msgs : List Msg) (s : JsonSession H) (st : Split)
      → st.depth ≡ 0
      → s.last_open_map ≡ none
      → s.last_object.bytes ≡ []
      → st.current ≡ []
      → Sim env buffer chunk at msgs s st
      → Kept s (split_end chunk at st) (keep_open env chunk s)
  unfolding keep_open
  keep-idle at msgs s st d open_map kept cur sim =
      let zero_depth : (st.depth == 0) ≡ true = ground arith in
      let none_kept : (length s.last_object.bytes == 0) ≡ true =
        is_empty s.last_object.bytes kept in
      rw (open_map, none_kept, zero_depth)
        (record {
          object = s.last_object;
          same = refl;
          between = record {
            same_depth = sim.same_depth;
            closed = refl;
            kept = kept ∙ sym cur;
            inside = inr (d, cur);
            begun = λ h. absurd (omega arith);
            wf = sim.wf;
          };
        })

  pub keep-Kept :
      (at : ℕ) (msgs : List Msg) (s : JsonSession H) (st : Split)
      → at ≤ length chunk
      → Sim env buffer chunk at msgs s st
      → Kept s (split_end chunk at st) (keep_open env chunk s)
  keep-Kept at msgs s st le sim = go sim.mode
    where
      go :
          Mode chunk at st.depth s.last_open_map s.last_object.bytes msgs st.current
          → Kept s (split_end chunk at st) (keep_open env chunk s)
      go (idle d o k cur) = keep-idle at msgs s st d o k cur sim
      go (here i d o lt k cur) = keep-here at i msgs s st le d o lt k cur sim
      go (carried d o k m cur) = keep-carried at msgs s st le d o k cur sim

  pub start-Mode :
      (s : JsonSession H) (st : Split)
      → Between s st
      → Mode chunk 0 st.depth s.last_open_map s.last_object.bytes [] st.current
  start-Mode s st b = go b.inside
    where
      go :
          (0 < st.depth) ⊎ ((st.depth ≡ 0) × (st.current ≡ []))
          → Mode chunk 0 st.depth s.last_open_map s.last_object.bytes [] st.current
      go (inl d) =
          carried d b.closed (omega (arith, b.begun d, ap length b.kept)) refl
            (sym (append-nil _) ∙ ap (λ (x : Bytes). x ++ []) (sym b.kept))
      go (inr (d, cur)) = idle d b.closed (b.kept ∙ cur) cur

  pub split_end-out : (at : ℕ) (st : Split) → (split_end chunk at st).out ≡ st.out
  split_end-out at st = ground arith
