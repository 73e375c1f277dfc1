-- ===== src/Decoder/Zz/Json/Chunk.antt =====
-- One chunk: the callbacks follow the splitting of Spec.
use n2kafka.Prelude.{
  ℕ, ◌+◌, ◌-◌, ◌≤◌, ◌<◌, ◌≡◌, refl, ap, ◌∙◌, true, false, Option, none, some, List, [], ◌++◌, map,
  append_assoc, arith, length, Bytes, ◌==◌,
}
use n2kafka.Util.Str.{string_size, string_min_size}
use n2kafka.Util.Str.Pow2.{max_size}
use n2kafka.Util.Str.Grow.{IsWf}
use n2kafka.Util.MsgArray.{Msg}
use n2kafka.Util.MsgArray.Add.{IsPacked}
use n2kafka.Decoder.Zz.Json.{start_map, JsonSession, Env, zz_parse_start_json_map}
use n2kafka.Decoder.Zz.Json.Spec.{slice, Split, split_event, slice-slice}

-- The libraries at their best: every allocation granted, every single message taken, and sizes at
-- which a header and a message fit the first allocation.
pub record Provides {H : Type 0} (env : Env H) : Type 0 where
  pub grants : (n : ℕ) → env.realloc n ≡ true
  pub mallocs : (n : ℕ) → env.malloc n ≡ true
  pub takes : (b : Bytes) → env.produce_one b ≡ true
  pub header_positive : 0 < env.header_size
  pub msg_positive : 0 < env.msg_size
  pub first_fits : env.header_size + env.msg_size ≤ string_min_size

-- The content of a message in the chunk at address `buffer`.
abbrev pub content : ℕ → Bytes → Msg → Bytes
content buffer chunk m = slice (m.payload - buffer) (m.payload - buffer + m.len) chunk

-- Where the object begun lies: nowhere, in this chunk from `o` on, or in the kept bytes and all of
-- this chunk.
pub data Mode (chunk : Bytes) (at depth : ℕ) (open_map : Option ℕ) (kept : Bytes) (msgs : List Msg)
    (current : Bytes) : Type 0 where
  idle :
      depth ≡ 0
      → open_map ≡ none
      → kept ≡ []
      → current ≡ []
      → Mode chunk at depth open_map kept msgs current
  here :
      (o : ℕ)
      → 0 < depth
      → open_map ≡ some o
      → o < at
      → kept ≡ []
      → current ≡ slice o at chunk
      → Mode chunk at depth open_map kept msgs current
  carried :
      0 < depth
      → open_map ≡ none
      → 0 < length kept
      → msgs ≡ []
      → current ≡ kept ++ slice 0 at chunk
      → Mode chunk at depth open_map kept msgs current

pub record Sim {H : Type 0} (env : Env H) (buffer : ℕ) (chunk : Bytes) (at : ℕ) (msgs : List Msg)
    (s : JsonSession H) (st : Split) : Type 0 where
  pub same_depth : s.stack_pos ≡ st.depth
  pub mode : Mode chunk at st.depth s.last_open_map s.last_object.bytes msgs st.current
  pub packed : IsPacked env.header_size env.msg_size s.kafka_msgs msgs
  pub outputs : st.out ≡ s.sent ++ map (content buffer chunk) msgs
  pub wf : IsWf s.last_object
  pub small : string_size s.last_object + length chunk ≤ max_size

-- Reading on inside an object.
pub Mode-advance :
    (chunk : Bytes) (at c depth depth' : ℕ) (open_map : Option ℕ) (kept : Bytes) (msgs : List Msg)
    (current : Bytes)
    → at ≤ c
    → 0 < depth
    → 0 < depth'
    → Mode chunk at depth open_map kept msgs current
    → Mode chunk c depth' open_map kept msgs (current ++ slice at c chunk)
Mode-advance chunk at c depth depth' open_map kept msgs current le p p' (idle d o k cur) =
    absurd (omega arith)
Mode-advance chunk at c depth depth' open_map kept msgs current le p p' (here i d o lt k cur) =
    here i p' o (omega arith) k (rw cur (slice-slice i at c chunk (omega arith) le))
Mode-advance chunk at c depth depth' open_map kept msgs current le p p' (carried d o k m cur) =
    carried p' o k m (
      rw cur (
        append_assoc kept _ _
        ∙ ap (λ (x : Bytes). kept ++ x) (slice-slice 0 at c chunk (omega arith) le)))

is_zero_true : (n : ℕ) → n ≡ 0 → (n == 0) ≡ true
is_zero_true n h = ground arith

pub is_zero_false : (n : ℕ) → 0 < n → (n == 0) ≡ false
is_zero_false n h = ground arith

module _ {H : Type 0} (env : Env H) (provides : Provides env) (buffer : ℕ) (chunk : Bytes) where
  start-first :
      (at c : ℕ) (msgs : List Msg) (s : JsonSession H) (st : Split)
      → at < c
      → st.depth ≡ 0
      → s.last_object.bytes ≡ []
      → Sim env buffer chunk at msgs s st
      → Sim env buffer chunk c msgs
          (zz_parse_start_json_map env s c)
          (split_event chunk at (start_map c) st)
  unfolding zz_parse_start_json_map
  start-first at c msgs s st lt d k sim =
      rw (is_zero_true s.stack_pos (sim.same_depth ∙ d), is_zero_true st.depth d)
        (record {
          same_depth = omega (arith, sim.same_depth);
          mode = here (c - 1) (omega arith) refl (omega arith) k refl;
          packed = sim.packed;
          outputs = sim.outputs;
          wf = sim.wf;
          small = sim.small;
        })

  start-deeper :
      (at c : ℕ) (msgs : List Msg) (s : JsonSession H) (st : Split)
      → at < c
      → 0 < st.depth
      → Sim env buffer chunk at msgs s st
      → Sim env buffer chunk c msgs
          (zz_parse_start_json_map env s c)
          (split_event chunk at (start_map c) st)
  unfolding zz_parse_start_json_map
  start-deeper at c msgs s st lt d sim =
      rw (is_zero_false s.stack_pos (omega (arith, sim.same_depth)), is_zero_false st.depth d)
        (record {
          same_depth = omega (arith, sim.same_depth);
          mode = Mode-advance chunk at c _ _ _ _ _ _ (omega arith) d (omega arith) sim.mode;
          packed = sim.packed;
          outputs = sim.outputs;
          wf = sim.wf;
          small = sim.small;
        })

  pub start-Sim :
      (at c : ℕ) (msgs : List Msg) (s : JsonSession H) (st : Split)
      → at < c
      → Sim env buffer chunk at msgs s st
      → Sim env buffer chunk c msgs
          (zz_parse_start_json_map env s c)
          (split_event chunk at (start_map c) st)
  start-Sim at c msgs s st lt sim = go sim.mode
    where
      go :
          Mode chunk at st.depth s.last_open_map s.last_object.bytes msgs st.current
          → Sim env buffer chunk c msgs
              (zz_parse_start_json_map env s c)
              (split_event chunk at (start_map c) st)
      go (idle d o k cur) = start-first at c msgs s st lt d k sim
      go (here i d o lt' k cur) = start-deeper at c msgs s st lt d sim
      go (carried d o k m cur) = start-deeper at c msgs s st lt d sim
