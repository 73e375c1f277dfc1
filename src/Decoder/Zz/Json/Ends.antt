-- ===== src/Decoder/Zz/Json/Ends.antt =====
-- One chunk: what the end of a map leads to, inside an object, or at the end of one that began here or in
-- an earlier chunk.
use mathlib.Core.List.{map-append}
use n2kafka.Prelude.{
  ℕ, ◌+◌, ◌-◌, ◌*◌, ◌^◌, ◌%◌, ◌≤◌, ◌<◌, ◌≡◌, refl, sym, ◌∙◌, true, false, none, some, List, [], ◌∷◌,
  ◌++◌, map, append-nil, append_assoc, arith, length, length-append, length-take, take, Bytes, ltb,
  lt→ltb, not, ◌==◌, if◌then◌else◌, inl, inr, ◌⊎◌,
}
use n2kafka.Prelude.Int.{ℤ, is_zero}
use n2kafka.Prelude.Run.{Run, ret}
use n2kafka.Util.Str.{Str, string_init}
use n2kafka.Util.Str.Pow2.{max_size}
use n2kafka.Util.Str.Grow.{IsWf-init, Appended, appended, not_appended, string_append-Appended}
use n2kafka.Util.MsgArray.{Msg, no_error, MsgArray}
use n2kafka.Util.MsgArray.Add.{Added, added, unchanged, kafka_msg_array_add-Added}
use n2kafka.Decoder.Zz.Json.{
  end_map, JsonSession, Env, zz_parse_generate_rdkafka_message, zz_parse_end_json_map,
}
use n2kafka.Decoder.Zz.Json.Spec.{slice, Split, split_event, slice-slice, slice-take}
use n2kafka.Decoder.Zz.Json.Chunk.{
  Provides, content, Mode, idle, here, carried, Sim, Mode-advance, is_zero_false,
}

-- One more message, one more output.
outputs-snoc :
    (out sent : List Bytes) (x : Bytes) (f : Msg → Bytes) (msgs : List Msg) (m : Msg)
    → out ≡ sent ++ map f msgs
    → x ≡ f m
    → out ++ x ∷ [] ≡ sent ++ map f (msgs ++ m ∷ [])
outputs-snoc out sent x f msgs m e e' = rw (e, e') (simp (map-append, append_assoc))

one-cases : (n : ℕ) → 0 < n → (n ≡ 1) ⊎ (1 < n)
one-cases n h = grind arith

module _ {H : Type 0} (env : Env H) (provides : Provides env) (buffer : ℕ) (chunk : Bytes) where
  -- What an event leads to: a session that follows the splitting, perhaps with one message more.
  pub record Steps (c n : ℕ) (r : Run (JsonSession H)) (st : Split) : Type 0 where
    pub final : JsonSession H
    pub msgs : List Msg
    pub returns : r ≡ ret final
    pub few : length msgs ≤ n
    pub sim : Sim env buffer chunk c msgs final st

  pop_depth : (n : ℕ) → 0 < n → n < 2 ^ 64 → (n + 2 ^ 64 - 1) % 2 ^ 64 ≡ n - 1
  pop_depth n h g = omega arith

  end-deeper :
      (at c : ℕ) (msgs : List Msg) (s : JsonSession H) (st : Split)
      → at < c
      → 1 < st.depth
      → st.depth < 2 ^ 64
      → Sim env buffer chunk at msgs s st
      → Steps c
          (length msgs)
          (zz_parse_end_json_map env buffer chunk s c)
          (split_event chunk at (end_map c) st)
  unfolding zz_parse_end_json_map
  end-deeper at c msgs s st lt d big sim =
      let e : ((s.stack_pos + 2 ^ 64 - 1) % 2 ^ 64) ≡ s.stack_pos - 1 =
        pop_depth s.stack_pos (omega (arith, sim.same_depth)) (omega (arith, sim.same_depth)) in
      let not_one : (st.depth == 1) ≡ false = ground arith in
      rw (e, is_zero_false (s.stack_pos - 1) (omega (arith, sim.same_depth)), not_one)
        (record {
          final = record s { stack_pos = s.stack_pos - 1 };
          msgs = msgs;
          returns = refl;
          few = omega arith;
          sim = record {
            same_depth = omega (arith, sim.same_depth);
            mode =
                Mode-advance chunk at c _ _ _ _ _ _ (omega arith) (omega arith) (omega arith)
                  sim.mode;
            packed = sim.packed;
            outputs = sim.outputs;
            wf = sim.wf;
            small = sim.small;
          };
        })

  content-new :
      (o c : ℕ)
      → o < c
      → slice (buffer + o - buffer) (buffer + o - buffer + (c - o)) chunk ≡ slice o c chunk
  content-new o c h =
      let e : buffer + o - buffer ≡ o = omega arith in
      let e' : o + (c - o) ≡ c = omega arith in rw (e, e')

  end-here :
      (at c o : ℕ) (msgs : List Msg) (s : JsonSession H) (st : Split)
      → at < c
      → st.depth ≡ 1
      → o < at
      → s.last_open_map ≡ some o
      → s.last_object.bytes ≡ []
      → st.current ≡ slice o at chunk
      → env.header_size + (length msgs + 1) * env.msg_size ≤ max_size
      → Sim env buffer chunk at msgs s st
      → Steps c
          (length msgs + 1)
          (zz_parse_end_json_map env buffer chunk s c)
          (split_event chunk at (end_map c) st)
  unfolding zz_parse_end_json_map zz_parse_generate_rdkafka_message
  end-here at c o msgs s st lt d lt' open_map kept cur room sim =
      let e : ((s.stack_pos + 2 ^ 64 - 1) % 2 ^ 64) ≡ 0 = omega (arith, sim.same_depth) in
      let one : (st.depth == 1) ≡ true = ground arith in
      let none_kept : ltb 0 (length s.last_object.bytes) ≡ false = rw kept refl in
      let order : ltb o c ≡ true = ground arith in
      let m : Msg = record { payload = buffer + o; len = c - o; err = no_error; private = false } in
      rw (e, none_kept, one, open_map, order)
        (go m refl _ (
          kafka_msg_array_add-Added env.realloc env.header_size env.msg_size
            provides.header_positive provides.msg_positive provides.first_fits s.kafka_msgs msgs m
            sim.packed room))
    where
      go :
          (m : Msg)
          → m ≡ record { payload = buffer + o; len = c - o; err = no_error; private = false }
          → (r : MsgArray × ℤ)
          → Added env.header_size env.msg_size env.realloc s.kafka_msgs msgs m r
          → Steps c
              (length msgs + 1)
              (ret (record s { stack_pos = 0; last_open_map = none; kafka_msgs = r.0 }))
              (record {
                depth = 0;
                current = [];
                out = st.out ++ (st.current ++ slice at c chunk) ∷ [];
              })
      go m em r (unchanged _ n refused) = absurd (cc (provides.grants n))
      go m em r (added _ packed) = record {
        final = record s { stack_pos = 0; last_open_map = none; kafka_msgs = r.0 };
        msgs = msgs ++ m ∷ [];
        returns = refl;
        few = omega (arith, length-append msgs (m ∷ []));
        sim = record {
          same_depth = refl;
          mode = idle refl refl kept refl;
          packed = packed;
          outputs = outputs-snoc st.out s.sent _ (content buffer chunk) msgs m sim.outputs (
              rw (em, cur)
                (slice-slice o at c chunk (omega arith) (omega arith)
                  ∙ sym (content-new o c (omega arith))));
          wf = sim.wf;
          small = sim.small;
        };
      }

  end-carried :
      (at c : ℕ) (msgs : List Msg) (s : JsonSession H) (st : Split)
      → msgs ≡ []
      → at < c
      → c ≤ length chunk
      → st.depth ≡ 1
      → s.last_open_map ≡ none
      → 0 < length s.last_object.bytes
      → st.current ≡ s.last_object.bytes ++ slice 0 at chunk
      → Sim env buffer chunk at msgs s st
      → Steps c
          (length msgs + 1)
          (zz_parse_end_json_map env buffer chunk s c)
          (split_event chunk at (end_map c) st)
  unfolding zz_parse_end_json_map
  end-carried at c msgs s st no_msgs lt le d open_map kept cur sim =
      let e : ((s.stack_pos + 2 ^ 64 - 1) % 2 ^ 64) ≡ 0 = omega (arith, sim.same_depth) in
      let one : (st.depth == 1) ≡ true = ground arith in
      let size : length (take c chunk) ≡ c = omega (arith, length-take c chunk) in
      rw (e, lt→ltb 0 (length s.last_object.bytes) kept, one)
        (go _ (
          string_append-Appended env.realloc s.last_object (take c chunk) sim.wf
            (omega (arith, sim.small))))
    where
      go :
          (r : Str × ℤ)
          → Appended env.realloc s.last_object (take c chunk) r
          → Steps c
              (length msgs + 1)
              (ret (
                if not (is_zero r.1)
                then record s { stack_pos = 0; last_object = string_init }
                else if env.produce_one r.0.bytes
                then record s {
                  stack_pos = 0;
                  last_object = string_init;
                  sent = s.sent ++ r.0.bytes ∷ [];
                }
                else record s { stack_pos = 0; last_object = string_init }))
              (record {
                depth = 0;
                current = [];
                out = st.out ++ (st.current ++ slice at c chunk) ∷ [];
              })
      go r (not_appended _ n refused _) = absurd (cc (provides.grants n))
      go r (appended ok bytes wf) =
          rw (ok, provides.takes r.0.bytes)
            (record {
              final = record s {
                stack_pos = 0;
                last_object = string_init;
                sent = s.sent ++ r.0.bytes ∷ [];
              };
              msgs = msgs;
              returns = refl;
              few = omega arith;
              sim = record {
                same_depth = refl;
                mode = idle refl open_map refl refl;
                packed = sim.packed;
                outputs = rw (
                  sim.outputs,
                  no_msgs,
                  append-nil s.sent,
                  append-nil (s.sent ++ r.0.bytes ∷ []),
                  bytes,
                  cur,
                  append_assoc s.last_object.bytes (slice 0 at chunk) (slice at c chunk),
                  slice-slice 0 at c chunk (omega arith) (omega arith),
                  slice-take c chunk,
                );
                wf = IsWf-init;
                small = omega (arith, sim.small);
              };
            })

  pub end-Sim :
      (at c : ℕ) (msgs : List Msg) (s : JsonSession H) (st : Split)
      → at < c
      → c ≤ length chunk
      → 0 < st.depth
      → st.depth < 2 ^ 64
      → env.header_size + (length msgs + 1) * env.msg_size ≤ max_size
      → Sim env buffer chunk at msgs s st
      → Steps c
          (length msgs + 1)
          (zz_parse_end_json_map env buffer chunk s c)
          (split_event chunk at (end_map c) st)
  end-Sim at c msgs s st lt le d big room sim = elim (one-cases st.depth d) [
    | inr more ↦ end-deeper+ more
    | inl one ↦ outermost one sim.mode
  ]
    where
      end-deeper+ :
          1 < st.depth
          → Steps c
              (length msgs + 1)
              (zz_parse_end_json_map env buffer chunk s c)
              (split_event chunk at (end_map c) st)
      end-deeper+ more =
          let t = end-deeper at c msgs s st lt more big sim in
          record {
            final = t.final;
            msgs = t.msgs;
            returns = t.returns;
            few = omega (arith, t.few);
            sim = t.sim;
          }

      outermost :
          st.depth ≡ 1
          → Mode chunk at st.depth s.last_open_map s.last_object.bytes msgs st.current
          → Steps c
              (length msgs + 1)
              (zz_parse_end_json_map env buffer chunk s c)
              (split_event chunk at (end_map c) st)
      outermost one (idle z o k cur) = absurd (omega arith)
      outermost one (here i _ o lt' k cur) = end-here at c i msgs s st lt one lt' o k cur room sim
      outermost one (carried _ o k m cur) = end-carried at c msgs s st m lt le one o k cur sim
