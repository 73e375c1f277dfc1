-- ===== src/Util/MsgArray/Produce.antt =====
-- kafka_message_array_produce: what it returns, and the life of the batch under any interleaving with
-- the delivery reports.
use n2kafka.Prelude.{
  ℕ, zero, suc, ◌+◌, ◌-◌, ◌≤◌, ◌<◌, ◌≡◌, ◌≢◌, refl, sym, ◌∙◌, Bool, true, false, Option, none, some,
  List, [], ◌∷◌, map, length, All, arith, ltb, leb, ◌==◌, if◌then◌else◌, get_elem?, set, Bool-cases,
  inl, inr, ◌⊎◌,
}
use n2kafka.Prelude.Run.{Run, ret, fault, ◌>>=◌}
use n2kafka.Util.Str.{string_size}
use n2kafka.Util.MsgArray.{
  MsgArray, msg_array_init, nothing_produced, get_internal, messages_of,
  kafka_message_array_produce, RespErr, other_error, Msg, Internal, is_no_error,
  last_warning_time_end, kafka_error_to_warning_time_pos, warn_of, Live, internal_decref, deliver,
  Produced, head_or_zero, rest_of, produce_loop, free_array,
}

-- The messages that librdkafka refused.
abbrev pub fails : List Msg → ℕ
fails [] = 0
fails (m ∷ ms) = (if is_no_error m.err then 0 else 1) + fails ms

abbrev pub sum : List ℕ → ℕ
sum [] = 0
sum (n ∷ ns) = n + sum ns

-- An error that has a place in the array of last warnings.
abbrev pub IsKnown : Msg → Type 0
IsKnown m =
    (is_no_error m.err ≡ true) ⊎ (kafka_error_to_warning_time_pos m.err < last_warning_time_end)

abbrev pub HasTimes : Option (List ℕ) → Type 0
HasTimes none = Unit
HasTimes (some times) = length times ≡ last_warning_time_end

decref_lem :
    (l : Live)
    → l.freed ≡ false
    → internal_decref l ≡ ret (record { count = l.count - 1; freed = l.count - 1 == 0 })
unfolding internal_decref
decref_lem l e = ground arith

deliver_lem :
    (n : ℕ) (l : Live)
    → n < l.count
    → l.freed ≡ false
    → deliver n l ≡ ret (record { count = l.count - n; freed = false })
unfolding deliver internal_decref
deliver_lem zero l h e = ground arith
deliver_lem (suc n) l h e =
    ground (arith, deliver_lem n (record { count = l.count - 1; freed = false }))

get_elem?-some : (xs : List ℕ) (i : ℕ) → i < length xs → (x : ℕ) × (get_elem? xs i ≡ some x)
get_elem?-some [] i h = elim h [ ]
get_elem?-some (x ∷ xs) zero h = (x, refl)
get_elem?-some (x ∷ xs) (suc i) h = get_elem?-some xs i (omega arith)

length-set : (xs : List ℕ) (i v : ℕ) → length (set xs i v) ≡ length xs
length-set [] i v = refl
length-set (x ∷ xs) zero v = refl
length-set (x ∷ xs) (suc i) v = omega (arith, length-set xs i v)

warn_lem :
    (now : ℕ) (times : Option (List ℕ)) (err : RespErr)
    → HasTimes times
    → kafka_error_to_warning_time_pos err < last_warning_time_end
    → (r : Option (List ℕ) × Bool) × (warn_of now times err ≡ ret r) × HasTimes r.0
unfolding warn_of
warn_lem now none err h known = ((none, true), refl, tt)
warn_lem now (some times) err h known =
    let pos = kafka_error_to_warning_time_pos err in
    let (last, found) = get_elem?-some times pos (omega arith) in
    let in_range : leb pos last_warning_time_end ≡ true = ground arith in
    elim (Bool-cases (ltb now (last + 300))) [
      | inl recent ↦ ((some times, false), rw (in_range, found, recent), h)
      | inr old ↦ (
        (some (set times pos now), true),
        rw (in_range, found, old),
        omega (arith, length-set times pos now),
      )
    ]

-- The delivery reports that come during the loop: those scheduled before each of its rounds, of which there is one
-- for every message up to the last that was refused.
abbrev pub reports : List Msg → List ℕ → ℕ
reports [] sched = 0
reports (m ∷ ms) sched =
    if fails (m ∷ ms) == 0 then 0 else head_or_zero sched + reports ms (rest_of sched)

-- The call returns, with `total` as the number of messages and `batch` as what librdkafka was given. The
-- reference count is that of the enqueued messages less the reports that came, and the batch has been freed exactly
-- if none is still to come.
pub record Finishes (batch : List Msg) (total queued reported : ℕ) (r : Run Produced) : Type 0 where
  pub final : Produced
  pub returns : r ≡ ret final
  pub given : final.batch ≡ batch
  pub all_counted : final.msgs_ok ≡ total
  pub balance : final.live.count + reported ≡ queued
  pub freed_when_done : final.live.freed ≡ (reported == queued)

sum-head : (ns : List ℕ) → sum ns ≡ head_or_zero ns + sum (rest_of ns)
sum-head [] = refl
sum-head (n ∷ ns) = refl

Finishes-later :
    (batch : List Msg) (total queued n reported : ℕ) (r : Run Produced)
    → n ≤ queued
    → Finishes batch total (queued - n) reported r
    → Finishes batch total queued (n + reported) r
Finishes-later batch total queued n reported r le f = record {
  final = f.final;
  returns = f.returns;
  given = f.given;
  all_counted = f.all_counted;
  balance = omega (arith, f.balance);
  freed_when_done = f.freed_when_done ∙ ground arith;
}

known_pos :
    (m : Msg)
    → IsKnown m
    → is_no_error m.err ≡ false
    → kafka_error_to_warning_time_pos m.err < last_warning_time_end
known_pos m (inl fine) h = cc
known_pos m (inr known) h = known

reports-none : (ms : List Msg) (sched : List ℕ) → fails ms ≡ 0 → reports ms sched ≡ 0
reports-none [] sched h = refl
reports-none (m ∷ ms) sched h = rw h refl

reports-some :
    (m : Msg) (ms : List Msg) (sched : List ℕ)
    → 0 < fails (m ∷ ms)
    → reports (m ∷ ms) sched ≡ head_or_zero sched + reports ms (rest_of sched)
reports-some m ms sched h =
    let some_refused : (fails (m ∷ ms) == 0) ≡ false = ground arith in rw some_refused refl

module _ (now total : ℕ) where
  loop-Finishes :
      (ms : List Msg) (sched : List ℕ) (p : Produced) (queued : ℕ)
      → p.msgs_ok + fails ms ≡ total
      → p.live.count ≡ fails ms + queued
      → p.live.freed ≡ (p.live.count == 0)
      → sum sched ≤ queued
      → HasTimes p.times
      → All IsKnown ms
      → Finishes p.batch total queued (reports ms sched) (produce_loop now total sched ms p)
  unfolding produce_loop
  loop-Finishes [] sched p queued ok count freed hs times known = record {
    final = p;
    returns = refl;
    given = refl;
    all_counted = omega arith;
    balance = omega arith;
    freed_when_done = freed ∙ ground arith;
  }
  loop-Finishes (m ∷ ms) sched p queued ok count freed hs times known =
      let n = head_or_zero sched in
      let split = sum-head sched in
      let live : Live = record { count = p.live.count - n; freed = false } in
      elim (Bool-cases (ltb p.msgs_ok total)) [
        | inr full ↦
            let none_refused : fails (m ∷ ms) ≡ 0 = ground arith in
            rw (full, reports-none (m ∷ ms) sched none_refused)
              (record {
                final = p;
                returns = refl;
                given = refl;
                all_counted = ground arith;
                balance = ground arith;
                freed_when_done = freed ∙ ground arith;
              })
        | inl more ↦
            let some_refused : 0 < fails (m ∷ ms) = ground arith in
            let counted = reports-some m ms sched some_refused in
            let held : n < p.live.count = ground arith in
            let alive : p.live.freed ≡ false = ground arith in
            let delivered = deliver_lem n p.live held alive in
            elim (Bool-cases (is_no_error m.err)) [
              | inl queued_ok ↦
                  rw (counted, more, delivered, queued_ok)
                    (Finishes-later p.batch total queued n _ _ (omega arith) (
                      loop-Finishes ms (rest_of sched) (record p { live = live }) (queued - n)
                        (ground arith) (ground arith) (ground arith) (omega arith) times known.1))
              | inr refused ↦
                  let (w, warned, times') =
                    warn_lem now p.times m.err times (known_pos m known.0 refused) in
                  rw (counted, more, delivered, refused, warned, decref_lem live refl)
                    (Finishes-later p.batch total queued n _ _ (omega arith) (
                      loop-Finishes ms (rest_of sched) _ (queued - n) (ground arith) (ground arith)
                        refl (omega arith) times' known.1))
            ]
      ]

-- A stolen batch is not freed with the array.
Finishes-free :
    (batch : List Msg) (total queued reported : ℕ) (r : Run Produced)
    → Finishes batch total queued reported r
    → Finishes batch total queued reported (r >>= λ p. free_array true p)
unfolding free_array
Finishes-free batch total queued reported r f = record {
  final = f.final;
  returns = rw f.returns;
  given = f.given;
  all_counted = f.all_counted;
  balance = f.balance;
  freed_when_done = f.freed_when_done;
}

-- What the documentation of rd_kafka_produce_batch says: it returns the number of messages enqueued,
-- and sets the error of each of the others, which is one of the four that it names.
pub record BatchLaw (produce_batch : List Msg → ℕ × List Msg) : Type 0 where
  pub counts : (ms : List Msg) → (produce_batch ms).0 + fails (produce_batch ms).1 ≡ length ms
  pub known : (ms : List Msg) → All IsKnown (produce_batch ms).1

-- An array of messages in a shared buffer, as the decoders leave it.
pub record IsShared (a : MsgArray) (k : Internal) (buffer : ℕ) : Type 0 where
  pub stored : string_size a.str ≢ 0
  pub head : get_internal a.items ≡ some k
  pub shared : k.payload_buffer ≡ some buffer
  pub counted : k.count ≡ length (messages_of a.items)
  pub some_message : 0 < k.count

-- The batch as it goes to librdkafka: every message points to the array.
abbrev pub marked : MsgArray → List Msg
marked a = map (λ (m : Msg). record m { private = true }) (messages_of a.items)

length-map : (f : Msg → Msg) (ms : List Msg) → length (map f ms) ≡ length ms
length-map f [] = refl
length-map f (m ∷ ms) = omega (arith, length-map f ms)

module _ (produce_batch : List Msg → ℕ × List Msg) (law : BatchLaw produce_batch) where
  -- For a batch in a shared buffer, whichever messages librdkafka refuses and whenever the delivery reports of the
  -- others come, at most one for each: nothing touches freed memory, librdkafka is given every message of the array,
  -- the reference count at the end is the enqueued messages less the reports that came, and the batch has been
  -- freed exactly if no report is still to come. The reports come before the loop's rounds, of which there is
  -- one for every message up to the last refused one. The value returned is the size of the batch: it
  -- counts the refused messages too. The errors of librdkafka are the four that its documentation names, and the
  -- array of last warnings, if there is one, has its four places.
  pub kafka_message_array_produce-Finishes :
      (now : ℕ) (sched : List ℕ) (a : MsgArray) (k : Internal) (buffer : ℕ)
      (times : Option (List ℕ))
      → IsShared a k buffer
      → sum sched ≤ (produce_batch (marked a)).0
      → HasTimes times
      → Finishes
          (marked a)
          (length (messages_of a.items))
          (produce_batch (marked a)).0
          (reports (produce_batch (marked a)).1 sched)
          (kafka_message_array_produce produce_batch now sched a times)
  unfolding kafka_message_array_produce
  kafka_message_array_produce-Finishes now sched a k buffer times sh hs ht =
      let stored : (string_size a.str == 0) ≡ false = ground (arith, sh.stored) in
      let some_count : (k.count == 0) ≡ false = ground (arith, sh.some_message) in
      let batch = marked a in
      let (queued, batch') = produce_batch batch in
      let total : queued + fails batch' ≡ k.count =
        omega (arith, law.counts batch, length-map _ (messages_of a.items), sh.counted) in
      let start : Produced = record {
        batch = batch;
        msgs_ok = queued;
        live = record { count = k.count; freed = false };
        times = times;
      } in
      elim (Bool-cases (queued == k.count)) [
        | inl whole ↦
            let none_refused : fails batch' ≡ 0 = ground arith in
            rw
              (
                stored,
                sh.head,
                some_count,
                sh.shared,
                whole,
                reports-none batch' sched none_refused,
              )
              (record {
                final = start;
                returns = refl;
                given = refl;
                all_counted = ground (arith, sh.counted);
                balance = ground arith;
                freed_when_done = ground (arith, sh.some_message);
              })
        | inr short ↦
            rw (← sh.counted, stored, sh.head, some_count, sh.shared, short)
              (Finishes-free _ _ _ _ _ (
                loop-Finishes now k.count batch' sched start queued (omega arith) (omega arith)
                  (sym some_count) hs ht (law.known batch)))
      ]

-- A refused message whose error has no place of its own is looked up one place behind the array of
-- last warnings.
pub warn_of-other :
    (now code : ℕ) (times : List ℕ)
    → length times ≡ last_warning_time_end
    → warn_of now (some times) (other_error code) ≡ fault
unfolding warn_of
warn_of-other now code (a ∷ b ∷ c ∷ d ∷ []) h = refl
warn_of-other now code (a ∷ b ∷ c ∷ d ∷ e ∷ es) h = absurd (omega arith)
warn_of-other now code _ h = absurd (omega arith)

pub produce-empty :
    (produce_batch : List Msg → ℕ × List Msg) (now : ℕ) (sched : List ℕ) (times : Option (List ℕ))
    → (p : Produced) × (kafka_message_array_produce produce_batch now sched msg_array_init times
        ≡ ret p)
      × (p.msgs_ok ≡ 0)
      × (p.batch ≡ [])
unfolding kafka_message_array_produce nothing_produced
produce-empty produce_batch now sched times = (nothing_produced times, refl, refl, refl)
