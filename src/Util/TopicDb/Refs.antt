-- ===== src/Util/TopicDb/Refs.antt =====
-- The reference counts: no purge touches a freed topic, or frees one that is in use.
use n2kafka.Prelude.{
  ℕ, ◌+◌, ◌-◌, ◌^◌, ◌%◌, ◌≤◌, ◌<◌, ◌≡◌, refl, true, false, Option, none, some, List, [], ◌∷◌, ◌++◌,
  arith, ◌==◌, if◌then◌else◌, Bytes, ==_iff, Bool-cases, Option-cases, inl, inr,
}
use n2kafka.Prelude.Run.{Run, ret}
use n2kafka.Util.TopicDb.{
  Topic, Heap, put, Hashdyn, TopicsDb, without, topic_decref, node_older_than,
  purge_topics_older_than, touch_topic, topic_live_time_s, has_name, topics_db_get_topic,
}

-- How often the list holds a topic.
abbrev pub times : ℕ → List ℕ → ℕ
times a [] = 0
times a (x ∷ xs) = (if x == a then 1 else 0) + times a xs

-- What a place of the heap holds has one reference for each use and one for each place in the list; it is
-- free exactly if it has none.
abbrev pub IsCounted : Option Topic → ℕ → Type 0
IsCounted none n = n ≡ 0
IsCounted (some t) n = (t.refcnt ≡ n) × (0 < n) × (n < 2 ^ 64)

-- Each topic, where `uses` counts the callers that hold it.
pub record Counted {T : Type 0} (uses : ℕ → ℕ) (db : TopicsDb T) : Type 0 where
  pub each : (a : ℕ) → IsCounted (db.heap a) (uses a + times a db.lru)

times-without_same : (a : ℕ) (xs : List ℕ) → times a (without xs a) ≡ times a xs - 1
times-without_same a [] = refl
times-without_same a (x ∷ xs) = ground (arith, times-without_same a xs)

times-without_other :
    (a b : ℕ) (xs : List ℕ) → (b == a) ≡ false → times b (without xs a) ≡ times b xs
times-without_other a b [] h = refl
times-without_other a b (x ∷ xs) h = ground (arith, times-without_other a b xs)

-- What topic_decref does to a counted place that has a reference.
record Dropped (a n : ℕ) (heap : Heap) (r : Run Heap) : Type 0 where
  heap' : Heap
  returns : r ≡ ret heap'
  counted : IsCounted (heap' a) (n - 1)
  others : (b : ℕ) → (b == a) ≡ false → heap' b ≡ heap b

put_other : (heap : Heap) (a b : ℕ) (t : Option Topic) → (b == a) ≡ false → put heap a t b ≡ heap b
put_other heap a b t h = rw h refl

topic_decref-Dropped :
    (a n : ℕ) (heap : Heap) → 0 < n → IsCounted (heap a) n → Dropped a n heap (topic_decref a heap)
unfolding topic_decref
topic_decref-Dropped a n heap pos c = go (heap a) refl c
  where
    go : (o : Option Topic) → heap a ≡ o → IsCounted o n → Dropped a n heap (topic_decref a heap)
    go none e c' = absurd (omega (arith, c'))
    go (some t) e (same, some_refs, small) =
        let less : (t.refcnt + 2 ^ 64 - 1) % 2 ^ 64 ≡ n - 1 = omega (arith, same) in
        let here : (a == a) ≡ true = ground arith in
        elim (Bool-cases (n - 1 == 0)) [
          | inl last ↦ record {
            heap' = put heap a none;
            returns = rw (topic_decref, e, less, last) refl;
            counted = rw here (ground (arith, last));
            others = λ b h. put_other heap a b none h;
          }
          | inr more ↦ record {
            heap' = put heap a (some (record t { refcnt = n - 1 }));
            returns = rw (topic_decref, e, less, more) refl;
            counted = rw here (refl, ground (arith, more), omega arith);
            others = λ b h. put_other heap a b (some (record t { refcnt = n - 1 })) h;
          }
        ]

times_head : (a : ℕ) (nodes : List ℕ) → times a (a ∷ nodes) ≡ 1 + times a nodes
times_head a nodes = ground arith

times_tail : (a b : ℕ) (nodes : List ℕ) → times b nodes ≤ times b (a ∷ nodes)
times_tail a b nodes = ground arith

times-without_le : (a b : ℕ) (xs : List ℕ) → times b (without xs a) ≤ times b xs
times-without_le a b xs = elim (Bool-cases (b == a)) [
  | inl same ↦
      (let e : b ≡ a = (==_iff b a).0 same in rw e (omega (arith, times-without_same a xs)))
  | inr other ↦ omega (arith, times-without_other a b xs other)
]

module _ {T : Type 0} (table : Hashdyn T) (hash : Bytes → ℕ) where
  -- A purge that came to an end, with the same uses.
  pub record Purged (uses : ℕ → ℕ) (lru : List ℕ) (r : Run (TopicsDb T)) : Type 0 where
    pub db : TopicsDb T
    pub returns : r ≡ ret db
    pub counted : Counted uses db
    pub shorter : (a : ℕ) → times a db.lru ≤ times a lru

  drop-Counted :
      (uses : ℕ → ℕ) (a : ℕ) (db : TopicsDb T)
      (d : Dropped a (uses a + times a db.lru) db.heap (topic_decref a db.heap))
      → 0 < times a db.lru
      → Counted uses db
      → Counted uses (record {
        hashtable = table.remove_existing db.hashtable a;
        lru = without db.lru a;
        heap = d.heap';
      })
  drop-Counted uses a db d listed c = record { each = each }
    where
      each : (b : ℕ) → IsCounted (d.heap' b) (uses b + times b (without db.lru a))
      each b = elim (Bool-cases (b == a)) [
        | inl same ↦
            let e : b ≡ a = (==_iff b a).0 same in
            let n : uses a + times a (without db.lru a) ≡ uses a + times a db.lru - 1 =
              omega (arith, times-without_same a db.lru) in
            rw (e, n) d.counted
        | inr other ↦ rw (d.others b other, times-without_other a b db.lru other) (c.each b)
      ]

  fewer-without :
      (a b : ℕ) (nodes lru : List ℕ)
      → ((b : ℕ) → times b (a ∷ nodes) ≤ times b lru)
      → times b nodes ≤ times b (without lru a)
  fewer-without a b nodes lru h = elim (Bool-cases (b == a)) [
    | inl same ↦
        let e : b ≡ a = (==_iff b a).0 same in
        rw e (omega (arith, h a, times_head a nodes, times-without_same a lru))
    | inr other ↦ omega (arith, h b, times_tail a b nodes, times-without_other a b lru other)
  ]

  longer :
      (uses : ℕ → ℕ) (short long : List ℕ) (r : Run (TopicsDb T))
      → ((a : ℕ) → times a short ≤ times a long)
      → Purged uses short r
      → Purged uses long r
  longer uses short long r h p = record {
    db = p.db;
    returns = p.returns;
    counted = p.counted;
    shorter = λ a. omega (arith, h a, p.shorter a);
  }

  -- On counted topics, from any place of the list on, a purge ends without touching a freed topic, and the
  -- topics are counted as before: one that a caller holds is not freed.
  pub purge_topics_older_than-Purged :
      (nodes : List ℕ) (age : ℕ) (uses : ℕ → ℕ) (db : TopicsDb T)
      → Counted uses db
      → ((a : ℕ) → times a nodes ≤ times a db.lru)
      → Purged uses db.lru (purge_topics_older_than table hash age nodes db)
  unfolding purge_topics_older_than
  purge_topics_older_than-Purged [] age uses db c h = record {
    db = db;
    returns = refl;
    counted = c;
    shorter = λ a. omega arith;
  }
  purge_topics_older_than-Purged (a ∷ nodes) age uses db c h =
      let listed : 0 < times a db.lru = omega (arith, h a, times_head a nodes) in
      let d =
        topic_decref-Dropped a (uses a + times a db.lru) db.heap (omega (arith, listed))
          (c.each a) in
      elim (Option-cases (db.heap a)) [
        | inl gone ↦ absurd (omega (arith, rw gone at (c.each a), listed))
        | inr (t, held) ↦ elim (Bool-cases (node_older_than t age)) [
          | inl old ↦
              rw (purge_topics_older_than, held, old, d.returns)
                (longer uses (without db.lru a) db.lru _ (λ b. times-without_le a b db.lru)
                  (purge_topics_older_than-Purged nodes age uses _
                    (drop-Counted uses a db d listed c) (λ b. fewer-without a b nodes db.lru h)))
          | inr young ↦
              rw (purge_topics_older_than, held, young)
                (purge_topics_older_than-Purged nodes age uses db c
                  (λ b. omega (arith, h b, times_tail a b nodes)))
        ]
      ]

  -- One use of `a` more.
  abbrev pub one_more : (ℕ → ℕ) → ℕ → ℕ → ℕ
  one_more uses a b = if b == a then uses b + 1 else uses b

  -- Taken off the list, the topic is held by the call.
  unlisted-Counted :
      (uses : ℕ → ℕ) (a : ℕ) (db : TopicsDb T)
      → 0 < times a db.lru
      → Counted uses db
      → Counted (one_more uses a) (record db { lru = without db.lru a })
  unlisted-Counted uses a db listed c = record { each = each }
    where
      each : (b : ℕ) → IsCounted (db.heap b) (one_more uses a b + times b (without db.lru a))
      each b = elim (Bool-cases (b == a)) [
        | inl same ↦
            let e : b ≡ a = (==_iff b a).0 same in
            let here : (a == a) ≡ true = ground arith in
            let n : uses a + 1 + times a (without db.lru a) ≡ uses a + times a db.lru =
              omega (arith, times-without_same a db.lru, listed) in
            rw (e, here, n) (c.each a)
        | inr other ↦ rw (other, times-without_other a b db.lru other) (c.each b)
      ]

  times-snoc :
      (a b : ℕ) (xs : List ℕ) → times b (xs ++ a ∷ []) ≡ times b xs + (if a == b then 1 else 0)
  times-snoc a b [] = omega arith
  times-snoc a b (x ∷ xs) = omega (arith, times-snoc a b xs)

  -- The end of a call: a topic that comes back to the caller, and to the list.
  pub record Given (uses : ℕ → ℕ) (a now : ℕ) (r : Run (TopicsDb T × Option ℕ)) : Type 0 where
    pub db : TopicsDb T
    pub topic : Topic
    pub returns : r ≡ ret (db, some a)
    pub found : db.heap a ≡ some topic
    pub touched : topic.timestamp ≡ now
    pub counted : Counted (one_more uses a) db

  relisted-Counted :
      (uses : ℕ → ℕ) (a n now : ℕ) (db : TopicsDb T) (t : Topic)
      → (t.refcnt ≡ uses a + 1 + times a db.lru)
      → uses a + times a db.lru + 2 < 2 ^ 64
      → Counted (one_more uses a) db
      → Counted (one_more uses a) (record db {
        lru = db.lru ++ a ∷ [];
        heap = put db.heap a (some (record t { timestamp = now; refcnt = t.refcnt + 1 }));
      })
  relisted-Counted uses a n now db t same small c = record { each = each }
    where
      each :
          (b : ℕ)
          → IsCounted
              (put db.heap a (some (record t { timestamp = now; refcnt = t.refcnt + 1 })) b)
              (one_more uses a b + times b (db.lru ++ a ∷ []))
      each b = elim (Bool-cases (b == a)) [
        | inl is ↦
            let e : b ≡ a = (==_iff b a).0 is in
            let here : (a == a) ≡ true = ground arith in
            let n : times a (db.lru ++ a ∷ []) ≡ times a db.lru + 1 =
              rw (times-snoc a a db.lru, here) refl in
            rw (e, here, n) (omega (arith, same), omega arith, omega arith)
        | inr other ↦
            let there : (a == b) ≡ false = ground (arith, other) in
            let n : times b (db.lru ++ a ∷ []) ≡ times b db.lru =
              rw (times-snoc a b db.lru, there) (omega arith) in
            rw (other, n) (rw other at (c.each b))
      ]

  touch-from :
      (uses : ℕ → ℕ) (a now : ℕ) (db : TopicsDb T)
      → uses a + times a db.lru + 2 < 2 ^ 64
      → Purged
          (one_more uses a)
          db.lru
          (purge_topics_older_than table hash (now - topic_live_time_s) db.lru db)
      → Given uses a now (touch_topic table hash db a now)
  unfolding touch_topic
  touch-from uses a now db small p =
      let here : (a == a) ≡ true = ground arith in
      let held = p.counted.each a in
      elim (Option-cases (p.db.heap a)) [
        | inl gone ↦ absurd (omega (arith, rw (gone, here) at held))
        | inr (t, found) ↦
            let counts : (t.refcnt ≡ uses a + 1 + times a p.db.lru)
                × (0 < uses a + 1 + times a p.db.lru)
                × (uses a + 1 + times a p.db.lru < 2 ^ 64) =
              rw (found, here) at held in
            let more : (t.refcnt + 1) % 2 ^ 64 ≡ t.refcnt + 1 =
              omega (arith, counts.0, small, p.shorter a) in
            record {
              db = record p.db {
                lru = p.db.lru ++ a ∷ [];
                heap = put p.db.heap a (some (record t { timestamp = now; refcnt = t.refcnt + 1 }));
              };
              topic = record t { timestamp = now; refcnt = t.refcnt + 1 };
              returns = rw (touch_topic, p.returns, found, more) refl;
              found = rw here refl;
              touched = refl;
              counted =
                  relisted-Counted uses a 0 now p.db t counts.0 (omega (arith, small, p.shorter a))
                    p.counted;
            }
      ]

  -- A topic that the table finds on the list of a counted database: the call returns it, with the time `now`, the
  -- purge that it starts frees neither it nor a topic in use, and the counts hold with one use more of it.
  pub topics_db_get_topic-Given :
      (other : TopicsDb T → TopicsDb T) (fresh : Option ℕ) (uses : ℕ → ℕ) (a now : ℕ)
      (db : TopicsDb T) (topic : Bytes)
      → table.search db.hashtable (has_name db.heap topic) (hash topic) ≡ some a
      → 0 < times a db.lru
      → uses a + times a db.lru + 2 < 2 ^ 64
      → Counted uses db
      → Given uses a now (topics_db_get_topic table hash other fresh db topic now)
  unfolding topics_db_get_topic
  topics_db_get_topic-Given other fresh uses a now db topic search listed small c =
      let db1 : TopicsDb T = record db { lru = without db.lru a } in
      let p =
        purge_topics_older_than-Purged db1.lru (now - topic_live_time_s) (one_more uses a) db1
          (unlisted-Counted uses a db listed c) (λ b. omega arith) in
      rw (topics_db_get_topic, search)
        (touch-from uses a now db1 (omega (arith, small, times-without_same a db.lru)) p)
