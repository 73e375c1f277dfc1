-- ===== src/Util/TopicDb.antt =====
-- src/util/topic_database.c: the topics in use, found by name, and dropped when unused for long.
--
-- A topic is an address; the heap says what stands there, and a freed topic stands nowhere. tommyds's
-- hash table is the record Hashdyn, whose nodes are these addresses, and its list is `lru`. While the
-- lock is not held other threads may change the database: that is the argument `other`. Times are seconds
-- from 0 on, where a subtraction that stops at 0 makes no topic older than the code does.
pub mod Refs
mod Tests
use n2kafka.Prelude.{
  ℕ, zero, suc, ◌+◌, ◌-◌, ◌*◌, ◌^◌, ◌%◌, Bool, true, false, Option, none, some, List, [], ◌∷◌, ◌++◌,
  ltb, ◌==◌, if◌then◌else◌, Bytes, equal,
}
use n2kafka.Prelude.Run.{Run, ret, fault, ◌>>=◌}

-- struct topic_s
pub record Topic : Type 0 where
  pub name : Bytes
  pub refcnt : ℕ
  pub timestamp : ℕ

abbrev pub Heap : Type 0
Heap = ℕ → Option Topic

abbrev pub put : Heap → ℕ → Option Topic → Heap
put heap a t b = if b == a then t else heap b

-- What the code uses of tommy_hashdyn.
pub record Hashdyn (T : Type 0) : Type 0 where
  pub init : T
  pub insert : T → ℕ → ℕ → T
  pub search : T → (ℕ → Bool) → ℕ → Option ℕ
  pub remove_existing : T → ℕ → T

-- struct topics_db, and the memory of its topics.
pub record TopicsDb (T : Type 0) : Type 0 where
  pub hashtable : T
  pub lru : List ℕ
  pub heap : Heap

abbrev pub topic_live_time_s : ℕ
topic_live_time_s = 15 * 60

-- tommy_list_remove_existing
abbrev pub without : List ℕ → ℕ → List ℕ
without [] a = []
without (x ∷ xs) a = let rest = without xs a in if x == a then xs else x ∷ rest

-- topic_decref, on 64 bits; at 0 the topic is freed.
pub topic_decref : ℕ → Heap → Run Heap
topic_decref a heap = elim (heap a) [
  | none ↦ fault
  | some t ↦
      let refcnt = (t.refcnt + 2 ^ 64 - 1) % 2 ^ 64 in
      ret (put heap a (if refcnt == 0 then none else some (record t { refcnt = refcnt })))
]

-- void_topics_cmp
abbrev pub has_name : Heap → Bytes → ℕ → Bool
has_name heap topic_name a = elim (heap a) [ none ↦ false | some t ↦ equal t.name topic_name ]

pub node_older_than : Topic → ℕ → Bool
node_older_than t age = ltb t.timestamp age

module _ {T : Type 0} (table : Hashdyn T) (hash : Bytes → ℕ) where
  -- purge_topics_older_than, on the nodes of the list that are left to visit.
  pub purge_topics_older_than : ℕ → List ℕ → TopicsDb T → Run (TopicsDb T)
  unfolding topic_decref node_older_than
  purge_topics_older_than age [] db = ret db
  purge_topics_older_than age (a ∷ nodes) db =
      let next = λ (d : TopicsDb T). purge_topics_older_than age nodes d in
      elim (db.heap a) [
        | none ↦ fault
        | some t ↦
            if node_older_than t age
            then (do
              heap ← topic_decref a db.heap
              next (record {
                hashtable = table.remove_existing db.hashtable a;
                lru = without db.lru a;
                heap = heap;
              }))
            else next db
      ]

  -- From `rkt_found` on.
  pub touch_topic : TopicsDb T → ℕ → ℕ → Run (TopicsDb T × Option ℕ)
  unfolding purge_topics_older_than
  touch_topic db a now = do
    purged ← purge_topics_older_than (now - topic_live_time_s) db.lru db
    elim (purged.heap a) [
      | none ↦ fault
      | some t ↦ ret (
        record purged {
          lru = purged.lru ++ a ∷ [];
          heap =
              put purged.heap a
                (some (record t { timestamp = now; refcnt = (t.refcnt + 1) % 2 ^ 64 }));
        },
        some a,
      )
    ]

  -- topics_db_get_topic. `fresh` is where new_topic_s finds memory, if it and librdkafka have what it needs.
  pub topics_db_get_topic :
      (TopicsDb T → TopicsDb T) → Option ℕ → TopicsDb T → Bytes → ℕ → Run (TopicsDb T × Option ℕ)
  unfolding touch_topic
  topics_db_get_topic other fresh db topic now =
      elim (table.search db.hashtable (has_name db.heap topic) (hash topic)) [
        | some found ↦ touch_topic (record db { lru = without db.lru found }) found now
        | none ↦ elim fresh [
          | none ↦ ret (db, none)
          | some new ↦
              let made = other (record db {
                heap = put db.heap new (some (record { name = topic; refcnt = 1; timestamp = 0 }));
              }) in
              elim (table.search made.hashtable (has_name made.heap topic) (hash topic)) [
                | some aux ↦ (do
                  heap ← topic_decref new made.heap
                  touch_topic (record made { lru = without made.lru aux; heap = heap }) aux now)
                | none ↦
                    touch_topic
                      (record made { hashtable = table.insert made.hashtable new (hash topic) }) new
                      now
              ]
        ]
      ]
