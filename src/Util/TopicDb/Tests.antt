-- ===== src/Util/TopicDb/Tests.antt =====
-- A database with one old topic that a caller still holds, and the theorem at it.
use n2kafka.Prelude.{
  ℕ, ◌+◌, ◌≡◌, refl, Bool, false, Option, none, some, List, [], ◌∷◌, arith, codes, Bytes, equal,
  inl, inr, Bool-cases, ==_iff, ◌==◌, if◌then◌else◌,
}
use n2kafka.Prelude.Run.{ret}
use n2kafka.Util.TopicDb.{
  Topic, Heap, put, Hashdyn, TopicsDb, has_name, purge_topics_older_than, touch_topic,
  topics_db_get_topic,
}
use n2kafka.Util.TopicDb.Refs.{
  IsCounted, times, Counted, Purged, purge_topics_older_than-Purged, Given,
  topics_db_get_topic-Given,
}

-- A table that is a list of nodes, searched from its start.
abbrev find : List ℕ → (ℕ → Bool) → ℕ → Option ℕ
find [] p h = none
find (x ∷ xs) p h = let rest = find xs p h in if p x then some x else rest

abbrev drop_node : List ℕ → ℕ → List ℕ
drop_node [] a = []
drop_node (x ∷ xs) a = let rest = drop_node xs a in if x == a then xs else x ∷ rest

abbrev list_table : Hashdyn (List ℕ)
list_table = record {
  init = [];
  insert = λ t a h. a ∷ t;
  search = find;
  remove_existing = drop_node;
}

abbrev no_hash : Bytes → ℕ
no_hash name = 0

abbrev flow : Topic
flow = record { name = codes "flow"; refcnt = 2; timestamp = 5 }

abbrev one_topic : Heap
one_topic a = if a == 7 then some flow else none

abbrev test_db : TopicsDb (List ℕ)
test_db = record { hashtable = 7 ∷ []; lru = 7 ∷ []; heap = one_topic }

abbrev one_use : ℕ → ℕ
one_use a = if a == 7 then 1 else 0

test_db-Counted : Counted one_use test_db
test_db-Counted = record { each = each }
  where
    each : (a : ℕ) → IsCounted (test_db.heap a) (one_use a + times a test_db.lru)
    each a = elim (Bool-cases (a == 7)) [
      | inl here ↦ rw ((==_iff a 7).0 here) (refl, omega arith, omega arith)
      | inr there ↦ (let other : (7 == a) ≡ false = ground (arith, there) in rw (there, other) refl)
    ]

-- A topic in the database is found: one use more, and its time is now.
found_again :
    topics_db_get_topic list_table no_hash (λ db. db) none test_db (codes "flow") 9
    ≡ ret (
      record test_db { heap = put one_topic 7 (some (record flow { refcnt = 3; timestamp = 9 })) },
      some 7,
    )
unfolding topics_db_get_topic touch_topic purge_topics_older_than equal
found_again = refl

purge_topics_older_than-Purged_example :
    Purged list_table no_hash one_use
      (7 ∷ [])
      (purge_topics_older_than list_table no_hash 9 (7 ∷ []) test_db)
purge_topics_older_than-Purged_example =
    purge_topics_older_than-Purged list_table no_hash (7 ∷ []) 9 one_use test_db test_db-Counted
      (λ a. omega arith)

search_finds :
    find test_db.hashtable (has_name test_db.heap (codes "flow")) (no_hash (codes "flow")) ≡ some 7
unfolding equal
search_finds = refl

topics_db_get_topic-Given_example :
    Given list_table no_hash one_use 7 9
      (topics_db_get_topic list_table no_hash (λ db. db) none test_db (codes "flow") 9)
topics_db_get_topic-Given_example =
    topics_db_get_topic-Given list_table no_hash (λ db. db) none one_use 7 9 test_db (codes "flow")
      search_finds (omega arith) (omega arith) test_db-Counted
