-- ===== src/Util/Stats/Tests.antt =====
-- The statistics' theorems at concrete texts.
use n2kafka.Prelude.{ℕ, zero, suc, ◌+◌, ◌≡◌, List, [], ◌∷◌, Bytes, codes, arith, length}
use n2kafka.Prelude.Run.{ret}
use n2kafka.Util.Stats.{rdkafka_stats_rdlog_cb}
use n2kafka.Util.Stats.Lines.{joined, IsClose, short-IsClose, rdkafka_stats_rdlog_cb-joined}

abbrev small : Bytes
small = codes "{\"a\":1,\"b\":2}"

small-IsClose : IsClose small
small-IsClose = short-IsClose small (omega arith)

rdkafka_stats_rdlog_cb-joined_example :
    (lines : List Bytes) × (rdkafka_stats_rdlog_cb (length small + 2) small ≡ ret lines)
    × (joined lines ≡ small)
rdkafka_stats_rdlog_cb-joined_example =
    rdkafka_stats_rdlog_cb-joined small (omega arith) small-IsClose

-- Some bytes without a comma, then a comma.
abbrev padded : ℕ → Bytes
padded zero = b',' ∷ []
padded (suc n) = b'a' ∷ padded n
