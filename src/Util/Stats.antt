-- ===== src/Util/Stats.antt =====
-- src/util/kafka.c: librdkafka's statistics, logged in lines or sent to a topic, with the configured text
-- added to their object.
--
-- Pointers into the JSON text are offsets. `produce` is rd_kafka_produce to the topic of the statistics.
pub mod Lines
pub mod Enrich
mod Tests
use n2kafka.Prelude.{
  ℕ, zero, suc, ◌+◌, ◌-◌, Bool, true, false, not, ◌&&◌, Option, none, some, List, [], ◌∷◌, ◌++◌,
  ltb, ◌==◌, if◌then◌else◌, length, take, drop, Bytes,
}
use n2kafka.Prelude.Int.{ℤ, is_zero}
use n2kafka.Prelude.Run.{Run, ret, fault, running, ◌>>=◌}

-- memchr(text, ',', length) for the text at offset `at`.
unfoldable pub find_comma : ℕ → Bytes → Option ℕ
find_comma at [] = none
find_comma at (c ∷ cs) = let rest = find_comma (at + 1) cs in if c == b',' then some at else rest

abbrev pub memchr_comma : Bytes → ℕ → Option ℕ
memchr_comma json from = find_comma from (drop from json)

abbrev pub line_size : ℕ
line_size = 1024

abbrev pub line_text : Bytes → ℕ → ℕ → Bytes
line_text json from to = take (to - from) (drop from json)

-- The inner loop: the last comma of the line, and the next one. Where `json_len - processed` would wrap, memchr
-- reads past the text.
unfoldable pub advance : ℕ → Bytes → ℕ → ℕ → Option ℕ → Run (ℕ × Option ℕ)
advance zero json cursor comma next_comma = running
advance (suc fuel) json cursor comma none = ret (comma, none)
advance (suc fuel) json cursor comma (some next_comma) =
    let again = advance fuel json cursor next_comma (memchr_comma json (next_comma + 1)) in
    if ltb (next_comma - cursor) line_size
    then (if ltb (length json) (next_comma + 1) then fault else again)
    else ret (comma, some next_comma)

-- The outer loop: the lines logged in it, and the cursor behind them.
unfoldable pub log_lines : ℕ → ℕ → Bytes → ℕ → ℕ → Option ℕ → Run (List Bytes × ℕ)
log_lines zero inner json cursor comma next_comma = running
log_lines (suc fuel) inner json cursor comma none = ret ([], cursor)
log_lines (suc fuel) inner json cursor comma (some n) =
    advance inner json cursor comma (some n) >>= λ (comma', next_comma). elim next_comma [
      | none ↦ ret ([], cursor)
      | some m ↦
          if cursor == m
          then ret ([], cursor)
          else (log_lines fuel inner json (comma' + 1) comma' (some m) >>= λ (lines, end).
              ret (line_text json cursor (comma' + 1) ∷ lines, end))
    ]

-- The lines between the title and the end; both loops on one fuel.
unfoldable pub rdkafka_stats_rdlog_cb : ℕ → Bytes → Run (List Bytes)
rdkafka_stats_rdlog_cb fuel json = log_lines fuel fuel json 0 0 (some 0) >>= λ (lines, cursor).
    ret (lines ++ drop cursor json ∷ [])

-- What librdkafka does with the text behind the callback.
pub data StatsRc : Type 0 where
  please_free_librdkafka i_will_free_librdkafka : StatsRc

-- `none` is a NULL topic. A message that is produced is freed by librdkafka.
unfoldable pub rdkafka_stats_topic_cb : Option (Bytes → ℤ) → Bytes → StatsRc
rdkafka_stats_topic_cb none json = please_free_librdkafka
rdkafka_stats_topic_cb (some produce) json =
    if is_zero (produce json) then i_will_free_librdkafka else please_free_librdkafka

-- Whether the text ends with a closing brace.
pub ends_with_brace : Bytes → Bool
ends_with_brace [] = false
ends_with_brace (c ∷ []) = c == b'}'
ends_with_brace (c ∷ d ∷ cs) = ends_with_brace (d ∷ cs)

-- rdkafka_stats_enrich_decorator_cb: the text and the length given to the callback behind it. `buf` is
-- the text to append with its '\0', which the closing brace replaces; `granted` is whether realloc succeeds.
unfoldable pub enriched : Bool → Bytes → Bytes → Run (Bytes × ℕ)
unfolding ends_with_brace
enriched granted buf json =
    let new_json_len = length json + length buf in
    if length buf == 0
    then fault
    else if not granted
    then ret (json, new_json_len)
    else if ends_with_brace json
    then ret
        (take (length json - 1) json ++ b',' ∷ take (length buf - 1) buf ++ b'}' ∷ [], new_json_len)
    else fault

is_please_free : StatsRc → Bool
is_please_free please_free_librdkafka = true
is_please_free i_will_free_librdkafka = false

-- `child` is the callback behind; the Boolean tells whether the text is freed here.
unfoldable pub rdkafka_stats_enrich_decorator_cb :
    Bool → Bytes → (Bytes → ℕ → StatsRc) → Bytes → Run (StatsRc × Bool)
unfolding is_please_free
rdkafka_stats_enrich_decorator_cb granted buf child json =
    enriched granted buf json >>= λ (text, size).
    let child_rc = child text size in
    if granted && is_please_free child_rc
    then ret (i_will_free_librdkafka, true)
    else ret (child_rc, false)
