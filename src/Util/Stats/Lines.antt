-- ===== src/Util/Stats/Lines.antt =====
-- The logged lines of the statistics: joined they are the text, where its commas stand close enough, and
-- the loop does not end where they do not.
use native.Mathlib.Nat.{zero-add, suc-add}
use n2kafka.Prelude.{
  ℕ, zero, suc, ◌+◌, ◌-◌, ◌≤◌, ◌<◌, ◌≡◌, refl, sym, ◌∙◌, ap, inl, inr, true, false, Option, none,
  some, List, [], ◌∷◌, ◌++◌, append_assoc, append-nil, ltb, ◌==◌, length, drop, take-append-drop,
  length-drop, Bytes, arith, Option-cases, Bool-cases,
}
use n2kafka.Prelude.Run.{Run, ret, running}
use n2kafka.Util.Stats.{
  find_comma, memchr_comma, line_text, advance, log_lines, rdkafka_stats_rdlog_cb,
}

abbrev pub joined : List Bytes → Bytes
joined [] = []
joined (line ∷ lines) = line ++ joined lines

find_comma-bounds :
    (at n : ℕ) (text : Bytes) → find_comma at text ≡ some n → (at ≤ n) × (n < at + length text)
unfolding find_comma
find_comma-bounds at n [] h = absurd (cc h)
find_comma-bounds at n (c ∷ cs) h = elim (Bool-cases (c == b',')) [
  | inl here ↦
      let same : some at ≡ some n = rw here at h in
      let e : at ≡ n = cc same in (omega arith, omega arith)
  | inr later ↦
      let (low, high) = find_comma-bounds (at + 1) n cs (rw later at h) in
      (omega arith, omega arith)
]

drop_nil : (n : ℕ) → drop {A = ℕ} n [] ≡ []
drop_nil zero = refl
drop_nil (suc n) = refl

drop-drop : (a b : ℕ) (xs : Bytes) → drop b (drop a xs) ≡ drop (a + b) xs
drop-drop zero b xs = rw (zero-add b) refl
drop-drop (suc a) b [] = rw (suc-add a b) (drop_nil b)
drop-drop (suc a) b (x ∷ xs) = rw (suc-add a b) (drop-drop a b xs)

line_text-drop : (json : Bytes) (a b : ℕ) → a ≤ b → line_text json a b ++ drop b json ≡ drop a json
line_text-drop json a b h =
    let far : a + (b - a) ≡ b = omega arith in
    ap (λ (xs : Bytes). line_text json a b ++ xs)
      (ap (λ (n : ℕ). drop n json) (sym far) ∙ sym (drop-drop a (b - a) json))
    ∙ take-append-drop (b - a) (drop a json)

-- Wherever there is a comma from some place on, one stands in the next 1024 bytes.
pub IsClose : Bytes → Type 0
IsClose json = (from n : ℕ) → memchr_comma json from ≡ some n → n < from + 1024

comma-bounds :
    (json : Bytes) (from n : ℕ) → memchr_comma json from ≡ some n → (from ≤ n) × (n < length json)
comma-bounds json from n h =
    let (low, high) = find_comma-bounds from n (drop from json) h in
    (low, ground (arith, length-drop from json, h))

-- What the inner loop comes to behind a comma at `n`.
record Advanced (json : Bytes) (cursor n : ℕ) (r : Run (ℕ × Option ℕ)) : Type 0 where
  comma : ℕ
  next : Option ℕ
  returns : r ≡ ret (comma, next)
  later : n ≤ comma
  far : (m : ℕ) → next ≡ some m → (memchr_comma json (comma + 1) ≡ some m) × (cursor + 1024 ≤ m)

advance-Advanced :
    (fuel : ℕ) (json : Bytes) (cursor n : ℕ)
    → cursor ≤ n
    → n ≤ length json
    → length json < n + fuel
    → Advanced json cursor n (advance fuel json cursor n (memchr_comma json (n + 1)))
unfolding advance
advance-Advanced zero json cursor n low hn hf = absurd (omega arith)
advance-Advanced (suc fuel) json cursor n low hn hf =
    elim (Option-cases (memchr_comma json (n + 1))) [
      | inl last ↦ record {
        comma = n;
        next = none;
        returns = rw (advance, last) refl;
        later = omega arith;
        far = λ m e. absurd (cc e);
      }
      | inr (m, found) ↦
          let (after, within) = comma-bounds json (n + 1) m found in
          elim (Bool-cases (ltb (m - cursor) 1024)) [
            | inl near ↦
                let rest =
                  advance-Advanced fuel json cursor m (omega arith) (omega arith) (omega arith) in
                let inside : ltb (length json) (m + 1) ≡ false = ground (arith, within) in
                record {
                  comma = rest.comma;
                  next = rest.next;
                  returns = rw (advance, found, near, inside) rest.returns;
                  later = (let l = rest.later in omega arith);
                  far = rest.far;
                }
            | inr out ↦ record {
              comma = n;
              next = some m;
              returns = rw (advance, found, out) refl;
              later = omega arith;
              far = λ k e.
                  (let same : m ≡ k = cc e in (found ∙ ap some same, ground (arith, out, same)));
            }
          ]
    ]

-- The lines logged from `cursor` on, with what is left.
record Logged (json : Bytes) (cursor : ℕ) (r : Run (List Bytes × ℕ)) : Type 0 where
  lines : List Bytes
  end : ℕ
  returns : r ≡ ret (lines, end)
  whole : joined lines ++ drop end json ≡ drop cursor json

module _ (json : Bytes) (close : IsClose json) (inner : ℕ) (enough : length json < inner) where
  log_lines-Logged :
      (fuel cursor comma n : ℕ)
      → cursor ≤ n
      → n < cursor + 1024
      → n < length json
      → length json < cursor + fuel
      → Logged json cursor (log_lines fuel (suc inner) json cursor comma (some n))
  unfolding log_lines advance IsClose
  log_lines-Logged zero cursor comma n low near hn hf = absurd (omega arith)
  log_lines-Logged (suc fuel) cursor comma n low near hn hf =
      let step = advance-Advanced inner json cursor n low (omega arith) (omega arith) in
      let first : ltb (n - cursor) 1024 ≡ true = ground arith in
      let inside : ltb (length json) (n + 1) ≡ false = ground arith in
      elim (Option-cases step.next) [
        | inl over ↦ record {
          lines = [];
          end = cursor;
          returns = rw (log_lines, advance, first, inside, step.returns, over) refl;
          whole = refl;
        }
        | inr (m, next) ↦
            let (found, out) = step.far m next in
            let later = step.later in
            let (after, within) = comma-bounds json (step.comma + 1) m found in
            let rest =
              log_lines-Logged fuel (step.comma + 1) step.comma m (omega arith)
                (close (step.comma + 1) m found) (omega arith) (omega arith) in
            let apart : (cursor == m) ≡ false = ground arith in
            record {
              lines = line_text json cursor (step.comma + 1) ∷ rest.lines;
              end = rest.end;
              returns =
                  rw (log_lines, advance, first, inside, step.returns, next, apart, rest.returns)
                    refl;
              whole =
                  (simp append_assoc)
                  ∙ ap (λ (xs : Bytes). line_text json cursor (step.comma + 1) ++ xs) rest.whole
                  ∙ line_text-drop json cursor (step.comma + 1) (omega arith);
            }
      ]

joined-last :
    (lines : List Bytes) (text : Bytes) → joined (lines ++ text ∷ []) ≡ joined lines ++ text
joined-last [] text = append-nil text
joined-last (line ∷ lines) text = rw (joined-last lines text) (simp append_assoc)

-- A text with a byte in which, wherever there is a comma from some place on, one stands in the next 1024 bytes: with fuel
-- for two rounds more than its bytes the callback ends, and the lines logged, joined, are the text.
pub rdkafka_stats_rdlog_cb-joined :
    (json : Bytes)
    → 0 < length json
    → IsClose json
    → (lines : List Bytes) × (rdkafka_stats_rdlog_cb (length json + 2) json ≡ ret lines)
      × (joined lines ≡ json)
unfolding rdkafka_stats_rdlog_cb
rdkafka_stats_rdlog_cb-joined json real close =
    let fuel : length json + 2 ≡ suc (length json + 1) = omega arith in
    let logged =
      log_lines-Logged json close (length json + 1) (omega arith) (suc (length json + 1)) 0 0 0
        (omega arith) (omega arith) (omega arith) (omega arith) in
    (
      logged.lines ++ drop logged.end json ∷ [],
      rw (fuel, logged.returns) refl,
      joined-last logged.lines (drop logged.end json) ∙ logged.whole,
    )

-- From a cursor behind the last comma, with the next one 1024 bytes away or more, each round logs an empty line.
hangs :
    (fuel inner : ℕ) (json : Bytes) (comma m : ℕ)
    → comma + 1 + 1024 ≤ m
    → log_lines fuel inner json (comma + 1) comma (some m) ≡ running
unfolding log_lines advance
hangs zero inner json comma m far = refl
hangs (suc fuel) zero json comma m far = refl
hangs (suc fuel) (suc inner) json comma m far =
    let out : ltb (m - (comma + 1)) 1024 ≡ false = ground arith in
    let apart : (comma + 1 == m) ≡ false = ground arith in
    rw (log_lines, advance, out, apart, hangs fuel (suc inner) json comma m far) refl

start_hangs :
    (fuel inner : ℕ) (json : Bytes) (m : ℕ)
    → memchr_comma json 1 ≡ some m
    → 1025 ≤ m
    → log_lines (suc fuel) inner json 0 0 (some 0) ≡ running
unfolding log_lines advance
start_hangs fuel zero json m found far = refl
start_hangs fuel (suc zero) json m found far =
    let (low, high) = comma-bounds json 1 m found in
    let inside : ltb (length json) (0 + 1) ≡ false = ground (arith, high, far) in
    rw (log_lines, advance, inside) refl
start_hangs fuel (suc (suc inner)) json m found far =
    let (low, high) = comma-bounds json 1 m found in
    let inside : ltb (length json) (0 + 1) ≡ false = ground (arith, high, far) in
    let out : ltb (m - 0) 1024 ≡ false = ground arith in
    let apart : (0 == m) ≡ false = ground arith in
    rw
      (
        log_lines,
        advance,
        inside,
        found,
        out,
        apart,
        hangs fuel (suc (suc inner)) json 0 m (omega arith),
      )
      refl

-- Where the first comma behind the first byte stands at 1025 or later, the callback never ends.
pub rdkafka_stats_rdlog_cb-hangs :
    (fuel : ℕ) (json : Bytes) (m : ℕ)
    → memchr_comma json 1 ≡ some m
    → 1025 ≤ m
    → rdkafka_stats_rdlog_cb fuel json ≡ running
unfolding rdkafka_stats_rdlog_cb log_lines
rdkafka_stats_rdlog_cb-hangs zero json m found far = refl
rdkafka_stats_rdlog_cb-hangs (suc fuel) json m found far =
    rw (start_hangs fuel (suc fuel) json m found far) refl

-- In a text of at most 1024 bytes the commas are close.
pub short-IsClose : (json : Bytes) → length json ≤ 1024 → IsClose json
unfolding IsClose
short-IsClose json h from n found = let (low, high) = comma-bounds json from n found in omega arith
