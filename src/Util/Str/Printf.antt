-- ===== src/Util/Str/Printf.antt =====
-- string_printf: its loop measures the room by the size alone, which growing does not change.
use n2kafka.Prelude.{
  ℕ, zero, suc, ◌+◌, ◌-◌, ◌*◌, ◌≤◌, ◌<◌, ◌≡◌, ◌≢◌, refl, Bool, true, false, arith, length, [], ◌++◌,
  Bytes, Bool-cases, inl, inr, ltb, if◌then◌else◌, ◌==◌, length-zero, ap, ◌∙◌, le→ltb-false, lt→ltb,
  ltb→lt,
}
use n2kafka.Prelude.Int.{pos}
use n2kafka.Prelude.Run.{ret, fault, running}
use n2kafka.Util.Str.{
  Str, string_init, string_size, string_min_size, smax, size_add, next_pow2, string_allocated,
  string_grow, printf_loop, string_printf,
}
use n2kafka.Util.Str.Pow2.{
  max_size, next_pow2-bounds, next_pow2_mono, next_pow2_pos, next_pow2_min_size,
}
use n2kafka.Util.Str.Grow.{IsWf, Grown, enough, refused, moved, string_grow-Grown}

zero_size_add : (n : ℕ) → n ≤ max_size → size_add 0 n ≡ n
zero_size_add n h = omega arith

-- Growing keeps the content and never returns the present size, which the loop takes for a failure.
record Grows (s : Str) (g : Str × ℕ) : Type 0 where
  same : g.0.bytes ≡ s.bytes
  real : 0 < g.0.cap
  other : g.1 ≢ string_size s

abbrev pub Grants : (ℕ → Bool) → Type 0
Grants realloc = (n : ℕ) → realloc n ≡ true

Grown-Grows :
    (realloc : ℕ → Bool) (s : Str) (n : ℕ) (g : Str × ℕ)
    → Grants realloc
    → 0 < s.cap
    → 2 * string_size s ≤ n
    → n ≤ max_size
    → Grown realloc s n g
    → Grows s g
unfolding string_allocated
Grown-Grows realloc s n g grants real le hi (enough e fits) =
    let b = next_pow2-bounds n hi in
    rw e (record { same = refl; real = real; other = λ p. ground (arith, b, p) })
Grown-Grows realloc s n g grants real le hi (refused e lt no_room) =
    absurd (cc (grants (smax (next_pow2 n) string_min_size)))
Grown-Grows realloc s n g grants real le hi (moved e lt given) =
    let b = next_pow2-bounds n hi in
    rw e (record { same = refl; real = ground arith; other = λ p. ground (arith, b, p) })

same_room :
    (s t : Str)
    → s.bytes ≡ t.bytes
    → 0 < s.cap
    → 0 < t.cap
    → string_allocated s ≡ string_allocated t
unfolding string_allocated
same_room s t e p q =
    ground (arith, ap (λ (b : Bytes). length b) e, ap (λ (b : Bytes). next_pow2 (length b)) e)

module _ (realloc : ℕ → Bool) (grants : Grants realloc) (text : Bytes) where
  loop_hangs :
      (fuel : ℕ) (s : Str)
      → 0 < s.cap
      → 2 * string_size s + length text ≤ max_size
      → string_allocated s ≤ string_size s + length text + 1
      → printf_loop realloc fuel (string_size s) s text ≡ running
  unfolding printf_loop
  loop_hangs zero s real hi full = refl
  loop_hangs (suc fuel) s real hi full =
      let delta = size_add (string_size s) (length text) in
      let g = string_grow realloc s delta in
      let e : size_add (string_size s) delta ≡ 2 * string_size s + length text = omega arith in
      let grows =
        Grown-Grows realloc s (size_add (string_size s) delta) g grants real (omega arith)
          (omega arith) (string_grow-Grown realloc s delta) in
      let size_same : string_size g.0 ≡ string_size s = ap (λ (b : Bytes). length b) grows.same in
      let no_fit : ltb (size_add (length text) 1) (string_allocated s - string_size s) ≡ false =
        le→ltb-false _ _ (omega arith) in
      let goes_on : (g.1 == string_size s) ≡ false = ground (arith, grows.other) in
      let ih =
        loop_hangs fuel g.0 grows.real (omega arith)
          (omega (arith, same_room g.0 s grows.same grows.real real)) in
      rw (no_fit, goes_on) (rw size_same at ih)

-- The bytes that string_printf sees as free: by the size, or the minimum where there is no buffer yet.
abbrev pub room : Str → ℕ
room s = (if s.cap == 0 then string_min_size else string_allocated s) - string_size s

-- The string with `text` printed at its end.
abbrev pub printed : Str → Bytes → Str
printed s text = record {
  cap = if s.cap == 0 then string_min_size else s.cap;
  bytes = s.bytes ++ text;
}

module _ (realloc : ℕ → Bool) where
  -- Where the text and its '\0' leave a byte free, one round prints it, whatever realloc does.
  printf_fits :
      (fuel : ℕ) (s : Str) (text : Bytes)
      → 0 < s.cap
      → size_add (length text) 1 < string_allocated s - string_size s
      → string_printf realloc (suc fuel) s text ≡ ret (printed s text, pos (length text))
  unfolding string_printf
  printf_fits fuel s text real fits = ground arith

  -- The first growth of an empty string allocates the minimum, or enough for the text.
  grow-init :
      (n : ℕ)
      → n ≤ max_size
      → Grants realloc
      → string_grow realloc string_init n ≡ (
        record { cap = smax (next_pow2 n) string_min_size; bytes = [] },
        smax (next_pow2 n) string_min_size,
      )
  unfolding string_grow string_allocated
  grow-init n hi grants =
      rw (zero_size_add n hi, lt→ltb 0 (next_pow2 n) (next_pow2_pos n hi), grants)

  printf_init :
      (fuel : ℕ) (text : Bytes)
      → length text ≤ max_size
      → Grants realloc
      → string_printf realloc (suc fuel) string_init text
        ≡ printf_loop realloc fuel 0
            (record { cap = smax (next_pow2 (length text)) string_min_size; bytes = [] })
            text
  unfolding string_printf string_allocated
  printf_init fuel text hi grants =
      rw (zero_size_add (length text) hi, grow-init (length text) hi grants) (ground arith)

  exact_buffer :
      (s : Str) (text : Bytes) (fuel : ℕ)
      → Grants realloc
      → 0 < s.cap
      → 2 * string_size s + length text ≤ max_size
      → string_printf realloc (suc fuel) s text ≡ (
          if ltb (length text + 1) (room s)
          then ret (printed s text, pos (length text))
          else running)
  exact_buffer s text fuel grants real hi = elim (Bool-cases (ltb (length text + 1) (room s))) [
    | inl fits ↦ rw fits (printf_fits fuel s text real (ground arith))
    | inr full ↦
        rw full (
          unfold string_printf in
          loop_hangs realloc grants text (suc fuel) s real hi (ground arith))
  ]

  first_cap : (n : ℕ) → n ≤ string_min_size → smax (next_pow2 n) string_min_size ≡ string_min_size
  first_cap n h =
      let m = next_pow2_mono n string_min_size h (omega arith) in
      ground (arith, m, next_pow2_min_size)

  init_room : (c : ℕ) → room (record { cap = smax c string_min_size; bytes = [] }) ≡ string_min_size
  unfolding string_allocated
  init_room c = ground arith

  exact_init :
      (text : Bytes) (fuel : ℕ)
      → Grants realloc
      → length text ≤ max_size
      → string_printf realloc (suc (suc fuel)) string_init text ≡ (
          if ltb (length text + 1) string_min_size
          then ret (printed string_init text, pos (length text))
          else running)
  unfolding printf_loop string_printf
  exact_init text fuel grants hi =
      let s : Str = record { cap = smax (next_pow2 (length text)) string_min_size; bytes = [] } in
      printf_init (suc fuel) text hi grants
      ∙ exact_buffer s text fuel grants (ground arith) (omega arith)
      ∙ rw init_room (elim (Bool-cases (ltb (length text + 1) string_min_size)) [
        | inr full ↦ rw full
        | inl fits ↦ rw (
          fits,
          first_cap (length text) (omega (arith, ltb→lt (length text + 1) string_min_size fits)),
        )
      ])

  init_of_null : (s : Str) → s.cap ≡ 0 → string_size s ≤ s.cap → s ≡ string_init
  init_of_null s null fits = ground (arith, length-zero s.bytes)

  -- string_printf appends its text where the text and a '\0' leave a byte of the allocation free.
  -- Where they do not, it never returns, even though every realloc succeeds: the loop measures the
  -- free bytes by the size, which growing does not change.
  pub string_printf_exact :
      (s : Str) (text : Bytes) (fuel : ℕ)
      → Grants realloc
      → IsWf s
      → 2 * string_size s + length text ≤ max_size
      → string_printf realloc (suc (suc fuel)) s text ≡ (
          if ltb (length text + 1) (room s)
          then ret (printed s text, pos (length text))
          else running)
  string_printf_exact s text fuel grants wf hi = elim (Bool-cases (s.cap == 0)) [
    | inl null ↦
        let e = init_of_null s (ground arith) wf.fits in
        rw e (exact_init text fuel grants (omega arith))
    | inr buffer ↦ exact_buffer s text (suc fuel) grants (ground arith) hi
  ]

  -- Printing to a string with no buffer while realloc refuses: the error branch stores the '\0'
  -- through the NULL buffer.
  pub string_printf_null :
      (text : Bytes) (fuel : ℕ)
      → ((n : ℕ) → realloc n ≡ false)
      → string_printf realloc (suc fuel) string_init text ≡ fault
  unfolding string_printf printf_loop string_grow string_allocated
  string_printf_null text fuel refuses =
      ground
        (arith, refuses (smax (next_pow2 (size_add 0 (size_add 0 (length text)))) string_min_size))
