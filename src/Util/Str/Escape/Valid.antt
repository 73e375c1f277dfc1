-- ===== src/Util/Str/Escape/Valid.antt =====
-- string_append_json_string on UTF-8 text.
use n2kafka.Prelude.{
  ℕ, zero, suc, ◌+◌, ◌*◌, ◌≤◌, ◌<◌, ◌≡◌, refl, sym, ap, ◌∙◌, Bool, true, false, arith, ◌==◌,
  if◌then◌else◌, ◌||◌, [], ◌∷◌, ◌++◌, append-nil, append_assoc, length, take, drop, length-append,
  Bytes, ltb, Bool-cases, inl, inr, codes,
}
use n2kafka.Prelude.Int.{ℤ, pos}
use n2kafka.Prelude.Run.{Run, ret}
use n2kafka.Util.Str.{Str, string_size, string_append, string_append_string}
use n2kafka.Util.Str.Pow2.{max_size}
use n2kafka.Util.Str.Grow.{IsWf, appended, not_appended, Appended, string_append-Appended}
use n2kafka.Util.Str.Printf.{Grants}
use n2kafka.Util.Str.Escape.{
  trailing_checked, multibyte_utf8_unicode_size, print_utf8, print_json_escaped_character,
  is_escaped_control, is_auto_escape, json_string_loop, string_append_json_string,
}
use n2kafka.Util.Str.Escape.Tables.{
  leading_ones-ascii, leading_ones-two, leading_ones-three, leading_ones-four, trailing_mask,
}

abbrev IsTrailing : ℕ → Type 0
IsTrailing c = (128 ≤ c) × (c < 192)

-- Text in the shape of UTF-8 without a '\0', character by character; overlong forms and surrogates have it too.
pub data IsUtf8 : Bytes → Type 0 where
  done : IsUtf8 []
  one : {cs : Bytes} (a : ℕ) → 0 < a → a < 128 → IsUtf8 cs → IsUtf8 (a ∷ cs)
  two : {cs : Bytes} (a b : ℕ) → 192 ≤ a → a < 224 → IsTrailing b → IsUtf8 cs → IsUtf8 (a ∷ b ∷ cs)
  three :
      {cs : Bytes} (a b c : ℕ)
      → 224 ≤ a
      → a < 240
      → IsTrailing b
      → IsTrailing c
      → IsUtf8 cs
      → IsUtf8 (a ∷ b ∷ c ∷ cs)
  four :
      {cs : Bytes} (a b c d : ℕ)
      → 240 ≤ a
      → a < 248
      → IsTrailing b
      → IsTrailing c
      → IsTrailing d
      → IsUtf8 cs
      → IsUtf8 (a ∷ b ∷ c ∷ d ∷ cs)

-- What a byte of the text becomes.
abbrev pub escape_byte : ℕ → Bytes
escape_byte c =
    if c == 0x08
    then codes "\\b"
    else if c == 0x0c
    then codes "\\f"
    else if c == b'\n'
    then codes "\\n"
    else if c == b'\r'
    then codes "\\r"
    else if c == b'\t'
    then codes "\\t"
    else if c == b'"' || c == b'\\'
    then b'\\' ∷ c ∷ []
    else c ∷ []

abbrev pub escaped : Bytes → Bytes
escaped [] = []
escaped (c ∷ cs) = escape_byte c ++ escaped cs

length-escape_byte : (c : ℕ) → length (escape_byte c) ≤ 2
length-escape_byte c = ground arith

suc_ne_zero : (n : ℕ) → (suc n == 0) ≡ false
suc_ne_zero n = ground arith

-- A run that returns 0 with `text` behind the content of `s`, well-formed.
pub record Writes (s : Str) (text : Bytes) (r : Run (Str × ℤ)) : Type 0 where
  pub final : Str
  pub returns : r ≡ ret (final, pos 0)
  pub content : final.bytes ≡ s.bytes ++ text
  pub wf : IsWf final

module _ (realloc : ℕ → Bool) (grants : Grants realloc) where
  append_granted :
      (s : Str) (chunk : Bytes)
      → IsWf s
      → string_size s + length chunk ≤ max_size
      → Writes s chunk (ret (string_append realloc s chunk))
  append_granted s chunk wf hi =
      go (string_append realloc s chunk) (string_append-Appended realloc s chunk wf hi)
    where
      go : (r : Str × ℤ) → Appended realloc s chunk r → Writes s chunk (ret r)
      go r (appended e b w) = record {
        final = r.0;
        returns = ap (λ (z : ℤ). ret (r.0, z)) e;
        content = b;
        wf = w;
      }
      go r (not_appended e n refused le) = absurd (cc (grants n))

  escape-control :
      (fuel : ℕ) (s : Str) (c : ℕ)
      → 0 < c
      → is_escaped_control c ≡ true
      → print_json_escaped_character realloc fuel s c
        ≡ ret (string_append realloc s (escape_byte c))
  unfolding is_escaped_control print_json_escaped_character string_append_string
  escape-control fuel s c h e = ground arith

  -- A chunk that is written first, then the rest.
  Writes-trans :
      (s t : Str) (a b : Bytes) (r : Run (Str × ℤ))
      → t.bytes ≡ s.bytes ++ a
      → Writes t b r
      → Writes s (a ++ b) r
  Writes-trans s t a b r e w = record {
    final = w.final;
    returns = w.returns;
    wf = w.wf;
    content = w.content ∙ ap (λ (x : Bytes). x ++ b) e ∙ append_assoc s.bytes a b;
  }

  step-control :
      (fuel : ℕ) (s : Str) (c : ℕ) (cs out : Bytes)
      → 0 < c
      → is_escaped_control c ≡ true
      → IsWf s
      → string_size s + 2 ≤ max_size
      → ((t : Str)
          → IsWf t
          → t.bytes ≡ s.bytes ++ escape_byte c
          → Writes t out (json_string_loop realloc fuel t cs))
      → Writes s (escape_byte c ++ out) (json_string_loop realloc (suc fuel) s (c ∷ cs))
  unfolding json_string_loop
  step-control fuel s c cs out h e wf hi rest =
      let w = append_granted s (escape_byte c) wf (omega (arith, length-escape_byte c)) in
      rw (e, escape-control fuel s c h e, w.returns)
        (Writes-trans s w.final _ out _ w.content (rest w.final w.wf w.content))

  step-auto :
      (fuel : ℕ) (s : Str) (c : ℕ) (cs out : Bytes)
      → is_escaped_control c ≡ false
      → is_auto_escape c ≡ true
      → IsWf s
      → string_size s + 2 ≤ max_size
      → ((t : Str)
          → IsWf t
          → t.bytes ≡ s.bytes ++ b'\\' ∷ c ∷ []
          → Writes t out (json_string_loop realloc fuel t cs))
      → Writes s (b'\\' ∷ c ∷ out) (json_string_loop realloc (suc fuel) s (c ∷ cs))
  unfolding json_string_loop string_append_string
  step-auto fuel s c cs out e auto wf hi rest =
      let w = append_granted s (codes "\\") wf (omega arith) in
      let size : string_size w.final ≡ string_size s + 1 =
        omega (arith, ap (λ (b : Bytes). length b) w.content, length-append s.bytes (codes "\\")) in
      let v = append_granted w.final (c ∷ []) w.wf (omega arith) in
      let both : v.final.bytes ≡ s.bytes ++ b'\\' ∷ c ∷ [] =
        v.content ∙ ap (λ (x : Bytes). x ++ c ∷ []) w.content ∙ append_assoc s.bytes _ _ in
      rw (e, auto, first w.returns, first v.returns)
        (Writes-trans s v.final (b'\\' ∷ c ∷ []) out _ both (rest v.final v.wf both))
    where
      first : {r : Str × ℤ} {t : Str} → ret r ≡ ret (t, pos 0) → r ≡ (t, pos 0)
      first h = cc

  step-utf8 :
      (fuel : ℕ) (s : Str) (c n : ℕ) (cs out : Bytes)
      → is_escaped_control c ≡ false
      → is_auto_escape c ≡ false
      → multibyte_utf8_unicode_size (c ∷ cs) ≡ ret (suc n)
      → IsWf s
      → string_size s + length (take (suc n) (c ∷ cs)) ≤ max_size
      → ((t : Str)
          → IsWf t
          → t.bytes ≡ s.bytes ++ take (suc n) (c ∷ cs)
          → Writes t out (json_string_loop realloc fuel t (drop (suc n) (c ∷ cs))))
      → Writes s (take (suc n) (c ∷ cs) ++ out) (json_string_loop realloc (suc fuel) s (c ∷ cs))
  unfolding json_string_loop print_utf8
  step-utf8 fuel s c n cs out e auto size wf hi rest =
      let w = append_granted s (take (suc n) (c ∷ cs)) wf hi in
      rw (e, auto, size, suc_ne_zero n, first w.returns)
        (Writes-trans s w.final _ out _ w.content (rest w.final w.wf w.content))
    where
      first : {r : Str × ℤ} {t : Str} → ret r ≡ ret (t, pos 0) → r ≡ (t, pos 0)
      first h = cc

  ascii_plain :
      (a : ℕ)
      → 0 < a
      → a < 128
      → is_escaped_control a ≡ false
      → is_auto_escape a ≡ false
      → escape_byte a ≡ a ∷ []
  unfolding is_escaped_control is_auto_escape
  ascii_plain a lo hi e auto = ground arith

  ascii_auto :
      (a : ℕ)
      → 0 < a
      → is_escaped_control a ≡ false
      → is_auto_escape a ≡ true
      → escape_byte a ≡ b'\\' ∷ a ∷ []
  unfolding is_escaped_control is_auto_escape
  ascii_auto a lo e auto = ground arith

  high_plain :
      (a : ℕ)
      → 128 ≤ a
      → (is_escaped_control a ≡ false) × (is_auto_escape a ≡ false) × (escape_byte a ≡ a ∷ [])
  unfolding is_escaped_control is_auto_escape
  high_plain a lo = ground arith

  size_one : (a : ℕ) (cs : Bytes) → a < 128 → multibyte_utf8_unicode_size (a ∷ cs) ≡ ret 1
  unfolding multibyte_utf8_unicode_size
  size_one a cs h = rw (leading_ones-ascii a h)

  size_two :
      (a b : ℕ) (cs : Bytes)
      → 192 ≤ a
      → a < 224
      → IsTrailing b
      → multibyte_utf8_unicode_size (a ∷ b ∷ cs) ≡ ret 2
  unfolding multibyte_utf8_unicode_size trailing_checked
  size_two a b cs lo hi tb =
      rw (leading_ones-two a lo hi, trailing_mask b tb.0 tb.1, long (length cs))
    where
      long : (n : ℕ) → ltb (suc (suc n)) 2 ≡ false
      long n = ground arith

  size_three :
      (a b c : ℕ) (cs : Bytes)
      → 224 ≤ a
      → a < 240
      → IsTrailing b
      → IsTrailing c
      → multibyte_utf8_unicode_size (a ∷ b ∷ c ∷ cs) ≡ ret 3
  unfolding multibyte_utf8_unicode_size trailing_checked
  size_three a b c cs lo hi tb tc = rw (
    leading_ones-three a lo hi,
    trailing_mask b tb.0 tb.1,
    trailing_mask c tc.0 tc.1,
    long (length cs),
  )
    where
      long : (n : ℕ) → ltb (suc (suc (suc n))) 3 ≡ false
      long n = ground arith

  size_four :
      (a b c d : ℕ) (cs : Bytes)
      → 240 ≤ a
      → a < 248
      → IsTrailing b
      → IsTrailing c
      → IsTrailing d
      → multibyte_utf8_unicode_size (a ∷ b ∷ c ∷ d ∷ cs) ≡ ret 4
  unfolding multibyte_utf8_unicode_size trailing_checked
  size_four a b c d cs lo hi tb tc td = rw (
    leading_ones-four a lo hi,
    trailing_mask b tb.0 tb.1,
    trailing_mask c tc.0 tc.1,
    trailing_mask d td.0 td.1,
    long (length cs),
  )
    where
      long : (n : ℕ) → ltb (suc (suc (suc (suc n)))) 4 ≡ false
      long n = ground arith

  size_after :
      (s t : Str) (x : Bytes) → t.bytes ≡ s.bytes ++ x → string_size t ≡ string_size s + length x
  size_after s t x e = omega (arith, ap (λ (b : Bytes). length b) e, length-append s.bytes x)

  append_json :
      {chunk : Bytes}
      → IsUtf8 chunk
      → (fuel : ℕ) (s : Str) → length chunk < fuel
      → IsWf s
      → string_size s + 2 * length chunk ≤ max_size
      → Writes s (escaped chunk) (json_string_loop realloc fuel s chunk)
  append_json done (suc fuel) s f wf hi =
      unfold json_string_loop in
      record { final = s; returns = refl; content = sym (append-nil s.bytes); wf = wf }
  append_json (one {cs} a lo top u) (suc fuel) s f wf hi =
      elim (Bool-cases (is_escaped_control a)) [
        | inl control ↦ step-control fuel s a cs _ lo control wf (omega arith) λ t w e.
            append_json u fuel t (omega arith) w
              (omega (arith, size_after s t _ e, length-escape_byte a))
        | inr other ↦ elim (Bool-cases (is_auto_escape a)) [
          | inl auto ↦ rw (ascii_auto a lo other auto) (
              step-auto fuel s a cs _ other auto wf (omega arith)
                λ t w e. append_json u fuel t (omega arith) w (omega (arith, size_after s t _ e)))
          | inr plain ↦ rw (ascii_plain a lo top other plain) (
              step-utf8 fuel s a 0 cs _ other plain (size_one a cs top) wf (omega arith)
                λ t w e. append_json u fuel t (omega arith) w (omega (arith, size_after s t _ e)))
        ]
      ]
  append_json (two {cs} a b lo top tb u) (suc fuel) s f wf hi =
      let pa = high_plain a (omega arith) in
      rw (pa.2, (high_plain b tb.0).2)
        (step-utf8 fuel s a 1 (b ∷ cs) _ pa.0 pa.1 (size_two a b cs lo top tb) wf (omega arith)
          λ t w e. append_json u fuel t (omega arith) w (omega (arith, size_after s t _ e)))
  append_json (three {cs} a b c lo top tb tc u) (suc fuel) s f wf hi =
      let pa = high_plain a (omega arith) in
      rw (pa.2, (high_plain b tb.0).2, (high_plain c tc.0).2)
        (step-utf8 fuel s a 2 (b ∷ c ∷ cs) _ pa.0 pa.1 (size_three a b c cs lo top tb tc) wf
          (omega arith)
          λ t w e. append_json u fuel t (omega arith) w (omega (arith, size_after s t _ e)))
  append_json (four {cs} a b c d lo top tb tc td u) (suc fuel) s f wf hi =
      let pa = high_plain a (omega arith) in
      rw (pa.2, (high_plain b tb.0).2, (high_plain c tc.0).2, (high_plain d td.0).2)
        (step-utf8 fuel s a 3 (b ∷ c ∷ d ∷ cs) _ pa.0 pa.1 (size_four a b c d cs lo top tb tc td) wf
          (omega arith)
          λ t w e. append_json u fuel t (omega arith) w (omega (arith, size_after s t _ e)))
  append_json _ zero s f wf hi = absurd (omega arith)

  -- On UTF-8 text without a '\0', with every realloc granted and room within 2 ^ 31 bytes, fuel above the
  -- length of the text suffices, 0 is returned, and the string, still well-formed, has gained each byte of
  -- the text, with a backslash before quotes and backslashes and the five named control characters as
  -- two letters; other control characters stay as they are.
  pub string_append_json_string_utf8 :
      (s : Str) (chunk : Bytes) (fuel : ℕ)
      → IsUtf8 chunk
      → length chunk < fuel
      → IsWf s
      → string_size s + 2 * length chunk ≤ max_size
      → Writes s (escaped chunk) (string_append_json_string realloc fuel s chunk)
  unfolding string_append_json_string
  string_append_json_string_utf8 s chunk fuel u f wf hi = append_json u fuel s f wf hi
