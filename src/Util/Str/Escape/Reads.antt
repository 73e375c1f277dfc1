-- ===== src/Util/Str/Escape/Reads.antt =====
-- What string_append_json_string writes, read back as the inside of a JSON string.
use n2kafka.Prelude.{
  ℕ, ◌+◌, ◌*◌, ◌≤◌, ◌<◌, ◌≡◌, refl, ◌∙◌, ap, Bool, true, false, ◌||◌, Option, none, some, arith,
  ◌==◌, if◌then◌else◌, [], ◌∷◌, ◌++◌, append_assoc, length, Bytes, ltb, All, ◌⊎◌,
}
use n2kafka.Prelude.Int.{ℤ}
use n2kafka.Prelude.Run.{Run}
use n2kafka.Util.Str.{Str, string_size}
use n2kafka.Util.Str.Pow2.{max_size}
use n2kafka.Util.Str.Grow.{IsWf}
use n2kafka.Util.Str.Printf.{Grants}
use n2kafka.Util.Str.Escape.{string_append_json_string}
use n2kafka.Util.Str.Escape.Valid.{
  IsUtf8, escape_byte, escaped, Writes, string_append_json_string_utf8,
}

-- The character for the letter behind a backslash, in RFC 8259 without \u.
abbrev pub unescape : ℕ → Option ℕ
unescape c =
    if c == 98
    then some 8
    else if c == 102
    then some 12
    else if c == 110
    then some 10
    else if c == 114
    then some 13
    else if c == 116
    then some 9
    else if c == 34 || c == 92 || c == 47
    then some c
    else none

abbrev pub push : Option ℕ → Option (Bytes × Bytes) → Option (Bytes × Bytes)
push none r = none
push (some c) none = none
push (some c) (some (text, rest)) = some (c ∷ text, rest)

-- A reader of JSON strings, from behind the opening quote: the text, and what stands behind the closing quote. A
-- control character is refused.
abbrev pub json_string : Bytes → Option (Bytes × Bytes)
json_string [] = none
json_string (c ∷ []) = if c == 34 then some ([], []) else none
json_string (c ∷ d ∷ cs) =
    let next = json_string (d ∷ cs) in
    let after = json_string cs in
    if c == 34
    then some ([], d ∷ cs)
    else if c == 92
    then push (unescape d) after
    else if ltb c 32
    then none
    else push (some c) next

-- What may stand in the text: no control character but \b, \t, \n, \f and \r.
abbrev pub IsReadable : ℕ → Type 0
IsReadable c = (32 ≤ c) ⊎ ((c == 8 || c == 9 || c == 10 || c == 12 || c == 13) ≡ true)

json_string-escape_byte :
    (c : ℕ) (t : Bytes)
    → IsReadable c
    → json_string (escape_byte c ++ t) ≡ push (some c) (json_string t)
json_string-escape_byte c [] h = ground (arith, h)
json_string-escape_byte c (d ∷ ds) h = ground (arith, h)

pub json_string-escaped :
    (text rest : Bytes)
    → All IsReadable text
    → json_string (escaped text ++ b'"' ∷ rest) ≡ some (text, rest)
json_string-escaped [] [] h = refl
json_string-escaped [] (c ∷ cs) h = refl
json_string-escaped (c ∷ cs) rest (plain, h) =
    ap (λ (x : Bytes). json_string x) (append_assoc (escape_byte c) (escaped cs) _)
    ∙ json_string-escape_byte c (escaped cs ++ b'"' ∷ rest) plain
    ∙ ap (push (some c)) (json_string-escaped cs rest h)

-- A control character of another kind is written as it is, and the text is not JSON.
pub json_string-control :
    (c : ℕ) (cs rest : Bytes)
    → c < 32
    → (c == 8 || c == 9 || c == 10 || c == 12 || c == 13) ≡ false
    → json_string (escaped (c ∷ cs) ++ b'"' ∷ rest) ≡ none
json_string-control c [] rest low other = ground (arith, low, other)
json_string-control c (d ∷ cs) rest low other = ground (arith, low, other)

-- What is written for a text: 0 is returned, and the bytes behind the string's content are such that, with a closing
-- quote behind them, a JSON reader gets the text.
pub record Readable (s : Str) (text : Bytes) (r : Run (Str × ℤ)) : Type 0 where
  pub written : Bytes
  pub writes : Writes s written r
  pub reads : (rest : Bytes) → json_string (written ++ b'"' ∷ rest) ≡ some (text, rest)

module _ (realloc : ℕ → Bool) (grants : Grants realloc) where
  -- On text in the shape of UTF-8, overlong forms and surrogates included, without a NUL and without a control
  -- character but \b, \t, \n, \f and \r, with every realloc granted and room within 2 ^ 31 bytes: fuel above the
  -- length of the text suffices, 0 is returned, and the string, still well-formed, has gained bytes that a reader of
  -- JSON strings, with a closing quote put behind them, takes for exactly this text. The quotes are the
  -- caller's.
  pub string_append_json_string-Readable :
      (s : Str) (text : Bytes) (fuel : ℕ)
      → IsUtf8 text
      → All IsReadable text
      → length text < fuel
      → IsWf s
      → string_size s + 2 * length text ≤ max_size
      → Readable s text (string_append_json_string realloc fuel s text)
  string_append_json_string-Readable s text fuel u plain f wf hi = record {
    written = escaped text;
    writes = string_append_json_string_utf8 realloc grants s text fuel u f wf hi;
    reads = λ rest. json_string-escaped text rest plain;
  }
