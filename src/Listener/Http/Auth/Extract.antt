-- ===== src/Listener/Http/Auth/Extract.antt =====
-- The two passes over a password file: the first counts the bytes of its entries, the second gets exactly that
-- many and writes all entries but the last.
use n2kafka.Prelude.{
  ℕ, ◌+◌, ◌-◌, ◌≡◌, refl, ap, sym, ◌∙◌, Bool, true, false, Option, none, some, List, [], ◌∷◌, ◌++◌,
  append_assoc, append-nil, arith, ltb, lt→ltb, if◌then◌else◌, length, take, length-take, Bytes,
  starts_with, Bool-cases, Option-cases, inl, inr, ◌⊎◌,
}
use n2kafka.Listener.Http.Auth.{
  newline, colon, plain_hashing_callback_prefix, strchrnul, tokenize_user_pass_line,
  password_hashing_callback, Extracted, extract_line, extract_lines, http_auth_extract_data0,
}
use n2kafka.Listener.Http.Auth.Laws.{weight}

-- The entry of a line: its text up to the newline, if what stands from its first colon on has the one
-- supported kind of password.
unfoldable pub entry_of : Bytes → Option Bytes
entry_of line =
    let password = strchrnul line colon in
    if starts_with plain_hashing_callback_prefix password
    then some (take (length line - length (strchrnul password newline)) line)
    else none

unfoldable pub entries_of : List Bytes → List Bytes
entries_of [] = []
entries_of (line ∷ lines) = elim (entry_of line) [
  | none ↦ entries_of lines
  | some entry ↦ entry ∷ entries_of lines
]

abbrev pub all_but_last : List Bytes → List Bytes
all_but_last [] = []
all_but_last (x ∷ []) = []
all_but_last (x ∷ y ∷ xs) = x ∷ all_but_last (y ∷ xs)

-- Taking an entry up.
abbrev take_entry : ℕ → Bytes → Extracted → Extracted
take_entry dst_size entry e =
    if ltb (e.write_cursor + (length entry + 1)) dst_size
    then record {
      entries = e.entries ++ entry ∷ [];
      write_cursor = e.write_cursor + (length entry + 1);
      rc = e.rc + (length entry + 1);
    }
    else record e { rc = e.rc + (length entry + 1) }

List-cases : {A : Type 0} (xs : List A) → (xs ≡ []) ⊎ ((y : A) × (ys : List A) × (xs ≡ y ∷ ys))
List-cases [] = inl refl
List-cases (x ∷ xs) = inr (x, xs, refl)

extract_line-entry :
    (dst_size : ℕ) (line : Bytes) (e : Extracted)
    → extract_line dst_size line e
      ≡ elim (entry_of line) [ none ↦ e | some entry ↦ take_entry dst_size entry e ]
unfolding extract_line tokenize_user_pass_line password_hashing_callback starts_with entry_of
extract_line-entry dst_size line e = elim (List-cases (strchrnul line colon)) [
  | inl bare ↦ rw (extract_line, tokenize_user_pass_line, bare) refl
  | inr (x, xs, found) ↦
      let tokens : tokenize_user_pass_line line ≡ (some (x ∷ xs), strchrnul (x ∷ xs) newline) =
        rw (tokenize_user_pass_line, found) refl in
      elim (Bool-cases (starts_with plain_hashing_callback_prefix (x ∷ xs))) [
        | inr unsupported ↦ rw (extract_line, tokens, found, unsupported) refl
        | inl supported ↦
            let end = strchrnul (x ∷ xs) newline in
            let back : length line - length end + 1 - 1 ≡ length line - length end = omega arith in
            let size : length (take (length line - length end) line) ≡ length line - length end =
              omega (arith, length-take (length line - length end) line) in
            rw (extract_line, tokens, found, supported, tokens, back, size) refl
      ]
]

abbrev fits : ℕ → Bytes → Extracted → Bool
fits dst_size entry e = ltb (e.write_cursor + (length entry + 1)) dst_size

take_entry-rc :
    (dst_size : ℕ) (entry : Bytes) (e : Extracted)
    → (take_entry dst_size entry e).rc ≡ e.rc + (length entry + 1)
take_entry-rc dst_size entry e = elim (Bool-cases (fits dst_size entry e)) [
  | inl room ↦ rw room refl
  | inr full ↦ rw full refl
]

lines-skipped :
    (dst_size : ℕ) (line : Bytes) (lines : List Bytes) (e : Extracted)
    → entry_of line ≡ none
    → (extract_lines dst_size (line ∷ lines) e ≡ extract_lines dst_size lines e)
      × (entries_of (line ∷ lines) ≡ entries_of lines)
unfolding extract_lines entries_of
lines-skipped dst_size line lines e skipped = (
  rw (extract_lines, extract_line-entry dst_size line e, skipped) refl,
  rw (entries_of, skipped) refl,
)

lines-taken :
    (dst_size : ℕ) (line : Bytes) (lines : List Bytes) (e : Extracted) (entry : Bytes)
    → entry_of line ≡ some entry
    → (extract_lines dst_size (line ∷ lines) e
        ≡ extract_lines dst_size lines (take_entry dst_size entry e))
      × (entries_of (line ∷ lines) ≡ entry ∷ entries_of lines)
unfolding extract_lines entries_of
lines-taken dst_size line lines e entry taken = (
  rw (extract_lines, extract_line-entry dst_size line e, taken) refl,
  rw (entries_of, taken) refl,
)

extract_lines-rc :
    (dst_size : ℕ) (lines : List Bytes) (e : Extracted)
    → (extract_lines dst_size lines e).rc ≡ e.rc + weight (entries_of lines)
unfolding extract_lines entries_of
extract_lines-rc dst_size [] e = omega arith
extract_lines-rc dst_size (line ∷ lines) e = elim (Option-cases (entry_of line)) [
  | inl skipped ↦
      let (run, same) = lines-skipped dst_size line lines e skipped in
      rw (run, same) (extract_lines-rc dst_size lines e)
  | inr (entry, taken) ↦
      let (run, one) = lines-taken dst_size line lines e entry taken in
      rw (run, one)
        (omega (
          arith,
          extract_lines-rc dst_size lines (take_entry dst_size entry e),
          take_entry-rc dst_size entry e,
        ))
]

-- Without a further entry nothing more is written.
extract_lines-none :
    (dst_size : ℕ) (lines : List Bytes) (e : Extracted)
    → entries_of lines ≡ []
    → (extract_lines dst_size lines e).entries ≡ e.entries
unfolding extract_lines
extract_lines-none dst_size [] e nothing = refl
extract_lines-none dst_size (line ∷ lines) e nothing = elim (Option-cases (entry_of line)) [
  | inl skipped ↦
      let (run, same) = lines-skipped dst_size line lines e skipped in
      rw run (extract_lines-none dst_size lines e (sym same ∙ nothing))
  | inr (entry, taken) ↦
      let (run, one) = lines-taken dst_size line lines e entry taken in absurd (cc (one, nothing))
]

-- With room for exactly the entries to come, all of them but the last are written.
extract_lines-all_but_last :
    (dst_size : ℕ) (lines : List Bytes) (e : Extracted)
    → dst_size ≡ e.write_cursor + weight (entries_of lines)
    → (extract_lines dst_size lines e).entries ≡ e.entries ++ all_but_last (entries_of lines)
unfolding extract_lines entries_of
extract_lines-all_but_last dst_size [] e room = sym (append-nil e.entries)
extract_lines-all_but_last dst_size (line ∷ lines) e room = elim (Option-cases (entry_of line)) [
  | inl skipped ↦
      let (run, same) = lines-skipped dst_size line lines e skipped in
      rw (run, same)
        (extract_lines-all_but_last dst_size lines e
          (room ∙ ap (λ (x : List Bytes). e.write_cursor + weight x) same))
  | inr (entry, taken) ↦
      let (run, one) = lines-taken dst_size line lines e entry taken in
      let room' : dst_size ≡ e.write_cursor + weight (entry ∷ entries_of lines) =
        room ∙ ap (λ (x : List Bytes). e.write_cursor + weight x) one in
      elim (List-cases (entries_of lines)) [
        | inl last ↦
            let full : fits dst_size entry e ≡ false =
              ground (arith, room', last, ap weight last) in
            rw (run, one, last, full)
              (extract_lines-none dst_size lines _ last ∙ sym (append-nil e.entries))
        | inr (next, others, more) ↦
            let enough : fits dst_size entry e ≡ true =
              lt→ltb _ _ (omega (arith, room', ap weight more)) in
            let e' = take_entry dst_size entry e in
            let rest =
              extract_lines-all_but_last dst_size lines e' (rw enough (omega (arith, room'))) in
            rw (run, one, rest, enough, more)
              (append_assoc e.entries (entry ∷ []) (all_but_last (next ∷ others)))
      ]
]

abbrev nothing_extracted : Extracted
nothing_extracted = record { entries = []; write_cursor = 0; rc = 0 }

-- A pass over a file without read errors counts the bytes of all its entries, whatever the room.
pub http_auth_extract_data0-rc :
    (dst_size : ℕ) (getline : List Bytes)
    → (http_auth_extract_data0 dst_size getline true).1 ≡ some (weight (entries_of getline))
unfolding http_auth_extract_data0
http_auth_extract_data0-rc dst_size getline =
    ap some (omega (arith, extract_lines-rc dst_size getline nothing_extracted))

pub http_auth_extract_data0-all_but_last :
    (getline : List Bytes)
    → (http_auth_extract_data0 (weight (entries_of getline)) getline true).0
      ≡ all_but_last (entries_of getline)
unfolding http_auth_extract_data0
http_auth_extract_data0-all_but_last getline =
    extract_lines-all_but_last (weight (entries_of getline)) getline nothing_extracted (omega arith)
