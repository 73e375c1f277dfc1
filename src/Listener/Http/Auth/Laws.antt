-- ===== src/Listener/Http/Auth/Laws.antt =====
-- What authentication answers, and what the extraction of the password file keeps.
use n2kafka.Prelude.{
  ℕ, zero, suc, ◌+◌, ◌-◌, ◌≤◌, ◌≡◌, refl, ap, true, false, some, List, [], ◌∷◌, ◌++◌, arith, ltb,
  ◌==◌, length, length-append, take, length-take, Option-cases, ltb→lt, Bytes, equal, equal_refl,
  starts_with, All, Bool-cases, inl, inr,
}
use n2kafka.Prelude.Run.{ret, running}
use n2kafka.Util.File.{Stream}
use n2kafka.Listener.Http.Auth.{
  newline, colon, plain_hashing_callback_prefix, strchrnul, plain_hashing_callback,
  tokenize_user_pass_line, password_hashing_callback, Extracted, extract_line, extract_lines,
  http_auth_extract_data0, http_auth_extract_data, authenticate_loop, http_authenticate,
}

-- Neither a colon nor a newline.
abbrev pub IsPlain : ℕ → Type 0
IsPlain c = ((c == colon) ≡ false) × ((c == newline) ≡ false)

strchrnul-plain :
    (u t : Bytes) (c : ℕ) → All (λ (x : ℕ). (x == c) ≡ false) u → strchrnul (u ++ c ∷ t) c ≡ c ∷ t
strchrnul-plain [] t c h = ground arith
strchrnul-plain (x ∷ xs) t c (h, hs) = rw (h, strchrnul-plain xs t c hs) refl

plain_colon : (u : Bytes) → All IsPlain u → All (λ (x : ℕ). (x == colon) ≡ false) u
plain_colon [] h = tt
plain_colon (x ∷ xs) ((a, b), hs) = (a, plain_colon xs hs)

plain_newline : (u t : Bytes) → All IsPlain u → starts_with (newline ∷ []) (u ++ colon ∷ t) ≡ false
unfolding starts_with
plain_newline [] t h = refl
plain_newline (x ∷ xs) t ((a, b), hs) = ground (arith, b)

take-left : (u t : Bytes) → take (length u) (u ++ t) ≡ u
take-left [] t = refl
take-left (x ∷ xs) t = ap (λ (y : Bytes). x ∷ y) (take-left xs t)

-- The text from the colon on.
abbrev pub entry_tail : Bytes → Bytes
entry_tail rest = plain_hashing_callback_prefix ++ rest

module _ (u rest password : Bytes) (plain : All IsPlain u) where
  at_colon : strchrnul (u ++ entry_tail rest) colon ≡ entry_tail rest
  at_colon = strchrnul-plain u _ colon (plain_colon u plain)

  no_newline : starts_with (newline ∷ []) (u ++ entry_tail rest) ≡ false
  no_newline = plain_newline u _ plain

  same_length :
      (n : ℕ)
      → n ≡ length u
      → (length (u ++ entry_tail rest) - length (entry_tail rest) == n) ≡ true
  same_length n h =
      let e : length (u ++ entry_tail rest) - length (entry_tail rest) ≡ n =
        omega (arith, length-append u (entry_tail rest)) in
      ground arith

  -- With the asserts compiled out, and the user of the first entry: the answer is whether the rest of the
  -- database, up to its NUL, is the password.
  pub http_authenticate-first_user :
      (fuel : ℕ)
      → http_authenticate (suc fuel) true u password (u ++ entry_tail rest)
        ≡ ret (equal rest password)
  unfolding http_authenticate authenticate_loop password_hashing_callback plain_hashing_callback
      starts_with
  http_authenticate-first_user fuel =
      rw
        (
          no_newline,
          at_colon,
          same_length (length u) refl,
          take-left u (entry_tail rest),
          equal_refl u,
        )
        refl

  -- Another user whose name is as long as the first entry's: the loop never ends.
  pub http_authenticate-same_length :
      (fuel : ℕ) (user : Bytes)
      → length user ≡ length u
      → equal user u ≡ false
      → http_authenticate fuel true user password (u ++ entry_tail rest) ≡ running
  unfolding http_authenticate authenticate_loop
  http_authenticate-same_length zero user len other = refl
  http_authenticate-same_length (suc fuel) user len other =
      rw
        (
          no_newline,
          at_colon,
          same_length (length user) len,
          len,
          take-left u (entry_tail rest),
          other,
        )
        (http_authenticate-same_length fuel user len other)

-- The bytes that entries take, each with its separator.
abbrev pub weight : List Bytes → ℕ
weight [] = 0
weight (x ∷ xs) = length x + 1 + weight xs

weight-append : (xs ys : List Bytes) → weight (xs ++ ys) ≡ weight xs + weight ys
weight-append [] ys = omega arith
weight-append (x ∷ xs) ys = omega (arith, weight-append xs ys)

-- The entries written fill the buffer up to the cursor, the cursor stays below its size, and no more is
-- written than counted.
pub record Fits (dst_size : ℕ) (e : Extracted) : Type 0 where
  pub filled : weight e.entries ≡ e.write_cursor
  pub below : e.write_cursor ≤ dst_size
  pub counted : e.write_cursor ≤ e.rc

extract_line-Fits :
    (dst_size : ℕ) (line : Bytes) (e : Extracted)
    → Fits dst_size e
    → Fits dst_size (extract_line dst_size line e)
unfolding extract_line
extract_line-Fits dst_size line e fits =
    let end = (tokenize_user_pass_line line).1 in
    let entry_len = length line - length end + 1 in
    elim (Option-cases (tokenize_user_pass_line line).0) [
      | inl no_colon ↦ rw (extract_line, no_colon) fits
      | inr (text, found) ↦ elim (Option-cases (password_hashing_callback text)) [
        | inl unsupported ↦ rw (extract_line, found, unsupported) fits
        | inr (callback, supported) ↦
            elim (Bool-cases (ltb (e.write_cursor + entry_len) dst_size)) [
              | inl room ↦
                  rw (extract_line, found, supported, room)
                    (record {
                      filled = omega (
                        arith,
                        weight-append e.entries (take (entry_len - 1) line ∷ []),
                        length-take (entry_len - 1) line,
                        fits.filled,
                      );
                      below = omega (arith, ltb→lt _ _ room);
                      counted = omega (arith, fits.counted);
                    })
              | inr full ↦
                  rw (extract_line, found, supported, full)
                    (record {
                      filled = fits.filled;
                      below = fits.below;
                      counted = omega (arith, fits.counted);
                    })
            ]
      ]
    ]

extract_lines-Fits :
    (dst_size : ℕ) (lines : List Bytes) (e : Extracted)
    → Fits dst_size e
    → Fits dst_size (extract_lines dst_size lines e)
unfolding extract_lines
extract_lines-Fits dst_size [] e fits = fits
extract_lines-Fits dst_size (line ∷ lines) e fits =
    extract_lines-Fits dst_size lines (extract_line dst_size line e)
      (extract_line-Fits dst_size line e fits)

-- For any file and any size of the buffer: the entries that the extraction writes, each with its
-- separator, fit in the buffer, and without a read error they take no more bytes than the result counts.
pub http_auth_extract_data0-bounds :
    (dst_size : ℕ) (getline : List Bytes)
    → (n : ℕ) × ((http_auth_extract_data0 dst_size getline true).1 ≡ some n)
      × (weight (http_auth_extract_data0 dst_size getline true).0 ≤ dst_size)
      × (weight (http_auth_extract_data0 dst_size getline true).0 ≤ n)
unfolding http_auth_extract_data0
http_auth_extract_data0-bounds dst_size getline =
    let fits =
      extract_lines-Fits dst_size getline (record { entries = []; write_cursor = 0; rc = 0 })
        (record { filled = refl; below = omega arith; counted = omega arith }) in
    (_, refl, omega (arith, fits.filled, fits.below), omega (arith, fits.filled, fits.counted))

pub http_auth_extract_data-le :
    (n : ℕ) (stream : Stream) → weight (http_auth_extract_data n stream).0 ≤ n
unfolding http_auth_extract_data http_auth_extract_data0
http_auth_extract_data-le n stream = elim (Option-cases stream.position) [
  | inl lost ↦ rw (http_auth_extract_data, lost) (omega arith)
  | inr (curr_off, at) ↦
      rw (http_auth_extract_data, at)
        (omega (arith, (http_auth_extract_data0-bounds n stream.getline).2))
]
