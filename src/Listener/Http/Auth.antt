-- ===== src/Listener/Http/Auth.antt =====
-- src/listener/http/http_auth.c: the password file and basic authentication.
--
-- A C string is the list of its bytes without the final NUL, so a cursor at the end of one stands at
-- NUL. `ndebug` says whether the asserts are compiled out. strchr gives NULL without a match, and using that
-- pointer is a fault. `getline` is the list of the lines of the file, each with its newline, and `ended`
-- says whether they ended with the file or with a read error.
mod Tests
pub mod Laws
pub mod Extract
use n2kafka.Prelude.{
  ℕ, zero, suc, ◌+◌, ◌-◌, Bool, true, false, not, ◌||◌, Option, none, some, List, [], ◌∷◌, ◌++◌,
  ltb, ◌==◌, if◌then◌else◌, length, take, drop, Bytes, codes, equal, starts_with,
}
use n2kafka.Util.File.{Stream}
use n2kafka.Prelude.Run.{Run, ret, fault, running, ◌>>=◌}

abbrev pub newline : ℕ
newline = 10

abbrev pub colon : ℕ
colon = 58

abbrev pub plain_hashing_callback_prefix : Bytes
plain_hashing_callback_prefix = codes ":{PLAIN}"

-- strchrnul: the string from the first `c`, or its end.
abbrev pub strchrnul : Bytes → ℕ → Bytes
strchrnul [] c = []
strchrnul (x ∷ xs) c = let rest = strchrnul xs c in if x == c then x ∷ xs else rest

-- The bytes before the first `c`.
abbrev pub before : Bytes → ℕ → Bytes
before [] c = []
before (x ∷ xs) c = let rest = before xs c in if x == c then [] else x ∷ rest

-- plain_hashing_callback, whose assert looks at the provided password.
pub plain_hashing_callback : Bool → Bytes → Bytes → Run Bool
plain_hashing_callback ndebug provided_password htfile_password =
    if ndebug || starts_with plain_hashing_callback_prefix provided_password
    then ret (equal (drop (length plain_hashing_callback_prefix) htfile_password) provided_password)
    else fault

-- The one entry of the table of callbacks.
unfoldable pub password_hashing_callback : Bytes → Option (Bool → Bytes → Bytes → Run Bool)
password_hashing_callback text =
    if starts_with plain_hashing_callback_prefix text then some plain_hashing_callback else none

-- tokenize_user_pass_line: the colon, if there is one, and the end of the entry.
unfoldable pub tokenize_user_pass_line : Bytes → Option Bytes × Bytes
tokenize_user_pass_line line =
    elim (strchrnul line colon) as (λ (x : Bytes). Option Bytes × Bytes) [
      | [] ↦ (none, [])
      | x ∷ xs ↦ (some (x ∷ xs), strchrnul (x ∷ xs) newline)
    ]

-- What the extraction writes: the entries that fit, and the offset of the next one.
pub record Extracted : Type 0 where
  pub entries : List Bytes
  pub write_cursor : ℕ
  pub rc : ℕ

-- One line of http_auth_extract_data0.
unfoldable pub extract_line : ℕ → Bytes → Extracted → Extracted
unfolding tokenize_user_pass_line password_hashing_callback
extract_line dst_size line e =
    let (text, end) = tokenize_user_pass_line line in
    let entry_len = length line - length end + 1 in
    elim text [
      | none ↦ e
      | some colon_text ↦ elim (password_hashing_callback colon_text) [
        | none ↦ e
        | some callback ↦
            if ltb (e.write_cursor + entry_len) dst_size
            then record {
              entries = e.entries ++ take (entry_len - 1) line ∷ [];
              write_cursor = e.write_cursor + entry_len;
              rc = e.rc + entry_len;
            }
            else record e { rc = e.rc + entry_len }
      ]
    ]

unfoldable pub extract_lines : ℕ → List Bytes → Extracted → Extracted
extract_lines dst_size [] e = e
extract_lines dst_size (line ∷ lines) e =
    extract_lines dst_size lines (extract_line dst_size line e)

-- http_auth_extract_data0: none is -1.
unfoldable pub http_auth_extract_data0 : ℕ → List Bytes → Bool → List Bytes × Option ℕ
unfolding extract_lines
http_auth_extract_data0 dst_size getline ended =
    let e = extract_lines dst_size getline (record { entries = []; write_cursor = 0; rc = 0 }) in
    (e.entries, if ended then some e.rc else none)

-- http_auth_extract_data, which puts the file's position back: none is -1.
unfoldable pub http_auth_extract_data : ℕ → Stream → List Bytes × Option ℕ
unfolding http_auth_extract_data0
http_auth_extract_data dst_size src = elim src.position [
  | none ↦ ([], none)
  | some curr_off ↦
      let (entries, rc) = http_auth_extract_data0 dst_size src.getline src.ended in
      (entries, if src.seek_set then rc else none)
]

-- The loop of http_authenticate: `running` when the fuel runs out.
pub authenticate_loop : ℕ → Bool → Bytes → Bytes → Bytes → Run Bool
unfolding password_hashing_callback
authenticate_loop zero ndebug user password cursor = running
authenticate_loop (suc fuel) ndebug user password cursor =
    let again = λ (rest : Bytes). authenticate_loop fuel ndebug user password rest in
    if starts_with (newline ∷ []) cursor then ret false else elim (strchrnul cursor colon) [
      | [] ↦ fault
      | x ∷ xs ↦
          if not (length cursor - length (x ∷ xs) == length user)
          then again (strchrnul cursor newline)
          else if equal user (take (length user) cursor)
          then elim (password_hashing_callback (x ∷ xs)) [
            | none ↦ fault
            | some callback ↦ callback ndebug password (x ∷ xs)
          ]
          else again cursor
    ]

pub http_authenticate : ℕ → Bool → Bytes → Bytes → Bytes → Run Bool
unfolding authenticate_loop
http_authenticate fuel ndebug user password db = authenticate_loop fuel ndebug user password db
