-- ===== src/Engine/Blacklist.antt =====
-- src/engine/global_config.c: the blacklist of the configuration.
--
-- `inet_pton` gives its return value and the address that it writes, if it writes one; `stale` is what the
-- variable holds where nothing is written. A value of the array is its text, or `none` if it is no string.
-- `none` as a result is the end of the process by fatal.
use n2kafka.Prelude.{
  ◌≡◌, ◌↔◌, refl, ap, ◌∙◌, true, false, Option, none, some, List, [], ◌∷◌, if◌then◌else◌, Bytes,
}
use n2kafka.Prelude.Int.{ℤ, is_negative}
use n2kafka.Prelude.Run.{Run, ret, ◌>>=◌}
use n2kafka.Util.AddrList.{
  in_addr_list_new, in_addr_list_add, in_addr_list_contains, adds, IsIn, in_addr_list_contains_iff,
}

-- assert_json_string
abbrev pub assert_json_string : Option Bytes → Option Bytes
assert_json_string value = value

-- assert_pton: the address behind the call.
unfoldable pub assert_pton : (Bytes → ℤ × Option Bytes) → Bytes → Bytes → Option Bytes
assert_pton inet_pton stale src =
    let (pton_rc, written) = inet_pton src in
    if is_negative pton_rc then none else elim written [ none ↦ some stale | some addr ↦ some addr ]

unfoldable pub parse_blacklist :
    (Bytes → ℤ × Option Bytes)
    → Bytes
    → List (Option Bytes)
    → List Bytes
    → Run (Option (List Bytes))
parse_blacklist inet_pton stale [] blacklist = ret (some blacklist)
parse_blacklist inet_pton stale (value ∷ values) blacklist = elim (assert_json_string value) [
  | none ↦ ret none
  | some addr_string ↦ elim (assert_pton inet_pton stale addr_string) [
    | none ↦ ret none
    | some addr ↦ in_addr_list_add true blacklist addr >>= parse_blacklist inet_pton stale values
  ]
]

-- The values are texts that inet_pton converts, to these addresses.
abbrev pub Converts : (Bytes → ℤ × Option Bytes) → List (Option Bytes) → List Bytes → Type 0
Converts inet_pton [] [] = Unit
Converts inet_pton (some text ∷ values) (addr ∷ addrs) =
    ((is_negative (inet_pton text).0 ≡ false) × ((inet_pton text).1 ≡ some addr))
    × Converts inet_pton values addrs
Converts inet_pton _ _ = ⊥

parse_blacklist-adds :
    (inet_pton : Bytes → ℤ × Option Bytes) (stale : Bytes) (values : List (Option Bytes))
    (addrs blacklist : List Bytes)
    → Converts inet_pton values addrs
    → parse_blacklist inet_pton stale values blacklist
      ≡ (adds blacklist addrs >>= λ list. ret (some list))
unfolding parse_blacklist assert_pton in_addr_list_add
parse_blacklist-adds inet_pton stale [] [] blacklist c = refl
parse_blacklist-adds inet_pton stale (some text ∷ values) (addr ∷ addrs) blacklist
      ((fine, written), c) =
    let converted : assert_pton inet_pton stale text ≡ some addr =
      rw (assert_pton, fine, written) refl in
    rw (parse_blacklist, converted)
      (parse_blacklist-adds inet_pton stale values addrs (addr ∷ blacklist) c)
parse_blacklist-adds inet_pton stale [] (addr ∷ addrs) blacklist c = absurd c
parse_blacklist-adds inet_pton stale (some text ∷ values) [] blacklist c = absurd c
parse_blacklist-adds inet_pton stale (none ∷ values) [] blacklist c = absurd c
parse_blacklist-adds inet_pton stale (none ∷ values) (addr ∷ addrs) blacklist c = absurd c

-- For an array of texts that are all addresses, the blacklist is read, and an address is found on it exactly
-- if it is one of them.
pub parse_blacklist-contains :
    (inet_pton : Bytes → ℤ × Option Bytes) (stale : Bytes) (values : List (Option Bytes))
    (addrs : List Bytes) (addr : Bytes)
    → Converts inet_pton values addrs
    → (r : List Bytes) × ((in_addr_list_new true >>= parse_blacklist inet_pton stale values)
        ≡ ret (some r))
      × ((in_addr_list_contains r addr ≡ true) ↔ IsIn addr addrs)
unfolding in_addr_list_new
parse_blacklist-contains inet_pton stale values addrs addr c =
    let (r, ran, found) = in_addr_list_contains_iff addrs addr in
    let keep : Run (List Bytes) → Run (Option (List Bytes)) = λ m. m >>= λ list. ret (some list) in
    (r, parse_blacklist-adds inet_pton stale values addrs [] c ∙ ap keep ran, found)
