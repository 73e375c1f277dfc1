-- ===== src/Util/Str/Escape/Tables.antt =====
-- Facts about single bytes, by evaluation over all of them.
use Prim.Native.Nat.{bit_and}
use n2kafka.Prelude.{
  ℕ, zero, suc, ◌≤◌, ◌<◌, Bool, true, ◌&&◌, ◌||◌, not, arith, ltb, leb, ◌==◌, ==_iff, Bool-cases,
  inl, inr, if◌then◌else◌, false, ◌≡◌, refl,
}
use n2kafka.Util.Str.Escape.{leading_ones}
use n2kafka.Util.Str.{bit_length}

holds_up_to : (ℕ → Bool) → ℕ → Bool
holds_up_to test zero = test 0
holds_up_to test (suc last) =
    let rest = holds_up_to test last in if test (suc last) then rest else false

at_each :
    (test : ℕ → Bool) (last byte : ℕ)
    → byte ≤ last
    → holds_up_to test last ≡ true
    → test byte ≡ true
unfolding holds_up_to
at_each test zero byte below table = let e : byte ≡ 0 = omega arith in rw e table
at_each test (suc last) byte below table = elim (Bool-cases (test (suc last))) [
  | inl holds ↦ elim (Bool-cases (byte == suc last)) [
    | inl same ↦ rw ((==_iff byte (suc last)).0 same) holds
    | inr other ↦ at_each test last byte (ground arith) (rw holds at table)
  ]
  | inr fails ↦ absurd (cc (rw fails at table))
]

-- The width that the leading byte announces.
abbrev width_is : ℕ → ℕ → ℕ → ℕ → Bool
width_is lo hi w c = not (leb lo c && ltb c hi) || leading_ones c == w

ones_table :
    holds_up_to
      (λ c.
        width_is 0 128 0 c && width_is 192 224 2 c && width_is 224 240 3 c && width_is 240 248 4 c)
      255
    ≡ true
unfolding holds_up_to leading_ones bit_length
ones_table = refl

trailing_table :
    holds_up_to (λ c. not (leb 128 c && ltb c 192) || bit_and c 0xc0 == 0x80) 255 ≡ true
unfolding holds_up_to
trailing_table = refl

module _ (c : ℕ) where
  pub leading_ones-ascii : c < 128 → leading_ones c ≡ 0
  leading_ones-ascii h = ground (arith, at_each _ 255 c (omega arith) ones_table)

  pub leading_ones-two : 192 ≤ c → c < 224 → leading_ones c ≡ 2
  leading_ones-two lo hi = ground (arith, at_each _ 255 c (omega arith) ones_table)

  pub leading_ones-three : 224 ≤ c → c < 240 → leading_ones c ≡ 3
  leading_ones-three lo hi = ground (arith, at_each _ 255 c (omega arith) ones_table)

  pub leading_ones-four : 240 ≤ c → c < 248 → leading_ones c ≡ 4
  leading_ones-four lo hi = ground (arith, at_each _ 255 c (omega arith) ones_table)

  pub trailing_mask : 128 ≤ c → c < 192 → (bit_and c 0xc0 == 0x80) ≡ true
  trailing_mask lo hi = ground (arith, at_each _ 255 c (omega arith) trailing_table)
