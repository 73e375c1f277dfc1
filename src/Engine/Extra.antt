-- ===== src/Engine/Extra.antt =====
-- src/engine/global_config.c, the end of get_rdkafka_config: the members that are appended to the statistics.
--
-- `json_loads` is jansson's: none is a syntax error, else none is no object, else the number of members.
use n2kafka.Prelude.{
  ℕ, zero, suc, ◌-◌, ◌≡◌, refl, Bool, true, false, Option, none, some, [], ◌∷◌, ◌++◌, ◌==◌,
  if◌then◌else◌, length, length-append, take, take-append, drop, Bytes, arith, All,
}
use n2kafka.Prelude.Run.{Run, ret, fault}
use n2kafka.Util.Stats.{enriched}
use n2kafka.Util.Stats.Enrich.{enriched-object}

-- strchr: the text from the first `c` on.
abbrev pub strchr : Bytes → ℕ → Option Bytes
strchr [] c = none
strchr (x ∷ xs) c = let rest = strchr xs c in if x == c then some (x ∷ xs) else rest

-- strrchr: the offset of the last `c`.
abbrev pub strrchr : Bytes → ℕ → Option ℕ
strrchr [] c = none
strrchr (x ∷ xs) c = elim (strrchr xs c) [
  | some n ↦ some (suc n)
  | none ↦ if x == c then some 0 else none
]

-- What becomes of the value: fatal, nothing, or message_extra with its size.
pub data Extra : Type 0 where
  exited unused : Extra
  saved : Bytes → ℕ → Extra

unfoldable pub stats_extra : (Bytes → Option (Option ℕ)) → Bool → Bytes → Run Extra
stats_extra json_loads malloc stats_json_enrich = elim (json_loads stats_json_enrich) [
  | none ↦ ret exited
  | some none ↦ ret exited
  | some (some zero) ↦ ret unused
  | some (some (suc jchilds)) ↦ elim (strchr stats_json_enrich b'{') [
    | none ↦ fault
    | some open_brace ↦ elim (strrchr open_brace b'}') [
      | none ↦ fault
      | some size ↦
          if malloc
          then ret (saved (take (size - 1) (drop 1 open_brace) ++ 0 ∷ []) size)
          else ret exited
    ]
  ]
]

strchr-append :
    (pre rest : Bytes) (c : ℕ)
    → All (λ (x : ℕ). (x == c) ≡ false) pre
    → strchr (pre ++ c ∷ rest) c ≡ some (c ∷ rest)
strchr-append [] rest c free = ground arith
strchr-append (x ∷ pre) rest c (other, free) = rw other (strchr-append pre rest c free)

strrchr-free :
    (post : Bytes) (c : ℕ) → All (λ (x : ℕ). (x == c) ≡ false) post → strrchr post c ≡ none
strrchr-free [] c free = refl
strrchr-free (x ∷ post) c (other, free) = rw (strrchr-free post c free, other) refl

strrchr-append :
    (pre post : Bytes) (c : ℕ)
    → All (λ (x : ℕ). (x == c) ≡ false) post
    → strrchr (pre ++ c ∷ post) c ≡ some (length pre)
strrchr-append [] post c free = rw (strrchr-free post c free) (ground arith)
strrchr-append (x ∷ pre) post c free = rw (strrchr-append pre post c free) refl

-- For a JSON object with members, whatever stands around its braces: what is saved is the text between the
-- braces with a NUL, and appended to the statistics it gives their object with these members behind a comma.
pub stats_extra-enriched :
    (json_loads : Bytes → Option (Option ℕ)) (pre members post front : Bytes) (jchilds : ℕ)
    (granted : Bool)
    → All (λ (x : ℕ). (x == b'{') ≡ false) pre
    → All (λ (x : ℕ). (x == b'}') ≡ false) post
    → json_loads (pre ++ b'{' ∷ (members ++ b'}' ∷ post)) ≡ some (some (suc jchilds))
    → (stats_extra json_loads true (pre ++ b'{' ∷ (members ++ b'}' ∷ post))
        ≡ ret (saved (members ++ 0 ∷ []) (length (members ++ 0 ∷ []))))
      × (enriched granted (members ++ 0 ∷ []) (front ++ b'}' ∷ [])
          ≡ ret (
            (if granted then front ++ b',' ∷ members ++ b'}' ∷ [] else front ++ b'}' ∷ []),
            length (front ++ b',' ∷ members ++ b'}' ∷ []),
          ))
unfolding stats_extra
stats_extra-enriched json_loads pre members post front jchilds granted before behind loads =
    let opening : strchr (pre ++ b'{' ∷ (members ++ b'}' ∷ post)) b'{'
        ≡ some (b'{' ∷ (members ++ b'}' ∷ post)) =
      strchr-append pre (members ++ b'}' ∷ post) b'{' before in
    let last : strrchr (b'{' ∷ (members ++ b'}' ∷ post)) b'}' ≡ some (suc (length members)) =
      strrchr-append (b'{' ∷ members) post b'}' behind in
    let size : length (members ++ 0 ∷ []) ≡ suc (length members) =
      omega (arith, length-append members (0 ∷ [])) in
    let back : suc (length members) - 1 ≡ length members = omega arith in
    (
      rw (stats_extra, loads, opening, last, back, take-append members (b'}' ∷ post), size) refl,
      enriched-object granted front members,
    )
