-- ===== src/Util/Stats/Enrich.antt =====
-- The statistics' object with the configured members appended.
use n2kafka.Prelude.{
  ℕ, suc, ◌+◌, ◌-◌, ◌≡◌, refl, ap, Bool, true, false, [], ◌∷◌, ◌++◌, ◌==◌, if◌then◌else◌, length,
  length-append, take, Bytes, arith,
}
use n2kafka.Prelude.Run.{ret}
use n2kafka.Util.Stats.{ends_with_brace, enriched}

take_init : (front : Bytes) (c : ℕ) → take (length (front ++ c ∷ []) - 1) (front ++ c ∷ []) ≡ front
take_init [] c = refl
take_init (x ∷ front) c =
    let size : length (x ∷ front ++ c ∷ []) - 1 ≡ suc (length (front ++ c ∷ []) - 1) =
      omega (arith, length-append front (c ∷ [])) in
    rw size (ap (λ (b : Bytes). x ∷ b) (take_init front c))

ends_with_brace-append : (front : Bytes) → ends_with_brace (front ++ b'}' ∷ []) ≡ true
unfolding ends_with_brace
ends_with_brace-append [] = refl
ends_with_brace-append (x ∷ []) = refl
ends_with_brace-append (x ∷ y ∷ front) = ends_with_brace-append (y ∷ front)

some_text : (extra : Bytes) → (length (extra ++ 0 ∷ []) == 0) ≡ false
some_text extra = ground (arith, length-append extra (0 ∷ []))

total_size :
    (front extra : Bytes)
    → length (front ++ b'}' ∷ []) + length (extra ++ 0 ∷ [])
      ≡ length (front ++ b',' ∷ extra ++ b'}' ∷ [])
total_size front extra = omega (
  arith,
  length-append front (b'}' ∷ []),
  length-append extra (0 ∷ []),
  length-append (front ++ b',' ∷ extra) (b'}' ∷ []),
  length-append front (b',' ∷ extra),
)

-- For an object's text and members to append with their '\0', the callback behind is given the object with the
-- members behind a comma, and its length. Where realloc refuses, it is given the old text with the length of
-- the new one, which runs past it.
pub enriched-object :
    (granted : Bool) (front extra : Bytes)
    → enriched granted (extra ++ 0 ∷ []) (front ++ b'}' ∷ [])
      ≡ ret (
        (if granted then front ++ b',' ∷ extra ++ b'}' ∷ [] else front ++ b'}' ∷ []),
        length (front ++ b',' ∷ extra ++ b'}' ∷ []),
      )
unfolding enriched
enriched-object false front extra = rw (enriched, some_text extra, total_size front extra) refl
enriched-object true front extra =
    rw
      (
        enriched,
        some_text extra,
        ends_with_brace-append front,
        take_init front b'}',
        take_init extra 0,
        total_size front extra,
      )
      refl
