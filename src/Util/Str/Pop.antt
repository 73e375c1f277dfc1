-- ===== src/Util/Str/Pop.antt =====
-- string_pop_back: the last byte goes, and the string stays within its allocation.
use n2kafka.Prelude.{
  ℕ, ◌+◌, ◌≤◌, ◌≡◌, refl, ◌∙◌, ap, false, ◌||◌, [], ◌∷◌, ◌++◌, ◌==◌, length, length-append, Bytes,
  arith,
}
use n2kafka.Prelude.Run.{ret}
use n2kafka.Util.Str.{Str, string_size, string_allocated, drop_last, string_pop_back}
use n2kafka.Util.Str.Pow2.{max_size, next_pow2_mono}
use n2kafka.Util.Str.Grow.{IsWf}

drop_last-append : (front : Bytes) (c : ℕ) → drop_last (front ++ c ∷ []) ≡ front
unfolding drop_last
drop_last-append [] c = refl
drop_last-append (x ∷ []) c = refl
drop_last-append (x ∷ y ∷ front) c = ap (λ (bs : Bytes). x ∷ bs) (drop_last-append (y ∷ front) c)

module _ (s : Str) (front : Bytes) (c : ℕ) (wf : IsWf s) (ends : s.bytes ≡ front ++ c ∷ []) where
  shorter : string_size s ≡ length front + 1
  shorter = ap (λ (b : Bytes). length b) ends ∙ length-append front (c ∷ []) ∙ omega arith

  pub string_pop_back-append : string_pop_back s ≡ ret (record s { bytes = front })
  unfolding string_pop_back
  string_pop_back-append =
      let size = shorter in
      let fits = wf.fits in
      let some_bytes : (s.cap == 0 || string_size s == 0) ≡ false = ground (arith, size, fits) in
      rw (some_bytes) (
        ap (λ (b : Bytes). ret (record s { bytes = b }))
          (ap drop_last ends ∙ drop_last-append front c))

  pub pop_back-IsWf : string_size s ≤ max_size → IsWf (record s { bytes = front })
  unfolding string_allocated
  pop_back-IsWf hi =
      let size = shorter in
      let fits = wf.fits in
      let covered = wf.covered in
      record {
        fits = omega arith;
        covered =
            ground (arith, next_pow2_mono (length front) (string_size s), wf.floor, wf.covered);
        floor = wf.floor;
      }
