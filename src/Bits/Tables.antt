-- ===== src/Bits/Tables.antt =====
-- What `|=` and `&=` with one shifted bit do to the bits of a byte, checked at every value.
use rust_pois.Prelude.{
  ℕ, ◌-◌, ◌*◌, ◌^◌, ◌<◌, bit_and, bit_or, max, ◌≡◌, refl, Bool, true, false, ◌&&◌, List, [], ◌∷◌,
  arith, ◌==◌, ==_iff, and_iff, all_below, all_below_sound, get_or, set,
}
use rust_pois.Bits.{to_bits}

abbrev same : List ℕ → List ℕ → Bool
same [] [] = true
same (x ∷ xs) (y ∷ ys) = (x == y) && same xs ys
same _ _ = false

same_sound : (xs ys : List ℕ) → same xs ys ≡ true → xs ≡ ys
same_sound [] [] h = refl
same_sound [] (y ∷ ys) h = cc
same_sound (x ∷ xs) [] h = cc
same_sound (x ∷ xs) (y ∷ ys) h = ground (arith, same_sound xs ys)

abbrev or_test : ℕ → ℕ → ℕ → Bool
or_test x p b =
    same (to_bits 8 (bit_or x (b * 2 ^ (7 - p))))
      (set (to_bits 8 x) p (max (get_or (to_bits 8 x) p 0) b))
    && (bit_or x (b * 2 ^ (7 - p)) - 255 == 0)

abbrev patch_test : ℕ → ℕ → ℕ → Bool
patch_test x p b =
    same (to_bits 8 (bit_or (bit_and x (255 - 2 ^ (7 - p))) (b * 2 ^ (7 - p))))
      (set (to_bits 8 x) p b)
    && (bit_or (bit_and x (255 - 2 ^ (7 - p))) (b * 2 ^ (7 - p)) - 255 == 0)

or_table : all_below 256 (λ x. all_below 8 (λ p. all_below 2 (λ b. or_test x p b))) ≡ true
unfolding all_below
or_table = refl

patch_table : all_below 256 (λ x. all_below 8 (λ p. all_below 2 (λ b. patch_test x p b))) ≡ true
unfolding all_below
patch_table = refl

module _ (x p b : ℕ) (hx : x < 256) (hp : p < 8) (hb : b < 2) where
  or_tested : or_test x p b ≡ true
  or_tested =
      all_below_sound 2 (λ b. or_test x p b) b
        (all_below_sound 8 (λ p. all_below 2 (λ b. or_test x p b)) p
          (all_below_sound 256 (λ x. all_below 8 (λ p. all_below 2 (λ b. or_test x p b))) x or_table
            hx)
          hp)
        hb

  patch_tested : patch_test x p b ≡ true
  patch_tested =
      all_below_sound 2 (λ b. patch_test x p b) b
        (all_below_sound 8 (λ p. all_below 2 (λ b. patch_test x p b)) p
          (all_below_sound 256 (λ x. all_below 8 (λ p. all_below 2 (λ b. patch_test x p b))) x
            patch_table hx)
          hp)
        hb

  pub to_bits-bit_or :
      to_bits 8 (bit_or x (b * 2 ^ (7 - p)))
      ≡ set (to_bits 8 x) p (max (get_or (to_bits 8 x) p 0) b)
  to_bits-bit_or = same_sound _ _ ((and_iff _ _).0 or_tested).0

  pub bit_or-lt : bit_or x (b * 2 ^ (7 - p)) < 256
  bit_or-lt =
      omega (arith, (==_iff (bit_or x (b * 2 ^ (7 - p)) - 255) 0).0 ((and_iff _ _).0 or_tested).1)

  pub to_bits-patch :
      to_bits 8 (bit_or (bit_and x (255 - 2 ^ (7 - p))) (b * 2 ^ (7 - p))) ≡ set (to_bits 8 x) p b
  to_bits-patch = same_sound _ _ ((and_iff _ _).0 patch_tested).0

  pub patch-lt : bit_or (bit_and x (255 - 2 ^ (7 - p))) (b * 2 ^ (7 - p)) < 256
  patch-lt = omega (
    arith,
    (==_iff (bit_or (bit_and x (255 - 2 ^ (7 - p))) (b * 2 ^ (7 - p)) - 255) 0).0
        ((and_iff _ _).0 patch_tested).1,
  )
