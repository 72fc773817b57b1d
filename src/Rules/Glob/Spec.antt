-- ===== src/Rules/Glob/Spec.antt =====
-- What a pattern means, with no search order in it.
use rust_pois.Prelude.{ℕ, ◌≢◌, [], ◌∷◌, Text}
use rust_pois.Rules.Glob.{star}

-- A `*` stands for any run of bytes, every other byte for itself.
pub data Matches : Text → Text → Type 0 where
  empty : Matches [] []
  byte : {c : ℕ} {pat text : Text} → c ≢ star → Matches pat text → Matches (c ∷ pat) (c ∷ text)
  leave : {pat text : Text} → Matches pat text → Matches (star ∷ pat) text
  take : {c : ℕ} {pat text : Text} → Matches (star ∷ pat) text → Matches (star ∷ pat) (c ∷ text)
