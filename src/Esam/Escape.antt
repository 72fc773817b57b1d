-- ===== src/Esam/Escape.antt =====
-- src/esam.rs, `xml_escape`: five passes over a text of UTF-8 bytes.
pub mod Laws
use rust_pois.Prelude.{ℕ, List, [], ◌∷◌, ◌++◌, ◌==◌, if◌then◌else◌, Text, codes}

-- `s.replace(c, by)`, of one ASCII character
unfoldable pub replace : ℕ → Text → Text → Text
replace c by [] = []
replace c by (b ∷ s) = let rest = replace c by s in if b == c then by ++ rest else b ∷ rest

unfoldable pub xml_escape : Text → Text
unfolding replace
xml_escape s = replace 39 (codes "&apos;") (
    replace 34 (codes "&quot;")
      (replace 62 (codes "&gt;") (replace 60 (codes "&lt;") (replace 38 (codes "&amp;") s))))
