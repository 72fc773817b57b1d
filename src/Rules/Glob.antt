-- ===== src/Rules/Glob.antt =====
-- src/rules.rs, `glob_match`: patterns with any number of `*`.
pub mod Spec
mod Search
pub mod Correct
use rust_pois.Prelude.{
  ℕ, zero, suc, ◌+◌, ◌-◌, Bool, true, false, not, Option, none, some, List, [], ◌∷◌, length, drop,
  ◌==◌, if◌then◌else◌, Text, text_eq, starts_with, ends_with, find, contains,
}

abbrev pub star : ℕ
star = b'*'

abbrev pub add_to_first : ℕ → List Text → List Text
add_to_first c [] = (c ∷ []) ∷ []
add_to_first c (part ∷ parts) = (c ∷ part) ∷ parts

-- `pat.split('*')`
unfoldable pub split : Text → List Text
split [] = [] ∷ []
split (c ∷ pat) = let parts = split pat in if c == star then [] ∷ parts else add_to_first c parts

abbrev pub is_empty : Text → Bool
is_empty [] = true
is_empty (_ ∷ _) = false

abbrev pub match_find : Option ℕ → (ℕ → Bool) → Bool
match_find none found = false
match_find (some idx) found = found idx

-- The loop over the parts, at part number `i`; `pos` is how much of `text` is consumed.
unfoldable pub glob_loop : ℕ → Text → ℕ → ℕ → List Text → Bool
glob_loop last text i pos [] = true
glob_loop last text i pos (part ∷ parts) =
    let skipped = glob_loop last text (i + 1) pos parts in
    let anchored = glob_loop last text (i + 1) (pos + length part) parts in
    if is_empty part
    then skipped
    else if i == 0
    then (if not (starts_with (drop pos text) part) then false else anchored)
    else if i == last
    then ends_with (drop pos text) part
    else match_find (find (drop pos text) part)
        (λ idx. glob_loop last text (i + 1) (pos + (idx + length part)) parts)

unfoldable pub glob_match : Text → Text → Bool
unfolding glob_loop split contains text_eq starts_with ends_with find
glob_match pat text =
    if not (contains pat star)
    then text_eq pat text
    else (let parts = split pat in glob_loop (length parts - 1) text 0 0 parts)
