-- ===== src/Prelude/Texts.antt =====
-- Texts as lists of UTF-8 bytes, with the `str` methods that the program calls.
use Prim.Native.Char.{code}
use Prim.Native.String.{String}
use Prim.Native.Nat.{ℕ, suc, ◌+◌, ◌-◌}
use mathlib.Core.Path.{◌≡◌, refl, ap₂}
use mathlib.Core.Logic.{◌↔◌}
use mathlib.Core.Bool.{Bool, true, false, ◌&&◌, ◌||◌}
use mathlib.Core.Option.{Option, none, some}
use mathlib.Core.List.{List, [], ◌∷◌, map}
use rust_pois.Prelude.Tests.{◌==◌, and_iff, ==_iff, ltb, leb, if◌then◌else◌}
use rust_pois.Prelude.Lists.{length, drop}

abbrev pub Text : Type 0
Text = List ℕ

-- A literal's bytes; the program's literals are ASCII.
abbrev pub codes : String → Text
codes String.[] = []
codes (String.◌∷◌ c s) = code c ∷ codes s

-- `==` on `str`
unfoldable pub text_eq : Text → Text → Bool
text_eq [] [] = true
text_eq (a ∷ s) (b ∷ t) = (a == b) && text_eq s t
text_eq _ _ = false

pub text_eq_iff : (s t : Text) → (text_eq s t ≡ true) ↔ (s ≡ t)
unfolding text_eq
text_eq_iff [] [] = ((λ h. refl), (λ h. refl))
text_eq_iff [] (b ∷ t) = ((λ h. cc), (λ h. cc))
text_eq_iff (a ∷ s) [] = ((λ h. cc), (λ h. cc))
text_eq_iff (a ∷ s) (b ∷ t) = (
  (λ h.
      let (heads, tails) = (and_iff _ _).0 h in
      ap₂ (λ (c : ℕ) (r : Text). c ∷ r) ((==_iff a b).0 heads) ((text_eq_iff s t).0 tails)),
  (λ e. (and_iff _ _).1 (
    (==_iff a b).1 (let heads : a ≡ b = cc e in heads),
    (text_eq_iff s t).1 (let tails : s ≡ t = cc e in tails),
  )),
)

-- `text.starts_with(part)`
unfoldable pub starts_with : Text → Text → Bool
starts_with s [] = true
starts_with [] (p ∷ part) = false
starts_with (c ∷ s) (p ∷ part) = (c == p) && starts_with s part

-- `text.ends_with(part)`
unfoldable pub ends_with : Text → Text → Bool
unfolding text_eq
ends_with s part = leb (length part) (length s) && text_eq (drop (length s - length part) s) part

abbrev pub one_later : Option ℕ → Option ℕ
one_later none = none
one_later (some i) = some (suc i)

-- `text.find(part)`: the first place
unfoldable pub find : Text → Text → Option ℕ
find [] part = if starts_with [] part then some 0 else none
find (c ∷ s) part =
    let later = find s part in if starts_with (c ∷ s) part then some 0 else one_later later

-- `text.contains(c)`
unfoldable pub contains : Text → ℕ → Bool
contains [] c = false
contains (b ∷ s) c = (b == c) || contains s c

abbrev pub to_lower : ℕ → ℕ
to_lower c = if leb b'A' c && leb c b'Z' then c + 32 else c

-- `a.eq_ignore_ascii_case(b)`
unfoldable pub eq_ignore_ascii_case : Text → Text → Bool
unfolding text_eq
eq_ignore_ascii_case a b = text_eq (map to_lower a) (map to_lower b)

-- `<=` on `str`: the order of the bytes
unfoldable pub text_le : Text → Text → Bool
text_le [] t = true
text_le (a ∷ s) [] = false
text_le (a ∷ s) (b ∷ t) = let rest = text_le s t in ltb a b || ((a == b) && rest)
