-- ===== src/Rules/Glob/Correct/Parts.antt =====
-- A text matches a pattern exactly when the parts between the stars stand in it in order.
use rust_pois.Prelude.{
  ℕ, ◌≡◌, ◌≢◌, refl, sym, ap, subst, ◌∙◌, true, List, [], ◌∷◌, ◌++◌, arith, append_assoc, Text,
  ◌==◌, ==_iff, Bool-cases, inl, inr, false≢true,
}
use rust_pois.Rules.Glob.{star, add_to_first, split}
use rust_pois.Rules.Glob.Spec.{Matches, empty, byte, leave, take}

-- The parts behind a star: each somewhere later, the last one at the end.
abbrev pub Later : List Text → Text → Type 0
Later [] s = ⊥
Later (last ∷ []) s = (x : Text) × (s ≡ x ++ last)
Later (part ∷ next ∷ parts) s =
    (x : Text) × (s' : Text) × (s ≡ x ++ (part ++ s')) × Later (next ∷ parts) s'

-- All the parts: the first one stands at the start.
abbrev pub InParts : List Text → Text → Type 0
InParts [] s = ⊥
InParts (only ∷ []) s = s ≡ only
InParts (first ∷ next ∷ parts) s = (s' : Text) × (s ≡ first ++ s') × Later (next ∷ parts) s'

-- More text before the first of the later parts makes no difference.
pub Later-prepend : (parts : List Text) (y s : Text) → Later parts s → Later parts (y ++ s)
Later-prepend [] y s h = h
Later-prepend (last ∷ []) y s (x, e) =
    (y ++ x, ap (λ (l : Text). y ++ l) e ∙ sym (append_assoc y x last))
Later-prepend (part ∷ next ∷ parts) y s (x, s', e, h) =
    (y ++ x, s', ap (λ (l : Text). y ++ l) e ∙ sym (append_assoc y x (part ++ s')), h)

-- A star, then parts whose first may follow at once.
InParts→Later : (parts : List Text) (s : Text) → InParts parts s → Later parts s
InParts→Later [] s h = h
InParts→Later (only ∷ []) s h = ([], h)
InParts→Later (first ∷ next ∷ parts) s (s', e, h) = ([], s', e, h)

InParts-byte :
    (c : ℕ) (parts : List Text) (s : Text)
    → InParts parts s
    → InParts (add_to_first c parts) (c ∷ s)
InParts-byte c [] s h = absurd h
InParts-byte c (only ∷ []) s h = ap (λ (l : Text). c ∷ l) h
InParts-byte c (first ∷ next ∷ parts) s (s', e, h) = (s', ap (λ (l : Text). c ∷ l) e, h)

split-star : (pat : Text) → split (star ∷ pat) ≡ [] ∷ split pat
unfolding split
split-star pat = refl

pub split-byte : (c : ℕ) (pat : Text) → c ≢ star → split (c ∷ pat) ≡ add_to_first c (split pat)
unfolding split
split-byte c pat h = ground arith

-- `split` gives at least one part.
pub split-cons : (pat : Text) → (first : Text) × (parts : List Text) × (split pat ≡ first ∷ parts)
unfolding split
split-cons [] = ([], [], refl)
split-cons (c ∷ pat) = elim (Bool-cases (c == star)) [
  | inl e ↦ rw e ([], split pat, refl)
  | inr e ↦ let (first, parts, h) = split-cons pat in rw e (c ∷ first, parts, ap (add_to_first c) h)
]

InParts-star : (parts : List Text) (s : Text) → Later parts s → InParts ([] ∷ parts) s
InParts-star [] s h = absurd h
InParts-star (next ∷ parts) s h = (s, refl, h)

InParts-star_inv : (pat s : Text) → InParts ([] ∷ split pat) s → Later (split pat) s
InParts-star_inv pat s h =
    let (first, parts, e) = split-cons pat in
    let (s', at, later) = subst (λ (l : List Text). InParts ([] ∷ l) s) e h in
    subst (λ (l : List Text). Later l s) (sym e)
      (subst (λ (t : Text). Later (first ∷ parts) t) (sym at) later)

pub Matches→InParts : {pat text : Text} → Matches pat text → InParts (split pat) text
unfolding split
Matches→InParts empty = refl
Matches→InParts (byte {c = c} {pat = pat} {text = text} h m) =
    subst (λ (l : List Text). InParts l (c ∷ text)) (sym (split-byte c pat h))
      (InParts-byte c (split pat) text (Matches→InParts m))
Matches→InParts (leave {pat = pat} {text = text} m) =
    InParts-star (split pat) text (InParts→Later (split pat) text (Matches→InParts m))
Matches→InParts (take {c = c} {pat = pat} {text = text} m) =
    InParts-star (split pat) (c ∷ text)
      (Later-prepend (split pat) (c ∷ []) text (InParts-star_inv pat text (Matches→InParts m)))

-- Where later parts stand, some rest of the text begins with them.
Later→suffix :
    (parts : List Text) (s : Text)
    → Later parts s
    → (x : Text) × (t : Text) × (s ≡ x ++ t) × InParts parts t
Later→suffix [] s h = absurd h
Later→suffix (last ∷ []) s (x, e) = (x, last, e, refl)
Later→suffix (part ∷ next ∷ parts) s (x, s', e, h) = (x, part ++ s', e, (s', refl, h))

star-Matches : (pat x t : Text) → Matches pat t → Matches (star ∷ pat) (x ++ t)
star-Matches pat [] t m = leave m
star-Matches pat (c ∷ x) t m = take (star-Matches pat x t m)

InParts-byte_inv :
    (c : ℕ) (parts : List Text) (s first : Text) (rest : List Text)
    → parts ≡ first ∷ rest
    → InParts (add_to_first c parts) s
    → (t : Text) × (s ≡ c ∷ t) × InParts parts t
InParts-byte_inv c [] s first rest e h = cc
InParts-byte_inv c (only ∷ []) s first rest e h = (only, h, refl)
InParts-byte_inv c (p ∷ q ∷ parts) s first rest e (s', at, h) = (p ++ s', at, (s', refl, h))

pub InParts→Matches : (pat text : Text) → InParts (split pat) text → Matches pat text
unfolding split
InParts→Matches [] text h = subst (λ (t : Text). Matches [] t) (sym h) empty
InParts→Matches (c ∷ pat) text h = elim (Bool-cases (c == star)) [
  | inl e ↦
      let is_star : c ≡ star = (==_iff c star).0 e in
      let parts = subst (λ (l : List Text). InParts l text) (cut e) h in
      let (x, t, at, m) = Later→suffix (split pat) text (InParts-star_inv pat text parts) in
      subst (λ (d : ℕ). Matches (d ∷ pat) text) (sym is_star)
        (subst (λ (s : Text). Matches (star ∷ pat) s) (sym at)
          (star-Matches pat x t (InParts→Matches pat t m)))
  | inr e ↦
      let other : c ≢ star = λ (p : c ≡ star). false≢true (sym e ∙ (==_iff c star).1 p) in
      let parts = subst (λ (l : List Text). InParts l text) (split-byte c pat other) h in
      let (first, rest, at) = split-cons pat in
      let (t, eq, m) = InParts-byte_inv c (split pat) text first rest at parts in
      subst (λ (s : Text). Matches (c ∷ pat) s) (sym eq) (byte other (InParts→Matches pat t m))
]
  where
    cut : (c == star) ≡ true → split (c ∷ pat) ≡ [] ∷ split pat
    cut e = rw e
