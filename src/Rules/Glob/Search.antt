-- ===== src/Rules/Glob/Search.antt =====
-- What `starts_with`, `ends_with`, `find` and `==` find in a text.
use rust_pois.Prelude.{
  ℕ, zero, suc, ◌+◌, ◌-◌, ◌≤◌, ◌≡◌, refl, sym, ap, subst, ◌∙◌, true, false, Option, none, some, [],
  ◌∷◌, ◌++◌, arith, length, drop, length-append, take, take-append-drop, drop-length, ==_refl,
  and_iff, leb, Text, text_eq, starts_with, ends_with, find, one_later, Bool-cases, inl, inr,
}

pub text_eq_refl : (s : Text) → text_eq s s ≡ true
unfolding text_eq
text_eq_refl [] = refl
text_eq_refl (a ∷ s) = rw (==_refl, text_eq_refl s)

pub text_eq→eq : (s t : Text) → text_eq s t ≡ true → s ≡ t
unfolding text_eq
text_eq→eq [] [] h = refl
text_eq→eq [] (b ∷ t) h = cc
text_eq→eq (a ∷ s) [] h = cc
text_eq→eq (a ∷ s) (b ∷ t) h = ground (arith, text_eq→eq s t)

pub starts_with-append : (p s : Text) → starts_with (p ++ s) p ≡ true
unfolding starts_with
starts_with-append [] s = refl
starts_with-append (a ∷ p) s = rw (==_refl, starts_with-append p s)

pub starts_with→eq : (s p : Text) → starts_with s p ≡ true → s ≡ p ++ drop (length p) s
unfolding starts_with
starts_with→eq s [] h = refl
starts_with→eq [] (b ∷ p) h = cc
starts_with→eq (a ∷ s) (b ∷ p) h = ground (arith, starts_with→eq s p)

pub ends_with-append : (x p : Text) → ends_with (x ++ p) p ≡ true
unfolding ends_with
ends_with-append x p =
    let len = length-append x p in
    let fits : leb (length p) (length (x ++ p)) ≡ true = ground arith in
    let at : length x ≡ length (x ++ p) - length p = omega arith in
    let last : drop (length (x ++ p) - length p) (x ++ p) ≡ p = drop-length x p _ at in
    rw (fits, last, text_eq_refl p)

pub ends_with→eq : (s p : Text) → ends_with s p ≡ true → (x : Text) × (s ≡ x ++ p)
unfolding ends_with
ends_with→eq s p h =
    let both = (and_iff _ _).0 h in
    let at = text_eq→eq (drop (length s - length p) s) p both.1 in
    (
      take (length s - length p) s,
      sym (take-append-drop (length s - length p) s)
          ∙ ap (λ (l : Text). take (length s - length p) s ++ l) at,
    )

find-here : (s p : Text) → starts_with s p ≡ true → find s p ≡ some 0
unfolding find
find-here [] p h = rw h
find-here (c ∷ s) p h = rw h

find-later :
    (c : ℕ) (s p : Text) → starts_with (c ∷ s) p ≡ false → find (c ∷ s) p ≡ one_later (find s p)
unfolding find
find-later c s p h = rw h

find-nil : (p : Text) → starts_with [] p ≡ false → find [] p ≡ none
unfolding find
find-nil p h = rw h

-- What is found stands in the text.
abbrev Found : Text → Text → ℕ → Type 0
Found s p i = (x : Text) × (s ≡ x ++ (p ++ drop (i + length p) s))

Found-here : (s p : Text) (i : ℕ) → starts_with s p ≡ true → find s p ≡ some i → Found s p i
Found-here s p i h e =
    let first : i ≡ 0 = ground (arith, find-here s p h) in
    let same : length p ≡ i + length p = omega arith in
    ([], starts_with→eq s p h ∙ ap (λ (k : ℕ). p ++ drop k s) same)

Found-later : (c : ℕ) (s p : Text) (i : ℕ) → Found s p i → Found (c ∷ s) p (suc i)
Found-later c s p i (x, e) =
    let at : suc (i + length p) ≡ suc i + length p = omega arith in
    (c ∷ x, ap (λ (l : Text). c ∷ l) e ∙ ap (λ (k : ℕ). c ∷ (x ++ (p ++ drop k (c ∷ s)))) at)

pub find_sound : (s p : Text) (i : ℕ) → find s p ≡ some i → Found s p i
find_sound [] p i e = elim (Bool-cases (starts_with [] p)) [
  | inl h ↦ Found-here [] p i h e
  | inr h ↦ absurd (let no : ⊥ = cc (find-nil p h) in no)
]
find_sound (c ∷ s) p i e = elim (Bool-cases (starts_with (c ∷ s) p)) [
  | inl h ↦ Found-here (c ∷ s) p i h e
  | inr h ↦ later (find s p) i refl (sym (find-later c s p h) ∙ e) (find_sound s p)
]
  where
    later :
        (o : Option ℕ) (i : ℕ)
        → find s p ≡ o
        → one_later o ≡ some i
        → ((j : ℕ) → find s p ≡ some j → Found s p j)
        → Found (c ∷ s) p i
    later none i found e ih = cc
    later (some j) i found e ih =
        subst (λ (k : ℕ). Found (c ∷ s) p k) (let same : suc j ≡ i = cc in same)
          (Found-later c s p j (ih j found))

-- What stands in the text is found there, or before.
pub find-first : (x p s' : Text) → (i : ℕ) × (find (x ++ (p ++ s')) p ≡ some i) × (i ≤ length x)
find-first [] p s' = (0, find-here (p ++ s') p (starts_with-append p s'), omega arith)
find-first (c ∷ x) p s' = elim (Bool-cases (starts_with (c ∷ (x ++ (p ++ s'))) p)) [
  | inl h ↦ (0, find-here _ p h, omega arith)
  | inr h ↦
      let (i, e, le) = find-first x p s' in
      (suc i, find-later c (x ++ (p ++ s')) p h ∙ ap one_later e, omega arith)
]

pub drop-append : (k : ℕ) (w s : Text) → k ≤ length w → drop k (w ++ s) ≡ drop k w ++ s
drop-append zero w s h = refl
drop-append (suc k) [] s h = absurd (omega arith)
drop-append (suc k) (c ∷ w) s h = drop-append k w s (omega arith)
