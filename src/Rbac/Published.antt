-- ===== src/Rbac/Published.antt =====
-- What it is to be published to one of some groups.
use rust_pois.Prelude.{
  ℕ, ◌≡◌, ◌↔◌, inl, inr, refl, sym, ap, ◌∙◌, Bool, true, false, ◌&&◌, List, [], ◌∷◌, any, filter,
  length, ltb, ◌==◌, Bool-cases, and_iff, or_iff, ==_iff, arith,
}
use rust_pois.Rbac.{contains_id, Link, group_link_matches, linked}

-- Published to one of these groups.
abbrev pub SharedTo : List Link → ℕ → List ℕ → Type 0
SharedTo links id groups = (g : ℕ) × (contains_id groups g ≡ true) × (linked links id g ≡ true)

count-any {ℓ} : {A : Type ℓ} (p : A → Bool) (xs : List A) → ltb 0 (length (filter p xs)) ≡ any p xs
count-any p [] = refl
count-any p (x ∷ xs) = elim (Bool-cases (p x)) [
  | inl e ↦ rw e (ground arith)
  | inr e ↦ rw e (count-any p xs)
]

abbrev pub hits : ℕ → List ℕ → Link → Bool
hits id groups l = (l.resource_id == id) && contains_id groups l.group_id

pub no_group : (id : ℕ) (links : List Link) → any (hits id []) links ≡ false
no_group id [] = refl
no_group id (l ∷ ls) = elim (Bool-cases (l.resource_id == id)) [
  | inl e ↦ rw e (no_group id ls)
  | inr e ↦ rw e (no_group id ls)
]

pub group_link_matches-any :
    (links : List Link) (id : ℕ) (groups : List ℕ)
    → group_link_matches links id groups ≡ any (hits id groups) links
unfolding group_link_matches
group_link_matches-any links id [] = sym (no_group id links)
group_link_matches-any links id (g ∷ gs) = count-any (hits id (g ∷ gs)) links

any→SharedTo :
    (links : List Link) (id : ℕ) (groups : List ℕ)
    → any (hits id groups) links ≡ true
    → SharedTo links id groups
unfolding linked
any→SharedTo [] id groups h = cc
any→SharedTo (l ∷ ls) id groups h =
    elim ((or_iff (hits id groups l) (any (hits id groups) ls)).0 h) [
      | inl now ↦
          let (same, mine) =
            (and_iff (l.resource_id == id) (contains_id groups l.group_id)).0 now in
          (
            l.group_id,
            mine,
            (or_iff _ _).1 (inl ((and_iff _ _).1 (same, (==_iff l.group_id l.group_id).1 refl))),
          )
      | inr then' ↦
          let (g, mine, there) = any→SharedTo ls id groups then' in
          (g, mine, (or_iff _ _).1 (inr there))
    ]

SharedTo→any :
    (links : List Link) (id : ℕ) (groups : List ℕ) (g : ℕ)
    → contains_id groups g ≡ true
    → linked links id g ≡ true
    → any (hits id groups) links ≡ true
unfolding linked
SharedTo→any [] id groups g mine h = cc
SharedTo→any (l ∷ ls) id groups g mine h =
    elim ((or_iff ((l.resource_id == id) && (l.group_id == g)) _).0 h) [
      | inl now ↦
          let (same, at) = (and_iff (l.resource_id == id) (l.group_id == g)).0 now in
          (or_iff _ _).1 (
            inl
              ((and_iff _ _).1 (same, ap (contains_id groups) ((==_iff l.group_id g).0 at) ∙ mine)))
      | inr then' ↦ (or_iff _ _).1 (inr (SharedTo→any ls id groups g mine then'))
    ]

pub group_link_matches_iff :
    (links : List Link) (id : ℕ) (groups : List ℕ)
    → (group_link_matches links id groups ≡ true) ↔ SharedTo links id groups
group_link_matches_iff links id groups =
    let e = group_link_matches-any links id groups in
    (
      (λ h. any→SharedTo links id groups (sym e ∙ h)),
      (λ (g, mine, there). e ∙ SharedTo→any links id groups g mine there),
    )
