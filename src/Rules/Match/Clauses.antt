-- ===== src/Rules/Match/Clauses.antt =====
-- The meaning of the two clauses of a match object.
use rust_pois.Prelude.{
  ◌≡◌, ◌↔◌, ◌⊎◌, inl, inr, refl, sym, ap, subst, ◌∙◌, Bool, true, false, ◌||◌, Option, none, some,
  List, [], ◌∷◌, if◌then◌else◌, or_iff, and_iff, Text,
}
use rust_pois.Json.{Value, Fields, Items, lookup, get, get_str, as_str, as_array}
use rust_pois.Rules.Glob.{glob_match}
use rust_pois.Rules.Glob.Spec.{Matches}
use rust_pois.Rules.Glob.Correct.{glob_match_iff}
use rust_pois.Rules.Match.{
  fact, eval, any_item, all_items, is_some_and, no_clause, clause, rule_matches,
}

-- One condition of a list holds.
pub data Some (P : Value → Type 0) : Items → Type 0 where
  here : {v : Value} {rest : Items} → P v → Some P (Items.cons v rest)
  later : {v : Value} {rest : Items} → Some P rest → Some P (Items.cons v rest)

-- All of them do.
pub data Every (P : Value → Type 0) : Items → Type 0 where
  nothing : Every P Items.nil
  each : {v : Value} {rest : Items} → P v → Every P rest → Every P (Items.cons v rest)

-- The documented semantics: a catch-all without clauses, or one of the clauses holds.
abbrev pub IsMatch : (Value → Type 0) → Option Items → Option Items → Type 0
IsMatch P any_of all_of =
    ((any_of ≡ none) × (all_of ≡ none))
    ⊎ ((xs : Items) × (any_of ≡ some xs) × Some P xs)
    ⊎ ((xs : Items) × (all_of ≡ some xs) × Every P xs)

module _ (p : Value → Bool) where
  abbrev Holds : Value → Type 0
  Holds v = p v ≡ true

  any_item→Some : (xs : Items) → any_item p xs ≡ true → Some Holds xs
  unfolding any_item
  any_item→Some Items.nil h = cc
  any_item→Some (Items.cons v rest) h = elim ((or_iff (p v) (any_item p rest)).0 h) [
    | inl now ↦ here now
    | inr then' ↦ later (any_item→Some rest then')
  ]

  Some→any_item : {xs : Items} → Some Holds xs → any_item p xs ≡ true
  unfolding any_item
  Some→any_item (here {v = v} {rest = rest} h) = (or_iff (p v) (any_item p rest)).1 (inl h)
  Some→any_item (later {v = v} {rest = rest} h) =
      (or_iff (p v) (any_item p rest)).1 (inr (Some→any_item h))

  all_items→Every : (xs : Items) → all_items p xs ≡ true → Every Holds xs
  unfolding all_items
  all_items→Every Items.nil h = nothing
  all_items→Every (Items.cons v rest) h =
      let both = (and_iff (p v) (all_items p rest)).0 h in each both.0 (all_items→Every rest both.1)

  Every→all_items : {xs : Items} → Every Holds xs → all_items p xs ≡ true
  unfolding all_items
  Every→all_items nothing = refl
  Every→all_items (each {v = v} {rest = rest} h t) =
      (and_iff (p v) (all_items p rest)).1 (h, Every→all_items t)

  abbrev decide_clauses : Option Items → Option Items → Bool
  decide_clauses any_of all_of =
      if no_clause any_of all_of
      then true
      else is_some_and any_of (any_item p) || is_some_and all_of (all_items p)

  clauses→IsMatch :
      (any_of all_of : Option Items)
      → decide_clauses any_of all_of ≡ true
      → IsMatch Holds any_of all_of
  clauses→IsMatch none none h = inl (refl, refl)
  clauses→IsMatch none (some ys) h = inr (inr (ys, refl, all_items→Every ys h))
  clauses→IsMatch (some xs) none h = elim ((or_iff (any_item p xs) false).0 h) [
    | inl a ↦ inr (inl (xs, refl, any_item→Some xs a))
    | inr b ↦ cc
  ]
  clauses→IsMatch (some xs) (some ys) h = elim ((or_iff (any_item p xs) (all_items p ys)).0 h) [
    | inl a ↦ inr (inl (xs, refl, any_item→Some xs a))
    | inr b ↦ inr (inr (ys, refl, all_items→Every ys b))
  ]

  IsMatch→clauses :
      (any_of all_of : Option Items)
      → IsMatch Holds any_of all_of
      → decide_clauses any_of all_of ≡ true
  IsMatch→clauses none none h = refl
  IsMatch→clauses none (some ys) (inl e) = cc (e.1)
  IsMatch→clauses none (some ys) (inr (inl (xs, e, m))) = cc
  IsMatch→clauses none (some ys) (inr (inr (zs, e, m))) =
      ap (all_items p) (let same : ys ≡ zs = cc in same) ∙ Every→all_items m
  IsMatch→clauses (some xs) none (inl e) = cc (e.0)
  IsMatch→clauses (some xs) none (inr (inl (zs, e, m))) =
      (or_iff (any_item p xs) false).1
        (inl (ap (any_item p) (let same : xs ≡ zs = cc in same) ∙ Some→any_item m))
  IsMatch→clauses (some xs) none (inr (inr (zs, e, m))) = cc
  IsMatch→clauses (some xs) (some ys) (inl e) = cc (e.0)
  IsMatch→clauses (some xs) (some ys) (inr (inl (zs, e, m))) =
      (or_iff (any_item p xs) (all_items p ys)).1
        (inl (ap (any_item p) (let same : xs ≡ zs = cc in same) ∙ Some→any_item m))
  IsMatch→clauses (some xs) (some ys) (inr (inr (zs, e, m))) =
      (or_iff (any_item p xs) (all_items p ys)).1
        (inr (ap (all_items p) (let same : ys ≡ zs = cc in same) ∙ Every→all_items m))

-- A rule matches exactly when it has neither clause, or some condition of anyOf holds, or there is
-- an allOf whose conditions all hold.
pub rule_matches_iff :
    (match_json : Value) (facts : Fields)
    → (rule_matches match_json facts ≡ true)
      ↔ IsMatch (λ c. eval c facts ≡ true) (clause "anyOf" match_json) (clause "allOf" match_json)
unfolding rule_matches
rule_matches_iff m facts =
    (clauses→IsMatch (λ c. eval c facts) _ _, IsMatch→clauses (λ c. eval c facts) _ _)

-- `{"anyOf": [{"acquisitionSignalID": pat}, …]}`
abbrev pub id_conditions : List Text → Items
id_conditions [] = Items.nil
id_conditions (pat ∷ pats) =
    Items.cons (Value.object (Fields.field "acquisitionSignalID" (Value.string pat) Fields.end))
      (id_conditions pats)

abbrev pub id_rule : List Text → Value
id_rule pats = Value.object (Fields.field "anyOf" (Value.array (id_conditions pats)) Fields.end)

pub data SomePattern (text : Text) : List Text → Type 0 where
  first : {pat : Text} {pats : List Text} → Matches pat text → SomePattern text (pat ∷ pats)
  rest : {pat : Text} {pats : List Text} → SomePattern text pats → SomePattern text (pat ∷ pats)

module _ (facts : Fields) (signal : Text)
    (known : lookup "acquisitionSignalID" facts ≡ some (Value.string signal)) where
  fact-known : fact "acquisitionSignalID" facts ≡ some signal
  unfolding fact as_str
  fact-known = rw known

  eval-id :
      (pat : Text)
      → eval (Value.object (Fields.field "acquisitionSignalID" (Value.string pat) Fields.end)) facts
        ≡ glob_match pat signal
  unfolding eval get get_str as_str
  eval-id pat = rw fact-known

  Some→SomePattern :
      (pats : List Text)
      → Some (λ c. eval c facts ≡ true) (id_conditions pats)
      → SomePattern signal pats
  Some→SomePattern [] h = elim h [ ]
  Some→SomePattern (pat ∷ pats) (here h) =
      first ((glob_match_iff pat signal).0 (sym (eval-id pat) ∙ h))
  Some→SomePattern (pat ∷ pats) (later h) = rest (Some→SomePattern pats h)

  SomePattern→Some :
      {pats : List Text}
      → SomePattern signal pats
      → Some (λ c. eval c facts ≡ true) (id_conditions pats)
  SomePattern→Some (first {pat = pat} m) = here (eval-id pat ∙ (glob_match_iff pat signal).1 m)
  SomePattern→Some (rest m) = later (SomePattern→Some m)

  clauses_of_id_rule :
      (pats : List Text)
      → (clause "anyOf" (id_rule pats) ≡ some (id_conditions pats))
        × (clause "allOf" (id_rule pats) ≡ none)
  unfolding clause get as_array
  clauses_of_id_rule pats = (refl, refl)

  -- For a signal with a known acquisitionSignalID, a rule whose anyOf lists id patterns matches exactly
  -- when one of the patterns stands for the id.
  pub id_rule_iff :
      (pats : List Text) → (rule_matches (id_rule pats) facts ≡ true) ↔ SomePattern signal pats
  id_rule_iff pats =
      let (any_at, all_at) = clauses_of_id_rule pats in
      let iff = rule_matches_iff (id_rule pats) facts in
      (
        (λ t.
            inverted (clause "anyOf" (id_rule pats)) (clause "allOf" (id_rule pats)) any_at all_at
              (iff.0 t)),
        (λ m. iff.1 (inr (inl (id_conditions pats, any_at, SomePattern→Some m)))),
      )
    where
      inverted :
          (any_of all_of : Option Items)
          → any_of ≡ some (id_conditions pats)
          → all_of ≡ none
          → IsMatch (λ c. eval c facts ≡ true) any_of all_of
          → SomePattern signal pats
      inverted any_of all_of a b (inl e) = absurd (let bad : ⊥ = cc (a, e.0) in bad)
      inverted any_of all_of a b (inr (inl (xs, e, m))) = Some→SomePattern pats (
          subst (λ (l : Items). Some (λ c. eval c facts ≡ true) l)
            (let same : xs ≡ id_conditions pats = cc in same) m)
      inverted any_of all_of a b (inr (inr (xs, e, m))) = absurd (let bad : ⊥ = cc (b, e) in bad)
