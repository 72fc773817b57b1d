-- ===== src/Rbac/Rows.antt =====
-- The row that a query by id finds.
use mathlib.Core.List.{Memᴰ}
use rust_pois.Prelude.{
  All, subst, if_holds, and_iff, ==_iff, ℕ, ◌≡◌, ◌≢◌, refl, sym, ap, ◌∙◌, Bool, true, false, not,
  ◌&&◌, Option, some, List, [], ◌∷◌, ◌==◌, unwrap_or, arith,
}
use rust_pois.Rbac.{Resource, find_row}

-- The row with an id that is not deleted.
abbrev pub Live : List Resource → ℕ → Resource → Type 0
Live rows id row = Memᴰ row rows × (row.id ≡ id) × (row.deleted ≡ false)

-- The ids of a table's rows are different.
abbrev pub UniqueIds : List Resource → Type 0
UniqueIds [] = Unit
UniqueIds (r ∷ rows) = All (λ (s : Resource). s.id ≢ r.id) rows × UniqueIds rows

no_other :
    (rows : List Resource) (r row : Resource)
    → All (λ (s : Resource). s.id ≢ r.id) rows
    → Memᴰ row rows
    → row.id ≢ r.id
no_other [] r row apart m = elim m [ ]
no_other (s ∷ rows) r row apart m = elim m [
  | Memᴰ.head q ↦ subst (λ (t : Resource). t.id ≢ r.id) (sym q) apart.0
  | Memᴰ.tail k ↦ no_other rows r row apart.1 k
]

-- A row that is found is there, and is not deleted.
pub find_row-Live :
    (id : ℕ) (rows : List Resource) (row : Resource)
    → find_row id rows ≡ some row
    → Live rows id row
unfolding find_row
find_row-Live id [] row h = cc
find_row-Live id (r ∷ rows) row h =
    if_holds (λ (o : Option Resource). o ≡ some row → Live (r ∷ rows) id row)
      ((r.id == id) && not r.deleted)
      (λ test k.
        let same : r ≡ row = ap (λ o. unwrap_or o row) k in
        let (ids, kept) = (and_iff _ _).0 test in
        subst (Live (r ∷ rows) id) same
          (Memᴰ.head refl, (==_iff r.id id).0 ids, not_true r.deleted kept))
      (λ _ k. let (m, ids, kept) = find_row-Live id rows row k in (Memᴰ.tail m, ids, kept)) h
  where
    not_true : (b : Bool) → not b ≡ true → b ≡ false
    not_true true n = sym n
    not_true false n = refl

-- The row that is not deleted is found by its id.
pub Live-find_row :
    (id : ℕ) (rows : List Resource) (row : Resource)
    → UniqueIds rows
    → Live rows id row
    → find_row id rows ≡ some row
unfolding find_row
Live-find_row id [] row unique (m, ids, kept) = elim m [ ]
Live-find_row id (r ∷ rows) row unique (m, ids, kept) = elim m [
  | Memᴰ.head q ↦
      subst (λ (t : Resource). find_row id (t ∷ rows) ≡ some row) q
        (rw ((==_iff row.id id).1 ids, kept, find_row) refl)
  | Memᴰ.tail k ↦
      let apart = no_other rows r row unique.0 k in
      let other : (r.id == id) ≡ false =
        (let ne : r.id ≢ id = (λ e. apart (ids ∙ sym e)) in ground arith) in
      rw (other, find_row) (Live-find_row id rows row unique.1 (k, ids, kept))
]
