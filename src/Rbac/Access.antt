-- ===== src/Rbac/Access.antt =====
-- The documented access model of src/rbac.rs, and the code's decisions.
use rust_pois.Prelude.{
  ℕ, ◌≤◌, ◌≡◌, ◌↔◌, ◌⊎◌, inl, inr, refl, sym, ap, ap₂, ◌∙◌, Bool, true, false, not, ◌&&◌, ◌||◌,
  Option, none, some, List, [], ◌∷◌, any, ◌==◌, ◌!=◌, if◌then◌else◌, or_iff, arith, Text, codes,
  text_eq, unwrap_or,
}
use rust_pois.Rbac.Decisions.{MayReadRow, MayWriteRow, readable_row_iff, writable_row_iff}
use rust_pois.Rbac.Rows.{Live, UniqueIds, find_row-Live, Live-find_row}
use rust_pois.Rbac.Published.{hits, no_group, group_link_matches-any}
use rust_pois.Rbac.{
  Eff, contains_id, Resource, Member, Entity, is_nil, group_link_matches, find_row, owned_by,
  readable_row, can_read, writable_row, can_write, read_predicate, groups_of, admin_groups_of,
  effective,
}

-- A row that is not deleted and that the caller owns, or that is global, or that is published to a
-- group of theirs.
abbrev pub MayRead : Entity → Eff → ℕ → Type 0
MayRead e eff id =
    (eff.super_admin ≡ true)
    ⊎ ((row : Resource) × Live e.resources id row × MayReadRow eff e.links id row)

-- A row that is not deleted and that the caller owns or administers a group of.
abbrev pub MayWrite : Entity → Eff → ℕ → Type 0
MayWrite e eff id =
    (eff.super_admin ≡ true)
    ⊎ ((row : Resource) × Live e.resources id row × MayWriteRow eff e.links id row)

-- A super admin, or a row that is found and passes.
found_row_iff :
    (super : Bool) (found : Option Resource) (f : Option Resource → Bool) (P : Resource → Type 0)
    → f none ≡ false
    → ((row : Resource) → (f (some row) ≡ true) ↔ P row)
    → ((if super then true else f found) ≡ true)
      ↔ ((super ≡ true) ⊎ ((row : Resource) × (found ≡ some row) × P row))
found_row_iff true found f P n k = ((λ h. inl refl), (λ h. refl))
found_row_iff false none f P n k =
    ((λ h. cc (n, h)), (λ s. elim s [ inl t ↦ cc t | inr (row, e, p) ↦ cc e ]))
found_row_iff false (some row) f P n k = (
  (λ h. inr (row, refl, (k row).0 h)),
  (λ s. elim s [
    | inl t ↦ cc t
    | inr (row', e, p) ↦
        let same : row ≡ row' = cc e in ap (λ (r : Resource). f (some r)) same ∙ (k row').1 p
  ]),
)

-- What the decisions come to, for the row that is found.
can_read-found :
    (e : Entity) (eff : Eff) (id : ℕ)
    → (can_read e eff id ≡ true) ↔ (
        (eff.super_admin ≡ true)
        ⊎ ((row : Resource) × (find_row id e.resources ≡ some row) × MayReadRow eff e.links id row))
unfolding can_read
can_read-found e eff id =
    found_row_iff eff.super_admin (find_row id e.resources) (readable_row eff e.links id) _ refl
      (readable_row_iff eff e.links id)

can_write-found :
    (e : Entity) (eff : Eff) (id : ℕ)
    → (can_write e eff id ≡ true) ↔ (
        (eff.super_admin ≡ true)
        ⊎ ((row : Resource) × (find_row id e.resources ≡ some row)
            × MayWriteRow eff e.links id row))
unfolding can_write
can_write-found e eff id =
    found_row_iff eff.super_admin (find_row id e.resources) (writable_row eff e.links id) _ refl
      (writable_row_iff eff e.links id)

-- Where the ids are unique, the row that is found is the row that is not deleted.
found-Live :
    (e : Entity) (eff : Eff) (id : ℕ) (decision : Bool) (P : Resource → Type 0)
    → UniqueIds e.resources
    → (decision ≡ true) ↔ (
        (eff.super_admin ≡ true)
        ⊎ ((row : Resource) × (find_row id e.resources ≡ some row) × P row))
    → (decision ≡ true)
      ↔ ((eff.super_admin ≡ true) ⊎ ((row : Resource) × Live e.resources id row × P row))
found-Live e eff id decision P unique (to, from) = (
  (λ h. elim (to h) [
    | inl super ↦ inl super
    | inr (row, found, p) ↦ inr (row, find_row-Live id e.resources row found, p)
  ]),
  (λ s. elim s [
    | inl super ↦ from (inl super)
    | inr (row, live, p) ↦ from (inr (row, Live-find_row id e.resources row unique live, p))
  ]),
)

-- Where the ids of the rows are different, `can_read` decides the documented READ rule: a super admin, or
-- a row of the table with that id that is not deleted and that the caller owns, that is global, or that is
-- published to a group of the caller.
pub can_read_iff :
    (e : Entity) (eff : Eff) (id : ℕ)
    → UniqueIds e.resources
    → (can_read e eff id ≡ true) ↔ MayRead e eff id
can_read_iff e eff id unique =
    found-Live e eff id (can_read e eff id) (MayReadRow eff e.links id) unique
      (can_read-found e eff id)

-- Where the ids of the rows are different, `can_write` decides the documented WRITE rule: a super admin, or
-- a row of the table with that id that is not deleted and that the caller owns or that is published to a
-- group the caller administers.
pub can_write_iff :
    (e : Entity) (eff : Eff) (id : ℕ)
    → UniqueIds e.resources
    → (can_write e eff id ≡ true) ↔ MayWrite e eff id
can_write_iff e eff id unique =
    found-Live e eff id (can_write e eff id) (MayWriteRow eff e.links id) unique
      (can_write-found e eff id)

admins-members :
    (uid : ℕ) (ms : List Member) (g : ℕ)
    → contains_id (admin_groups_of uid ms) g ≡ true
    → contains_id (groups_of uid ms) g ≡ true
unfolding admin_groups_of groups_of
admins-members uid [] g h = h
admins-members uid (m ∷ ms) g h =
    step (m.user_id == uid) (text_eq m.role (codes "admin")) (admin_groups_of uid ms)
      (groups_of uid ms) (admins-members uid ms g) h
  where
    step :
        (a b : Bool) (xs ys : List ℕ)
        → (contains_id xs g ≡ true → contains_id ys g ≡ true)
        → contains_id (if a && b then m.group_id ∷ xs else xs) g ≡ true
        → contains_id (if a then m.group_id ∷ ys else ys) g ≡ true
    step false b xs ys k h = k h
    step true false xs ys k h = (or_iff (m.group_id == g) _).1 (inr (k h))
    step true true xs ys k h = elim ((or_iff (m.group_id == g) (contains_id xs g)).0 h) [
      | inl now ↦ (or_iff _ _).1 (inl now)
      | inr then' ↦ (or_iff _ _).1 (inr (k then'))
    ]

-- Whoever may write a resource may read it, with the identity that `effective` makes of the members.
pub can_write-can_read :
    (e : Entity) (members : List Member) (sub : Option ℕ) (role : Text) (id : ℕ)
    → can_write e (effective members sub role) id ≡ true
    → can_read e (effective members sub role) id ≡ true
unfolding effective
can_write-can_read e members sub role id h =
    let eff = effective members sub role in
    (can_read-found e eff id).1 (elim ((can_write-found e eff id).0 h) [
      | inl super ↦ inl super
      | inr (row, found, inl mine) ↦ inr (row, found, inr (inl mine))
      | inr (row, found, inr (g, admin, there)) ↦
          inr (row, found, inr (inr (g, admins-members (unwrap_or sub 0) members g admin, there)))
    ])

-- The filter of a list query agrees with `can_read` on a row that its id finds, where is_global is 0
-- or 1.
pub read_predicate-can_read :
    (e : Entity) (eff : Eff) (row : Resource)
    → find_row row.id e.resources ≡ some row
    → row.is_global ≤ 1
    → read_predicate eff e.links row ≡ can_read e eff row.id
unfolding read_predicate can_read
read_predicate-can_read e eff row found flag =
    let global : (row.is_global == 1) ≡ (row.is_global != 0) = ground arith in
    let matches : (not (is_nil eff.member_of) && any (hits row.id eff.member_of) e.links)
        ≡ group_link_matches e.links row.id eff.member_of =
      nonempty eff.member_of ∙ sym (group_link_matches-any e.links row.id eff.member_of) in
    ap (λ (t : Bool). if eff.super_admin then true else t)
      (ap₂ (λ (a m : Bool). owned_by eff.uid row.owner_user_id || (a || m)) global matches
        ∙ reorder (owned_by eff.uid row.owner_user_id) (row.is_global != 0)
            (group_link_matches e.links row.id eff.member_of)
        ∙ ap (readable_row eff e.links row.id) (sym found))
  where
    nonempty :
        (ids : List ℕ)
        → (not (is_nil ids) && any (hits row.id ids) e.links) ≡ any (hits row.id ids) e.links
    nonempty [] = sym (no_group row.id e.links)
    nonempty (i ∷ ids) = refl

    reorder : (o a m : Bool) → (o || (a || m)) ≡ (if a || o then true else m)
    reorder true true m = refl
    reorder true false m = refl
    reorder false true m = refl
    reorder false false m = refl
