-- ===== src/Groups/Scope.antt =====
-- How far the sharing of a caller who is not a super-admin reaches.
use rust_pois.Prelude.{
  if_holds, ℕ, ◌≡◌, refl, ap, subst, ◌∙◌, Bool, true, false, not, ◌&&◌, ◌||◌, Option, none, some,
  List, [], ◌∷◌, all, ◌==◌, Text, Result, Bool-cases, inl, inr, and_iff, ==_iff,
}
use rust_pois.Rbac.{
  Eff, Entity, Resource, contains_id, can_write, linked, insert_link, link_groups, delete_links,
  set_groups_scoped, foreign_keys,
}
use rust_pois.Rbac.Sharing.{managed, set_groups_scoped-links}
use rust_pois.Groups.{Claims, Db, Shared, Refusal, caller}
use rust_pois.Groups.Share.{
  Kind, channel, project, template, set_share, share_as, share_tables, put_table, entity, reshare,
  toggle_global, manageable,
}

link_groups-resources :
    (e : Entity) (id : ℕ) (gs : List ℕ) → (link_groups e id gs).resources ≡ e.resources
unfolding link_groups insert_link
link_groups-resources e id [] = refl
link_groups-resources e id (g ∷ gs) =
    link_groups-resources (insert_link e id g) id gs
    ∙ if_holds (λ (e' : Entity). e'.resources ≡ e.resources)
        (linked e.links id g || not (foreign_keys e id g)) (λ _. refl) (λ _. refl)

set_groups_scoped-resources :
    (e : Entity) (id : ℕ) (gs : List ℕ) (scope : Option (List ℕ))
    → (set_groups_scoped e id gs scope).resources ≡ e.resources
unfolding set_groups_scoped delete_links
set_groups_scoped-resources e id gs none = link_groups-resources _ id gs
set_groups_scoped-resources e id gs (some []) = link_groups-resources _ id gs
set_groups_scoped-resources e id gs (some (g ∷ scope)) = link_groups-resources _ id gs

pub outside :
    (scope gs : List ℕ) (h : ℕ)
    → all (contains_id scope) gs ≡ true
    → contains_id scope h ≡ false
    → contains_id gs h ≡ false
outside scope [] h a k = refl
outside scope (g ∷ gs) h a k =
    let parts = (and_iff (contains_id scope g) (all (contains_id scope) gs)).0 a in
    let rest = outside scope gs h parts.1 k in
    elim (Bool-cases (g == h)) [
      | inr e ↦ rw (e, rest) refl
      | inl e ↦
          let bad : contains_id scope h ≡ true =
            subst (λ (n : ℕ). contains_id scope n ≡ true) ((==_iff g h).0 e) parts.0 in
          cc
    ]

settle : (a b : Bool) → ((a && not (b && false)) || (b && false)) ≡ a
settle true true = refl
settle true false = refl
settle false true = refl
settle false false = refl

allowed : (s a : Bool) → s ≡ false → (not s && not a) ≡ false → a ≡ true
allowed true a h k = cc
allowed false true h k = refl
allowed false false h k = cc

module _ (eff : Eff) (plain : eff.super_admin ≡ false) where
  toggle-plain :
      (g : Option Bool) (id : ℕ) (rows : List Resource)
      → toggle_global g eff.super_admin id rows ≡ rows
  unfolding toggle_global
  toggle-plain none id rows = refl
  toggle-plain (some b) id rows = rw plain refl

  reshare-resources :
      (id : ℕ) (gs : List ℕ) (g : Option Bool) (e : Entity)
      → (reshare eff id gs g e).resources ≡ e.resources
  unfolding reshare
  reshare-resources id gs g e =
      set_groups_scoped-resources _ id gs (manageable eff) ∙ toggle-plain g id e.resources

  reshare-links :
      (id : ℕ) (gs : List ℕ) (g : Option Bool) (e : Entity) (i h : ℕ)
      → all (contains_id eff.member_of) gs ≡ true
      → contains_id eff.member_of h ≡ false
      → linked (reshare eff id gs g e).links i h ≡ linked e.links i h
  unfolding reshare
  reshare-links id gs g e i h a k =
      let scope : manageable eff ≡ some eff.member_of = rw plain refl in
      let wanted = outside eff.member_of gs h a k in
      set_groups_scoped-links _ id gs (manageable eff) i h
      ∙ ap
          (λ (m : Option (List ℕ)).
            (linked e.links i h && not ((i == id) && managed m h))
            || ((i == id)
                && (contains_id gs h
                    && foreign_keys
                        (record e { resources = toggle_global g eff.super_admin id e.resources }) id
                        h)))
          scope
      ∙ rw (k, wanted) (settle (linked e.links i h) (i == id))

-- What a request leaves of the tables of one kind: the resources with their visibility, and the links
-- of every resource to the group.
abbrev pub Kept : Kind → Db → ℕ → ℕ → Db → Type 0
Kept k db i h db' =
    ((entity k db').resources ≡ (entity k db).resources)
    × (linked (entity k db').links i h ≡ linked (entity k db).links i h)

-- A caller who is not a super-admin changes, by sharing, neither whether a resource is global nor a link
-- to a group that they do not belong to.
pub set_share-Kept :
    (c : Claims) (kind : Text) (id : ℕ) (gs : List ℕ) (g : Option Bool) (db : Db) (k : Kind)
    (i h : ℕ)
    → (caller db c).super_admin ≡ false
    → contains_id (caller db c).member_of h ≡ false
    → Kept k db i h (set_share c kind id gs g db).1
unfolding set_share
set_share-Kept c kind id gs g db k i h plain apart = as_kind (share_tables kind)
  where
    moved :
        (k k' : Kind) (t : Shared)
        → t.resources ≡ (entity k' db).resources
        → linked t.links i h ≡ linked (entity k' db).links i h
        → Kept k db i h (put_table k' t db)
    moved channel channel t r l = (r, l)
    moved channel project t r l = (refl, refl)
    moved channel template t r l = (refl, refl)
    moved project channel t r l = (refl, refl)
    moved project project t r l = (r, l)
    moved project template t r l = (refl, refl)
    moved template channel t r l = (refl, refl)
    moved template project t r l = (refl, refl)
    moved template template t r l = (r, l)

    After : {A : Type 0} → Result Refusal A × Db → Type 0
    After r = Kept k db i h r.1

    as_kind : (o : Option Kind) → After (share_as c kind id gs g db o)
    as_kind none = (refl, refl)
    as_kind (some k') =
        if_holds After (not (can_write (entity k' db) (caller db c) id)) (λ _. (refl, refl))
          (λ _.
            if_holds After
              (not (caller db c).super_admin && not (all (contains_id (caller db c).member_of) gs))
              (λ _. (refl, refl))
              (λ inside.
                moved k k' _ (reshare-resources (caller db c) plain id gs g (entity k' db)) (
                  reshare-links (caller db c) plain id gs g (entity k' db) i h
                    (allowed _ _ plain inside) apart)))
