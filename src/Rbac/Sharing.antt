-- ===== src/Rbac/Sharing.antt =====
-- What publishing a resource does to the links.
use rust_pois.Prelude.{
  ℕ, ◌≡◌, refl, sym, ap, ap₂, ◌∙◌, Bool, true, false, not, ◌&&◌, ◌||◌, Option, none, some, List, [],
  ◌∷◌, filter, ◌==◌, if◌then◌else◌, Bool-cases, inl, inr, and_iff, ==_iff, arith,
}
use rust_pois.Rbac.{
  Link, Entity, contains_id, linked, foreign_keys, insert_link, link_groups, delete_links,
  set_groups_scoped,
}

-- The groups whose links the caller may replace.
abbrev pub managed : Option (List ℕ) → ℕ → Bool
managed none g = true
managed (some scope) g = contains_id scope g

==_comm : (a b : ℕ) → (a == b) ≡ (b == a)
==_comm a b = ground arith

or_nothing : (a b : Bool) → a ≡ (a || (b && false))
or_nothing true b = refl
or_nothing false true = refl
or_nothing false false = refl

insert_if :
    (there keys : Bool) (e : Entity) (id g i h : ℕ)
    → (there ≡ true → ((id == i) && (g == h)) ≡ true → linked e.links i h ≡ true)
    → linked
        (if there || not keys
          then e
          else record e { links = record { resource_id = id; group_id = g } ∷ e.links }).links
        i
        h
      ≡ (linked e.links i h || (((id == i) && (g == h)) && keys))
unfolding linked
insert_if true keys e id g i h k = absorb (linked e.links i h) ((id == i) && (g == h)) keys (k refl)
  where
    absorb : (a b c : Bool) → (b ≡ true → a ≡ true) → a ≡ (a || (b && c))
    absorb true b c k = refl
    absorb false false c k = refl
    absorb false true c k = cc (k refl)
insert_if false true e id g i h k = flip ((id == i) && (g == h)) (linked e.links i h)
  where
    flip : (a b : Bool) → (a || b) ≡ (b || (a && true))
    flip true true = refl
    flip true false = refl
    flip false true = refl
    flip false false = refl
insert_if false false e id g i h k = or_nothing (linked e.links i h) ((id == i) && (g == h))

insert_link-links :
    (e : Entity) (id g i h : ℕ)
    → linked (insert_link e id g).links i h
      ≡ (linked e.links i h || (((id == i) && (g == h)) && foreign_keys e id g))
unfolding insert_link
insert_link-links e id g i h =
    insert_if (linked e.links id g) (foreign_keys e id g) e id g i h (λ there here.
      let (at, of) = (and_iff (id == i) (g == h)).0 here in
      ap₂ (λ (a b : ℕ). linked e.links a b) (sym ((==_iff id i).0 at)) (sym ((==_iff g h).0 of))
      ∙ there)

delete_if :
    (w z : Bool) (l : Link) (ls : List Link) (i h : ℕ) (rest : Bool)
    → (((l.resource_id == i) && (l.group_id == h)) ≡ true → w ≡ z)
    → linked ls i h ≡ (rest && not z)
    → linked (if not w then l ∷ ls else ls) i h
      ≡ ((((l.resource_id == i) && (l.group_id == h)) || rest) && not z)
unfolding linked
delete_if true z l ls i h rest k e = e ∙ gone ((l.resource_id == i) && (l.group_id == h)) rest z k
  where
    gone : (q rest z : Bool) → (q ≡ true → true ≡ z) → (rest && not z) ≡ ((q || rest) && not z)
    gone false rest z k = refl
    gone true true true k = refl
    gone true false true k = refl
    gone true rest false k = cc (k refl)
delete_if false z l ls i h rest k e =
    ap (λ (t : Bool). ((l.resource_id == i) && (l.group_id == h)) || t) e
    ∙ kept ((l.resource_id == i) && (l.group_id == h)) rest z k
  where
    kept :
        (q rest z : Bool) → (q ≡ true → false ≡ z) → (q || (rest && not z)) ≡ ((q || rest) && not z)
    kept false rest z k = refl
    kept true rest false k = refl
    kept true rest true k = cc (k refl)

delete_links-links :
    (links : List Link) (id : ℕ) (dropped : ℕ → Bool) (i h : ℕ)
    → linked (filter (λ (l : Link). not ((l.resource_id == id) && dropped l.group_id)) links) i h
      ≡ (linked links i h && not ((i == id) && dropped h))
unfolding linked
delete_links-links [] id dropped i h = refl
delete_links-links (l ∷ ls) id dropped i h =
    delete_if ((l.resource_id == id) && dropped l.group_id) ((i == id) && dropped h) l _ i h
      (linked ls i h)
      (λ here.
        let (at, of) = (and_iff (l.resource_id == i) (l.group_id == h)).0 here in
        ap₂ (λ (a b : ℕ). (a == id) && dropped b) ((==_iff l.resource_id i).0 at)
          ((==_iff l.group_id h).0 of))
      (delete_links-links ls id dropped i h)

insert_link-keys :
    (e : Entity) (id g i h : ℕ) → foreign_keys (insert_link e id g) i h ≡ foreign_keys e i h
unfolding insert_link
insert_link-keys e id g i h = elim (Bool-cases (linked e.links id g || not (foreign_keys e id g))) [
  | inl t ↦ rw t refl
  | inr t ↦ rw t refl
]

link_step :
    (l s now later k k' : Bool)
    → (now ≡ true → k ≡ k')
    → ((l || ((s && now) && k)) || (s && (later && k'))) ≡ (l || (s && ((now || later) && k')))
link_step true s now later k k' e = refl
link_step false false now later k k' e = refl
link_step false true false later k k' e = refl
link_step false true true later k k' e =
    ap (λ (t : Bool). t || (later && k')) (e refl) ∙ twice later k'
  where
    twice : (later k : Bool) → (k || (later && k)) ≡ k
    twice later true = refl
    twice true false = refl
    twice false false = refl

pub link_groups-links :
    (desired : List ℕ) (e : Entity) (id i h : ℕ)
    → linked (link_groups e id desired).links i h
      ≡ (linked e.links i h || ((i == id) && (contains_id desired h && foreign_keys e id h)))
unfolding link_groups
link_groups-links [] e id i h = or_nothing (linked e.links i h) (i == id)
link_groups-links (g ∷ gs) e id i h =
    let first : linked (insert_link e id g).links i h
        ≡ (linked e.links i h || (((i == id) && (g == h)) && foreign_keys e id g)) =
      insert_link-links e id g i h
      ∙ ap (λ (t : Bool). linked e.links i h || ((t && (g == h)) && foreign_keys e id g))
          (==_comm id i) in
    link_groups-links gs (insert_link e id g) id i h
    ∙ ap₂ (λ (a b : Bool). a || ((i == id) && (contains_id gs h && b))) first
        (insert_link-keys e id g id h)
    ∙ link_step (linked e.links i h) (i == id) (g == h) (contains_id gs h) (foreign_keys e id g)
        (foreign_keys e id h) (λ here. ap (λ (t : ℕ). foreign_keys e id t) ((==_iff g h).0 here))

-- After `set_groups_scoped` a resource `i` is linked to a group `h` exactly when it was before and the
-- call does not manage that link, or the call is about `i`, wants `h`, and both of them exist.
pub set_groups_scoped-links :
    (e : Entity) (id : ℕ) (desired : List ℕ) (manageable : Option (List ℕ)) (i h : ℕ)
    → linked (set_groups_scoped e id desired manageable).links i h ≡ (
        (linked e.links i h && not ((i == id) && managed manageable h))
        || ((i == id) && (contains_id desired h && foreign_keys e id h)))
unfolding set_groups_scoped delete_links
set_groups_scoped-links e id desired none i h =
    link_groups-links desired (delete_links e id (λ _. true)) id i h
    ∙ ap (λ (t : Bool). t || ((i == id) && (contains_id desired h && foreign_keys e id h)))
        (delete_links-links e.links id (λ _. true) i h)
set_groups_scoped-links e id desired (some []) i h =
    link_groups-links desired e id i h
    ∙ ap (λ (t : Bool). t || ((i == id) && (contains_id desired h && foreign_keys e id h)))
        (untouched (linked e.links i h) (i == id))
  where
    untouched : (a b : Bool) → a ≡ (a && not (b && false))
    untouched false b = refl
    untouched true true = refl
    untouched true false = refl
set_groups_scoped-links e id desired (some (g ∷ scope)) i h =
    link_groups-links desired (delete_links e id (λ t. contains_id (g ∷ scope) t)) id i h
    ∙ ap (λ (t : Bool). t || ((i == id) && (contains_id desired h && foreign_keys e id h)))
        (delete_links-links e.links id (λ t. contains_id (g ∷ scope) t) i h)
