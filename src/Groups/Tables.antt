-- ===== src/Groups/Tables.antt =====
-- What the tables of the groups always satisfy, and the changes of a table that keep it.
use rust_pois.Prelude.{
  ℕ, ◌<◌, ◌≡◌, refl, ap, ap₂, ◌∙◌, Bool, true, false, ◌||◌, List, [], ◌∷◌, any, filter, ◌==◌,
  if◌then◌else◌, Text, All, arith, if_holds,
}
use rust_pois.Rbac.{Member}
use rust_pois.Groups.{Group, User, Db, is_key, is_role, upsert_member, update_where}

-- No row with this primary key.
abbrev pub NoKey : ℕ → ℕ → List Member → Type 0
NoKey id uid ms = All (λ (m : Member). is_key id uid m ≡ false) ms

abbrev pub Unique : List Member → Type 0
Unique [] = Unit
Unique (m ∷ ms) = NoKey m.group_id m.user_id ms × Unique ms

abbrev pub has_group : List Group → ℕ → Bool
has_group groups id = any (λ (g : Group). g.id == id) groups

abbrev pub has_user : List User → ℕ → Bool
has_user users id = any (λ (u : User). u.id == id) users

-- A member's role is one of the two, and its group and its user are there.
abbrev pub IsMember : List Group → List User → Member → Type 0
IsMember groups users m =
    (is_role m.role ≡ true)
    × (has_group groups m.group_id ≡ true)
    × (has_user users m.user_id ≡ true)

abbrev pub UniqueIds : List Group → Type 0
UniqueIds [] = Unit
UniqueIds (g ∷ gs) = (has_group gs g.id ≡ false) × UniqueIds gs

pub record WellFormed (db : Db) : Type 0 where
  pub keys : Unique db.members
  pub rows : All (IsMember db.groups db.users) db.members
  pub ids : UniqueIds db.groups
  pub fresh : All (λ (g : Group). g.id < db.next_group) db.groups

module _ {A : Type 0} where
  pub All-map {κ λ'} :
      {P : A → Type κ} {Q : A → Type λ'}
      → ((a : A) → P a → Q a)
      → (xs : List A) → All P xs
      → All Q xs
  All-map f [] h = tt
  All-map f (x ∷ xs) h = (f x h.0, All-map f xs h.1)

  pub All-filter {κ} :
      (P : A → Type κ) (p : A → Bool) (xs : List A) → All P xs → All P (filter p xs)
  All-filter P p [] h = tt
  All-filter P p (x ∷ xs) h =
      if_holds (All P) (p x) (λ _. (h.0, All-filter P p xs h.1)) (λ _. All-filter P p xs h.1)

  pub All-update_where {κ} :
      (P : A → Type κ) (p : A → Bool) (f : A → A) (xs : List A)
      → ((a : A) → P a → P (f a))
      → All P xs
      → All P (update_where p f xs)
  All-update_where P p f [] k h = tt
  All-update_where P p f (x ∷ xs) k h =
      (if_holds P (p x) (λ _. k x h.0) (λ _. h.0), All-update_where P p f xs k h.1)

pub Unique-filter : (p : Member → Bool) (ms : List Member) → Unique ms → Unique (filter p ms)
Unique-filter p [] h = tt
Unique-filter p (m ∷ ms) h =
    if_holds Unique (p m) (λ _. (All-filter _ p ms h.0, Unique-filter p ms h.1))
      (λ _. Unique-filter p ms h.1)

module _ (id uid : ℕ) (role : Text) where
  pub All-upsert {κ} :
      (P : Member → Type κ) (ms : List Member)
      → P (record { group_id = id; user_id = uid; role = role })
      → ((m : Member) → is_key id uid m ≡ true → P m → P (record m { role = role }))
      → All P ms
      → All P (upsert_member id uid role ms)
  unfolding upsert_member
  All-upsert P [] new k h = (new, tt)
  All-upsert P (m ∷ ms) new k h =
      if_holds (All P) (is_key id uid m) (λ e. (k m e h.0, h.1))
        (λ _. (h.0, All-upsert P ms new k h.1))

  pub Unique-upsert : (ms : List Member) → Unique ms → Unique (upsert_member id uid role ms)
  unfolding upsert_member
  Unique-upsert [] h = (tt, tt)
  Unique-upsert (m ∷ ms) h =
      if_holds Unique (is_key id uid m) (λ _. h)
        (λ e. (
          All-upsert (λ (n : Member). is_key m.group_id m.user_id n ≡ false) ms (ground arith)
              (λ n _ k. k) h.0,
          Unique-upsert ms h.1,
        ))

-- An update that keeps the ids.
module _ (p : Group → Bool) (f : Group → Group) (same : (g : Group) → (f g).id ≡ g.id) where
  updated_id : (g : Group) → (if p g then f g else g).id ≡ g.id
  updated_id g = if_holds (λ (g' : Group). g'.id ≡ g.id) (p g) (λ _. same g) (λ _. refl)

  pub has_group-update :
      (id : ℕ) (gs : List Group) → has_group (update_where p f gs) id ≡ has_group gs id
  has_group-update id [] = refl
  has_group-update id (g ∷ gs) =
      ap₂ (λ (a : ℕ) (b : Bool). (a == id) || b) (updated_id g) (has_group-update id gs)

  pub UniqueIds-update : (gs : List Group) → UniqueIds gs → UniqueIds (update_where p f gs)
  UniqueIds-update [] h = tt
  UniqueIds-update (g ∷ gs) h = (
    has_group-update _ gs ∙ ap (λ (i : ℕ). has_group gs i) (updated_id g) ∙ h.0,
    UniqueIds-update gs h.1,
  )

-- No group has the next id.
pub fresh_id : (n : ℕ) (gs : List Group) → All (λ (g : Group). g.id < n) gs → has_group gs n ≡ false
fresh_id n [] h = refl
fresh_id n (g ∷ gs) h =
    let rest = fresh_id n gs h.1 in
    let here : (g.id == n) ≡ false = (let lt = h.0 in ground arith) in rw (here, rest) refl
