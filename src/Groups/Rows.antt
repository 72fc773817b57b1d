-- ===== src/Groups/Rows.antt =====
-- src/rbac.rs: the tables of the groups, and the lists that are read from them.
use rust_pois.Prelude.{
  ℕ, Bool, not, ◌&&◌, Option, none, some, List, [], ◌∷◌, ◌++◌, filter, map, ◌==◌, if◌then◌else◌,
  Text, text_le,
}
use rust_pois.Rbac.{Eff, Member, Resource, Link, effective}

-- The status of a refusal.
pub data Refusal : Type 0 where
  bad_request forbidden not_found : Refusal

-- `Claims`: what `sub` parses to, and the role.
pub record Claims : Type 0 where
  pub sub : Option ℕ
  pub role : Text

pub record Group : Type 0 where
  pub id : ℕ
  pub name : Text
  pub description : Option Text
  pub deleted : Bool

-- A row of users, in the columns that are read here.
pub record User : Type 0 where
  pub id : ℕ
  pub username : Text

-- A table of resources with its link table.
pub record Shared : Type 0 where
  pub resources : List Resource
  pub links : List Link

-- The tables, and the id that AUTOINCREMENT gives next.
pub record Db : Type 0 where
  pub groups : List Group
  pub next_group : ℕ
  pub members : List Member
  pub users : List User
  pub channels : Shared
  pub projects : Shared
  pub templates : Shared

abbrev pub caller : Db → Claims → Eff
caller db claims = effective db.members claims.sub claims.role

-- `ORDER BY`, by a text of each row
unfoldable pub insert_by : {A : Type 0} → (A → Text) → A → List A → List A
insert_by key x [] = x ∷ []
insert_by key x (y ∷ ys) =
    let rest = insert_by key x ys in if text_le (key x) (key y) then x ∷ y ∷ ys else y ∷ rest

unfoldable pub order_by : {A : Type 0} → (A → Text) → List A → List A
unfolding insert_by
order_by key [] = []
order_by key (x ∷ xs) = insert_by key x (order_by key xs)

abbrev pub live_groups : List Group → List Group
live_groups groups = filter (λ (g : Group). not g.deleted) groups

-- `SELECT … FROM groups WHERE id = ? AND deleted_at IS NULL`
unfoldable pub find_group : ℕ → List Group → Option Group
find_group id [] = none
find_group id (g ∷ gs) = if (g.id == id) && not g.deleted then some g else find_group id gs

pub record GroupBrief : Type 0 where
  pub id : ℕ
  pub name : Text
  pub role : Text

-- The rows of the join of groups and group_members on the group, for one user.
unfoldable pub memberships : ℕ → List Member → Group → List GroupBrief
memberships uid [] g = []
memberships uid (m ∷ ms) g =
    let rest = memberships uid ms g in
    if (m.group_id == g.id) && (m.user_id == uid)
    then record { id = g.id; name = g.name; role = m.role } ∷ rest
    else rest

unfoldable pub join : {A B : Type 0} → (A → List B) → List A → List B
join f [] = []
join f (x ∷ xs) = f x ++ join f xs

unfoldable pub groups_brief : Db → ℕ → List GroupBrief
unfolding join memberships order_by
groups_brief db uid =
    order_by (λ (b : GroupBrief). b.name)
      (join (memberships uid db.members) (live_groups db.groups))

-- GET /api/me/groups
unfoldable pub my_groups : Db → Claims → Bool × List GroupBrief
unfolding groups_brief
my_groups db claims = let eff = caller db claims in (eff.super_admin, groups_brief db eff.uid)

-- GET /api/groups
unfoldable pub list_groups : Db → Claims → List Group
unfolding join memberships order_by
list_groups db claims =
    let eff = caller db claims in
    let of_user = λ (g : Group). map (λ (b : GroupBrief). g) (memberships eff.uid db.members g) in
    order_by (λ (g : Group). g.name)
      (if eff.super_admin then live_groups db.groups else join of_user (live_groups db.groups))
