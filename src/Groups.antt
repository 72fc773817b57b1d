-- ===== src/Groups.antt =====
-- src/rbac.rs, the handlers of the groups, on the tables they read and write. A handler is given the
-- caller's token, as the user id its subject parses to and its role. Queries that no constraint stops
-- are taken to succeed; timestamps are left out, but for whether `deleted_at` is set.
mod Rows
pub mod Share
pub mod Tables
pub mod Steps
pub mod Authority
pub mod Scope
pub mod Identity
pub mod Refused
pub mod Roles
mod Examples
unfoldable pub use Rows.*
use rust_pois.Prelude.{
  is_there, ℕ, suc, ◌+◌, Bool, true, false, not, ◌&&◌, ◌||◌, Option, none, some, List, [], ◌∷◌,
  ◌++◌, any, filter, map, ltb, ◌==◌, ◌!=◌, if◌then◌else◌, Text, codes, text_eq, text_le, unwrap_or,
  Result, ok, err,
}
use rust_pois.Rbac.{Eff, Member, Resource, Link, effective, is_group_admin, is_member}

abbrev pub name_taken : Text → List Group → Bool
name_taken name groups = any (λ (g : Group). text_eq g.name name) groups

-- POST /api/groups: the name is UNIQUE, also among the deleted groups.
unfoldable pub create_group : Claims → Text → Option Text → Db → Result Refusal Group × Db
create_group claims name description db =
    let group : Group = record {
      id = db.next_group;
      name = name;
      description = description;
      deleted = false;
    } in
    if not (caller db claims).super_admin
    then (err forbidden, db)
    else if name_taken name db.groups
    then (err bad_request, db)
    else (ok group, record db { groups = group ∷ db.groups; next_group = suc db.next_group })

pub record MemberRow : Type 0 where
  pub user_id : ℕ
  pub username : Text
  pub role : Text

-- A member's rows of the join with users.
unfoldable pub with_name : List User → Member → List MemberRow
with_name [] m = []
with_name (u ∷ us) m =
    let rest = with_name us m in
    if u.id == m.user_id
    then record { user_id = m.user_id; username = u.username; role = m.role } ∷ rest
    else rest

unfoldable pub member_rows : Db → ℕ → List MemberRow
unfolding join with_name order_by
member_rows db id =
    order_by (λ (r : MemberRow). r.username)
      (join (with_name db.users) (filter (λ (m : Member). m.group_id == id) db.members))

-- GET /api/groups/{id}
unfoldable pub get_group : Db → Claims → ℕ → Result Refusal (Group × List MemberRow)
unfolding find_group member_rows
get_group db claims id =
    if not (is_member (caller db claims) id)
    then err forbidden
    else elim (find_group id db.groups) [
      | none ↦ err not_found
      | some group ↦ ok (group, member_rows db id)
    ]

-- GET /api/groups/{id}/members
unfoldable pub list_members : Db → Claims → ℕ → Result Refusal (List MemberRow)
unfolding member_rows
list_members db claims id =
    if not (is_member (caller db claims) id) then err forbidden else ok (member_rows db id)

-- `COALESCE(new, old)` for a column that is not NULL, and for one that may be.
abbrev pub coalesce : Option Text → Option Text → Option Text
coalesce none old = old
coalesce (some new) old = some new

abbrev pub patched : Option Text → Option Text → Group → Group
patched name description g = record g {
  name = unwrap_or name g.name;
  description = coalesce description g.description;
}

abbrev pub update_where : {A : Type 0} → (A → Bool) → (A → A) → List A → List A
update_where p f rows = map (λ a. if p a then f a else a) rows

abbrev pub is_row : ℕ → Group → Bool
is_row id g = (g.id == id) && not g.deleted

-- The new name is that of another row.
abbrev pub name_clash : Option Text → ℕ → List Group → Bool
name_clash none id groups = false
name_clash (some name) id groups = any (λ (g : Group). (g.id != id) && text_eq g.name name) groups

abbrev pub update_found :
    ℕ → Option Text → Option Text → Db → Option Group → Result Refusal Group × Db
update_found id name description db none = (err bad_request, db)
update_found id name description db (some group) =
    if name_clash name id db.groups then (err bad_request, db) else (
      ok (patched name description group),
      record db { groups = update_where (is_row id) (patched name description) db.groups },
    )

-- PUT /api/groups/{id}
unfoldable pub update_group :
    Claims → ℕ → Option Text → Option Text → Db → Result Refusal Group × Db
unfolding find_group
update_group claims id name description db =
    if not (is_group_admin (caller db claims) id)
    then (err forbidden, db)
    else update_found id name description db (find_group id db.groups)

-- DELETE /api/groups/{id}
unfoldable pub delete_group : Claims → ℕ → Db → Result Refusal Unit × Db
delete_group claims id db = if not (caller db claims).super_admin then (err forbidden, db) else (
  ok tt,
  record db {
    groups = update_where (is_row id) (λ (g : Group). record g { deleted = true }) db.groups;
  },
)

abbrev pub is_key : ℕ → ℕ → Member → Bool
is_key id uid m = (m.group_id == id) && (m.user_id == uid)

-- `INSERT … ON CONFLICT(group_id, user_id) DO UPDATE SET role = excluded.role`
unfoldable pub upsert_member : ℕ → ℕ → Text → List Member → List Member
upsert_member id uid role [] = record { group_id = id; user_id = uid; role = role } ∷ []
upsert_member id uid role (m ∷ ms) =
    let rest = upsert_member id uid role ms in
    if is_key id uid m then record m { role = role } ∷ ms else m ∷ rest

abbrev pub is_role : Text → Bool
is_role role = text_eq role (codes "admin") || text_eq role (codes "member")

-- POST /api/groups/{id}/members
unfoldable pub add_member : Claims → ℕ → ℕ → Option Text → Db → Result Refusal Unit × Db
unfolding find_group upsert_member
add_member claims id uid role db =
    let role' = unwrap_or role (codes "member") in
    if not (is_group_admin (caller db claims) id)
    then (err forbidden, db)
    else if not (is_role role')
    then (err bad_request, db)
    else if not (is_there (find_group id db.groups))
    then (err not_found, db)
    else if not (any (λ (u : User). u.id == uid) db.users)
    then (err not_found, db)
    else (ok tt, record db { members = upsert_member id uid role' db.members })

-- DELETE /api/groups/{id}/members/{user_id}
unfoldable pub remove_member : Claims → ℕ → ℕ → Db → Result Refusal Unit × Db
remove_member claims id uid db =
    if not (is_group_admin (caller db claims) id)
    then (err forbidden, db)
    else (ok tt, record db { members = filter (λ (m : Member). not (is_key id uid m)) db.members })
