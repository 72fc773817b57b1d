-- ===== src/Rbac.antt =====
-- src/rbac.rs: who may read and write channels, projects and templates. A table is the list of its
-- rows, in the columns the code reads; a row id is a natural number. Queries are taken to succeed.
pub mod Published
pub mod Rows
pub mod Decisions
pub mod Access
pub mod Sharing
mod Examples
use rust_pois.Prelude.{
  ℕ, Bool, true, false, not, ◌&&◌, ◌||◌, Option, none, some, List, [], ◌∷◌, any, filter, length,
  ltb, ◌==◌, ◌!=◌, if◌then◌else◌, Text, codes, text_eq, unwrap_or,
}

pub record Eff : Type 0 where
  pub uid : ℕ
  pub super_admin : Bool
  pub member_of : List ℕ
  pub admin_of : List ℕ

-- `Vec::contains`
abbrev pub contains_id : List ℕ → ℕ → Bool
contains_id ids id = any (λ i. i == id) ids

-- A row of channels, projects or templates; `deleted` is `deleted_at IS NOT NULL`.
pub record Resource : Type 0 where
  pub id : ℕ
  pub owner_user_id : Option ℕ
  pub is_global : ℕ
  pub deleted : Bool

-- A row of channel_groups, project_groups or template_groups.
pub record Link : Type 0 where
  pub resource_id : ℕ
  pub group_id : ℕ

-- A row of group_members.
pub record Member : Type 0 where
  pub group_id : ℕ
  pub user_id : ℕ
  pub role : Text

-- One of the three entities, and the ids of the groups that there are.
pub record Entity : Type 0 where
  pub resources : List Resource
  pub links : List Link
  pub groups : List ℕ

-- `Eff::is_group_admin` and `Eff::is_member`
abbrev pub is_group_admin : Eff → ℕ → Bool
is_group_admin eff gid = eff.super_admin || contains_id eff.admin_of gid

abbrev pub is_member : Eff → ℕ → Bool
is_member eff gid = eff.super_admin || contains_id eff.member_of gid

abbrev pub is_nil {ℓ} : {A : Type ℓ} → List A → Bool
is_nil [] = true
is_nil (_ ∷ _) = false

-- `SELECT COUNT(*) … WHERE {link_col} = id AND group_id IN (groups)`
unfoldable pub count_links : List Link → ℕ → List ℕ → ℕ
count_links links id groups =
    length (filter (λ (l : Link). (l.resource_id == id) && contains_id groups l.group_id) links)

unfoldable pub group_link_matches : List Link → ℕ → List ℕ → Bool
unfolding count_links
group_link_matches links id groups =
    if is_nil groups then false else ltb 0 (count_links links id groups)

-- The row with this id that is not deleted.
unfoldable pub find_row : ℕ → List Resource → Option Resource
find_row id [] = none
find_row id (row ∷ rows) = if (row.id == id) && not row.deleted then some row else find_row id rows

abbrev pub owned_by : ℕ → Option ℕ → Bool
owned_by uid none = false
owned_by uid (some o) = o == uid

abbrev pub readable_row : Eff → List Link → ℕ → Option Resource → Bool
readable_row eff links id none = false
readable_row eff links id (some row) =
    if (row.is_global != 0) || owned_by eff.uid row.owner_user_id
    then true
    else group_link_matches links id eff.member_of

unfoldable pub can_read : Entity → Eff → ℕ → Bool
unfolding find_row group_link_matches
can_read e eff id =
    if eff.super_admin then true else readable_row eff e.links id (find_row id e.resources)

abbrev pub writable_row : Eff → List Link → ℕ → Option Resource → Bool
writable_row eff links id none = false
writable_row eff links id (some row) =
    if owned_by eff.uid row.owner_user_id then true else group_link_matches links id eff.admin_of

unfoldable pub can_write : Entity → Eff → ℕ → Bool
unfolding find_row group_link_matches
can_write e eff id =
    if eff.super_admin then true else writable_row eff e.links id (find_row id e.resources)

-- The condition that `push_read_predicate` appends, on a row of the list.
unfoldable pub read_predicate : Eff → List Link → Resource → Bool
read_predicate eff links row =
    if eff.super_admin
    then true
    else owned_by eff.uid row.owner_user_id
      || ((row.is_global == 1)
          || (not (is_nil eff.member_of)
              && any
                  (λ (l : Link). (l.resource_id == row.id) && contains_id eff.member_of l.group_id)
                  links))

-- `effective`, from the user id that the token's subject parses to and the token's role.
unfoldable pub groups_of : ℕ → List Member → List ℕ
groups_of uid [] = []
groups_of uid (m ∷ ms) =
    let rest = groups_of uid ms in if m.user_id == uid then m.group_id ∷ rest else rest

unfoldable pub admin_groups_of : ℕ → List Member → List ℕ
admin_groups_of uid [] = []
admin_groups_of uid (m ∷ ms) =
    let rest = admin_groups_of uid ms in
    if (m.user_id == uid) && text_eq m.role (codes "admin") then m.group_id ∷ rest else rest

unfoldable pub effective : List Member → Option ℕ → Text → Eff
unfolding groups_of admin_groups_of
effective members sub role =
    let uid = unwrap_or sub 0 in
    record {
      uid = uid;
      super_admin = text_eq role (codes "admin");
      member_of = groups_of uid members;
      admin_of = admin_groups_of uid members;
    }

-- `SELECT group_id … WHERE {link_col} = id AND group_id = g`
unfoldable pub linked : List Link → ℕ → ℕ → Bool
linked links id g = any (λ (l : Link). (l.resource_id == id) && (l.group_id == g)) links

-- Both ends of a link are there, as the table's foreign keys demand.
abbrev pub foreign_keys : Entity → ℕ → ℕ → Bool
foreign_keys e id g = any (λ (row : Resource). row.id == id) e.resources && contains_id e.groups g

-- `INSERT OR IGNORE`; a refused insert is dropped by `let _ =`.
unfoldable pub insert_link : Entity → ℕ → ℕ → Entity
unfolding linked
insert_link e id g =
    if linked e.links id g || not (foreign_keys e id g)
    then e
    else record e { links = record { resource_id = id; group_id = g } ∷ e.links }

unfoldable pub link_groups : Entity → ℕ → List ℕ → Entity
unfolding insert_link
link_groups e id [] = e
link_groups e id (g ∷ gs) = link_groups (insert_link e id g) id gs

-- `DELETE … WHERE {link_col} = id`, of the groups in `dropped`
unfoldable pub delete_links : Entity → ℕ → (ℕ → Bool) → Entity
delete_links e id dropped = record e {
  links = filter (λ (l : Link). not ((l.resource_id == id) && dropped l.group_id)) e.links;
}

unfoldable pub set_groups_scoped : Entity → ℕ → List ℕ → Option (List ℕ) → Entity
unfolding link_groups delete_links
set_groups_scoped e id desired none = link_groups (delete_links e id (λ _. true)) id desired
set_groups_scoped e id desired (some []) = link_groups e id desired
set_groups_scoped e id desired (some (g ∷ scope)) =
    link_groups (delete_links e id (λ h. contains_id (g ∷ scope) h)) id desired
