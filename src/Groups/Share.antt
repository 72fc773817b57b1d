-- ===== src/Groups/Share.antt =====
-- src/rbac.rs, the endpoints that share a channel, a project or a template with groups.
use rust_pois.Prelude.{
  ℕ, Bool, true, false, not, ◌&&◌, Option, none, some, List, all, filter, map, ◌==◌, ◌!=◌,
  if◌then◌else◌, Text, codes, text_eq, Result, ok, err,
}
use rust_pois.Rbac.{
  Eff, Resource, Link, Entity, contains_id, can_read, can_write, find_row, set_groups_scoped,
}
use rust_pois.Groups.{
  Refusal, bad_request, forbidden, Claims, Group, Shared, Db, caller, update_where,
}

pub data Kind : Type 0 where
  channel project template : Kind

unfoldable pub share_tables : Text → Option Kind
share_tables kind =
    if text_eq kind (codes "channel")
    then some channel
    else if text_eq kind (codes "project")
    then some project
    else if text_eq kind (codes "template")
    then some template
    else none

abbrev pub table : Kind → Db → Shared
table channel db = db.channels
table project db = db.projects
table template db = db.templates

abbrev pub put_table : Kind → Shared → Db → Db
put_table channel t db = record db { channels = t }
put_table project t db = record db { projects = t }
put_table template t db = record db { templates = t }

-- The tables of a kind, with the ids of the groups, deleted or not.
abbrev pub entity : Kind → Db → Entity
entity kind db = record {
  resources = (table kind db).resources;
  links = (table kind db).links;
  groups = map (λ (g : Group). g.id) db.groups;
}

-- `SELECT group_id FROM {link_table} WHERE {link_col} = ?`
unfoldable pub resource_group_ids : Entity → ℕ → List ℕ
resource_group_ids e id =
    map (λ (l : Link). l.group_id) (filter (λ (l : Link). l.resource_id == id) e.links)

-- The map from a resource to its groups, as a function: a resource without a row has no entry.
unfoldable pub group_ids_map : Entity → List ℕ → ℕ → List ℕ
group_ids_map e ids id =
    map (λ (l : Link). l.group_id)
      (filter (λ (l : Link). contains_id ids l.resource_id && (l.resource_id == id)) e.links)

unfoldable pub event_scope : Eff → Option (ℕ × List ℕ)
event_scope eff = if eff.super_admin then none else some (eff.uid, eff.member_of)

pub record ShareState : Type 0 where
  pub kind : Text
  pub id : ℕ
  pub group_ids : List ℕ
  pub is_global : Bool
  pub can_write : Bool

abbrev pub global_of : Option Resource → ℕ
global_of none = 0
global_of (some row) = row.is_global

unfoldable pub build_share_state : Entity → Eff → Text → ℕ → ShareState
unfolding resource_group_ids find_row can_write
build_share_state e eff kind id = record {
  kind = kind;
  id = id;
  group_ids = resource_group_ids e id;
  is_global = global_of (find_row id e.resources) != 0;
  can_write = can_write e eff id;
}

-- GET /api/share/{kind}/{id}
unfoldable pub get_share : Db → Claims → Text → ℕ → Result Refusal ShareState
unfolding share_tables can_read build_share_state
get_share db claims kind id = elim (share_tables kind) [
  | none ↦ err bad_request
  | some k ↦
      let eff = caller db claims in
      if not (can_read (entity k db) eff id)
      then err forbidden
      else ok (build_share_state (entity k db) eff kind id)
]

abbrev pub bit : Bool → ℕ
bit true = 1
bit false = 0

-- `UPDATE {table} SET is_global = ? WHERE id = ? AND deleted_at IS NULL`, for a super-admin that asks.
unfoldable pub toggle_global : Option Bool → Bool → ℕ → List Resource → List Resource
toggle_global (some g) true id rows =
    update_where (λ (row : Resource). (row.id == id) && not row.deleted)
      (λ (row : Resource). record row { is_global = bit g }) rows
toggle_global _ _ id rows = rows

abbrev pub manageable : Eff → Option (List ℕ)
manageable eff = if eff.super_admin then none else some eff.member_of

-- What `set_share` makes of the tables of its kind.
unfoldable pub reshare : Eff → ℕ → List ℕ → Option Bool → Entity → Entity
unfolding toggle_global set_groups_scoped
reshare eff id group_ids is_global e =
    set_groups_scoped
      (record e { resources = toggle_global is_global eff.super_admin id e.resources }) id group_ids
      (manageable eff)

abbrev pub share_as :
    Claims → Text → ℕ → List ℕ → Option Bool → Db → Option Kind → Result Refusal ShareState × Db
share_as claims kind id group_ids is_global db none = (err bad_request, db)
share_as claims kind id group_ids is_global db (some k) =
    let eff = caller db claims in
    let e = reshare eff id group_ids is_global (entity k db) in
    if not (can_write (entity k db) eff id)
    then (err forbidden, db)
    else if not eff.super_admin && not (all (contains_id eff.member_of) group_ids)
    then (err forbidden, db)
    else (
      ok (build_share_state e eff kind id),
      put_table k (record { resources = e.resources; links = e.links }) db,
    )

-- PUT /api/share/{kind}/{id}
unfoldable pub set_share :
    Claims → Text → ℕ → List ℕ → Option Bool → Db → Result Refusal ShareState × Db
unfolding share_tables can_write reshare build_share_state
set_share claims kind id group_ids is_global db =
    share_as claims kind id group_ids is_global db (share_tables kind)
