-- ===== src/Admin.antt =====
-- src/main.rs, the handlers of channels and rules, on the tables they read and write. A handler is given
-- the identity that `rbac::effective` resolves. Queries that no constraint stops are taken to succeed;
-- times are left out, but for whether `deleted_at` is set, and so is the owner of a rule, which is
-- written and never read.
pub mod Rules
pub mod Laws
pub mod Create
pub mod Append
mod Examples
use rust_pois.Prelude.{
  ℕ, suc, ◌+◌, Bool, true, false, not, ◌&&◌, ◌||◌, Option, none, some, List, [], ◌∷◌, any, all,
  filter, map, length, ◌==◌, ◌!=◌, if◌then◌else◌, Text, codes, text_eq, unwrap_or, Result, ok, err,
}
use rust_pois.Rbac.{
  Eff, Entity, Resource, Link, contains_id, can_read, can_write, read_predicate, link_groups,
  set_groups_scoped,
}
use rust_pois.Groups.{Refusal, bad_request, forbidden, not_found, order_by}
use rust_pois.Groups.Share.{bit, manageable}
use rust_pois.Esam.Decide.{Rule}

-- A row of channels.
pub record Channel : Type 0 where
  pub id : ℕ
  pub name : Text
  pub enabled : ℕ
  pub timezone : Text
  pub owner_user_id : Option ℕ
  pub is_global : ℕ
  pub deleted : Bool

pub record UpsertChannel : Type 0 where
  pub name : Text
  pub enabled : Option Bool
  pub timezone : Option Text
  pub group_ids : Option (List ℕ)
  pub is_global : Option Bool

-- The tables, with the ids of the users and of the groups, and those that AUTOINCREMENT gives next.
pub record Store : Type 0 where
  pub users : List ℕ
  pub groups : List ℕ
  pub channels : List Channel
  pub next_channel : ℕ
  pub links : List Link
  pub rules : List Rule
  pub next_rule : ℕ

abbrev pub as_resource : Channel → Resource
as_resource c = record {
  id = c.id;
  owner_user_id = c.owner_user_id;
  is_global = c.is_global;
  deleted = c.deleted;
}

abbrev pub entity : Store → Entity
entity st = record { resources = map as_resource st.channels; links = st.links; groups = st.groups }

-- GET /api/channels
unfoldable pub list_channels : Eff → Store → List Channel
unfolding read_predicate order_by
list_channels eff st =
    order_by (λ (c : Channel). c.name)
      (filter (λ (c : Channel). not c.deleted && read_predicate eff st.links (as_resource c))
        st.channels)

-- The groups of a caller who names none: the only one.
abbrev pub default_groups : List ℕ → Result Refusal (List ℕ)
default_groups [] = err forbidden
default_groups (g ∷ []) = ok (g ∷ [])
default_groups (g ∷ h ∷ gs) = err bad_request

abbrev pub within : Eff → Result Refusal (List ℕ) → Result Refusal (List ℕ)
within eff (err e) = err e
within eff (ok groups) = if all (contains_id eff.member_of) groups then ok groups else err forbidden

abbrev pub named_groups : Eff → List ℕ → Result Refusal (List ℕ)
named_groups eff [] = default_groups eff.member_of
named_groups eff (g ∷ gs) = ok (g ∷ gs)

unfoldable pub publish_groups : Eff → Option (List ℕ) → Result Refusal (List ℕ)
publish_groups eff group_ids =
    let groups = unwrap_or group_ids [] in
    if eff.super_admin then ok groups else within eff (named_groups eff groups)

abbrev pub new_channel : Eff → UpsertChannel → ℕ → Channel
new_channel eff p id = record {
  id = id;
  name = p.name;
  enabled = bit (unwrap_or p.enabled true);
  timezone = unwrap_or p.timezone (codes "UTC");
  owner_user_id = some eff.uid;
  is_global = bit (eff.super_admin && unwrap_or p.is_global false);
  deleted = false;
}

-- The name is UNIQUE, also among the deleted channels, and the owner a user.
abbrev pub insertable : Eff → Text → Store → Bool
insertable eff name st =
    not (any (λ (c : Channel). text_eq c.name name) st.channels) && contains_id st.users eff.uid

abbrev pub created : Eff → UpsertChannel → List ℕ → Store → Store
created eff p groups st =
    let st' = record st {
      channels = new_channel eff p st.next_channel ∷ st.channels;
      next_channel = suc st.next_channel;
    } in
    record st' { links = (link_groups (entity st') st.next_channel groups).links }

abbrev pub create_in :
    Eff → UpsertChannel → Store → Result Refusal (List ℕ) → Result Refusal Channel × Store
create_in eff p st (err e) = (err e, st)
create_in eff p st (ok groups) =
    if insertable eff p.name st
    then (ok (new_channel eff p st.next_channel), created eff p groups st)
    else (err bad_request, st)

-- POST /api/channels
unfoldable pub create_channel : Eff → UpsertChannel → Store → Result Refusal Channel × Store
unfolding publish_groups link_groups
create_channel eff p st = create_in eff p st (publish_groups eff p.group_ids)

-- The first row that satisfies the test, and its change: ids are primary keys.
unfoldable pub find_row : {A : Type 0} → (A → Bool) → List A → Option A
find_row p [] = none
find_row p (x ∷ xs) = let rest = find_row p xs in if p x then some x else rest

unfoldable pub update_row : {A : Type 0} → (A → Bool) → (A → A) → List A → List A
update_row p f [] = []
update_row p f (x ∷ xs) = let rest = update_row p f xs in if p x then f x ∷ xs else x ∷ rest

abbrev pub is_channel : ℕ → Channel → Bool
is_channel id c = (c.id == id) && not c.deleted

abbrev pub coalesce_bit : Option Bool → ℕ → ℕ
coalesce_bit none old = old
coalesce_bit (some b) old = bit b

abbrev pub patched : Eff → UpsertChannel → Channel → Channel
patched eff p c = record c {
  name = p.name;
  enabled = coalesce_bit p.enabled c.enabled;
  timezone = unwrap_or p.timezone (codes "UTC");
  is_global = coalesce_bit (if eff.super_admin then p.is_global else none) c.is_global;
}

-- The UPDATE: no live row, or the name of another one, is an error.
abbrev pub patch_channel :
    Eff → ℕ → UpsertChannel → Store → Option Channel → Result Refusal Channel × Store
patch_channel eff id p st none = (err bad_request, st)
patch_channel eff id p st (some c) =
    if any (λ (d : Channel). (d.id != id) && text_eq d.name p.name) st.channels
    then (err bad_request, st)
    else (
      ok (patched eff p c),
      record st { channels = update_row (is_channel id) (patched eff p) st.channels },
    )

-- What follows the UPDATE, whether it succeeded or not.
abbrev pub republish : Eff → ℕ → Option (List ℕ) → Store → Store
republish eff id none st = st
republish eff id (some gids) st =
    if eff.super_admin || all (contains_id eff.member_of) gids
    then record st { links = (set_groups_scoped (entity st) id gids (manageable eff)).links }
    else st

-- PUT /api/channels/{id}
unfoldable pub update_channel : Eff → ℕ → UpsertChannel → Store → Result Refusal Channel × Store
unfolding can_write find_row update_row set_groups_scoped
update_channel eff id p st =
    let (r, st') = patch_channel eff id p st (find_row (is_channel id) st.channels) in
    if not (can_write (entity st) eff id)
    then (err forbidden, st)
    else (r, republish eff id p.group_ids st')

-- DELETE /api/channels/{id}
unfoldable pub delete_channel : Eff → ℕ → Store → Result Refusal Unit × Store
unfolding can_write update_row
delete_channel eff id st = if not (can_write (entity st) eff id) then (err forbidden, st) else (
  ok tt,
  record st {
    channels =
        update_row (is_channel id) (λ (c : Channel). record c { deleted = true; enabled = 0 })
          st.channels;
  },
)
