-- ===== src/Rbac/Examples.antt =====
-- A station with two groups: user 1 administers group 10, user 2 is a member of it.
use rust_pois.Prelude.{
  ◌≡◌, ◌↔◌, refl, true, false, not, ◌&&◌, ◌||◌, some, List, [], ◌∷◌, ◌==◌, arith, codes, text_eq,
}
use rust_pois.Rbac.{
  Eff, Resource, Member, Entity, contains_id, find_row, can_read, can_write, read_predicate,
  effective, linked, foreign_keys, set_groups_scoped,
}
use rust_pois.Rbac.Access.{
  MayRead, MayWrite, can_read_iff, can_write_iff, can_write-can_read, read_predicate-can_read,
}
use rust_pois.Rbac.Sharing.{managed, set_groups_scoped-links}

abbrev sports : Resource
sports = record { id = 5; owner_user_id = some 7; is_global = 0; deleted = false }

abbrev channels : Entity
channels = record {
  resources = sports ∷ [];
  links =
      record { resource_id = 5; group_id = 10 } ∷ record { resource_id = 5; group_id = 20 } ∷ [];
  groups = 10 ∷ 20 ∷ 30 ∷ [];
}

abbrev members : List Member
members =
    record { group_id = 10; user_id = 1; role = codes "admin" }
    ∷ record { group_id = 10; user_id = 2; role = codes "member" }
    ∷ []

abbrev admin : Eff
admin = record { uid = 1; super_admin = false; member_of = 10 ∷ []; admin_of = 10 ∷ [] }

decisions :
    (can_write channels (effective members (some 1) (codes "user")) 5 ≡ true)
    × (can_write channels (effective members (some 2) (codes "user")) 5 ≡ false)
    × (can_read channels (effective members (some 2) (codes "user")) 5 ≡ true)
    × (can_read channels (effective members (some 3) (codes "user")) 5 ≡ false)
unfolding can_write can_read effective text_eq
decisions = (refl, refl, refl, refl)

can_read_iff_example : (can_read channels admin 5 ≡ true) ↔ MayRead channels admin 5
can_read_iff_example = can_read_iff channels admin 5 (tt, tt)

can_write_iff_example : (can_write channels admin 5 ≡ true) ↔ MayWrite channels admin 5
can_write_iff_example = can_write_iff channels admin 5 (tt, tt)

can_write-can_read_example : can_read channels (effective members (some 1) (codes "user")) 5 ≡ true
unfolding can_write effective text_eq
can_write-can_read_example = can_write-can_read channels members (some 1) (codes "user") 5 refl

read_predicate-can_read_example :
    read_predicate admin channels.links sports ≡ can_read channels admin 5
unfolding find_row
read_predicate-can_read_example = read_predicate-can_read channels admin sports refl (omega arith)

set_groups_scoped-links_example :
    linked (set_groups_scoped channels 5 (30 ∷ []) (some (10 ∷ 30 ∷ []))).links 5 20 ≡ (
      (linked channels.links 5 20 && not ((5 == 5) && managed (some (10 ∷ 30 ∷ [])) 20))
      || ((5 == 5) && (contains_id (30 ∷ []) 20 && foreign_keys channels 5 20)))
set_groups_scoped-links_example =
    set_groups_scoped-links channels 5 (30 ∷ []) (some (10 ∷ 30 ∷ [])) 5 20
