-- ===== src/Groups/Examples.antt =====
-- A station with one group: user 1 administers it, user 2 is a member, user 3 is not.
use rust_pois.Prelude.{
  ℕ, ◌≡◌, refl, true, false, none, some, List, [], ◌∷◌, filter, ◌==◌, arith, codes, text_eq,
  unwrap_or, ok,
}
use rust_pois.Rbac.{Member, contains_id, is_group_admin, effective}
use rust_pois.Groups.{
  Claims, Shared, Db, caller, create_group, update_group, delete_group, add_member, remove_member,
}
use rust_pois.Groups.Share.{channel, set_share}
use rust_pois.Groups.Tables.{WellFormed}
use rust_pois.Groups.Steps.{adds, at_start, after, Reachable-WellFormed}
use rust_pois.Groups.Authority.{only_admins_change_members}
use rust_pois.Groups.Refused.{AllOrNothing, requests-AllOrNothing}
use rust_pois.Groups.Identity.{Belongs, add_member-Belongs}
use rust_pois.Groups.Roles.{role_of, Change, Step-Change}
use rust_pois.Groups.Scope.{Kept, set_share-Kept}

abbrev no_rows : Shared
no_rows = record { resources = []; links = [] }

abbrev station : Db
station = record {
  groups = record { id = 10; name = codes "sports"; description = none; deleted = false } ∷ [];
  next_group = 11;
  members =
      record { group_id = 10; user_id = 1; role = codes "admin" }
      ∷ record { group_id = 10; user_id = 2; role = codes "member" }
      ∷ [];
  users =
      record { id = 1; username = codes "ann" }
      ∷ record { id = 2; username = codes "bob" }
      ∷ record { id = 3; username = codes "cyd" }
      ∷ [];
  channels = record {
    resources = record { id = 10; owner_user_id = some 2; is_global = 0; deleted = false } ∷ [];
    links = record { resource_id = 10; group_id = 10 } ∷ [];
  };
  projects = no_rows;
  templates = no_rows;
}

abbrev ann : Claims
ann = record { sub = some 1; role = codes "user" }

abbrev bob : Claims
bob = record { sub = some 2; role = codes "user" }

station-WellFormed : WellFormed station
unfolding text_eq
station-WellFormed = record {
  keys = ((refl, tt), (tt, tt));
  rows = ((refl, refl, refl), ((refl, refl, refl), tt));
  ids = (refl, tt);
  fresh = (omega arith, tt);
}

abbrev joined : Db
joined = (add_member ann 10 3 none station).1

Reachable-WellFormed_example : WellFormed joined
Reachable-WellFormed_example =
    Reachable-WellFormed station joined station-WellFormed
      (after at_start (adds ann 10 3 none station))

no_admin : is_group_admin (caller station bob) 10 ≡ false
unfolding effective text_eq
no_admin = refl

not_super : (caller station bob).super_admin ≡ false
unfolding effective text_eq
not_super = refl

elsewhere : contains_id (caller station bob).member_of 12 ≡ false
unfolding effective
elsewhere = refl

abbrev rows_of : ℕ → Db → List Member
rows_of g db = filter (λ (m : Member). m.group_id == g) db.members

only_admins_change_members_example :
    (rows_of 10 (create_group bob (codes "news") none station).1 ≡ rows_of 10 station)
    × (rows_of 10 (update_group bob 10 none none station).1 ≡ rows_of 10 station)
    × (rows_of 10 (delete_group bob 10 station).1 ≡ rows_of 10 station)
    × (rows_of 10 (add_member bob 10 2 (some (codes "admin")) station).1 ≡ rows_of 10 station)
    × (rows_of 10 (remove_member bob 10 2 station).1 ≡ rows_of 10 station)
    × (rows_of 10 (set_share bob (codes "channel") 10 (10 ∷ []) none station).1
        ≡ rows_of 10 station)
only_admins_change_members_example =
    only_admins_change_members bob station 10 (codes "news") none none (some (codes "admin")) 10 2
      (codes "channel") (10 ∷ []) none no_admin

requests-AllOrNothing_example :
    AllOrNothing station (create_group bob (codes "news") none station)
    × AllOrNothing station (update_group bob 10 none none station)
    × AllOrNothing station (delete_group bob 10 station)
    × AllOrNothing station (add_member bob 10 2 (some (codes "admin")) station)
    × AllOrNothing station (remove_member bob 10 2 station)
    × AllOrNothing station (set_share bob (codes "channel") 10 (10 ∷ []) none station)
requests-AllOrNothing_example =
    requests-AllOrNothing bob station (codes "news") none none (some (codes "admin")) 10 2
      (codes "channel") (10 ∷ []) none

accepted : (add_member ann 10 3 none station).0 ≡ ok tt
unfolding add_member effective text_eq
accepted = refl

add_member-Belongs_example :
    Belongs 10 3
      (codes "user")
      true
      (text_eq (unwrap_or none (codes "member")) (codes "admin"))
      joined
add_member-Belongs_example =
    add_member-Belongs ann 10 3 none station (codes "user") station-WellFormed accepted

set_share-Kept_example :
    Kept channel station 10 12 (set_share bob (codes "channel") 10 (10 ∷ []) (some true) station).1
set_share-Kept_example =
    set_share-Kept bob (codes "channel") 10 (10 ∷ []) (some true) station channel 10 12 not_super
      elsewhere

Step-Change_example : Change (role_of station.members) (role_of joined.members)
Step-Change_example = Step-Change (adds ann 10 3 none station)
