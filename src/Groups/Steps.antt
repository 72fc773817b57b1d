-- ===== src/Groups/Steps.antt =====
-- The requests that change the tables, as steps.
use rust_pois.Prelude.{
  is_there, if_holds, ℕ, ◌<◌, ◌≡◌, refl, ◌∙◌, Bool, true, false, not, ◌&&◌, Option, none, some,
  List, [], ◌∷◌, all, ◌==◌, Text, codes, unwrap_or, Result, Bool-cases, arith, inl, inr,
}
use rust_pois.Rbac.{Member, contains_id, can_write, is_group_admin}
use rust_pois.Groups.{
  Claims, Group, Db, Shared, Refusal, create_group, update_group, update_found, delete_group,
  add_member, remove_member, is_key, is_role, is_row, update_where, caller, find_group, name_taken,
  name_clash, patched,
}
use rust_pois.Groups.Share.{
  Kind, channel, project, template, set_share, share_tables, put_table, entity, share_as,
}
use rust_pois.Groups.Tables.{
  WellFormed, IsMember, has_group, has_user, All-map, All-filter, All-update_where, Unique-filter,
  All-upsert, Unique-upsert, has_group-update, UniqueIds-update, fresh_id,
}

-- One request of a caller.
pub data Step : Db → Db → Type 0 where
  creates :
      (c : Claims) (name : Text) (description : Option Text) (db : Db)
      → Step db (create_group c name description db).1
  updates :
      (c : Claims) (id : ℕ) (name description : Option Text) (db : Db)
      → Step db (update_group c id name description db).1
  deletes : (c : Claims) (id : ℕ) (db : Db) → Step db (delete_group c id db).1
  adds :
      (c : Claims) (id uid : ℕ) (role : Option Text) (db : Db)
      → Step db (add_member c id uid role db).1
  removes : (c : Claims) (id uid : ℕ) (db : Db) → Step db (remove_member c id uid db).1
  shares :
      (c : Claims) (kind : Text) (id : ℕ) (gs : List ℕ) (g : Option Bool) (db : Db)
      → Step db (set_share c kind id gs g db).1

pub data Reachable (start : Db) : Db → Type 0 where
  at_start : Reachable start start
  after : {db db' : Db} → Reachable start db → Step db db' → Reachable start db'

abbrev After : {A : Type 0} → Result Refusal A × Db → Type 0
After r = WellFormed r.1

grown :
    (g : Group) (gs : List Group) (id : ℕ) → has_group gs id ≡ true → has_group (g ∷ gs) id ≡ true
grown g gs id h = ground arith

pub not-false : {b : Bool} → not b ≡ false → b ≡ true
not-false {b = true} h = refl
not-false {b = false} h = cc

found_here :
    (id : ℕ) (gs : List Group) → is_there (find_group id gs) ≡ true → has_group gs id ≡ true
unfolding find_group
found_here id [] h = cc
found_here id (g ∷ gs) h = elim (Bool-cases ((g.id == id) && not g.deleted)) [
  | inl e ↦ ground arith
  | inr e ↦ let later = found_here id gs (rw e at h) in ground arith
]

module _ (c : Claims) (db : Db) (wf : WellFormed db) where
  create-WellFormed : (name : Text) (d : Option Text) → WellFormed (create_group c name d db).1
  unfolding create_group
  create-WellFormed name d =
      if_holds After (not (caller db c).super_admin) (λ _. wf)
        (λ _.
          if_holds After (name_taken name db.groups) (λ _. wf)
            (λ _. record {
              keys = wf.keys;
              rows =
                  All-map
                    (λ (m : Member) h. (
                      h.0,
                      grown
                          (record {
                            id = db.next_group;
                            name = name;
                            description = d;
                            deleted = false;
                          })
                          db.groups m.group_id h.1,
                      h.2,
                    ))
                    db.members wf.rows;
              ids = (fresh_id db.next_group db.groups wf.fresh, wf.ids);
              fresh = (omega arith, All-map (λ (g : Group) h. omega arith) db.groups wf.fresh);
            }))

  -- A change of groups that keeps their ids.
  edit-WellFormed :
      (p : Group → Bool) (f : Group → Group)
      → ((g : Group) → (f g).id ≡ g.id)
      → WellFormed (record db { groups = update_where p f db.groups })
  edit-WellFormed p f same = record {
    keys = wf.keys;
    rows =
        All-map (λ (m : Member) h. (h.0, has_group-update p f same m.group_id db.groups ∙ h.1, h.2))
          db.members wf.rows;
    ids = UniqueIds-update p f same db.groups wf.ids;
    fresh =
        All-update_where (λ (g : Group). g.id < db.next_group) p f db.groups
          (λ g h. let e = same g in omega arith) wf.fresh;
  }

  update-WellFormed : (id : ℕ) (name d : Option Text) → WellFormed (update_group c id name d db).1
  unfolding update_group
  update-WellFormed id name d =
      if_holds After (not (is_group_admin (caller db c) id)) (λ _. wf)
        (λ _. found (find_group id db.groups))
    where
      found : (o : Option Group) → After (update_found id name d db o)
      found none = wf
      found (some group) =
          if_holds After (name_clash name id db.groups) (λ _. wf)
            (λ _. edit-WellFormed (is_row id) (patched name d) (λ g. refl))

  delete-WellFormed : (id : ℕ) → WellFormed (delete_group c id db).1
  unfolding delete_group
  delete-WellFormed id =
      if_holds After (not (caller db c).super_admin) (λ _. wf)
        (λ _. edit-WellFormed (is_row id) (λ (g : Group). record g { deleted = true }) (λ g. refl))

  remove-WellFormed : (id uid : ℕ) → WellFormed (remove_member c id uid db).1
  unfolding remove_member
  remove-WellFormed id uid =
      if_holds After (not (is_group_admin (caller db c) id)) (λ _. wf)
        (λ _. record {
          keys = Unique-filter (λ (m : Member). not (is_key id uid m)) db.members wf.keys;
          rows =
              All-filter (IsMember db.groups db.users) (λ (m : Member). not (is_key id uid m))
                db.members wf.rows;
          ids = wf.ids;
          fresh = wf.fresh;
        })

  add-WellFormed : (id uid : ℕ) (role : Option Text) → WellFormed (add_member c id uid role db).1
  unfolding add_member
  add-WellFormed id uid role =
      let role' = unwrap_or role (codes "member") in
      if_holds After (not (is_group_admin (caller db c) id)) (λ _. wf)
        (λ _.
          if_holds After (not (is_role role')) (λ _. wf)
            (λ r.
              if_holds After (not (is_there (find_group id db.groups))) (λ _. wf)
                (λ g.
                  if_holds After (not (has_user db.users uid)) (λ _. wf)
                    (λ u. record {
                      keys = Unique-upsert id uid role' db.members wf.keys;
                      rows =
                          let here = found_here id db.groups (not-false g) in
                          All-upsert id uid role' (IsMember db.groups db.users) db.members
                            (not-false r, here, not-false u) (λ m e h. (not-false r, h.1, h.2))
                            wf.rows;
                      ids = wf.ids;
                      fresh = wf.fresh;
                    }))))

  share-WellFormed :
      (kind : Text) (id : ℕ) (gs : List ℕ) (g : Option Bool)
      → WellFormed (set_share c kind id gs g db).1
  unfolding set_share
  share-WellFormed kind id gs g = as_kind (share_tables kind)
    where
      moved : (k : Kind) (t : Shared) → WellFormed (put_table k t db)
      moved channel t = record { keys = wf.keys; rows = wf.rows; ids = wf.ids; fresh = wf.fresh }
      moved project t = record { keys = wf.keys; rows = wf.rows; ids = wf.ids; fresh = wf.fresh }
      moved template t = record { keys = wf.keys; rows = wf.rows; ids = wf.ids; fresh = wf.fresh }

      as_kind : (o : Option Kind) → After (share_as c kind id gs g db o)
      as_kind none = wf
      as_kind (some k) =
          if_holds After (not (can_write (entity k db) (caller db c) id)) (λ _. wf)
            (λ _.
              if_holds After
                (not (caller db c).super_admin
                  && not (all (contains_id (caller db c).member_of) gs))
                (λ _. wf) (λ _. moved k _))

Step-WellFormed : {db db' : Db} → Step db db' → WellFormed db → WellFormed db'
Step-WellFormed (creates c name d db) wf = create-WellFormed c db wf name d
Step-WellFormed (updates c id name d db) wf = update-WellFormed c db wf id name d
Step-WellFormed (deletes c id db) wf = delete-WellFormed c db wf id
Step-WellFormed (adds c id uid role db) wf = add-WellFormed c db wf id uid role
Step-WellFormed (removes c id uid db) wf = remove-WellFormed c db wf id uid
Step-WellFormed (shares c kind id gs g db) wf = share-WellFormed c db wf kind id gs g

-- Whatever the requests, the tables that they come to from well-formed ones are well-formed: no two
-- members have the same group and user, every member has one of the two roles, a group and a user that
-- are there, and the groups have different ids below the next one.
pub Reachable-WellFormed : (start db : Db) → WellFormed start → Reachable start db → WellFormed db
Reachable-WellFormed start db wf at_start = wf
Reachable-WellFormed start db' wf (after {db = db} r s) =
    Step-WellFormed s (Reachable-WellFormed start db wf r)
