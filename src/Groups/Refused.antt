-- ===== src/Groups/Refused.antt =====
-- What a refused request does to the tables.
use rust_pois.Prelude.{
  is_there, if_holds, ℕ, ◌≡◌, refl, Bool, not, ◌&&◌, Option, none, some, List, all, Text, codes,
  unwrap_or, Result, ok, ◌⊎◌, inl, inr,
}
use rust_pois.Rbac.{contains_id, can_write, is_group_admin}
use rust_pois.Groups.{
  Claims, Group, Db, Refusal, create_group, update_group, update_found, delete_group, add_member,
  remove_member, is_role, caller, find_group, name_taken, name_clash,
}
use rust_pois.Groups.Share.{Kind, set_share, share_as, share_tables, entity}
use rust_pois.Groups.Tables.{has_user}

-- A request succeeds, or the tables are as they were.
abbrev pub AllOrNothing : Db → {A : Type 0} → Result Refusal A × Db → Type 0
AllOrNothing db {A} r = ((a : A) × (r.0 ≡ ok a)) ⊎ (r.1 ≡ db)

module _ (c : Claims) (db : Db) where
  create-AllOrNothing : (name : Text) (d : Option Text) → AllOrNothing db (create_group c name d db)
  unfolding create_group
  create-AllOrNothing name d =
      if_holds (AllOrNothing db) (not (caller db c).super_admin) (λ _. inr refl)
        (λ _.
          if_holds (AllOrNothing db) (name_taken name db.groups) (λ _. inr refl)
            (λ _. inl (_, refl)))

  update-AllOrNothing :
      (id : ℕ) (name d : Option Text) → AllOrNothing db (update_group c id name d db)
  unfolding update_group
  update-AllOrNothing id name d =
      if_holds (AllOrNothing db) (not (is_group_admin (caller db c) id)) (λ _. inr refl)
        (λ _. found (find_group id db.groups))
    where
      found : (o : Option Group) → AllOrNothing db (update_found id name d db o)
      found none = inr refl
      found (some group) =
          if_holds (AllOrNothing db) (name_clash name id db.groups) (λ _. inr refl)
            (λ _. inl (_, refl))

  delete-AllOrNothing : (id : ℕ) → AllOrNothing db (delete_group c id db)
  unfolding delete_group
  delete-AllOrNothing id =
      if_holds (AllOrNothing db) (not (caller db c).super_admin) (λ _. inr refl)
        (λ _. inl (_, refl))

  remove-AllOrNothing : (id uid : ℕ) → AllOrNothing db (remove_member c id uid db)
  unfolding remove_member
  remove-AllOrNothing id uid =
      if_holds (AllOrNothing db) (not (is_group_admin (caller db c) id)) (λ _. inr refl)
        (λ _. inl (_, refl))

  add-AllOrNothing :
      (id uid : ℕ) (role : Option Text) → AllOrNothing db (add_member c id uid role db)
  unfolding add_member
  add-AllOrNothing id uid role =
      if_holds (AllOrNothing db) (not (is_group_admin (caller db c) id)) (λ _. inr refl)
        (λ _.
          if_holds (AllOrNothing db) (not (is_role (unwrap_or role (codes "member"))))
            (λ _. inr refl)
            (λ _.
              if_holds (AllOrNothing db) (not (is_there (find_group id db.groups))) (λ _. inr refl)
                (λ _.
                  if_holds (AllOrNothing db) (not (has_user db.users uid)) (λ _. inr refl)
                    (λ _. inl (_, refl)))))

  share-AllOrNothing :
      (kind : Text) (id : ℕ) (gs : List ℕ) (g : Option Bool)
      → AllOrNothing db (set_share c kind id gs g db)
  unfolding set_share
  share-AllOrNothing kind id gs g = as_kind (share_tables kind)
    where
      as_kind : (o : Option Kind) → AllOrNothing db (share_as c kind id gs g db o)
      as_kind none = inr refl
      as_kind (some k) =
          if_holds (AllOrNothing db) (not (can_write (entity k db) (caller db c) id))
            (λ _. inr refl)
            (λ _.
              if_holds (AllOrNothing db)
                (not (caller db c).super_admin
                  && not (all (contains_id (caller db c).member_of) gs))
                (λ _. inr refl) (λ _. inl (_, refl)))

-- Each of the six requests succeeds, or leaves the tables as they were.
pub requests-AllOrNothing :
    (c : Claims) (db : Db) (name : Text) (new_name d role : Option Text) (id uid : ℕ) (kind : Text)
    (gs : List ℕ) (is_global : Option Bool)
    → AllOrNothing db (create_group c name d db)
      × AllOrNothing db (update_group c id new_name d db)
      × AllOrNothing db (delete_group c id db)
      × AllOrNothing db (add_member c id uid role db)
      × AllOrNothing db (remove_member c id uid db)
      × AllOrNothing db (set_share c kind id gs is_global db)
requests-AllOrNothing c db name new_name d role id uid kind gs is_global = (
  create-AllOrNothing c db name d,
  update-AllOrNothing c db id new_name d,
  delete-AllOrNothing c db id,
  add-AllOrNothing c db id uid role,
  remove-AllOrNothing c db id uid,
  share-AllOrNothing c db kind id gs is_global,
)
