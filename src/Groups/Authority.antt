-- ===== src/Groups/Authority.antt =====
-- Who may change what, and what a change does to the identity that `effective` resolves.
use rust_pois.Prelude.{
  is_there, if_holds, ℕ, ◌≡◌, refl, ap, Bool, false, not, ◌&&◌, Option, none, some, List, [], ◌∷◌,
  all, filter, ◌==◌, Text, codes, unwrap_or, Result, Bool-cases, arith, inl, inr, ==_iff,
}
use rust_pois.Rbac.{Member, contains_id, can_write, is_group_admin}
use rust_pois.Groups.{
  Claims, Group, Db, Shared, Refusal, create_group, update_group, update_found, delete_group,
  add_member, remove_member, is_key, is_role, upsert_member, caller, find_group, name_taken,
  name_clash,
}
use rust_pois.Groups.Share.{
  Kind, channel, project, template, set_share, share_as, share_tables, put_table, entity,
}
use rust_pois.Groups.Tables.{has_user}

abbrev pub members_of : ℕ → Db → List Member
members_of g db = filter (λ (m : Member). m.group_id == g) db.members

abbrev pub SameMembers : ℕ → Db → {A : Type 0} → Result Refusal A × Db → Type 0
SameMembers g db r = members_of g r.1 ≡ members_of g db

upsert-other :
    (g id uid : ℕ) (role : Text) (ms : List Member)
    → (id == g) ≡ false
    → filter (λ (m : Member). m.group_id == g) (upsert_member id uid role ms)
      ≡ filter (λ (m : Member). m.group_id == g) ms
unfolding upsert_member
upsert-other g id uid role [] ne = rw ne refl
upsert-other g id uid role (m ∷ ms) ne = elim (Bool-cases (is_key id uid m)) [
  | inl e ↦ let out : (m.group_id == g) ≡ false = ground arith in rw (e, out) refl
  | inr e ↦ rw (e, upsert-other g id uid role ms ne) refl
]

remove-other :
    (g id uid : ℕ) (ms : List Member)
    → (id == g) ≡ false
    → filter (λ (m : Member). m.group_id == g) (filter (λ (m : Member). not (is_key id uid m)) ms)
      ≡ filter (λ (m : Member). m.group_id == g) ms
remove-other g id uid [] ne = refl
remove-other g id uid (m ∷ ms) ne = elim (Bool-cases (is_key id uid m)) [
  | inl e ↦
      let out : (m.group_id == g) ≡ false = ground arith in
      rw (e, out) (remove-other g id uid ms ne)
  | inr e ↦ rw (e, remove-other g id uid ms ne) refl
]

abbrev Untouched : Db → {A : Type 0} → Result Refusal A × Db → Type 0
Untouched db r = r.1.members ≡ db.members

module _ (c : Claims) (db : Db) where
  pub create-Untouched : (name : Text) (d : Option Text) → Untouched db (create_group c name d db)
  unfolding create_group
  create-Untouched name d =
      if_holds (Untouched db) (not (caller db c).super_admin) (λ _. refl)
        (λ _. if_holds (Untouched db) (name_taken name db.groups) (λ _. refl) (λ _. refl))

  pub update-Untouched :
      (id : ℕ) (name d : Option Text) → Untouched db (update_group c id name d db)
  unfolding update_group
  update-Untouched id name d =
      if_holds (Untouched db) (not (is_group_admin (caller db c) id)) (λ _. refl)
        (λ _. found (find_group id db.groups))
    where
      found : (o : Option Group) → Untouched db (update_found id name d db o)
      found none = refl
      found (some group) =
          if_holds (Untouched db) (name_clash name id db.groups) (λ _. refl) (λ _. refl)

  pub delete-Untouched : (id : ℕ) → Untouched db (delete_group c id db)
  unfolding delete_group
  delete-Untouched id =
      if_holds (Untouched db) (not (caller db c).super_admin) (λ _. refl) (λ _. refl)

  pub share-Untouched :
      (kind : Text) (id : ℕ) (gs : List ℕ) (g : Option Bool)
      → Untouched db (set_share c kind id gs g db)
  unfolding set_share
  share-Untouched kind id gs g = as_kind (share_tables kind)
    where
      moved : (k : Kind) (t : Shared) → (put_table k t db).members ≡ db.members
      moved channel t = refl
      moved project t = refl
      moved template t = refl

      as_kind : (o : Option Kind) → Untouched db (share_as c kind id gs g db o)
      as_kind none = refl
      as_kind (some k) =
          if_holds (Untouched db) (not (can_write (entity k db) (caller db c) id)) (λ _. refl)
            (λ _.
              if_holds (Untouched db)
                (not (caller db c).super_admin
                  && not (all (contains_id (caller db c).member_of) gs))
                (λ _. refl) (λ _. moved k _))

  other_group :
      (id g : ℕ)
      → is_group_admin (caller db c) g ≡ false
      → not (is_group_admin (caller db c) id) ≡ false
      → (id == g) ≡ false
  other_group id g h k = elim (Bool-cases (id == g)) [
    | inr e ↦ e
    | inl e ↦
        let same : id ≡ g = (==_iff id g).0 e in
        let bad : not (is_group_admin (caller db c) g) ≡ false = rw same at k in cc
  ]

  add-SameMembers :
      (g id uid : ℕ) (role : Option Text)
      → is_group_admin (caller db c) g ≡ false
      → SameMembers g db (add_member c id uid role db)
  unfolding add_member
  add-SameMembers g id uid role h =
      let role' = unwrap_or role (codes "member") in
      if_holds (SameMembers g db) (not (is_group_admin (caller db c) id)) (λ _. refl)
        (λ a.
          if_holds (SameMembers g db) (not (is_role role')) (λ _. refl)
            (λ _.
              if_holds (SameMembers g db) (not (is_there (find_group id db.groups))) (λ _. refl)
                (λ _.
                  if_holds (SameMembers g db) (not (has_user db.users uid)) (λ _. refl)
                    (λ _. upsert-other g id uid role' db.members (other_group id g h a)))))

  remove-SameMembers :
      (g id uid : ℕ)
      → is_group_admin (caller db c) g ≡ false
      → SameMembers g db (remove_member c id uid db)
  unfolding remove_member
  remove-SameMembers g id uid h =
      if_holds (SameMembers g db) (not (is_group_admin (caller db c) id)) (λ _. refl)
        (λ a. remove-other g id uid db.members (other_group id g h a))

-- A caller who does not administer a group, and is not a super-admin, changes none of its rows of
-- group_members, whatever the request.
pub only_admins_change_members :
    (c : Claims) (db : Db) (g : ℕ) (name : Text) (new_name d role : Option Text) (id uid : ℕ)
    (kind : Text) (gs : List ℕ) (is_global : Option Bool)
    → is_group_admin (caller db c) g ≡ false
    → SameMembers g db (create_group c name d db)
      × SameMembers g db (update_group c id new_name d db)
      × SameMembers g db (delete_group c id db)
      × SameMembers g db (add_member c id uid role db)
      × SameMembers g db (remove_member c id uid db)
      × SameMembers g db (set_share c kind id gs is_global db)
only_admins_change_members c db g name new_name d role id uid kind gs is_global h =
    let rows : List Member → List Member = λ ms. filter (λ (m : Member). m.group_id == g) ms in
    (
      ap rows (create-Untouched c db name d),
      ap rows (update-Untouched c db id new_name d),
      ap rows (delete-Untouched c db id),
      add-SameMembers c db g id uid role h,
      remove-SameMembers c db g id uid h,
      ap rows (share-Untouched c db kind id gs is_global),
    )
