-- ===== src/Groups/Roles.antt =====
-- The members as a map from a group and a user to a role, and the requests as changes of this map.
use rust_pois.Prelude.{
  ℕ, ◌≡◌, refl, ap, ap₂, ◌∙◌, true, false, not, ◌&&◌, Option, none, some, List, [], ◌∷◌, filter,
  ◌==◌, if◌then◌else◌, if_holds, Text, codes, unwrap_or, Result, Bool-cases, arith, inl, inr,
  is_there,
}
use rust_pois.Rbac.{Member, is_group_admin}
use rust_pois.Groups.{
  Claims, Db, Refusal, caller, find_group, add_member, remove_member, upsert_member, is_key,
  is_role,
}
use rust_pois.Groups.Tables.{has_user}
use rust_pois.Groups.Steps.{Step, creates, updates, deletes, adds, removes, shares, not-false}
use rust_pois.Groups.Authority.{
  create-Untouched, update-Untouched, delete-Untouched, share-Untouched,
}

abbrev pub Roles : Type 0
Roles = ℕ → ℕ → Option Text

unfoldable pub role_of : List Member → Roles
role_of [] g u = none
role_of (m ∷ ms) g u = let rest = role_of ms g u in if is_key g u m then some m.role else rest

-- One entry of the map replaced.
abbrev pub assign : ℕ → ℕ → Option Text → Roles → Roles
assign id uid role v g u = if (id == g) && (uid == u) then role else v g u

-- What a request does to the roles: nothing, one of the two roles for one member, or one member less.
pub data Change (v w : Roles) : Type 0 where
  keeps : ((g u : ℕ) → w g u ≡ v g u) → Change v w
  assigns :
      (id uid : ℕ) (role : Text)
      → is_role role ≡ true
      → ((g u : ℕ) → w g u ≡ assign id uid (some role) v g u)
      → Change v w
  revokes : (id uid : ℕ) → ((g u : ℕ) → w g u ≡ assign id uid none v g u) → Change v w

module _ (id uid g u : ℕ) where
  -- A row with one key, asked for another.
  key_is : (m : Member) → is_key id uid m ≡ true → is_key g u m ≡ ((id == g) && (uid == u))
  key_is m h =
      let i : m.group_id ≡ id = ground arith in
      let j : m.user_id ≡ uid = ground arith in ap₂ (λ (a b : ℕ). (a == g) && (b == u)) i j

  key_not :
      (m : Member)
      → is_key id uid m ≡ false
      → is_key g u m ≡ true
      → ((id == g) && (uid == u)) ≡ false
  key_not m h k = ground arith

  role_of-upsert :
      (role : Text) (ms : List Member)
      → role_of (upsert_member id uid role ms) g u ≡ assign id uid (some role) (role_of ms) g u
  unfolding role_of upsert_member
  role_of-upsert role [] = refl
  role_of-upsert role (m ∷ ms) = elim (Bool-cases (is_key id uid m)) [
    | inl e ↦ elim (Bool-cases ((id == g) && (uid == u))) [
      | inl k ↦ rw (e, key_is m e, k) refl
      | inr k ↦ rw (e, key_is m e, k) refl
    ]
    | inr e ↦ elim (Bool-cases (is_key g u m)) [
      | inl k ↦ rw (e, k, key_not m e k) refl
      | inr k ↦ rw (e, k) (role_of-upsert role ms)
    ]
  ]

  role_of-filter :
      (ms : List Member)
      → role_of (filter (λ (m : Member). not (is_key id uid m)) ms) g u
        ≡ assign id uid none (role_of ms) g u
  unfolding role_of
  role_of-filter [] = elim (Bool-cases ((id == g) && (uid == u))) [
    | inl k ↦ rw k refl
    | inr k ↦ rw k refl
  ]
  role_of-filter (m ∷ ms) = elim (Bool-cases (is_key id uid m)) [
    | inl e ↦ elim (Bool-cases ((id == g) && (uid == u))) [
      | inl k ↦ rw (e, key_is m e, k) (role_of-filter ms ∙ rw k refl)
      | inr k ↦ rw (e, key_is m e, k) (role_of-filter ms ∙ rw k refl)
    ]
    | inr e ↦ elim (Bool-cases (is_key g u m)) [
      | inl k ↦ rw (e, k, key_not m e k) refl
      | inr k ↦ rw (e, k) (role_of-filter ms)
    ]
  ]

abbrev To : Db → {A : Type 0} → Result Refusal A × Db → Type 0
To db r = Change (role_of db.members) (role_of r.1.members)

same_roles : (ms ms' : List Member) → ms' ≡ ms → Change (role_of ms) (role_of ms')
same_roles ms ms' e = keeps (λ g u. ap (λ (l : List Member). role_of l g u) e)

add-Change :
    (c : Claims) (id uid : ℕ) (role : Option Text) (db : Db) → To db (add_member c id uid role db)
unfolding add_member
add-Change c id uid role db =
    let role' = unwrap_or role (codes "member") in
    if_holds (To db) (not (is_group_admin (caller db c) id)) (λ _. keeps (λ g u. refl))
      (λ _.
        if_holds (To db) (not (is_role role')) (λ _. keeps (λ g u. refl))
          (λ r.
            if_holds (To db) (not (is_there (find_group id db.groups))) (λ _. keeps (λ g u. refl))
              (λ _.
                if_holds (To db) (not (has_user db.users uid)) (λ _. keeps (λ g u. refl))
                  (λ _.
                    assigns id uid role' (not-false r)
                      (λ g u. role_of-upsert id uid g u role' db.members)))))

remove-Change : (c : Claims) (id uid : ℕ) (db : Db) → To db (remove_member c id uid db)
unfolding remove_member
remove-Change c id uid db =
    if_holds (To db) (not (is_group_admin (caller db c) id)) (λ _. keeps (λ g u. refl))
      (λ _. revokes id uid (λ g u. role_of-filter id uid g u db.members))

-- Every request, seen through the roles, leaves them, gives one user one of the two roles in one group,
-- or takes one user out of one group.
pub Step-Change : {db db' : Db} → Step db db' → Change (role_of db.members) (role_of db'.members)
Step-Change (creates c name d db) = same_roles db.members _ (create-Untouched c db name d)
Step-Change (updates c id name d db) = same_roles db.members _ (update-Untouched c db id name d)
Step-Change (deletes c id db) = same_roles db.members _ (delete-Untouched c db id)
Step-Change (shares c kind id gs g db) = same_roles db.members _ (share-Untouched c db kind id gs g)
Step-Change (adds c id uid role db) = add-Change c id uid role db
Step-Change (removes c id uid db) = remove-Change c id uid db
