-- ===== src/Groups/Identity.antt =====
-- What adding and removing a member does to the identity that `effective` resolves for the user.
use rust_pois.Prelude.{
  is_there, if_holds, ℕ, ◌≡◌, refl, subst, Bool, true, false, not, ◌&&◌, Option, some, List, [],
  ◌∷◌, filter, ◌==◌, ==_refl, ==_iff, Text, codes, text_eq, unwrap_or, Result, ok, Bool-cases,
  arith, inl, inr,
}
use rust_pois.Rbac.{Eff, Member, contains_id, is_group_admin, effective, groups_of, admin_groups_of}
use rust_pois.Groups.{
  Claims, Db, Refusal, add_member, remove_member, is_key, is_role, upsert_member, caller,
  find_group,
}
use rust_pois.Groups.Tables.{WellFormed, NoKey, Unique, has_user}

-- No row of the user in the group: neither list has the group.
nowhere :
    (id uid : ℕ) (ms : List Member)
    → NoKey id uid ms
    → (contains_id (groups_of uid ms) id ≡ false)
      × (contains_id (admin_groups_of uid ms) id ≡ false)
unfolding groups_of admin_groups_of
nowhere id uid [] h = (refl, refl)
nowhere id uid (m ∷ ms) h =
    let (a, b) = nowhere id uid ms h.1 in
    let key = h.0 in
    elim (Bool-cases (m.user_id == uid)) [
      | inr e ↦ rw e (a, b)
      | inl e ↦
          let other : (m.group_id == id) ≡ false = ground arith in
          elim (Bool-cases (text_eq m.role (codes "admin"))) [
            | inl r ↦ rw (e, r, other) (a, b)
            | inr r ↦ rw (e, r, other) (a, b)
          ]
    ]

module _ (id uid : ℕ) (role : Text) where
  upsert-groups :
      (ms : List Member) → contains_id (groups_of uid (upsert_member id uid role ms)) id ≡ true
  unfolding groups_of upsert_member
  upsert-groups [] = rw (==_refl uid, ==_refl id) refl
  upsert-groups (m ∷ ms) = elim (Bool-cases (is_key id uid m)) [
    | inl e ↦
        let g : (m.group_id == id) ≡ true = ground arith in
        let u : (m.user_id == uid) ≡ true = ground arith in rw (e, u, g) refl
    | inr e ↦ elim (Bool-cases (m.user_id == uid)) [
      | inl u ↦ rw (e, u, upsert-groups ms) (ground arith)
      | inr u ↦ rw (e, u) (upsert-groups ms)
    ]
  ]

  upsert-admin :
      (ms : List Member)
      → Unique ms
      → contains_id (admin_groups_of uid (upsert_member id uid role ms)) id
        ≡ text_eq role (codes "admin")
  unfolding admin_groups_of upsert_member
  upsert-admin [] h = elim (Bool-cases (text_eq role (codes "admin"))) [
    | inl r ↦ rw (==_refl uid, r, ==_refl id) refl
    | inr r ↦ rw (==_refl uid, r) refl
  ]
  upsert-admin (m ∷ ms) h = elim (Bool-cases (is_key id uid m)) [
    | inl e ↦
        let g : (m.group_id == id) ≡ true = ground arith in
        let u : (m.user_id == uid) ≡ true = ground arith in
        let none_later : NoKey id uid ms =
          subst (λ (i : ℕ). NoKey i uid ms) ((==_iff m.group_id id).0 g)
            (subst (λ (i : ℕ). NoKey m.group_id i ms) ((==_iff m.user_id uid).0 u) h.0) in
        elim (Bool-cases (text_eq role (codes "admin"))) [
          | inl r ↦ rw (e, u, r, g) refl
          | inr r ↦ rw (e, u, r) (nowhere id uid ms none_later).1
        ]
    | inr e ↦ elim (Bool-cases ((m.user_id == uid) && text_eq m.role (codes "admin"))) [
      | inl u ↦
          let g : (m.group_id == id) ≡ false = ground arith in rw (e, u, g) (upsert-admin ms h.1)
      | inr u ↦ rw (e, u) (upsert-admin ms h.1)
    ]
  ]

remove-nowhere :
    (id uid : ℕ) (ms : List Member)
    → NoKey id uid (filter (λ (m : Member). not (is_key id uid m)) ms)
remove-nowhere id uid [] = tt
remove-nowhere id uid (m ∷ ms) = elim (Bool-cases (is_key id uid m)) [
  | inl e ↦ rw e (remove-nowhere id uid ms)
  | inr e ↦ rw e (e, remove-nowhere id uid ms)
]

-- The identity that the tables give a user.
abbrev pub identity : Db → ℕ → Text → Eff
identity db uid token_role = effective db.members (some uid) token_role

-- Whether the user is in the group, and whether as an admin.
abbrev pub Belongs : ℕ → ℕ → Text → Bool → Bool → Db → Type 0
Belongs id uid token_role member admin db =
    (contains_id (identity db uid token_role).member_of id ≡ member)
    × (contains_id (identity db uid token_role).admin_of id ≡ admin)

-- A user who has been added to a group, where that succeeds in well-formed tables, is in the group in
-- the next request, and administers it exactly where the role is `admin`.
pub add_member-Belongs :
    (c : Claims) (id uid : ℕ) (role : Option Text) (db : Db) (token_role : Text)
    → WellFormed db
    → (add_member c id uid role db).0 ≡ ok tt
    → Belongs id uid token_role true
        (text_eq (unwrap_or role (codes "member")) (codes "admin"))
        (add_member c id uid role db).1
unfolding add_member effective
add_member-Belongs c id uid role db token_role wf =
    if_holds Result_ok (not (is_group_admin (caller db c) id)) (λ _ h. cc)
      (λ _.
        if_holds Result_ok (not (is_role role')) (λ _ h. cc)
          (λ _.
            if_holds Result_ok (not (is_there (find_group id db.groups))) (λ _ h. cc)
              (λ _.
                if_holds Result_ok (not (has_user db.users uid)) (λ _ h. cc)
                  (λ _ h. (
                    upsert-groups id uid role' db.members,
                    upsert-admin id uid role' db.members wf.keys,
                  )))))
  where
    role' : Text
    role' = unwrap_or role (codes "member")

    Result_ok : Result Refusal Unit × Db → Type 0
    Result_ok r = r.0 ≡ ok tt → Belongs id uid token_role true (text_eq role' (codes "admin")) r.1

-- A user who has been removed from a group, where that succeeds, is not in it in the next request.
pub remove_member-Belongs :
    (c : Claims) (id uid : ℕ) (db : Db) (token_role : Text)
    → (remove_member c id uid db).0 ≡ ok tt
    → Belongs id uid token_role false false (remove_member c id uid db).1
unfolding remove_member effective
remove_member-Belongs c id uid db token_role =
    if_holds Result_ok (not (is_group_admin (caller db c) id)) (λ _ h. cc)
      (λ _ h. nowhere id uid _ (remove-nowhere id uid db.members))
  where
    Result_ok : Result Refusal Unit × Db → Type 0
    Result_ok r = r.0 ≡ ok tt → Belongs id uid token_role false false r.1
