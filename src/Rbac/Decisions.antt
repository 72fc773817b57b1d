-- ===== src/Rbac/Decisions.antt =====
-- The decisions on a row that is found.
use rust_pois.Prelude.{
  ℕ, ◌≡◌, ◌≢◌, ◌↔◌, ◌⊎◌, inl, inr, refl, ap, Bool, true, false, ◌||◌, Option, none, some, List,
  ◌!=◌, if◌then◌else◌, or_iff, ==_iff, arith,
}
use rust_pois.Rbac.Published.{SharedTo, group_link_matches_iff}
use rust_pois.Rbac.{Eff, Resource, Link, group_link_matches, owned_by, readable_row, writable_row}

owned_by_iff : (uid : ℕ) (owner : Option ℕ) → (owned_by uid owner ≡ true) ↔ (owner ≡ some uid)
owned_by_iff uid none = ((λ h. cc), (λ h. cc))
owned_by_iff uid (some o) =
    ((λ h. ap some ((==_iff o uid).0 h)), (λ h. (==_iff o uid).1 (let same : o ≡ uid = cc in same)))

abbrev pub MayReadRow : Eff → List Link → ℕ → Resource → Type 0
MayReadRow eff links id row =
    (row.is_global ≢ 0) ⊎ (row.owner_user_id ≡ some eff.uid) ⊎ SharedTo links id eff.member_of

abbrev pub MayWriteRow : Eff → List Link → ℕ → Resource → Type 0
MayWriteRow eff links id row = (row.owner_user_id ≡ some eff.uid) ⊎ SharedTo links id eff.admin_of

if_iff : (b c : Bool) → ((if b then true else c) ≡ true) ↔ ((b ≡ true) ⊎ (c ≡ true))
if_iff true c = ((λ h. inl refl), (λ h. refl))
if_iff false c = ((λ h. inr h), (λ s. elim s [ inl t ↦ cc | inr h ↦ h ]))

global_iff : (n : ℕ) → ((n != 0) ≡ true) ↔ (n ≢ 0)
global_iff n = ground arith

pub readable_row_iff :
    (eff : Eff) (links : List Link) (id : ℕ) (row : Resource)
    → (readable_row eff links id (some row) ≡ true)
      ↔ ((row.is_global ≢ 0) ⊎ (row.owner_user_id ≡ some eff.uid) ⊎ SharedTo links id eff.member_of)
readable_row_iff eff links id row = (to, from)
  where
    to :
        readable_row eff links id (some row) ≡ true
        → (row.is_global ≢ 0) ⊎ (row.owner_user_id ≡ some eff.uid) ⊎ SharedTo links id eff.member_of
    to h =
        elim ((if_iff ((row.is_global != 0) || owned_by eff.uid row.owner_user_id)
            (group_link_matches links id eff.member_of)).0
          h) [
            | inl own ↦
                elim ((or_iff (row.is_global != 0) (owned_by eff.uid row.owner_user_id)).0 own) [
                  | inl glob ↦ inl ((global_iff row.is_global).0 glob)
                  | inr mine ↦ inr (inl ((owned_by_iff eff.uid row.owner_user_id).0 mine))
                ]
            | inr shared ↦ inr (inr ((group_link_matches_iff links id eff.member_of).0 shared))
          ]

    from :
        (row.is_global ≢ 0) ⊎ (row.owner_user_id ≡ some eff.uid) ⊎ SharedTo links id eff.member_of
        → readable_row eff links id (some row) ≡ true
    from (inl glob) =
        (if_iff _ _).1 (inl ((or_iff _ _).1 (inl ((global_iff row.is_global).1 glob))))
    from (inr (inl mine)) =
        (if_iff _ _).1
          (inl ((or_iff _ _).1 (inr ((owned_by_iff eff.uid row.owner_user_id).1 mine))))
    from (inr (inr shared)) =
        (if_iff _ _).1 (inr ((group_link_matches_iff links id eff.member_of).1 shared))

pub writable_row_iff :
    (eff : Eff) (links : List Link) (id : ℕ) (row : Resource)
    → (writable_row eff links id (some row) ≡ true)
      ↔ ((row.owner_user_id ≡ some eff.uid) ⊎ SharedTo links id eff.admin_of)
writable_row_iff eff links id row = (to, from)
  where
    to :
        writable_row eff links id (some row) ≡ true
        → (row.owner_user_id ≡ some eff.uid) ⊎ SharedTo links id eff.admin_of
    to h =
        elim ((if_iff (owned_by eff.uid row.owner_user_id)
            (group_link_matches links id eff.admin_of)).0
          h) [
            | inl mine ↦ inl ((owned_by_iff eff.uid row.owner_user_id).0 mine)
            | inr shared ↦ inr ((group_link_matches_iff links id eff.admin_of).0 shared)
          ]

    from :
        (row.owner_user_id ≡ some eff.uid) ⊎ SharedTo links id eff.admin_of
        → writable_row eff links id (some row) ≡ true
    from (inl mine) = (if_iff _ _).1 (inl ((owned_by_iff eff.uid row.owner_user_id).1 mine))
    from (inr shared) =
        (if_iff _ _).1 (inr ((group_link_matches_iff links id eff.admin_of).1 shared))
