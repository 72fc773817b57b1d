-- ===== src/Admin/Create.antt =====
-- What a new channel is published to.
use rust_pois.Prelude.{
  unwrap_ok, ℕ, ◌<◌, All, ◌≡◌, refl, sym, ap, ◌∙◌, Bool, true, false, ◌&&◌, ◌||◌, Option, some,
  List, [], ◌∷◌, all, ◌==◌, unwrap_or, Result, ok, err, if_holds, Bool-cases, inl, inr, arith,
  subst,
}
use rust_pois.Rbac.{Link, Eff, contains_id, linked}
use rust_pois.Rbac.Sharing.{link_groups-links}
use rust_pois.Groups.{Refusal}
use rust_pois.Groups.Scope.{outside}
use rust_pois.Admin.{
  Channel, Store, UpsertChannel, create_channel, create_in, created, publish_groups, within,
  named_groups, insertable, new_channel,
}

within-ok :
    (eff : Eff) (r : Result Refusal (List ℕ)) (groups : List ℕ)
    → within eff r ≡ ok groups
    → all (contains_id eff.member_of) groups ≡ true
within-ok eff (err e) groups h = cc
within-ok eff (ok gs) groups h = elim (Bool-cases (all (contains_id eff.member_of) gs)) [
  | inl e ↦
      let same : gs ≡ groups = ap (unwrap_ok groups) (rw e at h) in
      subst (λ (l : List ℕ). all (contains_id eff.member_of) l ≡ true) same e
  | inr e ↦ cc (let bad = rw e at h in bad)
]

publish_groups-ok :
    (eff : Eff) (g : Option (List ℕ)) (groups : List ℕ)
    → eff.super_admin ≡ false
    → publish_groups eff g ≡ ok groups
    → all (contains_id eff.member_of) groups ≡ true
unfolding publish_groups
publish_groups-ok eff g groups plain h =
    within-ok eff (named_groups eff (unwrap_or g [])) groups (rw plain at h)

-- A channel id that is not given out yet has no links.
no_links :
    (links : List Link) (n h : ℕ)
    → All (λ (l : Link). l.resource_id < n) links
    → linked links n h ≡ false
unfolding linked
no_links [] n h low = refl
no_links (l ∷ links) n h low =
    let other : (l.resource_id == n) ≡ false = (let lt = low.0 in ground arith) in
    rw other (no_links links n h low.1)

created-links :
    (eff : Eff) (p : UpsertChannel) (groups : List ℕ) (st : Store) (h : ℕ)
    → contains_id groups h ≡ false
    → linked (created eff p groups st).links st.next_channel h ≡ linked st.links st.next_channel h
created-links eff p groups st h absent =
    link_groups-links groups _ st.next_channel st.next_channel h
    ∙ rw absent (nothing (linked st.links st.next_channel h) _)
  where
    nothing : (a b : Bool) → (a || (b && false)) ≡ a
    nothing true b = refl
    nothing false true = refl
    nothing false false = refl

-- A channel that a caller who is not a super-admin creates is theirs, is not global, and is published to
-- no group that they do not belong to, where the links there are are those of earlier channels.
pub create_channel-private :
    (eff : Eff) (p : UpsertChannel) (st : Store) (ch : Channel) (h : ℕ)
    → All (λ (l : Link). l.resource_id < st.next_channel) st.links
    → eff.super_admin ≡ false
    → contains_id eff.member_of h ≡ false
    → (create_channel eff p st).0 ≡ ok ch
    → (ch.is_global ≡ 0)
      × (ch.owner_user_id ≡ some eff.uid)
      × (linked (create_channel eff p st).1.links ch.id h ≡ false)
unfolding create_channel
create_channel-private eff p st ch h early plain apart =
    from (publish_groups eff p.group_ids)
      (λ groups e. publish_groups-ok eff p.group_ids groups plain e)
  where
    Private : Result Refusal Channel × Store → Type 0
    Private r =
        r.0 ≡ ok ch
        → (ch.is_global ≡ 0)
          × (ch.owner_user_id ≡ some eff.uid)
          × (linked r.1.links ch.id h ≡ false)

    from :
        (r : Result Refusal (List ℕ))
        → ((groups : List ℕ) → r ≡ ok groups → all (contains_id eff.member_of) groups ≡ true)
        → Private (create_in eff p st r)
    from (err e) inside k = cc
    from (ok groups) inside k₀ =
        if_holds Private (insertable eff p.name st)
          (λ _ k.
            let same : new_channel eff p st.next_channel ≡ ch = ap (unwrap_ok ch) k in
            let absent = outside eff.member_of groups h (inside groups refl) apart in
            (
              ap (λ (c : Channel). c.is_global) (sym same) ∙ rw plain refl,
              ap (λ (c : Channel). c.owner_user_id) (sym same),
              ap (λ (c : Channel). linked (created eff p groups st).links c.id h) (sym same)
                  ∙ created-links eff p groups st h absent
                  ∙ no_links st.links st.next_channel h early,
            ))
          (λ _ k. cc) k₀
