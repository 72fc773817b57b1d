-- ===== src/Admin/Append.antt =====
-- Where a new rule stands.
use mathlib.Core.List.{Memᴰ}
use rust_pois.Prelude.{
  unwrap_ok, ℕ, ◌+◌, ◌^◌, ◌-◌, All, ◌≡◌, refl, sym, ap, ◌∙◌, true, false, not, ◌&&◌, Option, none,
  some, List, [], ◌∷◌, any, filter, ◌==◌, ltb, unwrap_or, Result, ok, ℤ, pos, negsuc, if_holds,
  Bool-cases, Option-cases, inl, inr, arith, subst,
}
use rust_pois.Rbac.{Eff, contains_id, can_write}
use rust_pois.Groups.{Refusal}
use rust_pois.Esam.{Serde}
use rust_pois.Esam.Decide.{Rule, leb_int}
use rust_pois.Esam.Decide.Order.{leb_int_refl, leb_int_total, leb_int_trans}
use rust_pois.Admin.{Channel, Store, entity}
use rust_pois.Admin.Rules.{
  UpsertRule, in_channel, max_priority, max_int, add_ten, ten_later, or_read, next_priority,
  priority_for, new_rule, create_rule,
}

max_above : (a b : ℤ) → (leb_int a (max_int a b) ≡ true) × (leb_int b (max_int a b) ≡ true)
max_above a b = elim (Bool-cases (leb_int a b)) [
  | inl e ↦ rw e (e, leb_int_refl b)
  | inr e ↦ rw e (leb_int_refl a, leb_int_total a b e)
]

max_priority-above :
    (rules : List Rule) (s : Rule)
    → Memᴰ s rules
    → (m : ℤ) × (max_priority rules ≡ some m) × (leb_int s.priority m ≡ true)
unfolding max_priority
max_priority-above [] s m = elim m [ ]
max_priority-above (r ∷ rules) s m = elim (Option-cases (max_priority rules)) [
  | inl e ↦ elim m [
    | Memᴰ.head q ↦ (
      r.priority,
      rw e refl,
      subst (λ (t : Rule). leb_int t.priority r.priority ≡ true) (sym q) (leb_int_refl r.priority),
    )
    | Memᴰ.tail k ↦
        let (n, here, le) = max_priority-above rules s k in
        let bad : none ≡ some n = sym e ∙ here in cc
  ]
  | inr (n, e) ↦
      let (ra, na) = max_above r.priority n in
      (
        max_int r.priority n,
        rw e refl,
        elim m [
          | Memᴰ.head q ↦
              subst (λ (t : Rule). leb_int t.priority (max_int r.priority n) ≡ true) (sym q) ra
          | Memᴰ.tail k ↦
              let (n', here, le) = max_priority-above rules s k in
              let same : n' ≡ n = ap (λ o. unwrap_or o n) (sym here ∙ e) in
              leb_int_trans s.priority n (max_int r.priority n)
                (subst (λ (t : ℤ). leb_int s.priority t ≡ true) same le) na
        ],
      )
]

max_int-le :
    (a b top : ℤ) → leb_int a top ≡ true → leb_int b top ≡ true → leb_int (max_int a b) top ≡ true
max_int-le a b top h k = elim (Bool-cases (leb_int a b)) [ inl e ↦ rw e k | inr e ↦ rw e h ]

max_priority-le :
    (top : ℤ) (rules : List Rule) (m : ℤ)
    → All (λ (r : Rule). leb_int r.priority top ≡ true) rules
    → max_priority rules ≡ some m
    → leb_int m top ≡ true
unfolding max_priority
max_priority-le top [] m h e = cc
max_priority-le top (r ∷ rules) m h e = elim (Option-cases (max_priority rules)) [
  | inl c ↦
      let same : r.priority ≡ m = ap (λ o. unwrap_or o m) (rw c at e) in
      subst (λ (t : ℤ). leb_int t top ≡ true) same h.0
  | inr (n, c) ↦
      let same : max_int r.priority n ≡ m = ap (λ o. unwrap_or o m) (rw c at e) in
      subst (λ (t : ℤ). leb_int t top ≡ true) same
        (max_int-le r.priority n top h.0 (max_priority-le top rules n h.1 c))
]

-- The highest priority that ten can be added to.
abbrev pub highest : ℤ
highest = pos (2 ^ 63 - 11)

ten_above :
    (a m : ℤ) → leb_int m highest ≡ true → leb_int a m ≡ true → leb_int (add_ten m) a ≡ false
unfolding add_ten
ten_above (pos a) (pos m) le h = ground arith
ten_above (negsuc a) (pos m) le h =
    let fits : ltb (m + 10) (2 ^ 63) ≡ true = ground arith in rw fits refl
ten_above (pos a) (negsuc m) le h = cc
ten_above (negsuc a) (negsuc m) le h = elim (Bool-cases (ltb m 10)) [
  | inl e ↦ rw e refl
  | inr e ↦ rw e (ground arith)
]

new_rule-last :
    (serde : Serde) (empty : Option ℤ) (channel_id n : ℕ) (p : UpsertRule) (st : Store) (s : Rule)
    → p.priority ≡ negsuc n
    → All
        (λ (t : Rule). leb_int t.priority highest ≡ true)
        (filter (in_channel channel_id) st.rules)
    → Memᴰ s (filter (in_channel channel_id) st.rules)
    → leb_int (new_rule serde empty channel_id p st).priority s.priority ≡ false
unfolding next_priority
new_rule-last serde empty channel_id n p st s negative low m =
    let rules = filter (in_channel channel_id) st.rules in
    let (top, e, le) = max_priority-above rules s m in
    ap (λ (t : ℤ). leb_int (priority_for empty t rules) s.priority) negative
    ∙ ap (λ (o : Option ℤ). leb_int (ten_later (or_read o empty)) s.priority) e
    ∙ ten_above s.priority top (max_priority-le highest rules top low e) le

-- A rule that is created with a negative priority stands behind every rule of its channel that is not
-- deleted, where none of these has a priority above 2 ^ 63 - 11, to which ten cannot be added in an i64.
pub create_rule-last :
    (serde : Serde) (empty : Option ℤ) (eff : Eff) (channel_id n : ℕ) (p : UpsertRule) (st : Store)
    (r s : Rule)
    → p.priority ≡ negsuc n
    → All
        (λ (t : Rule). leb_int t.priority highest ≡ true)
        (filter (in_channel channel_id) st.rules)
    → (create_rule serde empty eff channel_id p st).0 ≡ ok r
    → Memᴰ s (filter (in_channel channel_id) st.rules)
    → leb_int r.priority s.priority ≡ false
unfolding create_rule
create_rule-last serde empty eff channel_id n p st r s negative low e m =
    if_holds Last (not (can_write (entity st) eff channel_id)) (λ _ k. cc)
      (λ _.
        if_holds Last
          (any (λ (c : Channel). c.id == channel_id) st.channels && contains_id st.users eff.uid)
          (λ _ k.
            ap (λ (t : Rule). leb_int t.priority s.priority) (ap (unwrap_ok r) (sym k)) ∙ behind)
          (λ _ k. cc))
      e
  where
    Last : Result Refusal Rule × Store → Type 0
    Last x = x.0 ≡ ok r → leb_int r.priority s.priority ≡ false

    behind : leb_int (new_rule serde empty channel_id p st).priority s.priority ≡ false
    behind = new_rule-last serde empty channel_id n p st s negative low m
