-- ===== src/Admin/Laws.antt =====
-- Whose rules a request changes, where an appended rule stands, and what a new channel is published to.
use rust_pois.Prelude.{
  ℕ, ◌≡◌, refl, sym, ap, ◌∙◌, Bool, true, false, not, ◌&&◌, Option, some, List, [], ◌∷◌, any,
  filter, ◌==◌, unwrap_or, Result, ok, ℤ, if_holds, Bool-cases, Option-cases, inl, inr, ==_iff,
  subst,
}
use rust_pois.Rbac.{Eff, contains_id, can_write}
use rust_pois.Groups.{Refusal}
use rust_pois.Esam.{Serde}
use rust_pois.Esam.Decide.{Rule}
use rust_pois.Admin.{Channel, Store, entity, find_row, update_row}
use rust_pois.Admin.Rules.{
  UpsertRule, is_rule, create_rule, rule_parent_channel, gated, patched, row_result, update_rule,
  delete_rule,
}

abbrev rules_of : ℕ → Store → List Rule
rules_of c st = filter (λ (r : Rule). r.channel_id == c) st.rules

abbrev pub SameRules : ℕ → Store → {A : Type 0} → Result Refusal A × Store → Type 0
SameRules c st r = rules_of c r.1 ≡ rules_of c st

-- A change of the first row that satisfies a test, which is not of this channel.
update_row-other :
    (p : Rule → Bool) (f : Rule → Rule) (c : ℕ) (rules : List Rule) (r : Rule)
    → ((s : Rule) → (f s).channel_id ≡ s.channel_id)
    → find_row p rules ≡ some r
    → (r.channel_id == c) ≡ false
    → filter (λ (s : Rule). s.channel_id == c) (update_row p f rules)
      ≡ filter (λ (s : Rule). s.channel_id == c) rules
unfolding find_row update_row
update_row-other p f c [] r same e ne = refl
update_row-other p f c (s ∷ rules) r same e ne = elim (Bool-cases (p s)) [
  | inl h ↦
      let it : s ≡ r = ap (λ o. unwrap_or o s) (rw h at e) in
      let out : (s.channel_id == c) ≡ false =
        subst (λ (t : Rule). (t.channel_id == c) ≡ false) (sym it) ne in
      let out' : ((f s).channel_id == c) ≡ false = ap (λ (n : ℕ). n == c) (same s) ∙ out in
      rw (h, out, out') refl
  | inr h ↦ let later = update_row-other p f c rules r same (rw h at e) ne in rw (h, later) refl
]

other_channel :
    (eff : Eff) (st : Store) (c d : ℕ)
    → can_write (entity st) eff c ≡ false
    → not (can_write (entity st) eff d) ≡ false
    → (d == c) ≡ false
other_channel eff st c d h k = elim (Bool-cases (d == c)) [
  | inr e ↦ e
  | inl e ↦ let bad : not (can_write (entity st) eff c) ≡ false = rw ((==_iff d c).0 e) at k in cc
]

-- A gated change of the rule with this id.
gated-SameRules :
    {A : Type 0} (eff : Eff) (st : Store) (id c : ℕ) (res : Result Refusal A) (f : Rule → Rule)
    → can_write (entity st) eff c ≡ false
    → ((s : Rule) → (f s).channel_id ≡ s.channel_id)
    → SameRules c st (
        gated eff st
          (rule_parent_channel id st)
          (res, record st { rules = update_row (is_rule id) f st.rules }))
unfolding rule_parent_channel
gated-SameRules eff st id c res f h same = elim (Option-cases (find_row (is_rule id) st.rules)) [
  | inl e ↦ rw (e, rule_parent_channel) refl
  | inr (r, e) ↦
      rw (e, rule_parent_channel)
        (if_holds (SameRules c st) (not (can_write (entity st) eff r.channel_id)) (λ _. refl)
          (λ k.
            update_row-other (is_rule id) f c st.rules r same e
              (other_channel eff st c r.channel_id h k)))
]

-- Creating, updating and deleting a rule leave every rule of a channel that the caller may not write.
pub rule_handlers-SameRules :
    (serde : Serde) (empty : Option ℤ) (eff : Eff) (st : Store) (c id channel_id : ℕ)
    (p : UpsertRule)
    → can_write (entity st) eff c ≡ false
    → SameRules c st (create_rule serde empty eff channel_id p st)
      × SameRules c st (update_rule serde eff id p st)
      × SameRules c st (delete_rule eff id st)
unfolding create_rule update_rule delete_rule
rule_handlers-SameRules serde empty eff st c id channel_id p h = (
  if_holds (SameRules c st) (not (can_write (entity st) eff channel_id)) (λ _. refl)
      (λ k.
        if_holds (SameRules c st)
          (any (λ (ch : Channel). ch.id == channel_id) st.channels && contains_id st.users eff.uid)
          (λ _. rw (other_channel eff st c channel_id h k) refl) (λ _. refl)),
  gated-SameRules eff st id c (row_result (patched serde p) (find_row (is_rule id) st.rules))
      (patched serde p) h (λ s. refl),
  gated-SameRules eff st id c (ok tt) (λ (r : Rule). record r { deleted = true; enabled = 0 }) h
      (λ s. refl),
)
