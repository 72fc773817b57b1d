-- ===== src/Esam/Decide/Laws.antt =====
-- Which rule is chosen, and that a dry run chooses the same.
use mathlib.Core.List.{Memᴰ}
use rust_pois.Prelude.{
  all, and_iff, ◌&&◌, ℕ, ◌≡◌, ◌⊎◌, inl, inr, refl, sym, ap, ◌∙◌, Bool, true, false, Option, none,
  some, List, [], ◌∷◌, filter, if_holds, Text, done, subst, unwrap_or, Option-cases, false≢true,
}
use rust_pois.Json.{Value, Fields}
use rust_pois.Rules.Match.{rule_matches}
use rust_pois.Esam.{Serde, Env}
use rust_pois.Esam.Decide.{
  Channel, Sesame, policy, answer_if, Rule, Tables, leb_int, by_priority, is_active, active_rules,
  match_of, first_match, find_channel, channel_name, fields_of, answer, not_found, handle_esam,
  dryrun, dry_result,
}
use rust_pois.Esam.Decide.Order.{
  Mem-by_priority, Mem-filter, NoneBelow, Sorted, by_priority-Mem, by_priority-Sorted, filter-Mem,
  leb_int_refl,
}

module _ (serde : Serde) (facts : Fields) where
  abbrev matches : Rule → Bool
  matches r = rule_matches (match_of serde r) facts

  abbrev Lowest : List Rule → Rule → Type 0
  Lowest rules r =
      Memᴰ r rules
      × (matches r ≡ true)
      × ((s : Rule) → Memᴰ s rules → matches s ≡ true → leb_int r.priority s.priority ≡ true)

  head-Lowest :
      (t : Rule) (rules : List Rule) → NoneBelow t rules → matches t ≡ true → Lowest (t ∷ rules) t
  head-Lowest t rules below hit = (
    Memᴰ.head refl,
    hit,
    (λ s m _. elim m [
      | Memᴰ.head q ↦
          subst (λ (u : Rule). leb_int t.priority u.priority ≡ true) (sym q)
            (leb_int_refl t.priority)
      | Memᴰ.tail k ↦ below s k
    ]),
  )

  tail-Lowest :
      (t r : Rule) (rules : List Rule) → matches t ≡ false → Lowest rules r → Lowest (t ∷ rules) r
  tail-Lowest t r rules miss (m, hit, low) = (
    Memᴰ.tail m,
    hit,
    (λ s k ok_s. elim k [
      | Memᴰ.head q ↦ absurd (false≢true (sym miss ∙ ap matches (sym q) ∙ ok_s))
      | Memᴰ.tail k' ↦ low s k' ok_s
    ]),
  )

  -- The first rule that matches in a sorted list is there, and has the lowest priority of those.
  first_match-Lowest :
      (rules : List Rule) (r : Rule)
      → first_match serde facts rules ≡ some r
      → Sorted rules
      → Lowest rules r
  unfolding first_match Sorted
  first_match-Lowest [] r e sorted = cc
  first_match-Lowest (t ∷ rules) r e sorted =
      if_holds (λ (o : Option Rule). o ≡ some r → Lowest (t ∷ rules) r) (matches t)
        (λ hit same.
          subst (Lowest (t ∷ rules)) (ap (λ o. unwrap_or o t) same)
            (head-Lowest t rules sorted.0 hit))
        (λ miss later. tail-Lowest t r rules miss (first_match-Lowest rules r later sorted.1)) e

  -- No rule matches where none is chosen.
  first_match-none :
      (rules : List Rule) (s : Rule)
      → first_match serde facts rules ≡ none
      → Memᴰ s rules
      → matches s ≡ false
  unfolding first_match
  first_match-none [] s e m = elim m [ ]
  first_match-none (t ∷ rules) s e m =
      if_holds (λ (o : Option Rule). o ≡ none → matches s ≡ false) (matches t) (λ hit k. cc)
        (λ miss later. elim m [
          | Memᴰ.head q ↦ ap matches q ∙ miss
          | Memᴰ.tail k ↦ first_match-none rules s later k
        ])
        e

-- What holds of every element is found by a test of all of them.
all_Mem :
    (p : Rule → Bool) (rules : List Rule)
    → ((s : Rule) → Memᴰ s rules → p s ≡ true)
    → all p rules ≡ true
all_Mem p [] h = refl
all_Mem p (r ∷ rules) h = rw (h r (Memᴰ.head refl)) (all_Mem p rules (λ s m. h s (Memᴰ.tail m)))

-- The rule that is chosen for a signal is an active rule of the channel that matches the facts, and every
-- active rule of the channel that matches them has the same or a higher priority number.
pub chosen_rule-lowest :
    (serde : Serde) (facts : Fields) (channel_id : ℕ) (rules : List Rule) (r : Rule)
    → first_match serde facts (active_rules channel_id rules) ≡ some r
    → Memᴰ r rules
      × (is_active channel_id r ≡ true)
      × (rule_matches (match_of serde r) facts ≡ true)
      × (all
            (λ (s : Rule). leb_int r.priority s.priority)
            (filter
              (λ (s : Rule). is_active channel_id s && rule_matches (match_of serde s) facts)
              rules)
          ≡ true)
unfolding active_rules
chosen_rule-lowest serde facts channel_id rules r e =
    let kept = filter (is_active channel_id) rules in
    let both : Rule → Bool =
      λ (s : Rule). is_active channel_id s && rule_matches (match_of serde s) facts in
    let (there, found, low) =
      first_match-Lowest serde facts (by_priority kept) r e (by_priority-Sorted kept) in
    let (of_rules, of_channel) =
      filter-Mem (is_active channel_id) rules r (by_priority-Mem kept r there) in
    (
      of_rules,
      of_channel,
      found,
      all_Mem (λ (s : Rule). leb_int r.priority s.priority) (filter both rules)
          (λ s k.
            let (m, passes) = filter-Mem both rules s k in
            let (active, hit) = (and_iff _ _).0 passes in
            low s (Mem-by_priority kept s (Mem-filter (is_active channel_id) rules s m active))
              hit),
    )

-- Where no rule is chosen, no active rule of the channel matches.
pub no_rule-none :
    (serde : Serde) (facts : Fields) (channel_id : ℕ) (rules : List Rule) (s : Rule)
    → first_match serde facts (active_rules channel_id rules) ≡ none
    → Memᴰ s rules
    → is_active channel_id s ≡ true
    → rule_matches (match_of serde s) facts ≡ false
unfolding active_rules
no_rule-none serde facts channel_id rules s e m active =
    let kept = filter (is_active channel_id) rules in
    first_match-none serde facts (by_priority kept) s e
      (Mem-by_priority kept s (Mem-filter (is_active channel_id) rules s m active))

-- What stands between the channel and the answer.
abbrev pub Handles : Env → Text → Tables → Option Sesame → Option Text → Value → Text → Type 0
Handles env now db sesame path facts name =
    ((dryrun env.serde db name facts ≡ none)
      × (handle_esam env now db sesame path facts ≡ done not_found))
    ⊎ ((ch : Channel) × (chosen : Option Rule) × (find_channel name db.channels ≡ some ch)
        × (dryrun env.serde db name facts ≡ some (dry_result chosen))
        × (handle_esam env now db sesame path facts
            ≡ answer_if (policy sesame ch name) (answer env now facts chosen)))

-- A dry run for the channel that a signal is for names the rule, or the fallback, by which the live
-- handler answers where the channel's policy accepts the request, and finds no channel exactly where
-- the handler does not.
pub dryrun-handle_esam :
    (env : Env) (now : Text) (db : Tables) (sesame : Option Sesame) (path : Option Text)
    (facts : Value)
    → Handles env now db sesame path facts (channel_name path (fields_of facts))
unfolding dryrun handle_esam
dryrun-handle_esam env now db sesame path facts =
    elim (Option-cases (find_channel (channel_name path (fields_of facts)) db.channels)) [
      | inl e ↦ inl (rw (e, dryrun) refl, rw (e, handle_esam) refl)
      | inr (ch, e) ↦ inr (
        ch,
        first_match env.serde (fields_of facts) (active_rules ch.id db.rules),
        e,
        rw (e, dryrun) refl,
        rw (e, handle_esam) refl,
      )
    ]
