-- ===== src/Esam/Decide/Authority.antt =====
-- Which requests a server with SESAME answers.
use rust_pois.Prelude.{
  false≢true, ◌≤◌, ◌<◌, arith, leb, min, ℕ, ℤ, pos, negsuc, ◌≡◌, ◌↔◌, ◌⊎◌, inl, inr, refl, ap, Bool,
  true, false, Option, none, some, Text, text_eq, text_eq_iff, done, Bool-cases, subst,
}
use rust_pois.Json.{Value}
use rust_pois.Esam.{Env}
use rust_pois.Esam.Decide.{
  Channel, Ctx, Sesame, insufficient_tier, scope_mismatch, policy, clamp_tier, tier_of, in_scope,
  Tables, find_channel, channel_name, fields_of, rejected, handle_esam,
}

-- The tier that a channel demands: the number in its row, or the end of 0 to 3 that is nearest to it.
pub data Demands : ℤ → ℕ → Type 0 where
  below : (n : ℕ) → Demands (negsuc n) 0
  within : (n : ℕ) → n ≤ 3 → Demands (pos n) n
  above : (n : ℕ) → 3 < n → Demands (pos n) 3

-- A request without a context has reached the lowest level.
abbrev pub Reaches : ℕ → Option Ctx → ℕ → Type 0
Reaches lowest none level = level ≤ lowest
Reaches lowest (some ctx) level = level ≤ ctx.achieved_tier

-- A scope, where the request has one, is the channel's name.
abbrev pub Scoped : Option Ctx → Text → Type 0
Scoped none name = Unit
Scoped (some ctx) name = (ctx.scope_channel ≡ none) ⊎ (ctx.scope_channel ≡ some name)

-- The request has reached the level of the tier that the channel demands.
abbrev pub TierMet : Sesame → ℤ → Type 0
TierMet server min_tier =
    (t : ℕ) × Demands min_tier t × Reaches server.lowest server.ctx (server.level t)

clamp_tier-Demands : (z : ℤ) → Demands z (clamp_tier z)
clamp_tier-Demands (negsuc n) = below n
clamp_tier-Demands (pos n) = elim (Bool-cases (leb n 3)) [
  | inl e ↦
      let small : n ≤ 3 = ground arith in
      let same : n ≡ min n 3 = omega arith in subst (Demands (pos n)) same (within n small)
  | inr e ↦
      let large : 3 < n = ground arith in
      let same : 3 ≡ min n 3 = omega arith in subst (Demands (pos n)) same (above n large)
]

Demands-clamp_tier : (z : ℤ) (t : ℕ) → Demands z t → t ≡ clamp_tier z
Demands-clamp_tier (negsuc _) _ (below n) = refl
Demands-clamp_tier (pos _) _ (within n small) = omega arith
Demands-clamp_tier (pos _) _ (above n large) = omega arith

tier_of-Reaches_iff :
    (lowest : ℕ) (ctx : Option Ctx) (level : ℕ)
    → (leb level (tier_of lowest ctx) ≡ true) ↔ Reaches lowest ctx level
tier_of-Reaches_iff lowest none level = ground arith
tier_of-Reaches_iff lowest (some ctx) level = ground arith

in_scope-Scoped_iff :
    (ctx : Option Ctx) (name : Text) → (in_scope ctx name ≡ true) ↔ Scoped ctx name
in_scope-Scoped_iff none name = ((λ h. tt), (λ h. refl))
in_scope-Scoped_iff (some ctx) name = by_scope ctx.scope_channel
  where
    by_scope :
        (scope : Option Text)
        → ((elim scope [ none ↦ true | some s ↦ text_eq s name ]) ≡ true)
          ↔ ((scope ≡ none) ⊎ (scope ≡ some name))
    by_scope none = ((λ h. inl refl), (λ h. refl))
    by_scope (some s) = (
      (λ h. inr (ap some ((text_eq_iff s name).0 h))),
      (λ h. elim h [
        | inl e ↦ cc e
        | inr e ↦ (text_eq_iff s name).1 (let same : s ≡ name = cc e in same)
      ]),
    )

clamp_tier-TierMet_iff :
    (server : Sesame) (z : ℤ)
    → (leb (server.level (clamp_tier z)) (tier_of server.lowest server.ctx) ≡ true)
      ↔ TierMet server z
clamp_tier-TierMet_iff server z =
    let reached = tier_of-Reaches_iff server.lowest server.ctx (server.level (clamp_tier z)) in
    (
      (λ h. (clamp_tier z, clamp_tier-Demands z, reached.0 h)),
      (λ (t, demands, reaches). reached.1 (
          subst (λ (v : ℕ). Reaches server.lowest server.ctx (server.level v))
            (Demands-clamp_tier z t demands) reaches)),
    )

decided : {P : Type 0} (b : Bool) → (b ≡ true) ↔ P → ((b ≡ true) × P) ⊎ ((b ≡ false) × (¬ P))
decided true (to, from) = inl (refl, to refl)
decided false (to, from) = inr (refl, (λ p. false≢true (from p)))

-- What a server with SESAME makes of a request for a channel that is there: where the request has reached
-- the level of the tier that the channel demands, cut to 0 to 3, and its scope, if it has one, is the
-- channel, the answer of a server without SESAME; where it has not reached the level, the rejection for
-- the tier; and where it has, but its scope is another channel, the rejection for the scope.
pub handle_esam-authorized :
    (env : Env) (now : Text) (db : Tables) (server : Sesame) (path : Option Text) (facts : Value)
    (ch : Channel)
    → find_channel (channel_name path (fields_of facts)) db.channels ≡ some ch
    → (TierMet server ch.sesame_min_tier
        × Scoped server.ctx (channel_name path (fields_of facts))
        × (handle_esam env now db (some server) path facts
            ≡ handle_esam env now db none path facts))
      ⊎ ((¬ TierMet server ch.sesame_min_tier)
          × (handle_esam env now db (some server) path facts ≡ done (rejected insufficient_tier)))
      ⊎ (TierMet server ch.sesame_min_tier
          × (¬ Scoped server.ctx (channel_name path (fields_of facts)))
          × (handle_esam env now db (some server) path facts ≡ done (rejected scope_mismatch)))
unfolding handle_esam policy
handle_esam-authorized env now db server path facts ch found =
    elim (decided _ (clamp_tier-TierMet_iff server ch.sesame_min_tier)) [
      | inl (e, met) ↦
          elim (decided _ (in_scope-Scoped_iff server.ctx (channel_name path (fields_of facts)))) [
            | inl (f, scoped) ↦ inl (met, scoped, rw (found, e, f, policy, handle_esam) refl)
            | inr (f, outside) ↦
                inr (inr (met, outside, rw (found, e, f, policy, handle_esam) refl))
          ]
      | inr (e, low) ↦ inr (inl (low, rw (found, e, policy, handle_esam) refl))
    ]
