-- ===== src/Tools/Rewrite/Walk.antt =====
-- The walk over the descriptors: what every edit keeps, the walk keeps, and more fuel than the loop has
-- bytes changes nothing.
use rust_pois.Prelude.{
  ℕ, zero, suc, ◌+◌, ◌≤◌, ◌<◌, ◌≡◌, refl, ap, inl, inr, Bool, true, false, Option, none, some,
  arith, get_or, ltb, if◌then◌else◌, unwrap_or, Bool-cases, Option-cases, lt→ltb,
}
use rust_pois.Bits.{Bytes}
use rust_pois.Tools.Rewrite.{Walked, walk}

-- The walk over the descriptors of `bytes` comes from a place to a descriptor's tag.
pub data Chain (bytes : Bytes) (hi : ℕ) : ℕ → ℕ → Type 0 where
  here : {at : ℕ} → at + 2 + get_or bytes (at + 1) 0 ≤ hi → Chain bytes hi at at
  next :
      {from at : ℕ}
      → from + 2 + get_or bytes (from + 1) 0 ≤ hi
      → Chain bytes hi (from + 2 + get_or bytes (from + 1) 0) at
      → Chain bytes hi from at

pub Chain-end :
    {bytes : Bytes} {hi from at : ℕ}
    → Chain bytes hi from at
    → at + 2 + get_or bytes (at + 1) 0 ≤ hi
Chain-end (here h) = h
Chain-end (next h c) = Chain-end c

abbrev pub Edit : Type 0
Edit = Bytes → ℕ → ℕ → ℕ → Option Bytes

-- An edit of a descriptor that starts at `lo` or later and ends at `hi` or before keeps `I`.
abbrev pub Keeps : (Bytes → Type 0) → ℕ → ℕ → Edit → Type 0
Keeps I lo hi edit =
    (bytes out : Bytes) (cursor : ℕ)
    → lo ≤ cursor
    → cursor + 2 + get_or bytes (cursor + 1) 0 ≤ hi
    → edit bytes cursor (cursor + 2) (cursor + 2 + get_or bytes (cursor + 1) 0) ≡ some out
    → I bytes
    → I out

module _ (I : Bytes → Type 0) (lo hi : ℕ) (edit : Edit) (keeps : Keeps I lo hi edit) where
  pub walk-keeps :
      (fuel cursor : ℕ) (bytes : Bytes) (changed : Bool)
      → lo ≤ cursor
      → I bytes
      → I (walk edit fuel hi cursor bytes changed).bytes
  unfolding walk
  walk-keeps zero cursor bytes changed low i = i
  walk-keeps (suc fuel) cursor bytes changed low i =
      let body_end = cursor + 2 + get_or bytes (cursor + 1) 0 in
      elim (Bool-cases (ltb hi (cursor + 2))) [
        | inl e ↦ rw e i
        | inr e ↦ elim (Bool-cases (ltb hi body_end)) [
          | inl e' ↦ rw (e, e') i
          | inr e' ↦ elim (Option-cases (edit bytes cursor (cursor + 2) body_end)) [
            | inl o ↦ rw (e, e', o) (walk-keeps fuel body_end bytes changed (omega arith) i)
            | inr (out, o) ↦
                rw (e, e', o)
                  (walk-keeps fuel body_end out true (omega arith)
                    (keeps bytes out cursor low (ground arith) o i))
          ]
        ]
      ]

-- A walk that has more fuel than bytes to go comes to the same end.
pub walk_enough :
    (edit : Edit) (m n hi cursor : ℕ) (bytes : Bytes) (changed : Bool)
    → hi < cursor + 2 + m
    → hi < cursor + 2 + n
    → walk edit m hi cursor bytes changed ≡ walk edit n hi cursor bytes changed
unfolding walk
walk_enough edit zero zero hi cursor bytes changed hm hn = refl
walk_enough edit zero (suc n) hi cursor bytes changed hm hn =
    rw (lt→ltb hi (cursor + 2) (omega arith)) refl
walk_enough edit (suc m) zero hi cursor bytes changed hm hn =
    rw (lt→ltb hi (cursor + 2) (omega arith)) refl
walk_enough edit (suc m) (suc n) hi cursor bytes changed hm hn =
    let body_end = cursor + 2 + get_or bytes (cursor + 1) 0 in
    let edited = edit bytes cursor (cursor + 2) body_end in
    ap
      (λ (w : Walked).
        if ltb hi (cursor + 2)
        then record { bytes = bytes; changed = changed; complete = true }
        else if ltb hi body_end
        then record { bytes = bytes; changed = changed; complete = false }
        else w)
      (walk_enough edit m n hi body_end (unwrap_or edited bytes)
        (elim edited [ some _ ↦ true | none ↦ changed ]) (omega arith) (omega arith))

-- One round, at a descriptor that ends inside the loop.
pub walk-step :
    (edit : Edit) (fuel hi cursor : ℕ) (bytes : Bytes) (changed : Bool)
    → cursor + 2 + get_or bytes (cursor + 1) 0 ≤ hi
    → walk edit (suc fuel) hi cursor bytes changed ≡ (
        let body_end = cursor + 2 + get_or bytes (cursor + 1) 0 in
        let edited = edit bytes cursor (cursor + 2) body_end in
        walk edit fuel hi body_end
          (unwrap_or edited bytes)
          (elim edited [ some _ ↦ true | none ↦ changed ]))
unfolding walk
walk-step edit fuel hi cursor bytes changed h =
    let body_end = cursor + 2 + get_or bytes (cursor + 1) 0 in
    let inside : ltb hi (cursor + 2) ≡ false = ground arith in
    let whole : ltb hi body_end ≡ false = ground arith in rw (inside, whole) refl
