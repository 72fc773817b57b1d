-- ===== src/Tools/Rewrite/Marks.antt =====
-- What `rewrite_delivery_flags` writes into the flags bytes.
use rust_pois.Prelude.{
  ℕ, zero, suc, ◌+◌, ◌*◌, ◌/◌, ◌%◌, ◌^◌, ◌≤◌, ◌<◌, ◌≡◌, inl, inr, sym, ap, subst, ◌∙◌, Bool, true,
  false, Option, some, none, arith, length, get_or, Option-cases, if◌then◌else◌, get_or-set,
  unwrap_or,
}
use rust_pois.Bits.{Bytes}
use rust_pois.Tools.Locate.{DescriptorLoop, locate_descriptor_loop}
use rust_pois.Tools.Locate.Bounds.{locate_descriptor_loop-Fits}
use rust_pois.Tools.Rewrite.{Walked, walk, flag, restrict_delivery, rewrite_delivery_flags}
use rust_pois.Tools.Rewrite.Within.{Within, Within-refl, Within-trans, Within-wider}
use rust_pois.Tools.Rewrite.Walk.{Chain, here, next, Chain-end, walk-keeps, walk-step}
use rust_pois.Tools.Rewrite.Closing.{get_or-refresh}
use rust_pois.Tools.Rewrite.Delivery.{
  delivery-Within, delivery-walk, is_marked, marked, marked-Within, restrict-Keeps, restrict-if,
  restrict-some, restrictions, rewrite-walk,
}

module _ (web nrb archive : Bool) (device lo hi : ℕ) where
  abbrev restrict : Bytes → ℕ → ℕ → ℕ → Option Bytes
  restrict = restrict_delivery web nrb archive device

  edited-Within :
      (b : Bytes) (from body_end : ℕ)
      → lo ≤ from
      → Within lo body_end b (unwrap_or (restrict b from (from + 2) body_end) b)
  edited-Within b from body_end low = elim (Option-cases (restrict b from (from + 2) body_end)) [
    | inl e ↦ rw e (Within-refl lo body_end b)
    | inr (out, e) ↦
        let (m, same) = restrict-some web nrb archive device b out from body_end e in
        rw e (
          subst (Within lo body_end b) same
            (marked-Within web nrb archive device lo body_end b from body_end low (omega arith) m))
  ]

  edited-marked :
      (b : Bytes) (from body_end : ℕ)
      → is_marked b from body_end ≡ true
      → unwrap_or (restrict b from (from + 2) body_end) b ≡ marked web nrb archive device b from
  edited-marked b from body_end m =
      ap (λ (o : Option Bytes). unwrap_or o b)
        (restrict-if web nrb archive device b from body_end
          ∙ ap (λ (c : Bool). if c then some (marked web nrb archive device b from) else none) m)

  walk-later :
      (fuel from i : ℕ) (b : Bytes) (changed : Bool)
      → i < from
      → get_or (walk restrict fuel hi from b changed).bytes i 0 ≡ get_or b i 0
  walk-later fuel from i b changed before =
      (walk-keeps (Within from hi b) from hi restrict
          (restrict-Keeps web nrb archive device from hi b) fuel from b changed (omega arith)
          (Within-refl from hi b)).elsewhere
        i (inl before)

  -- A walk that comes to a descriptor writes the restrictions into its flags byte.
  walk-marks :
      (bytes : Bytes) (fuel from at : ℕ) (b : Bytes) (changed : Bool)
      → hi ≤ length bytes
      → lo ≤ from
      → hi < from + 2 + fuel
      → Within lo from bytes b
      → Chain bytes hi from at
      → is_marked bytes at (at + 2 + get_or bytes (at + 1) 0) ≡ true
      → get_or (walk restrict fuel hi from b changed).bytes (at + 2 + 9) 0
        ≡ get_or bytes (at + 2 + 9) 0 / 2 ^ 6 % 2 ^ 2 * 2 ^ 6 + restrictions web nrb archive device
  walk-marks bytes zero from at b changed inside low enough w (here h) m = absurd (omega arith)
  walk-marks bytes zero from at b changed inside low enough w (next h c) m = absurd (omega arith)
  walk-marks bytes (suc fuel) from at b changed inside low enough w (here h) m =
      let len : get_or b (from + 1) 0 ≡ get_or bytes (from + 1) 0 =
        w.elsewhere (from + 1) (inr (omega arith)) in
      let body_end = from + 2 + get_or b (from + 1) 0 in
      let edited = unwrap_or (restrict b from (from + 2) body_end) b in
      let tag = w.elsewhere from (inr (omega arith)) in
      let cancel = w.elsewhere (from + 2 + 8) (inr (omega arith)) in
      let flags = w.elsewhere (from + 2 + 9) (inr (omega arith)) in
      let same = w.same_length in
      let m' : is_marked b from body_end ≡ true = rw (len, tag, cancel) m in
      ap (λ (v : Walked). get_or v.bytes (from + 2 + 9) 0)
        (walk-step restrict fuel hi from b changed (omega arith))
      ∙ walk-later fuel body_end (from + 2 + 9) edited _ (ground arith)
      ∙ ap (λ (o : Bytes). get_or o (from + 2 + 9) 0) (edited-marked b from body_end m')
      ∙ get_or-set b (from + 2 + 9) _ 0 (ground arith)
      ∙ ap (λ (f : ℕ). f / 2 ^ 6 % 2 ^ 2 * 2 ^ 6 + restrictions web nrb archive device) flags
  walk-marks bytes (suc fuel) from at b changed inside low enough w (next h c) m =
      let len : get_or b (from + 1) 0 ≡ get_or bytes (from + 1) 0 =
        w.elsewhere (from + 1) (inr (omega arith)) in
      let body_end = from + 2 + get_or b (from + 1) 0 in
      let edited = unwrap_or (restrict b from (from + 2) body_end) b in
      let c' : Chain bytes hi body_end at =
        subst (λ (n : ℕ). Chain bytes hi (from + 2 + n) at) (sym len) c in
      ap (λ (v : Walked). get_or v.bytes (at + 2 + 9) 0)
        (walk-step restrict fuel hi from b changed (omega arith))
      ∙ walk-marks bytes fuel body_end at edited _ inside (omega arith) (omega arith)
          (Within-trans (Within-wider (omega arith) (omega arith) w)
            (edited-Within b from body_end low))
          c' m

delivery-marks :
    (web nrb archive : Bool) (device : ℕ) (bytes : Bytes) (l : DescriptorLoop) (at : ℕ)
    → l.loop_end ≤ length bytes
    → Chain bytes l.loop_end l.loop_start at
    → is_marked bytes at (at + 2 + get_or bytes (at + 1) 0) ≡ true
    → get_or (delivery-walk web nrb archive device l bytes).bytes (at + 2 + 9) 0
      ≡ get_or bytes (at + 2 + 9) 0 / 2 ^ 6 % 2 ^ 2 * 2 ^ 6 + restrictions web nrb archive device
unfolding delivery-walk
delivery-marks web nrb archive device bytes l at inside chain m =
    walk-marks web nrb archive device l.loop_start l.loop_end bytes (length bytes) l.loop_start at
      bytes false inside (omega arith) (omega arith) (Within-refl _ _ bytes) chain m

-- Every segmentation descriptor of the loop that is not cancelled and has a flags byte has, in the
-- bytes that are returned, the four given restrictions in it, delivery_not_restricted cleared, and the
-- two flags above as before.
pub rewrite_delivery_flags-marks :
    (web nrb archive : Bool) (device : ℕ) (bytes out : Bytes) (l : DescriptorLoop) (at : ℕ)
    → locate_descriptor_loop bytes ≡ some l
    → rewrite_delivery_flags web nrb archive device bytes ≡ some out
    → Chain bytes l.loop_end l.loop_start at
    → get_or bytes at 0 ≡ 0x02
    → 10 ≤ get_or bytes (at + 1) 0
    → get_or bytes (at + 10) 0 < 128
    → get_or out (at + 11) 0
      ≡ get_or bytes (at + 11) 0 / 2 ^ 6 % 2 ^ 2 * 2 ^ 6
        + (flag web * 2 ^ 4 + flag nrb * 2 ^ 3 + flag archive * 2 ^ 2 + device % 2 ^ 2)
rewrite_delivery_flags-marks web nrb archive device bytes out l at c e chain tag wide active =
    let fits = locate_descriptor_loop-Fits bytes l c in
    let room = fits.room in
    let last = Chain-end chain in
    let same = (delivery-Within web nrb archive device l bytes).same_length in
    let eight : at + 2 + 8 ≡ at + 10 = omega arith in
    let nine : at + 2 + 9 ≡ at + 11 = omega arith in
    let m : is_marked bytes at (at + 2 + get_or bytes (at + 1) 0) ≡ true =
      rw (eight, tag) (ground arith) in
    ap (λ (o : Bytes). get_or o (at + 11) 0)
      (sym (rewrite-walk web nrb archive device bytes out l c e))
    ∙ get_or-refresh _ (at + 11) (omega arith)
    ∙ rw (sym nine) (delivery-marks web nrb archive device bytes l at (omega arith) chain m)
