-- ===== src/Tools/Rewrite/Delivery.antt =====
-- `rewrite_delivery_flags`: what it changes, and what it leaves.
use rust_pois.Prelude.{
  ℕ, ◌+◌, ◌-◌, ◌*◌, ◌/◌, ◌%◌, ◌^◌, ◌≤◌, ◌<◌, ◌≡◌, ◌⊎◌, inl, inr, refl, sym, ap, subst, ◌∙◌, Bool,
  true, false, some, none, arith, length, get_or, Bool-cases, Option-cases, if◌then◌else◌, leb,
  ◌==◌, ◌&&◌, set, unwrap_or,
}
use rust_pois.Bits.{Bytes, AreBytes}
use rust_pois.Tools.Locate.{DescriptorLoop, locate_descriptor_loop}
use rust_pois.Tools.Locate.Bounds.{locate_descriptor_loop-Fits}
use rust_pois.Tools.Rewrite.{
  Walked, walk, flag, restrict_delivery, rewrite_delivery_flags, refresh_crc_in_place,
}
use rust_pois.Tools.Rewrite.Within.{Within, Within-refl, Within-trans, set-Within}
use rust_pois.Tools.Rewrite.Walk.{Keeps, walk-keeps}
use rust_pois.Tools.Rewrite.Closing.{refresh-Within, refreshed-some, get_or-refresh}
use rust_pois.Tools.Validate.Builders.{IsValid}

flag-lt : (b : Bool) → flag b < 2
flag-lt true = omega arith
flag-lt false = omega arith

-- The body of a segmentation descriptor that is not cancelled and has the flags byte.
abbrev pub is_marked : Bytes → ℕ → ℕ → Bool
is_marked bytes cursor body_end =
    get_or bytes cursor 0 == 0x02
    && leb 10 (body_end - (cursor + 2))
    && get_or bytes (cursor + 2 + 8) 0 / 2 ^ 7 % 2 == 0

abbrev pub restrictions : Bool → Bool → Bool → ℕ → ℕ
restrictions web nrb archive device =
    flag web * 2 ^ 4 + flag nrb * 2 ^ 3 + flag archive * 2 ^ 2 + device % 2 ^ 2

module _ (web nrb archive : Bool) (device : ℕ) where
  abbrev pub marked : Bytes → ℕ → Bytes
  marked bytes cursor = set bytes (cursor + 2 + 9) (
      get_or bytes (cursor + 2 + 9) 0 / 2 ^ 6 % 2 ^ 2 * 2 ^ 6 + restrictions web nrb archive device)

  pub restrict-if :
      (bytes : Bytes) (cursor body_end : ℕ)
      → restrict_delivery web nrb archive device bytes cursor (cursor + 2) body_end
        ≡ (if is_marked bytes cursor body_end then some (marked bytes cursor) else none)
  unfolding restrict_delivery
  restrict-if bytes cursor body_end = refl

  pub restrict-some :
      (bytes out : Bytes) (cursor body_end : ℕ)
      → restrict_delivery web nrb archive device bytes cursor (cursor + 2) body_end ≡ some out
      → (is_marked bytes cursor body_end ≡ true) × (marked bytes cursor ≡ out)
  restrict-some bytes out cursor body_end e = elim (Bool-cases (is_marked bytes cursor body_end)) [
    | inl c ↦ (
      c,
      ap (λ o. unwrap_or o out)
          (ap (λ (b : Bool). if b then some (marked bytes cursor) else none) (sym c)
            ∙ sym (restrict-if bytes cursor body_end)
            ∙ e),
    )
    | inr c ↦
        let bad : none ≡ some out =
          ap (λ (b : Bool). if b then some (marked bytes cursor) else none) (sym c)
          ∙ sym (restrict-if bytes cursor body_end)
          ∙ e in
        cc
  ]

  restrictions-lt : restrictions web nrb archive device < 32
  restrictions-lt = omega (arith, flag-lt web, flag-lt nrb, flag-lt archive)

  pub marked-Within :
      (lo hi : ℕ) (bytes : Bytes) (cursor body_end : ℕ)
      → lo ≤ cursor
      → body_end ≤ hi
      → is_marked bytes cursor body_end ≡ true
      → Within lo hi bytes (marked bytes cursor)
  marked-Within lo hi bytes cursor body_end low high m =
      set-Within lo hi bytes (cursor + 2 + 9) _ (omega arith) (ground arith)
        (λ _. omega (arith, restrictions-lt))

  pub restrict-Keeps :
      (lo hi : ℕ) (before : Bytes)
      → Keeps (Within lo hi before) lo hi (restrict_delivery web nrb archive device)
  restrict-Keeps lo hi before bytes out cursor low high e w =
      let (m, same) = restrict-some bytes out cursor _ e in
      Within-trans w
        (subst (Within lo hi bytes) same (marked-Within lo hi bytes cursor _ low high m))

  unfoldable pub delivery-walk : (l : DescriptorLoop) (bytes : Bytes) → Walked
  delivery-walk l bytes =
      walk (restrict_delivery web nrb archive device) (length bytes) l.loop_end l.loop_start bytes
        false

  pub rewrite-walk :
      (bytes out : Bytes) (l : DescriptorLoop)
      → locate_descriptor_loop bytes ≡ some l
      → rewrite_delivery_flags web nrb archive device bytes ≡ some out
      → refresh_crc_in_place (delivery-walk l bytes).bytes ≡ out
  unfolding rewrite_delivery_flags delivery-walk
  rewrite-walk bytes out l found e = elim (Bool-cases (delivery-walk l bytes).complete) [
    | inl c ↦ (refreshed-some (delivery-walk l bytes).changed _ out (rw (found, c) at e)).1
    | inr c ↦ cc (let bad = rw (found, c) at e in bad)
  ]

  rewrite-none :
      (bytes out : Bytes)
      → locate_descriptor_loop bytes ≡ none
      → rewrite_delivery_flags web nrb archive device bytes ≡ some out
      → none ≡ some out
  unfolding rewrite_delivery_flags
  rewrite-none bytes out c e = rw c at e

  pub delivery-Within :
      (l : DescriptorLoop) (bytes : Bytes)
      → Within l.loop_start l.loop_end bytes (delivery-walk l bytes).bytes
  unfolding delivery-walk
  delivery-Within l bytes =
      walk-keeps (Within l.loop_start l.loop_end bytes) l.loop_start l.loop_end
        (restrict_delivery web nrb archive device) (restrict-Keeps l.loop_start l.loop_end bytes)
        (length bytes) l.loop_start bytes false (omega arith) (Within-refl _ _ bytes)

-- The delivery restrictions, where they are written into bytes, leave a section that the validator
-- accepts, of the same length.
pub rewrite_delivery_flags-IsValid :
    (web nrb archive : Bool) (device : ℕ) (bytes out : Bytes)
    → AreBytes bytes
    → rewrite_delivery_flags web nrb archive device bytes ≡ some out
    → (length out ≡ length bytes) × IsValid out
rewrite_delivery_flags-IsValid web nrb archive device bytes out are e =
    elim (Option-cases (locate_descriptor_loop bytes)) [
      | inl c ↦ cc (rewrite-none web nrb archive device bytes out c e)
      | inr (l, c) ↦
          let fits = locate_descriptor_loop-Fits bytes l c in
          let low : 1 ≤ l.loop_start = (let b = fits.behind in let s = fits.start in omega arith) in
          subst (λ (o : Bytes). (length o ≡ length bytes) × IsValid o)
            (rewrite-walk web nrb archive device bytes out l c e)
            (refresh-Within l.loop_start l.loop_end bytes _ are fits.accepted low
              (delivery-Within web nrb archive device l bytes))
    ]

-- Every byte outside the descriptor loop and the CRC stays, where the delivery restrictions are written.
pub rewrite_delivery_flags-elsewhere :
    (web nrb archive : Bool) (device : ℕ) (bytes out : Bytes) (l : DescriptorLoop) (i : ℕ)
    → locate_descriptor_loop bytes ≡ some l
    → rewrite_delivery_flags web nrb archive device bytes ≡ some out
    → (i < l.loop_start) ⊎ (l.loop_end ≤ i)
    → i + 4 < length bytes
    → get_or out i 0 ≡ get_or bytes i 0
rewrite_delivery_flags-elsewhere web nrb archive device bytes out l i c e outside front =
    let w = delivery-Within web nrb archive device l bytes in
    let same = w.same_length in
    ap (λ (o : Bytes). get_or o i 0) (sym (rewrite-walk web nrb archive device bytes out l c e))
    ∙ get_or-refresh _ i (omega arith)
    ∙ w.elsewhere i outside
