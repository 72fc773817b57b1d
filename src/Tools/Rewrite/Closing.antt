-- ===== src/Tools/Rewrite/Closing.antt =====
-- The CRC that closes an edited section.
use rust_pois.Prelude.{
  ℕ, ◌+◌, ◌-◌, ◌≤◌, ◌<◌, ◌≡◌, inl, refl, sym, ap, ◌∙◌, ◌++◌, Bool, true, false, some, arith, length,
  get_or, take, All-append, All-take, length-append, length-take, take-length, get_or-take,
  get_or-front, unwrap_or,
}
use rust_pois.Bits.{Bytes, AreBytes, IsByte}
use rust_pois.Scte35.Crc.{compute_crc32, to_be_bytes}
use rust_pois.Scte35.Build.Finalize.{to_be_bytes-AreBytes}
use rust_pois.Tools.Locate.Bounds.{Accepted}
use rust_pois.Tools.Rewrite.{refresh_crc_in_place, refreshed}
use rust_pois.Tools.Rewrite.Within.{Within}
use rust_pois.Tools.Validate.Laws.{validate_bytes_iff}
use rust_pois.Tools.Validate.Builders.{IsValid}

-- Bytes with the CRC of these bytes behind them.
pub sealed-IsValid :
    (front : Bytes)
    → AreBytes front
    → 10 ≤ length front
    → get_or front 0 0 ≡ 0xFC
    → IsValid (front ++ to_be_bytes (compute_crc32 front))
sealed-IsValid front are long head =
    let crc = compute_crc32 front in
    let out = front ++ to_be_bytes crc in
    let total : length out ≡ length front + 4 = length-append front (to_be_bytes crc) in
    let back : take (length out - 4) out ≡ front =
      take-length front (to_be_bytes crc) (length out - 4) (omega (arith, total)) in
    (validate_bytes_iff out (length out) (compute_crc32 (take (length out - 4) out))
        (All-append IsByte front (to_be_bytes crc) are (to_be_bytes-AreBytes crc))).1
      (
        omega (arith, total),
        get_or-front front (to_be_bytes crc) 0 0 (omega arith) ∙ head,
        refl,
        refl,
        ap (λ (l : Bytes). l ++ to_be_bytes (compute_crc32 l)) (sym back),
      )

module _ (bytes : Bytes) where
  pub length-refresh : 4 ≤ length bytes → length (refresh_crc_in_place bytes) ≡ length bytes
  unfolding refresh_crc_in_place
  length-refresh h =
      let front = take (length bytes - 4) bytes in
      omega (
        arith,
        length-append front (to_be_bytes (compute_crc32 front)),
        length-take (length bytes - 4) bytes,
      )

  pub get_or-refresh :
      (i : ℕ) → i < length bytes - 4 → get_or (refresh_crc_in_place bytes) i 0 ≡ get_or bytes i 0
  unfolding refresh_crc_in_place
  get_or-refresh i h =
      let front = take (length bytes - 4) bytes in
      get_or-front front (to_be_bytes (compute_crc32 front)) i 0
        (omega (arith, length-take (length bytes - 4) bytes))
      ∙ get_or-take (length bytes - 4) bytes i 0 h

  pub refresh-IsValid : AreBytes bytes → Accepted bytes → IsValid (refresh_crc_in_place bytes)
  unfolding refresh_crc_in_place
  refresh-IsValid are acc =
      sealed-IsValid (take (length bytes - 4) bytes) (All-take IsByte (length bytes - 4) bytes are)
        (let long = acc.long in omega (arith, length-take (length bytes - 4) bytes))
        (get_or-take (length bytes - 4) bytes 0 0 (let long = acc.long in omega arith) ∙ acc.head)

-- An edit in place behind the table id, closed again.
pub refresh-Within :
    (lo hi : ℕ) (bytes edited : Bytes)
    → AreBytes bytes
    → Accepted bytes
    → 1 ≤ lo
    → Within lo hi bytes edited
    → (length (refresh_crc_in_place edited) ≡ length bytes) × IsValid (refresh_crc_in_place edited)
refresh-Within lo hi bytes edited are acc low w =
    let same = w.same_length in
    let long = acc.long in
    (
      length-refresh edited (omega arith) ∙ same,
      refresh-IsValid edited (w.are_bytes are)
          (record { long = omega arith; head = w.elsewhere 0 (inl (omega arith)) ∙ acc.head }),
    )

pub refreshed-some :
    (changed : Bool) (bytes out : Bytes)
    → refreshed changed bytes ≡ some out
    → (changed ≡ true) × (refresh_crc_in_place bytes ≡ out)
refreshed-some true bytes out e = (refl, ap (λ o. unwrap_or o out) e)
refreshed-some false bytes out e = cc
