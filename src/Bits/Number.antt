-- ===== src/Bits/Number.antt =====
-- Numbers and their bits.
use native.Mathlib.Nat.{
  pow-suc, one-le-pow, mod-lt, mod-eq_of_lt, mul-add-mod_self_right, div-add-mod', mul_comm,
}
use rust_pois.Prelude.{
  ℕ, zero, suc, ◌+◌, ◌*◌, ◌/◌, ◌%◌, ◌^◌, ◌<◌, ◌≡◌, refl, sym, ap, ◌∙◌, arith, length, All,
}
use rust_pois.Bits.{to_bits, from_bits, IsBit}

pub length-to_bits : (n v : ℕ) → length (to_bits n v) ≡ n
length-to_bits zero v = refl
length-to_bits (suc n) v = omega (arith, length-to_bits n v)

pub to_bits-IsBit : (n v : ℕ) → All IsBit (to_bits n v)
to_bits-IsBit zero v = tt
to_bits-IsBit (suc n) v = (omega arith, to_bits-IsBit n v)

digit_fits : (d p r : ℕ) → d < 2 → r < p → d * p + r < 2 * p
digit_fits zero p r hd hr = omega arith
digit_fits (suc zero) p r hd hr = omega arith
digit_fits (suc (suc d)) p r hd hr = absurd (omega arith)

split_digit : (v p : ℕ) → (v / p / 2) * (2 * p) + (v / p % 2 * p + v % p) ≡ v
split_digit v p =
    let e : v / p ≡ 2 * (v / p / 2) + v / p % 2 = omega arith in
    omega (arith, ap (λ (t : ℕ). t * p) e, div-add-mod' v p)

next_digit : (v p : ℕ) → 0 < p → (v / p % 2) * p + v % p ≡ v % (2 * p)
next_digit v p h =
    let q = v / p in
    let w = q % 2 * p + v % p in
    let fits : w < 2 * p = digit_fits (q % 2) p (v % p) (omega arith) (mod-lt v h) in
    let split : (q / 2) * (2 * p) + w ≡ v = split_digit v p in
    let same : ((q / 2) * (2 * p) + w) % (2 * p) ≡ w % (2 * p) =
      mul-add-mod_self_right (q / 2) (2 * p) w in
    sym (mod-eq_of_lt fits) ∙ sym same ∙ ap (λ (t : ℕ). t % (2 * p)) split

-- Reading the low `n` bits of `v` after `acc`.
pub from_bits-to_bits : (n v acc : ℕ) → from_bits acc (to_bits n v) ≡ acc * 2 ^ n + v % 2 ^ n
from_bits-to_bits zero v acc = omega arith
from_bits-to_bits (suc n) v acc =
    from_bits-to_bits n v (acc * 2 + v / 2 ^ n % 2)
    ∙ omega (
      arith,
      pow-suc 2 n,
      ap (λ (t : ℕ). acc * t) (pow-suc 2 n),
      ap (λ (t : ℕ). v % t) (pow-suc 2 n),
      ap (λ (t : ℕ). v % t) (mul_comm 2 (2 ^ n)),
      next_digit v (2 ^ n) (one-le-pow n 2 (omega arith)),
    )

-- A field of known width holds its value.
pub from_bits-to_bits_zero : (n v : ℕ) → from_bits 0 (to_bits n v) ≡ v % 2 ^ n
from_bits-to_bits_zero n v = omega (arith, from_bits-to_bits n v 0)
