-- ===== src/Bits/Stream.antt =====
-- One-bit changes of a buffer, as changes of its list of bits.
use rust_pois.Prelude.{
  ℕ, suc, ◌-◌, ◌*◌, ◌/◌, ◌%◌, ◌^◌, ◌<◌, bit_and, bit_or, max, ◌≡◌, refl, ap, List, [], ◌∷◌, ◌++◌,
  arith, length, get_or, set, take, drop, ap₂,
}
use rust_pois.Bits.{to_bits, from_bits, unpack, Bytes, AreBytes}
use rust_pois.Bits.Number.{from_bits-to_bits}
use rust_pois.Bits.Tables.{to_bits-bit_or, bit_or-lt, to_bits-patch, patch-lt}

pub length-unpack : (xs : Bytes) → length (unpack xs) ≡ 8 * length xs
length-unpack [] = refl
length-unpack (x ∷ xs) = omega (arith, length-unpack xs)

pub unpack-append : (xs ys : Bytes) → unpack (xs ++ ys) ≡ unpack xs ++ unpack ys
unpack-append [] ys = refl
unpack-append (x ∷ xs) ys = ap (λ (l : List ℕ). to_bits 8 x ++ l) (unpack-append xs ys)

-- `bytes[p / 8] |= b << (7 - p % 8)`
abbrev pub or_bit : Bytes → ℕ → ℕ → Bytes
or_bit xs p b = set xs (p / 8) (bit_or (get_or xs (p / 8) 0) (b * 2 ^ (7 - p % 8)))

-- `bytes[p / 8] &= !(1 << (7 - p % 8)); bytes[p / 8] |= b << (7 - p % 8)`
abbrev pub put_bit : Bytes → ℕ → ℕ → Bytes
put_bit xs p b =
    set xs (p / 8)
      (bit_or (bit_and (get_or xs (p / 8) 0) (255 - 2 ^ (7 - p % 8))) (b * 2 ^ (7 - p % 8)))

byte_eq :
    (x y : ℕ) → x < 256 → y < 256 → from_bits 0 (to_bits 8 x) ≡ from_bits 0 (to_bits 8 y) → x ≡ y
byte_eq x y hx hy e = omega (arith, from_bits-to_bits 8 x 0, from_bits-to_bits 8 y 0)

pattern abbrev eight+ : ℕ → ℕ
eight+ p = suc (suc (suc (suc (suc (suc (suc (suc p)))))))

eight+-div : (p : ℕ) → eight+ p / 8 ≡ suc (p / 8)
eight+-div p = omega arith

eight+-mod : (p : ℕ) → eight+ p % 8 ≡ p % 8
eight+-mod p = omega arith

or_bit-cons : (x : ℕ) (xs : Bytes) (p b : ℕ) → or_bit (x ∷ xs) (eight+ p) b ≡ x ∷ or_bit xs p b
or_bit-cons x xs p b = rw (eight+-div, eight+-mod)

put_bit-cons : (x : ℕ) (xs : Bytes) (p b : ℕ) → put_bit (x ∷ xs) (eight+ p) b ≡ x ∷ put_bit xs p b
put_bit-cons x xs p b = rw (eight+-div, eight+-mod)

-- Or-ing a bit in takes the maximum at its place.
pub unpack-or_bit :
    (xs : Bytes) (p b : ℕ)
    → AreBytes xs
    → b < 2
    → unpack (or_bit xs p b) ≡ set (unpack xs) p (max (get_or (unpack xs) p 0) b)
unpack-or_bit [] p b h hb = refl
unpack-or_bit (x ∷ xs) (eight+ p) b h hb =
    rw or_bit-cons (ap (λ (l : List ℕ). to_bits 8 x ++ l) (unpack-or_bit xs p b h.1 hb))
unpack-or_bit (x ∷ xs) p b h hb =
    ap (λ (l : List ℕ). l ++ unpack xs) (to_bits-bit_or x p b h.0 (omega arith) hb)

pub or_bit-AreBytes : (xs : Bytes) (p b : ℕ) → AreBytes xs → b < 2 → AreBytes (or_bit xs p b)
or_bit-AreBytes [] p b h hb = tt
or_bit-AreBytes (x ∷ xs) (eight+ p) b h hb = rw or_bit-cons (h.0, or_bit-AreBytes xs p b h.1 hb)
or_bit-AreBytes (x ∷ xs) p b h hb = (bit_or-lt x p b h.0 (omega arith) hb, h.1)

-- Patching a bit writes it at its place.
pub unpack-put_bit :
    (xs : Bytes) (p b : ℕ) → AreBytes xs → b < 2 → unpack (put_bit xs p b) ≡ set (unpack xs) p b
unpack-put_bit [] p b h hb = refl
unpack-put_bit (x ∷ xs) (eight+ p) b h hb =
    rw put_bit-cons (ap (λ (l : List ℕ). to_bits 8 x ++ l) (unpack-put_bit xs p b h.1 hb))
unpack-put_bit (x ∷ xs) p b h hb =
    ap (λ (l : List ℕ). l ++ unpack xs) (to_bits-patch x p b h.0 (omega arith) hb)

pub put_bit-AreBytes : (xs : Bytes) (p b : ℕ) → AreBytes xs → b < 2 → AreBytes (put_bit xs p b)
put_bit-AreBytes [] p b h hb = tt
put_bit-AreBytes (x ∷ xs) (eight+ p) b h hb = rw put_bit-cons (h.0, put_bit-AreBytes xs p b h.1 hb)
put_bit-AreBytes (x ∷ xs) p b h hb = (patch-lt x p b h.0 (omega arith) hb, h.1)

-- A buffer of bytes is determined by its bits.
pub unpack-injective : (xs ys : Bytes) → AreBytes xs → AreBytes ys → unpack xs ≡ unpack ys → xs ≡ ys
unpack-injective [] [] hx hy e = refl
unpack-injective [] (y ∷ ys) hx hy e = cc
unpack-injective (x ∷ xs) [] hx hy e = cc
unpack-injective (x ∷ xs) (y ∷ ys) hx hy e =
    ap₂ ◌∷◌ (byte_eq x y hx.0 hy.0 (ap (λ (l : List ℕ). from_bits 0 (take 8 l)) e))
      (unpack-injective xs ys hx.1 hy.1 (ap (λ (l : List ℕ). drop 8 l) e))
