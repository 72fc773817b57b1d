-- ===== src/Scte35/Crc/Residue.antt =====
-- A message followed by its own CRC leaves the remainder 0, which is how a receiver checks it.
use native.Mathlib.Nat.{one-le-pow}
use rust_pois.Prelude.{
  ℕ, zero, suc, ◌+◌, ◌*◌, ◌/◌, ◌%◌, ◌^◌, ◌<◌, bit_and, bit_xor, ◌≡◌, refl, sym, ap, ◌∙◌, [], ◌∷◌,
  ◌++◌, arith,
}
use rust_pois.Bits.{Bytes}
use rust_pois.Bits.Words.{double_pow, bit_and-top, bit_xor-high, bit_xor-lt}
use rust_pois.Scte35.Crc.{crc_round, crc_rounds, crc_byte, crc_bytes, compute_crc32, to_be_bytes}

crc_round-lt : (crc : ℕ) → crc_round crc < 2 ^ 32
unfolding crc_round
crc_round-lt crc =
    ground (arith, bit_xor-lt 32 (crc * 2 % 2 ^ 32) 0x04C11DB7 (omega arith) (omega arith))

crc_byte-lt : (crc byte : ℕ) → crc_byte crc byte < 2 ^ 32
unfolding crc_byte
crc_byte-lt crc byte = crc_round-lt _

pub crc_bytes-lt : (bytes : Bytes) (crc : ℕ) → crc < 2 ^ 32 → crc_bytes crc bytes < 2 ^ 32
unfolding crc_bytes
crc_bytes-lt [] crc h = h
crc_bytes-lt (byte ∷ bytes) crc h = crc_bytes-lt bytes (crc_byte crc byte) (crc_byte-lt crc byte)

-- The CRC fits its 32 bits.
pub compute_crc32-lt : (bytes : Bytes) → compute_crc32 bytes < 2 ^ 32
unfolding compute_crc32
compute_crc32-lt bytes = crc_bytes-lt bytes 0xFFFFFFFF (omega arith)

pub crc_bytes-append :
    (xs ys : Bytes) (crc : ℕ) → crc_bytes crc (xs ++ ys) ≡ crc_bytes (crc_bytes crc xs) ys
unfolding crc_bytes
crc_bytes-append [] ys crc = refl
crc_bytes-append (x ∷ xs) ys crc = crc_bytes-append xs ys (crc_byte crc x)

-- While the top bit is clear a round is a shift.
crc_round-shift : (x : ℕ) → x < 2 ^ 31 → crc_round x ≡ x * 2
unfolding crc_round
crc_round-shift x h =
    let clear : bit_and x 0x80000000 ≡ 0 = bit_and-top 31 x h in rw clear (omega arith)

crc_rounds-shift : (n x : ℕ) → x * 2 ^ n < 2 ^ 32 → crc_rounds n x ≡ x * 2 ^ n
unfolding crc_rounds
crc_rounds-shift zero x h = omega arith
crc_rounds-shift (suc n) x h =
    let more = double_pow x n in
    let room : 0 < 2 ^ n = one-le-pow n 2 (omega arith) in
    let small : x < 2 ^ 31 = below_half x (2 ^ n) room (omega (arith, h, more)) in
    let shift : crc_round x ≡ x * 2 = crc_round-shift x small in
    rw shift (crc_rounds-shift n (x * 2) (omega (arith, h, more)) ∙ omega (arith, more))
  where
    below_half : (x p : ℕ) → 0 < p → 2 * (x * p) < 2 ^ 32 → x < 2 ^ 31
    below_half x zero h k = elim h [ ]
    below_half x (suc p) h k = omega arith

-- A register that takes its own top byte shifts it out.
crc_byte-own : (c : ℕ) → c < 2 ^ 32 → crc_byte c (c / 2 ^ 24) ≡ c % 2 ^ 24 * 2 ^ 8
unfolding crc_byte
crc_byte-own c h =
    let parts : c / 2 ^ 24 * 2 ^ 24 + c % 2 ^ 24 ≡ c = omega arith in
    let low : bit_xor c (c / 2 ^ 24 * 2 ^ 24) ≡ c % 2 ^ 24 =
      ap (λ (t : ℕ). bit_xor t (c / 2 ^ 24 * 2 ^ 24)) (sym parts)
      ∙ bit_xor-high 24 (c / 2 ^ 24) (c % 2 ^ 24) (omega arith) in
    ap (λ (t : ℕ). crc_rounds 8 t) low ∙ crc_rounds-shift 8 (c % 2 ^ 24) (omega arith)

crc_bytes-nil : (crc : ℕ) → crc_bytes crc [] ≡ crc
unfolding crc_bytes
crc_bytes-nil crc = refl

crc_bytes-cons :
    (crc b : ℕ) (bytes : Bytes) → crc_bytes crc (b ∷ bytes) ≡ crc_bytes (crc_byte crc b) bytes
unfolding crc_bytes
crc_bytes-cons crc b bytes = refl

-- The same for the byte named otherwise, with the rest of the bytes behind it.
take_top :
    (c b c' : ℕ) (bytes : Bytes)
    → c < 2 ^ 32
    → b ≡ c / 2 ^ 24
    → c' ≡ c % 2 ^ 24 * 2 ^ 8
    → crc_bytes c (b ∷ bytes) ≡ crc_bytes c' bytes
take_top c b c' bytes h e e' =
    crc_bytes-cons c b bytes
    ∙ ap (λ (t : ℕ). crc_bytes t bytes) (ap (λ (t : ℕ). crc_byte c t) e ∙ crc_byte-own c h ∙ sym e')

crc_bytes-own : (c : ℕ) → c < 2 ^ 32 → crc_bytes c (to_be_bytes c) ≡ 0
crc_bytes-own c h =
    take_top c (c / 2 ^ 24 % 256) (c % 2 ^ 24 * 2 ^ 8) _ h (omega arith) refl
    ∙ take_top (c % 2 ^ 24 * 2 ^ 8) (c / 2 ^ 16 % 256) (c % 2 ^ 16 * 2 ^ 16) _ (omega arith)
        (omega arith) (omega arith)
    ∙ take_top (c % 2 ^ 16 * 2 ^ 16) (c / 2 ^ 8 % 256) (c % 2 ^ 8 * 2 ^ 24) _ (omega arith)
        (omega arith) (omega arith)
    ∙ take_top (c % 2 ^ 8 * 2 ^ 24) (c % 256) 0 [] (omega arith) (omega arith) (omega arith)
    ∙ crc_bytes-nil 0

-- A message with its own CRC behind it, in big-endian order, has the remainder 0.
pub compute_crc32-residue :
    (bytes : Bytes) → compute_crc32 (bytes ++ to_be_bytes (compute_crc32 bytes)) ≡ 0
compute_crc32-residue bytes =
    unfold compute_crc32 in
    crc_bytes-append bytes _ 0xFFFFFFFF
    ∙ crc_bytes-own (crc_bytes 0xFFFFFFFF bytes) (compute_crc32-lt bytes)
