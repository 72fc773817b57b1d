-- ===== src/Bits/Words.antt =====
-- Laws of `&` and `^` on words that the libraries lack: the mask of the top bit, and a number
-- xor-ed with its own high part.
use Prim.Native.Nat.{digits, bitwise, differ, bit_and-bitwise, bit_xor-bitwise}
use native.Mathlib.Nat.{pow-suc}
use rust_pois.Prelude.{
  ℕ, zero, suc, ◌+◌, ◌*◌, ◌/◌, ◌%◌, ◌^◌, ◌≤◌, ◌<◌, min, bit_and, bit_xor, ◌≡◌, refl, ap, ◌∙◌, arith,
}

module _ (end : ℕ → ℕ) (digit : ℕ → ℕ → ℕ) where
  -- Two counts that both cover `a` give one result.
  counts_agree :
      (a b count count' : ℕ)
      → a ≤ count
      → a ≤ count'
      → digits end digit count a b ≡ digits end digit count' a b
  counts_agree zero b zero zero h h' = refl
  counts_agree zero b zero (suc c') h h' = refl
  counts_agree zero b (suc c) zero h h' = refl
  counts_agree zero b (suc c) (suc c') h h' = refl
  counts_agree (suc a) b zero c' h h' = absurd (omega arith)
  counts_agree (suc a) b (suc c) zero h h' = absurd (omega arith)
  counts_agree (suc a) b (suc c) (suc c') h h' =
      ap (λ (t : ℕ). t * 2 + digit (suc a % 2) (b % 2))
        (counts_agree (suc a / 2) (b / 2) c c' (omega arith) (omega arith))

  lowest_digit :
      (a b : ℕ)
      → bitwise end digit (suc a) b
        ≡ bitwise end digit (suc a / 2) (b / 2) * 2 + digit (suc a % 2) (b % 2)
  lowest_digit a b =
      ap (λ (t : ℕ). t * 2 + digit (suc a % 2) (b % 2))
        (counts_agree (suc a / 2) (b / 2) a (suc a / 2) (omega arith) (omega arith))

and_digit : (a b : ℕ) → bit_and a b ≡ bit_and (a / 2) (b / 2) * 2 + min (a % 2) (b % 2)
and_digit zero b = omega (arith, bit_and-bitwise 0 b, bit_and-bitwise 0 (b / 2))
and_digit (suc a) b = simp bit_and-bitwise (lowest_digit (λ _. 0) min a b)

differ-zero : (b : ℕ) → differ 0 b ≡ b
differ-zero b = refl

xor_digit : (a b : ℕ) → bit_xor a b ≡ bit_xor (a / 2) (b / 2) * 2 + differ (a % 2) (b % 2)
xor_digit zero b = simp bit_xor-bitwise (omega arith)
xor_digit (suc a) b = simp bit_xor-bitwise (lowest_digit (λ y. y) differ a b)

-- A number below the mask's one bit shares no bit with it.
pub bit_and-top : (k x : ℕ) → x < 2 ^ k → bit_and x (2 ^ k) ≡ 0
bit_and-top zero zero h = refl
bit_and-top zero (suc x) h = absurd (omega arith)
bit_and-top (suc k) x h = ground (
  arith,
  and_digit x (2 ^ suc k),
  pow-suc 2 k,
  ap (λ (t : ℕ). bit_and (x / 2) t) (half_pow k),
  bit_and-top k (x / 2) (omega (arith, pow-suc 2 k)),
)
  where
    half_pow : (k : ℕ) → 2 ^ suc k / 2 ≡ 2 ^ k
    half_pow k = omega (arith, pow-suc 2 k)

xor_self_fuel : (n q : ℕ) → q ≤ n → bit_xor q q ≡ 0
xor_self_fuel n zero h = refl
xor_self_fuel zero (suc q) h = absurd (omega arith)
xor_self_fuel (suc n) (suc q) h = omega (
  arith,
  xor_digit (suc q) (suc q),
  xor_self_fuel n (suc q / 2) (omega arith),
  differ_self (suc q % 2),
)
  where
    differ_self : (d : ℕ) → differ d d ≡ 0
    differ_self zero = refl
    differ_self (suc d) = differ_self d

pub double_pow : (q k : ℕ) → q * 2 ^ suc k ≡ 2 * (q * 2 ^ k)
double_pow q k = omega (arith, ap (λ (t : ℕ). q * t) (pow-suc 2 k))

-- Xor with its own high part leaves the low part of a number.
pub bit_xor-high : (k q r : ℕ) → r < 2 ^ k → bit_xor (q * 2 ^ k + r) (q * 2 ^ k) ≡ r
bit_xor-high zero q r h =
    rw (let e : q * 2 ^ 0 + r ≡ q * 1 = omega arith in e)
      (omega (arith, xor_self_fuel (q * 1) (q * 1) (omega arith)))
bit_xor-high (suc k) q r h =
    let a = q * 2 ^ suc k + r in
    let b = q * 2 ^ suc k in
    let half_a : a / 2 ≡ q * 2 ^ k + r / 2 = omega (arith, double_pow q k) in
    let half_b : b / 2 ≡ q * 2 ^ k = omega (arith, double_pow q k) in
    let low_a : a % 2 ≡ r % 2 = omega (arith, double_pow q k) in
    let low_b : b % 2 ≡ 0 = omega (arith, double_pow q k) in
    xor_digit a b
    ∙ rw (half_a, half_b, low_a, low_b)
        (omega
          (arith, bit_xor-high k q (r / 2) (omega (arith, pow-suc 2 k)), differ-zero_right (r % 2)))
  where
    differ-zero_right : (d : ℕ) → differ d 0 ≡ d
    differ-zero_right zero = refl
    differ-zero_right (suc d) = refl

differ_small : (d e : ℕ) → d < 2 → e < 2 → differ d e < 2
differ_small zero e h k = k
differ_small (suc d) zero h k = h
differ_small (suc d) (suc e) h k = differ_small d e (omega arith) (omega arith)

-- Xor stays within the width of its arguments.
pub bit_xor-lt : (k a b : ℕ) → a < 2 ^ k → b < 2 ^ k → bit_xor a b < 2 ^ k
bit_xor-lt zero zero zero h h' = omega arith
bit_xor-lt zero zero (suc b) h h' = absurd (omega arith)
bit_xor-lt zero (suc a) b h h' = absurd (omega arith)
bit_xor-lt (suc k) a b h h' = omega (
  arith,
  xor_digit a b,
  pow-suc 2 k,
  bit_xor-lt k (a / 2) (b / 2) (omega (arith, pow-suc 2 k)) (omega (arith, pow-suc 2 k)),
  differ_small (a % 2) (b % 2) (omega arith) (omega arith),
)
