-- ===== src/Tools/Reader/Laws.antt =====
-- What `BitReader` reads: the bits of its buffer, as a number.
use rust_pois.Prelude.{
  ℕ, zero, suc, ◌+◌, ◌-◌, ◌*◌, ◌/◌, ◌%◌, ◌^◌, ◌≤◌, ◌<◌, ◌≡◌, refl, sym, ap, ◌∙◌, List, [], ◌∷◌,
  ◌++◌, false, arith, length, get_or, take, drop, All, All-append, leb, Bool-cases, inl, inr, ok,
  err, length-take, length-drop, take-append-drop,
}
use native.Mathlib.Nat.{pow-suc, pow-le-pow_right}
use rust_pois.Bits.{Bytes, IsBit, to_bits, from_bits, unpack}
use rust_pois.Bits.Number.{to_bits-IsBit}
use rust_pois.Bits.Stream.{length-unpack}
use rust_pois.Scte35.WellFormed.{field_at}
use rust_pois.Tools.Reader.{BitReader, advance, read_rounds, read_bits}

unpack-IsBit : (xs : Bytes) → All IsBit (unpack xs)
unpack-IsBit [] = tt
unpack-IsBit (x ∷ xs) =
    All-append IsBit (to_bits 8 x) (unpack xs) (to_bits-IsBit 8 x) (unpack-IsBit xs)

pattern abbrev eight+ : ℕ → ℕ
eight+ p = suc (suc (suc (suc (suc (suc (suc (suc p)))))))

eight+-div : (p : ℕ) → eight+ p / 8 ≡ suc (p / 8)
eight+-div p = omega arith

eight+-mod : (p : ℕ) → eight+ p % 8 ≡ p % 8
eight+-mod p = omega arith

-- A bit of the buffer, as the reader takes it out of its byte.
bit-unpack :
    (xs : Bytes) (p : ℕ) → get_or xs (p / 8) 0 / 2 ^ (7 - p % 8) % 2 ≡ get_or (unpack xs) p 0
bit-unpack [] p = omega arith
bit-unpack (x ∷ xs) zero = refl
bit-unpack (x ∷ xs) (suc zero) = refl
bit-unpack (x ∷ xs) (suc (suc zero)) = refl
bit-unpack (x ∷ xs) (suc (suc (suc zero))) = refl
bit-unpack (x ∷ xs) (suc (suc (suc (suc zero)))) = refl
bit-unpack (x ∷ xs) (suc (suc (suc (suc (suc zero))))) = refl
bit-unpack (x ∷ xs) (suc (suc (suc (suc (suc (suc zero)))))) = refl
bit-unpack (x ∷ xs) (suc (suc (suc (suc (suc (suc (suc zero))))))) = refl
bit-unpack (x ∷ xs) (eight+ p) = rw (eight+-div, eight+-mod) (bit-unpack xs p)

at_head :
    (l : List ℕ) (p b : ℕ) (rest : List ℕ)
    → drop p l ≡ b ∷ rest
    → (get_or l p 0 ≡ b) × (drop (suc p) l ≡ rest) × (p < length l)
at_head [] zero b rest h = cc
at_head [] (suc p) b rest h = cc
at_head (x ∷ l) zero b rest h = (cc, cc, omega arith)
at_head (x ∷ l) (suc p) b rest h = let (e, e', lt) = at_head l p b rest h in (e, e', omega arith)

from_bits-ge : (bs : List ℕ) (acc : ℕ) → acc ≤ from_bits acc bs
from_bits-ge [] acc = omega arith
from_bits-ge (b ∷ bs) acc = omega (arith, from_bits-ge bs (acc * 2 + b))

-- The bits from the reader's position on.
abbrev pub At : BitReader → List ℕ → Type 0
At r bits = drop r.bitpos (unpack r.source) ≡ bits

At-position :
    (r : BitReader) (p : ℕ) (bits : List ℕ)
    → p ≡ r.bitpos
    → drop p (unpack r.source) ≡ bits
    → At r bits
At-position r p bits e h = ap (λ (q : ℕ). drop q (unpack r.source)) (sym e) ∙ h

pub advance_to : (r : BitReader) (m n k : ℕ) → m + n ≡ k → advance n (advance m r) ≡ advance k r
advance_to r m n k e = ap (λ (q : ℕ). record r { bitpos = q }) (omega arith)

pub read_rounds-At :
    (bs rest : List ℕ) (v : ℕ) (r : BitReader)
    → All IsBit bs
    → from_bits v bs < 2 ^ 64
    → At r (bs ++ rest)
    → read_rounds (length bs) v r ≡ (ok (from_bits v bs), advance (length bs) r)
unfolding read_rounds
read_rounds-At [] rest v r hb fits at = ap (λ (r' : BitReader). (ok v, r')) (sym (advance_zero r))
  where
    advance_zero : (r : BitReader) → advance 0 r ≡ r
    advance_zero r = ap (λ (q : ℕ). record r { bitpos = q }) (omega arith)
read_rounds-At (b ∷ bs) rest v r hb fits at =
    let (here, later, inside) = at_head (unpack r.source) r.bitpos b (bs ++ rest) at in
    let room : leb (length r.source) (r.bitpos / 8) ≡ false =
      ground (arith, inside, length-unpack r.source) in
    let bit = bit-unpack r.source r.bitpos ∙ here in
    let grows = from_bits-ge bs (v * 2 + b) in
    let even : v * 2 % 2 ^ 64 ≡ v * 2 = omega (arith, grows, fits) in
    let next = At-position (advance 1 r) (suc r.bitpos) (bs ++ rest) (omega arith) later in
    let go = read_rounds-At bs rest (v * 2 + b) (advance 1 r) hb.1 fits next in
    rw (room, bit, even)
      (go
        ∙ ap (λ (r' : BitReader). (ok (from_bits (v * 2 + b) bs), r'))
            (advance_to r 1 (length bs) (suc (length bs)) (omega arith)))

drop-IsBit : (n : ℕ) (l : List ℕ) → All IsBit l → All IsBit (drop n l)
drop-IsBit zero l h = h
drop-IsBit (suc n) [] h = tt
drop-IsBit (suc n) (x ∷ l) h = drop-IsBit n l h.1

take-IsBit : (n : ℕ) (l : List ℕ) → All IsBit l → All IsBit (take n l)
take-IsBit zero l h = tt
take-IsBit (suc n) [] h = tt
take-IsBit (suc n) (x ∷ l) h = (h.0, take-IsBit n l h.1)

-- With `j + length bs` bits in all, a number stays below that power of two, hence below 2 ^ 64.
pub from_bits-lt :
    (bs : List ℕ) (j acc : ℕ)
    → All IsBit bs
    → acc < 2 ^ j
    → j + length bs ≤ 64
    → from_bits acc bs < 2 ^ 64
from_bits-lt [] j acc h lt le =
    let most : 2 ^ j ≤ 2 ^ 64 =
      pow-le-pow_right {n = 2} (omega arith) {i = j} {j = 64} (omega arith) in
    omega (arith, most)
from_bits-lt (b ∷ bs) j acc h lt le =
    from_bits-lt bs (suc j) (acc * 2 + b) h.1 (omega (arith, pow-suc 2 j, h.0)) (omega arith)

-- Inside the buffer, up to 64 bits are read as the number that stands there, and the reader moves behind them.
pub read_bits-field_at :
    (n : ℕ) (r : BitReader)
    → n ≤ 64
    → r.bitpos + n ≤ 8 * length r.source
    → read_bits n r ≡ (ok (field_at r.source r.bitpos n), advance n r)
unfolding read_bits
read_bits-field_at n r small inside =
    let rest = drop r.bitpos (unpack r.source) in
    let bits = take-IsBit n rest (drop-IsBit r.bitpos (unpack r.source) (unpack-IsBit r.source)) in
    let len : length (take n rest) ≡ n =
      omega (
        arith,
        length-take n rest,
        length-drop r.bitpos (unpack r.source),
        length-unpack r.source,
      ) in
    let fits = from_bits-lt (take n rest) 0 0 bits (omega arith) (omega (arith, len)) in
    let go =
      read_rounds-At (take n rest) (drop n rest) 0 r bits fits (sym (take-append-drop n rest)) in
    ap (λ (k : ℕ). read_rounds k 0 r) (sym len)
    ∙ go
    ∙ ap (λ (k : ℕ). (ok (from_bits 0 (take n rest)), advance k r)) len

short_inside :
    (n v : ℕ) (r : BitReader)
    → r.bitpos ≤ 8 * length r.source
    → 8 * length r.source < r.bitpos + n
    → (read_rounds n v r).0 ≡ err "out of bounds"
unfolding read_rounds
short_inside zero v r le h = absurd (omega arith)
short_inside (suc n) v r le h = elim (Bool-cases (leb (length r.source) (r.bitpos / 8))) [
  | inl e ↦ rw e refl
  | inr e ↦ rw e (short_inside n _ (advance 1 r) (ground arith) (omega arith))
]

-- Reading a bit or more, of which not all are in the buffer, is an error.
pub read_bits-short :
    (n : ℕ) (r : BitReader)
    → 0 < n
    → 8 * length r.source < r.bitpos + n
    → (read_bits n r).0 ≡ err "out of bounds"
unfolding read_bits
read_bits-short zero r pos h = absurd (omega arith)
read_bits-short (suc n) r pos h = elim (Bool-cases (leb (length r.source) (r.bitpos / 8))) [
  | inl e ↦ rw e refl
  | inr e ↦ rw e (short_inside n _ (advance 1 r) (ground arith) (omega arith))
]
