-- ===== src/Scte35/Upid/Laws.antt =====
-- What `encode_upid` gives on ASCII text, and on the hexadecimal text of any bytes.
use rust_pois.Prelude.{
  ℕ, zero, suc, ◌*◌, ◌/◌, ◌%◌, ◌≤◌, ◌<◌, ◌≡◌, refl, Bool, true, false, not, ◌||◌, Option, none,
  some, [], ◌∷◌, arith, length, filter, All, ◌==◌, ◌!=◌, if◌then◌else◌, Run, done, panics, bind_run,
  unwrap_or, Bool-cases, inl, inr,
}
use rust_pois.Bits.{Bytes, AreBytes}
use rust_pois.Scte35.Upid.{
  push_byte, is_separator, from_str_radix_16, is_char_boundary, hex_pairs, hex_decode, parse_uuid,
  encode_upid,
}

abbrev pub IsAscii : ℕ → Type 0
IsAscii c = c < 128

-- A run that gives bytes, no more than `n` of them.
abbrev pub Short : ℕ → Run (Option Bytes) → Type 0
Short n (done none) = Unit
Short n (done (some bs)) = (length bs ≤ n) × AreBytes bs
Short n panics = ⊥

from_str_radix_16-lt : (a b v : ℕ) → from_str_radix_16 a b ≡ some v → v < 256
unfolding from_str_radix_16
from_str_radix_16-lt a b v h = ground arith

-- A character boundary stands before every ASCII text.
ascii_boundary : (s : Bytes) → All IsAscii s → is_char_boundary s ≡ true
unfolding is_char_boundary
ascii_boundary [] h = refl
ascii_boundary (c ∷ s) h = ground arith

push_byte-Short :
    (o : Option ℕ) (r : Run (Option Bytes)) (n : ℕ)
    → ((v : ℕ) → o ≡ some v → v < 256)
    → Short n r
    → Short (suc (suc n)) (push_byte o r)
push_byte-Short none r n h k = tt
push_byte-Short (some v) (done none) n h k = tt
push_byte-Short (some v) (done (some bs)) n h k = (omega arith, (h v refl, k.1))
push_byte-Short (some v) panics n h k = k

hex_pairs-Short :
    (k : ℕ) (s : Bytes) → All IsAscii s → length s ≡ 2 * k → Short (length s) (hex_pairs s)
unfolding hex_pairs
hex_pairs-Short k [] h e = (omega arith, tt)
hex_pairs-Short k (a ∷ []) h e = absurd (omega arith)
hex_pairs-Short zero (a ∷ b ∷ rest) h e = absurd (omega arith)
hex_pairs-Short (suc k) (a ∷ b ∷ rest) h e =
    rw (ascii_boundary (a ∷ []) (h.0, tt), ascii_boundary rest h.1.1)
      (push_byte-Short (from_str_radix_16 a b) (hex_pairs rest) (length rest)
        (from_str_radix_16-lt a b) (hex_pairs-Short k rest h.1.1 (omega arith)))

length-filter : (p : ℕ → Bool) (s : Bytes) → length (filter p s) ≤ length s
length-filter p [] = omega arith
length-filter p (c ∷ s) = ground (arith, length-filter p s)

filter-All : (P : ℕ → Type 0) (p : ℕ → Bool) (s : Bytes) → All P s → All P (filter p s)
filter-All P p [] h = tt
filter-All P p (c ∷ s) h = elim (Bool-cases (p c)) [
  | inl e ↦ rw e (h.0, filter-All P p s h.1)
  | inr e ↦ rw e (filter-All P p s h.1)
]

Short-le : (m n : ℕ) (r : Run (Option Bytes)) → m ≤ n → Short m r → Short n r
Short-le m n (done none) h k = tt
Short-le m n (done (some bs)) h k = (omega arith, k.1)
Short-le m n panics h k = k

hex_decode-Short : (s : Bytes) → All IsAscii s → Short (length s) (hex_decode s)
unfolding hex_decode
hex_decode-Short s h =
    let s' = filter (λ c. not (is_separator c)) s in
    elim (Bool-cases (length s' % 2 != 0)) [
      | inl odd ↦ rw odd tt
      | inr even ↦ rw even (
          Short-le (length s') (length s) (hex_pairs s') (length-filter _ s)
            (hex_pairs-Short (length s' / 2) s' (filter-All IsAscii _ s h) (ground arith)))
    ]

parse_uuid-Short : (s : Bytes) → All IsAscii s → Short (length s) (parse_uuid s)
unfolding parse_uuid
parse_uuid-Short s h =
    let s' = filter (λ c. not (c == b'-' || c == b' ')) s in
    elim (Bool-cases (length s' != 32)) [
      | inl long ↦ rw long tt
      | inr fits ↦ rw fits (
          Short-le (length s') (length s) (hex_decode s') (length-filter _ s)
            (hex_decode-Short s' (filter-All IsAscii _ s h)))
    ]

-- What `encode_upid` gives where it gives bytes, at most as many as the text has.
pub record Encoded (n : ℕ) (r : Run Bytes) : Type 0 where
  pub bytes : Bytes
  pub result : r ≡ done bytes
  pub short : length bytes ≤ n
  pub are_bytes : AreBytes bytes

unwrap_or-Encoded :
    (s : Bytes) (r : Run (Option Bytes))
    → AreBytes s
    → Short (length s) r
    → Encoded (length s) (bind_run r (λ o. done (unwrap_or o s)))
unwrap_or-Encoded s (done none) h k = record {
  bytes = s;
  result = refl;
  short = omega arith;
  are_bytes = h;
}
unwrap_or-Encoded s (done (some bs)) h k = record {
  bytes = bs;
  result = refl;
  short = k.0;
  are_bytes = k.1;
}
unwrap_or-Encoded s panics h k = absurd k

ascii-AreBytes : (s : Bytes) → All IsAscii s → AreBytes s
ascii-AreBytes [] h = tt
ascii-AreBytes (c ∷ s) h = (omega arith, ascii-AreBytes s h.1)

if-Encoded :
    (b : Bool) (r r' : Run Bytes) (n : ℕ)
    → Encoded n r
    → Encoded n r'
    → Encoded n (if b then r else r')
if-Encoded true r r' n h h' = h
if-Encoded false r r' n h h' = h'

-- For every UPID type, an ASCII text is encoded without a panic, into bytes, no more than it has.
pub encode_upid-Encoded :
    (upid_type : ℕ) (value : Bytes)
    → All IsAscii value
    → Encoded (length value) (encode_upid upid_type value)
unfolding encode_upid
encode_upid-Encoded t value h =
    let n = length value in
    let bytes = ascii-AreBytes value h in
    let plain : Encoded n (done value) = record {
      bytes = value;
      result = refl;
      short = omega arith;
      are_bytes = bytes;
    } in
    let hex = unwrap_or-Encoded value (hex_decode value) bytes (hex_decode-Short value h) in
    let uuid = unwrap_or-Encoded value (parse_uuid value) bytes (parse_uuid-Short value h) in
    if-Encoded _ _ _ n plain (
      if-Encoded (t == 0x08) _ _ n hex
        (if-Encoded (t == 0x09) _ _ n hex (if-Encoded (t == 0x0B) _ _ n uuid plain)))
