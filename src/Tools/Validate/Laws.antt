-- ===== src/Tools/Validate/Laws.antt =====
-- What the validator accepts.
use rust_pois.Prelude.{
  ℕ, zero, suc, ◌+◌, ◌-◌, ◌/◌, ◌%◌, ◌^◌, ◌≤◌, ◌<◌, ◌≡◌, ◌↔◌, refl, sym, ap, ap₂, ◌∙◌, [], ◌∷◌, ◌++◌,
  arith, length, get_or, take, drop, ltb, ◌==◌, ◌!=◌, if◌then◌else◌, Result, ok, err, drop-length,
  length-take, All-get_or,
}
use rust_pois.Bits.{Bytes, AreBytes, IsByte}
use rust_pois.Scte35.Crc.{compute_crc32, to_be_bytes}
use rust_pois.Scte35.Crc.Residue.{compute_crc32-lt}
use rust_pois.Tools.Validate.{
  calculate_crc32, ValidateError, empty_data, too_short, invalid_table_id, too_short_for_crc,
  crc_mismatch, from_be_bytes, validate_bytes,
}

same_crc : (bytes : Bytes) → calculate_crc32 bytes ≡ compute_crc32 bytes
unfolding calculate_crc32 compute_crc32
same_crc bytes = refl

-- The number in the last four bytes.
abbrev stored : Bytes → ℕ
stored bytes =
    let n = length bytes in
    from_be_bytes (get_or bytes (n - 4) 0) (get_or bytes (n - 3) 0) (get_or bytes (n - 2) 0)
      (get_or bytes (n - 1) 0)

last_four :
    (m : ℕ) (bytes : Bytes)
    → length bytes ≡ m + 4
    → bytes
      ≡ take m bytes
        ++ get_or bytes m 0
          ∷ get_or bytes (suc m) 0
          ∷ get_or bytes (suc (suc m)) 0
          ∷ get_or bytes (suc (suc (suc m))) 0
          ∷ []
last_four zero [] h = absurd (omega arith)
last_four zero (a ∷ []) h = absurd (omega arith)
last_four zero (a ∷ b ∷ []) h = absurd (omega arith)
last_four zero (a ∷ b ∷ c ∷ []) h = absurd (omega arith)
last_four zero (a ∷ b ∷ c ∷ d ∷ []) h = refl
last_four zero (a ∷ b ∷ c ∷ d ∷ e ∷ bytes) h = absurd (omega arith)
last_four (suc m) [] h = absurd (omega arith)
last_four (suc m) (x ∷ bytes) h = ap (λ (l : Bytes). x ∷ l) (last_four m bytes (omega arith))

four_bytes :
    {a b c d a' b' c' d' : ℕ}
    → a ≡ a'
    → b ≡ b'
    → c ≡ c'
    → d ≡ d'
    → a ∷ b ∷ c ∷ d ∷ [] ≡ a' ∷ b' ∷ c' ∷ d' ∷ []
four_bytes ha hb hc hd = cc

be_bytes-from :
    (a b c d : ℕ)
    → a < 256
    → b < 256
    → c < 256
    → d < 256
    → to_be_bytes (from_be_bytes a b c d) ≡ a ∷ b ∷ c ∷ d ∷ []
be_bytes-from a b c d ha hb hc hd =
    four_bytes (omega arith) (omega arith) (omega arith) (omega arith)

from_be-bytes :
    (crc a b c d : ℕ)
    → crc < 2 ^ 32
    → to_be_bytes crc ≡ a ∷ b ∷ c ∷ d ∷ []
    → from_be_bytes a b c d ≡ crc
from_be-bytes crc a b c d lt h =
    let ha : crc / 2 ^ 24 % 256 ≡ a = cc in
    let hb : crc / 2 ^ 16 % 256 ≡ b = cc in
    let hc : crc / 2 ^ 8 % 256 ≡ c = cc in
    let hd : crc % 256 ≡ d = cc in omega (arith, ha, hb, hc, hd)

-- The four bytes at the end, with the indices of the validator.
ending :
    (bytes : Bytes)
    → 14 ≤ length bytes
    → bytes
      ≡ take (length bytes - 4) bytes
        ++ get_or bytes (length bytes - 4) 0
          ∷ get_or bytes (length bytes - 3) 0
          ∷ get_or bytes (length bytes - 2) 0
          ∷ get_or bytes (length bytes - 1) 0
          ∷ []
ending bytes h =
    let n = length bytes in
    let e₃ : suc (n - 4) ≡ n - 3 = omega arith in
    let e₂ : suc (suc (n - 4)) ≡ n - 2 = omega arith in
    let e₁ : suc (suc (suc (n - 4))) ≡ n - 1 = omega arith in
    last_four (n - 4) bytes (omega arith)
    ∙ ap (λ (l : Bytes). take (n - 4) bytes ++ l)
        (four_bytes refl (ap (λ (i : ℕ). get_or bytes i 0) e₃) (ap (λ (i : ℕ). get_or bytes i 0) e₂)
          (ap (λ (i : ℕ). get_or bytes i 0) e₁))

decision : (n table_id calculated stored' : ℕ) → Result ValidateError (ℕ × ℕ)
decision n t c s =
    if n == 0
    then err empty_data
    else if ltb n 14
    then err (too_short n)
    else if t != 0xFC
    then err (invalid_table_id t)
    else if ltb n 4
    then err too_short_for_crc
    else if c != s
    then err (crc_mismatch c s)
    else ok (n, s)

decision-ok :
    (n t c s n' crc : ℕ)
    → decision n t c s ≡ ok (n', crc)
    → (14 ≤ n) × (t ≡ 0xFC) × (n' ≡ n) × (crc ≡ c) × (crc ≡ s)
unfolding decision
decision-ok n t c s n' crc h =
    (ground arith, ground arith, ground arith, ground arith, ground arith)

ok-decision : (n t c s : ℕ) → 14 ≤ n → t ≡ 0xFC → c ≡ s → decision n t c s ≡ ok (n, s)
unfolding decision
ok-decision n t c s h ht hc = ground arith

abbrev Closed : Bytes → ℕ → ℕ → Type 0
Closed bytes n crc =
    (14 ≤ length bytes)
    × (get_or bytes 0 0 ≡ 0xFC)
    × (n ≡ length bytes)
    × (crc ≡ compute_crc32 (take (length bytes - 4) bytes))
    × (bytes ≡ take (length bytes - 4) bytes ++ to_be_bytes crc)

stored-to_be_bytes :
    (bytes : Bytes)
    → AreBytes bytes
    → 14 ≤ length bytes
    → bytes ≡ take (length bytes - 4) bytes ++ to_be_bytes (stored bytes)
stored-to_be_bytes bytes h long =
    let n = length bytes in
    let byte : (i : ℕ) → IsByte (get_or bytes i 0) =
      λ i. All-get_or IsByte bytes i 0 h (omega arith) in
    ending bytes long
    ∙ ap (λ (l : Bytes). take (n - 4) bytes ++ l)
        (sym (be_bytes-from _ _ _ _ (byte (n - 4)) (byte (n - 3)) (byte (n - 2)) (byte (n - 1))))

stored-closed :
    (bytes : Bytes) (crc : ℕ)
    → crc < 2 ^ 32
    → 14 ≤ length bytes
    → bytes ≡ take (length bytes - 4) bytes ++ to_be_bytes crc
    → stored bytes ≡ crc
stored-closed bytes crc lt long e =
    let n = length bytes in
    let content = take (n - 4) bytes in
    let len : length content ≡ n - 4 = omega (arith, length-take (n - 4) bytes) in
    from_be-bytes crc _ _ _ _ lt (
      sym (drop-length content (to_be_bytes crc) (n - 4) len)
      ∙ ap (λ (l : Bytes). drop (n - 4) l) (sym e ∙ ending bytes long)
      ∙ drop-length content _ (n - 4) len)

-- For bytes, the validator names a length and a CRC exactly when there are at least 14, they begin
-- with the table id 0xFC, the length is theirs, the CRC is that of all but the last four, and they end
-- in it.
pub validate_bytes_iff :
    (bytes : Bytes) (n crc : ℕ)
    → AreBytes bytes
    → (validate_bytes bytes ≡ ok (n, crc)) ↔ (
        (14 ≤ length bytes)
        × (get_or bytes 0 0 ≡ 0xFC)
        × (n ≡ length bytes)
        × (crc ≡ compute_crc32 (take (length bytes - 4) bytes))
        × (bytes ≡ take (length bytes - 4) bytes ++ to_be_bytes crc))
unfolding validate_bytes decision
validate_bytes_iff bytes n crc h = (valid→Closed, Closed→valid)
  where
    valid→Closed : validate_bytes bytes ≡ ok (n, crc) → Closed bytes n crc
    valid→Closed v =
        let (long, head, len, calculated, last) =
          decision-ok (length bytes) (get_or bytes 0 0) _ (stored bytes) n crc v in
        (
          long,
          head,
          len,
          calculated ∙ same_crc _,
          stored-to_be_bytes bytes h long
              ∙ ap (λ (t : ℕ). take (length bytes - 4) bytes ++ to_be_bytes t) (sym last),
        )

    Closed→valid : Closed bytes n crc → validate_bytes bytes ≡ ok (n, crc)
    Closed→valid (long, head, len, calculated, e) =
        let lt : crc < 2 ^ 32 =
          omega (arith, calculated, compute_crc32-lt (take (length bytes - 4) bytes)) in
        let last = stored-closed bytes crc lt long e in
        ok-decision (length bytes) (get_or bytes 0 0)
          (calculate_crc32 (take (length bytes - 4) bytes)) (stored bytes) long head
          (same_crc _ ∙ sym calculated ∙ sym last)
        ∙ ap₂ (λ (a b : ℕ). ok (a, b)) (sym len) last
