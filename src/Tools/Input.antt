-- ===== src/Tools/Input.antt =====
-- src/tools_api.rs, `scte35_input_to_bytes`: a section given as base64, hexadecimal or binary text.
use rust_pois.Prelude.{
  ℕ, zero, suc, ◌+◌, ◌-◌, ◌*◌, ◌%◌, Bool, true, false, ◌&&◌, ◌||◌, Option, none, some, [], ◌∷◌, all,
  length, leb, ◌==◌, ◌!=◌, if◌then◌else◌, Result, ok, err, Run, done, bind_run, unwrap_or, Text,
  codes, starts_with, drop,
}
use rust_pois.Bits.{Bytes}
use rust_pois.Scte35.Upid.{hex_digit, hex_pairs}

pub data InputError : Type 0 where
  odd_number_of_digits invalid_hex_digit empty_input not_valid : InputError

-- The base64 engine of the `base64` crate: `encode`, and `decode` of a text's bytes.
pub record Base64 : Type 0 where
  pub encode : Bytes → Text
  pub decode : Text → Option Bytes

-- How many bytes the white space at the head of a text has: `char::is_whitespace` on UTF-8.
abbrev pub whitespace : Text → ℕ
whitespace [] = 0
whitespace (a ∷ []) = if (leb 9 a && leb a 13) || a == 32 then 1 else 0
whitespace (a ∷ b ∷ []) =
    if (leb 9 a && leb a 13) || a == 32
    then 1
    else if a == 0xC2 && (b == 0x85 || b == 0xA0)
    then 2
    else 0
whitespace (a ∷ b ∷ c ∷ _) =
    if (leb 9 a && leb a 13) || a == 32
    then 1
    else if a == 0xC2 && (b == 0x85 || b == 0xA0)
    then 2
    else if (a == 0xE1 && b == 0x9A && c == 0x80)
        || (a == 0xE2
            && b == 0x80
            && ((leb 0x80 c && leb c 0x8A) || c == 0xA8 || c == 0xA9 || c == 0xAF))
        || (a == 0xE2 && b == 0x81 && c == 0x9F)
        || (a == 0xE3 && b == 0x80 && c == 0x80)
    then 3
    else 0

-- The filter on the characters, while `skip` bytes of a white space are still to go.
unfoldable pub clean_from : ℕ → Text → Text
clean_from skip [] = []
clean_from (suc skip) (c ∷ s) = clean_from skip s
clean_from zero (c ∷ s) =
    let rest = clean_from (whitespace (c ∷ s) - 1) s in
    if whitespace (c ∷ s) != 0 || c == b':' then rest else c ∷ rest

unfoldable pub hex_str_to_bytes : Text → Run (Result InputError Bytes)
unfolding hex_pairs
hex_str_to_bytes s =
    if length s % 2 != 0
    then done (err odd_number_of_digits)
    else bind_run (hex_pairs s)
        (λ o. done (elim o [ some bs ↦ ok bs | none ↦ err invalid_hex_digit ]))

-- `chunks(8)`, each folded into a byte; `k` digits of the byte are in `acc`.
unfoldable pub bin_from : ℕ → ℕ → Text → Bytes
bin_from acc k [] = []
bin_from acc k (d ∷ s) =
    let acc' = acc * 2 + (d - b'0') in
    let rest = bin_from (if k == 7 then 0 else acc') (if k == 7 then 0 else k + 1) s in
    if k == 7 then acc' ∷ rest else rest

-- `strip_prefix(lower).or_else(|| strip_prefix(upper))`, of two bytes.
abbrev pub strip_either : Text → Text → Text → Option Text
strip_either s lower upper =
    if starts_with s lower || starts_with s upper then some (drop 2 s) else none

abbrev pub is_hex : ℕ → Bool
is_hex c = elim (hex_digit c) [ some _ ↦ true | none ↦ false ]

-- `.filter(|b| !b.is_empty())`
abbrev pub non_empty : Option Bytes → Option Bytes
non_empty (some (b ∷ bs)) = some (b ∷ bs)
non_empty (some []) = none
non_empty none = none

abbrev pub result_ok : Result InputError Bytes → Option Bytes
result_ok (ok bs) = some bs
result_ok (err _) = none

abbrev pub starts_fc : Bytes → Bool
starts_fc [] = false
starts_fc (b ∷ _) = b == 0xFC

-- The last `match`.
abbrev pub prefer : Option Bytes → Option Bytes → Result InputError Bytes
prefer (some b) (some h) = if starts_fc b then ok b else if starts_fc h then ok h else ok b
prefer (some b) none = ok b
prefer none (some h) = ok h
prefer none none = err not_valid

unfoldable pub scte35_input_to_bytes : Base64 → Text → Run (Result InputError Bytes)
unfolding clean_from hex_str_to_bytes bin_from
scte35_input_to_bytes b64 raw =
    let cleaned = clean_from 0 raw in
    let prefixed = strip_either cleaned (codes "0b") (codes "0B") in
    let bin = unwrap_or prefixed cleaned in
    let explicit_bin = starts_with cleaned (codes "0b") || starts_with cleaned (codes "0B") in
    let hex = strip_either cleaned (codes "0x") (codes "0X") in
    if length cleaned == 0
    then done (err empty_input)
    else if (explicit_bin || (leb 16 (length bin) && starts_with bin (codes "11111100")))
        && length bin % 8 == 0
        && all (λ b. b == b'0' || b == b'1') bin
    then done (ok (bin_from 0 0 bin))
    else elim hex [
      | some h ↦ hex_str_to_bytes h
      | none ↦
          bind_run
            (if length cleaned % 2 == 0 && all is_hex cleaned
              then hex_str_to_bytes cleaned
              else done (err not_valid))
            (λ as_hex.
              done (prefer (non_empty (b64.decode cleaned)) (non_empty (result_ok as_hex))))
    ]
