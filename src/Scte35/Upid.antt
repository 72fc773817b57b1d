-- ===== src/Scte35/Upid.antt =====
-- src/scte35.rs, `encode_upid` and its helpers. A `&str` is the list of its UTF-8 bytes; cutting it
-- between two bytes of one character is a panic.
pub mod Laws
use rust_pois.Prelude.{
  ℕ, ◌+◌, ◌-◌, ◌*◌, ◌%◌, Bool, true, false, not, ◌&&◌, ◌||◌, Option, none, some, List, [], ◌∷◌,
  length, filter, leb, ◌==◌, ◌!=◌, if◌then◌else◌, Run, done, panics, bind_run, unwrap_or,
}
use rust_pois.Bits.{Bytes}

-- `char::to_digit(16)`
unfoldable pub hex_digit : ℕ → Option ℕ
hex_digit c =
    if leb b'0' c && leb c b'9'
    then some (c - b'0')
    else if leb b'a' c && leb c b'f'
    then some (c - b'a' + 10)
    else if leb b'A' c && leb c b'F'
    then some (c - b'A' + 10)
    else none

abbrev two_digits : Option ℕ → Option ℕ → Option ℕ
two_digits (some x) (some y) = some (x * 16 + y)
two_digits _ _ = none

-- `u8::from_str_radix` of a text of two bytes: a leading `+` is accepted, as the library does.
unfoldable pub from_str_radix_16 : ℕ → ℕ → Option ℕ
unfolding hex_digit
from_str_radix_16 a b = if a == b'+' then hex_digit b else two_digits (hex_digit a) (hex_digit b)

-- `str::is_char_boundary` at the head of a text's remaining bytes.
unfoldable pub is_char_boundary : Bytes → Bool
is_char_boundary [] = true
is_char_boundary (b ∷ _) = not (leb 0x80 b && leb b 0xBF)

-- `return None`, or `bytes.push(b)` before the rounds that follow.
abbrev push_byte : Option ℕ → Run (Option Bytes) → Run (Option Bytes)
push_byte none rest = done none
push_byte (some b) (done (some bs)) = done (some (b ∷ bs))
push_byte (some b) (done none) = done none
push_byte (some b) panics = panics

-- The loop of `hex_decode` over the pairs `s[i..i+2]`.
unfoldable pub hex_pairs : Bytes → Run (Option Bytes)
hex_pairs [] = done (some [])
hex_pairs (a ∷ []) = panics
hex_pairs (a ∷ b ∷ rest) =
    let next = hex_pairs rest in
    if is_char_boundary (a ∷ []) && is_char_boundary rest
    then push_byte (from_str_radix_16 a b) next
    else panics

abbrev is_separator : ℕ → Bool
is_separator c = c == b'-' || c == b' ' || c == b':'

unfoldable pub hex_decode : Bytes → Run (Option Bytes)
unfolding hex_pairs from_str_radix_16 is_char_boundary
hex_decode s =
    let s' = filter (λ c. not (is_separator c)) s in
    if length s' % 2 != 0 then done none else hex_pairs s'

unfoldable pub parse_uuid : Bytes → Run (Option Bytes)
unfolding hex_decode
parse_uuid s =
    let s' = filter (λ c. not (c == b'-' || c == b' ')) s in
    if length s' != 32 then done none else hex_decode s'

unfoldable pub encode_upid : ℕ → Bytes → Run Bytes
unfolding hex_decode parse_uuid
encode_upid upid_type value =
    if upid_type == 0x01 || upid_type == 0x02 || upid_type == 0x03 || upid_type == 0x0C
    then done value
    else if upid_type == 0x08
    then bind_run (hex_decode value) (λ o. done (unwrap_or o value))
    else if upid_type == 0x09
    then bind_run (hex_decode value) (λ o. done (unwrap_or o value))
    else if upid_type == 0x0B
    then bind_run (parse_uuid value) (λ o. done (unwrap_or o value))
    else done value
