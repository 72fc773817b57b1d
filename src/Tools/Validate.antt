-- ===== src/Tools/Validate.antt =====
-- src/tools_api.rs, `validate_scte35_internal` behind the decoding of its input, with each error text
-- as a constructor that holds the numbers it names.
pub mod Laws
pub mod Builders
use rust_pois.Prelude.{
  ℕ, ◌+◌, ◌-◌, ◌*◌, ◌%◌, ◌^◌, List, [], ◌∷◌, length, get_or, take, ltb, ◌==◌, ◌!=◌, if◌then◌else◌,
  Result, ok, err,
}
use rust_pois.Bits.{Bytes}
use rust_pois.Scte35.Crc.{crc_bytes}

-- `calculate_crc32`: the loops of src/scte35.rs, written a second time.
unfoldable pub calculate_crc32 : Bytes → ℕ
unfolding crc_bytes
calculate_crc32 bytes = crc_bytes 0xFFFFFFFF bytes

pub data ValidateError : Type 0 where
  empty_data : ValidateError
  too_short : ℕ → ValidateError
  invalid_table_id : ℕ → ValidateError
  too_short_for_crc : ValidateError
  crc_mismatch : (calculated stored : ℕ) → ValidateError

-- `u32::from_be_bytes`
abbrev pub from_be_bytes : ℕ → ℕ → ℕ → ℕ → ℕ
from_be_bytes a b c d = a * 2 ^ 24 + b * 2 ^ 16 + c * 2 ^ 8 + d

-- The length and the CRC that the message of a valid section names.
unfoldable pub validate_bytes : Bytes → Result ValidateError (ℕ × ℕ)
unfolding calculate_crc32
validate_bytes bytes =
    let table_id = get_or bytes 0 0 in
    let n = length bytes in
    let calculated_crc = calculate_crc32 (take (n - 4) bytes) in
    let stored_crc =
      from_be_bytes (get_or bytes (n - 4) 0) (get_or bytes (n - 3) 0) (get_or bytes (n - 2) 0)
        (get_or bytes (n - 1) 0) in
    if n == 0
    then err empty_data
    else if ltb n 14
    then err (too_short n)
    else if table_id != 0xFC
    then err (invalid_table_id table_id)
    else if ltb n 4
    then err too_short_for_crc
    else if calculated_crc != stored_crc
    then err (crc_mismatch calculated_crc stored_crc)
    else ok (n, stored_crc)
