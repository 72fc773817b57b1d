-- ===== src/Tools/Examples.antt =====
-- The reader and the validator of src/tools_api.rs on concrete bytes.
use rust_pois.Prelude.{
  ◌≡◌, ◌↔◌, ◌≤◌, ◌-◌, ◌++◌, refl, true, false, none, some, [], ◌∷◌, arith, length, get_or, take, ok,
  err, codes,
}
use rust_pois.Bits.{Bytes}
use rust_pois.Scte35.Crc.{compute_crc32, to_be_bytes}
use rust_pois.Scte35.Build.{
  build_time_signal_section, build_splice_insert_out_section, build_splice_insert_in_section,
  build_splice_insert_in_with_pts_section,
}
use rust_pois.Scte35.WellFormed.{field_at}
use rust_pois.Scte35.WellFormed.Builders.{Returns}
use rust_pois.Tools.Reader.{BitReader, new, advance, read_bits, skip_bits}
use rust_pois.Tools.Reader.Laws.{read_bits-field_at}
use rust_pois.Tools.Command.{CommandInfo}
use rust_pois.Tools.Command.Builders.{out_command, in_command}
use rust_pois.Tools.Command.RoundTrip.{Decodes, builders-Decode}
use rust_pois.Tools.Validate.{validate_bytes, empty_data, too_short, invalid_table_id}
use rust_pois.Tools.Validate.Laws.{validate_bytes_iff}
use rust_pois.Tools.Validate.Builders.{IsValid, builders-IsValid}

abbrev immediate : Bytes
immediate =
    0xFC ∷ 0x30 ∷ 0x12 ∷ 0x00 ∷ 0x00 ∷ 0x00 ∷ 0x00 ∷ 0x00 ∷ 0x00 ∷ 0x00 ∷ 0xFF ∷ 0xF0 ∷ 0x01 ∷ 0x06
    ∷ 0x00 ∷ 0x00 ∷ 0x00 ∷ 0x6A ∷ 0xB2 ∷ 0x09 ∷ 0x41 ∷ []

abbrev at_length : BitReader
at_length = advance 12 (new immediate)

runs :
    (validate_bytes immediate ≡ ok (21, 0x6AB20941))
    × (validate_bytes [] ≡ err empty_data)
    × (validate_bytes (0xFC ∷ []) ≡ err (too_short 1))
    × (validate_bytes (take 14 (0 ∷ immediate)) ≡ err (invalid_table_id 0))
    × (skip_bits 7 at_length ≡ (ok tt, advance 19 (new immediate)))
unfolding validate_bytes skip_bits
runs = (refl, refl, refl, refl, refl)

read_bits-field_at_example :
    read_bits 12 at_length ≡ (ok (field_at immediate 12 12), advance 12 at_length)
read_bits-field_at_example = read_bits-field_at 12 at_length (omega arith) (omega arith)

validate_bytes_iff_example : (validate_bytes immediate ≡ ok (21, 0x6AB20941)) ↔ (
    (14 ≤ length immediate)
    × (get_or immediate 0 0 ≡ 0xFC)
    × (21 ≡ length immediate)
    × (0x6AB20941 ≡ compute_crc32 (take (length immediate - 4) immediate))
    × (immediate ≡ take (length immediate - 4) immediate ++ to_be_bytes 0x6AB20941))
validate_bytes_iff_example = validate_bytes_iff immediate 21 0x6AB20941 (omega arith)

builders-IsValid_example :
    Returns IsValid (build_time_signal_section (some 0x34) (some 0x09) (some (codes "0a1B-2c")))
    × Returns IsValid
        (build_splice_insert_out_section 60 (some 0x34) (some 0x09) (some (codes "0a1B-2c")))
    × Returns IsValid build_splice_insert_in_section
    × Returns IsValid (build_splice_insert_in_with_pts_section 900000)
builders-IsValid_example =
    builders-IsValid 60 900000 (some 0x34) (some 0x09) (some (codes "0a1B-2c")) (omega arith)

builders-Decode_example :
    Returns
      (Decodes 0x06 (CommandInfo.time_signal none) 1)
      (build_time_signal_section (some 0x34) (some 0x09) (some (codes "0a1B-2c")))
    × Returns
        (Decodes 0x05 (out_command 60) 15)
        (build_splice_insert_out_section 60 (some 0x34) (some 0x09) (some (codes "0a1B-2c")))
    × Returns (Decodes 0x05 (in_command true none) 10) build_splice_insert_in_section
    × Returns
        (Decodes 0x05 (in_command false (some 900000)) 15)
        (build_splice_insert_in_with_pts_section 900000)
builders-Decode_example =
    builders-Decode 60 900000 (some 0x34) (some 0x09) (some (codes "0a1B-2c")) (omega arith)
      (omega arith)
