-- ===== src/Scte35/Examples.antt =====
-- Sections of src/scte35.rs on concrete inputs.
use rust_pois.Prelude.{
  ◌+◌, ◌<◌, ◌≡◌, ◌↔◌, refl, some, [], ◌∷◌, ◌++◌, arith, if◌then◌else◌, done, Text, codes,
}
use rust_pois.Bits.{to_bits}
use rust_pois.Scte35.Writer.{new, write_bits, patch_bits}
use rust_pois.Scte35.Writer.Laws.{Holds, Holds-new, write_bits-Holds}
use rust_pois.Scte35.Crc.{compute_crc32, to_be_bytes}
use rust_pois.Scte35.Crc.Residue.{compute_crc32-residue}
use rust_pois.Scte35.Upid.{encode_upid}
use rust_pois.Scte35.Upid.Laws.{Encoded, encode_upid-Encoded}
use rust_pois.Scte35.Build.{
  has_sub_segments, chosen_upid, build_time_signal_immediate_section, build_time_signal_section,
  build_splice_insert_out_section, build_splice_insert_in_section,
  build_splice_insert_in_with_pts_section, section_header, splice_command, finalize_with_crc32,
  align,
}
use rust_pois.Scte35.WellFormed.{field_at, WellFormed}
use rust_pois.Scte35.WellFormed.Builders.{
  Returns, time_signal-WellFormed, splice_insert_in-WellFormed,
}
use rust_pois.Scte35.WellFormed.Limits.{
  DescriptorFits, splice_insert_out-Delimited, splice_insert_out-DescriptorFits,
  splice_insert_out-durations,
}

abbrev ad_id : Text
ad_id = codes "0a1B-2c"

immediate :
    build_time_signal_immediate_section
    ≡ done (
        0xFC ∷ 0x30 ∷ 0x12 ∷ 0x00 ∷ 0x00 ∷ 0x00 ∷ 0x00 ∷ 0x00 ∷ 0x00 ∷ 0x00 ∷ 0xFF ∷ 0xF0 ∷ 0x01
        ∷ 0x06 ∷ 0x00 ∷ 0x00 ∷ 0x00 ∷ 0x6A ∷ 0xB2 ∷ 0x09 ∷ 0x41 ∷ [])
unfolding build_time_signal_immediate_section build_time_signal_section section_header
    splice_command finalize_with_crc32 write_bits patch_bits align compute_crc32
immediate = refl

check_value : compute_crc32 (codes "123456789") ≡ 0x0376E6E7
unfolding compute_crc32
check_value = refl

decoded_upid : encode_upid 0x09 ad_id ≡ done (0x0A ∷ 0x1B ∷ 0x2C ∷ [])
unfolding encode_upid
decoded_upid = refl

time_signal-WellFormed_example :
    Returns (WellFormed 0x06 1) (build_time_signal_section (some 0x34) (some 0x09) (some ad_id))
time_signal-WellFormed_example =
    time_signal-WellFormed (some 0x34) (some 0x09) (some ad_id) (omega arith) (omega arith)

splice_insert_out-Delimited_example :
    Returns
      (λ bytes. WellFormed 0x05 15 bytes × DescriptorFits 15 bytes)
      (build_splice_insert_out_section 60 (some 0x34) (some 0x09) (some ad_id))
splice_insert_out-Delimited_example =
    splice_insert_out-Delimited 60 (some 0x34) (some 0x09) (some ad_id) (omega arith) (omega arith)

splice_insert_in-WellFormed_example :
    Returns (WellFormed 0x05 10) build_splice_insert_in_section
    × Returns (WellFormed 0x05 15) (build_splice_insert_in_with_pts_section 900000)
splice_insert_in-WellFormed_example = splice_insert_in-WellFormed 900000

splice_insert_out-DescriptorFits_example :
    Returns
      (λ bytes. DescriptorFits 15 bytes ↔ (20 + 3 + (if has_sub_segments 0x34 then 2 else 0) < 256))
      (build_splice_insert_out_section 60 (some 0x34) (some 0x09) (some ad_id))
unfolding chosen_upid
splice_insert_out-DescriptorFits_example =
    splice_insert_out-DescriptorFits 60 (some 0x34) (some 0x09) (some ad_id)
      (0x0A ∷ 0x1B ∷ 0x2C ∷ []) decoded_upid (omega arith)

splice_insert_out-durations_example :
    Returns
      (λ bytes.
        ((field_at bytes 167 33 ≡ 5400000) ↔ (60 < 95444))
        × ((field_at bytes 344 40 ≡ 5400000) ↔ (60 < 12216796)))
      (build_splice_insert_out_section 60 (some 0x34) (some 0x09) (some ad_id))
unfolding chosen_upid
splice_insert_out-durations_example =
    splice_insert_out-durations 60 (some 0x34) (some 0x09) (some ad_id) (0x0A ∷ 0x1B ∷ 0x2C ∷ [])
      decoded_upid

compute_crc32-residue_example :
    compute_crc32 (codes "123456789" ++ to_be_bytes (compute_crc32 (codes "123456789"))) ≡ 0
compute_crc32-residue_example = compute_crc32-residue (codes "123456789")

encode_upid-Encoded_example : Encoded 7 (encode_upid 0x09 ad_id)
encode_upid-Encoded_example = encode_upid-Encoded 0x09 ad_id (omega arith)

write_bits-Holds_example : Holds (write_bits 0xABC 12 new) ([] ++ to_bits 12 0xABC)
write_bits-Holds_example = write_bits-Holds 0xABC 12 Holds-new
