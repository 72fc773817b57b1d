-- ===== src/Scte35/Build.antt =====
-- src/scte35.rs, the section builders. Every builder writes the same header, so it stands once.
pub mod Descriptor
pub mod Finalize
pub mod Shape
pub mod Sections
use rust_pois.Prelude.{
  ℕ, zero, suc, ◌+◌, ◌-◌, ◌*◌, ◌/◌, ◌%◌, ◌^◌, Bool, true, false, ◌||◌, Option, none, some, List, [],
  ◌∷◌, length, ◌==◌, if◌then◌else◌, Run, done, panics, unwrap_or,
}
use rust_pois.Bits.{Bytes}
use rust_pois.Scte35.Writer.{
  BitWriter, new, write_bits, M, ◌>>=◌, ◌>>◌, act, gets, lift, u1, u2, u4, u5, u6, u7, u8, u12, u16,
  u32, u33, u40, bitpos, reserve_u8, reserve_u12, patch_u8, patch_u12, patch_u16,
}
use rust_pois.Scte35.Crc.{compute_crc32}
use rust_pois.Scte35.Upid.{encode_upid}

-- `Option::is_some`
abbrev pub is_some {ℓ} : {A : Type ℓ} → Option A → Bool
is_some none = false
is_some (some _) = true

-- The bytes of "POIS-OUT".
abbrev pub pois_out : Bytes
pois_out = 0x50 ∷ 0x4F ∷ 0x49 ∷ 0x53 ∷ 0x2D ∷ 0x4F ∷ 0x55 ∷ 0x54 ∷ []

unfoldable pub chosen_upid : ℕ → Option Bytes → Run Bytes
chosen_upid upid_type (some val) = encode_upid upid_type val
chosen_upid upid_type none = done pois_out

-- `for b in &upid_bytes { w.u8(*b); }`
unfoldable pub write_bytes : Bytes → BitWriter → BitWriter
write_bytes [] w = w
write_bytes (b ∷ bs) w = write_bytes bs (write_bits b 8 w)

unfoldable pub write_duration : Option ℕ → M Unit
write_duration none = gets (λ _. tt)
write_duration (some dur) = u40 dur

abbrev pub has_sub_segments : ℕ → Bool
has_sub_segments t = t == 0x34 || t == 0x36 || t == 0x38 || t == 0x3A

unfoldable pub write_sub_segments : Bool → M Unit
write_sub_segments false = gets (λ _. tt)
write_sub_segments true = do u8 0; u8 0

unfoldable pub add_segmentation_descriptor : Option ℕ → Option ℕ → Option ℕ → Option Bytes → M Unit
add_segmentation_descriptor duration_90k seg_type_id upid_type upid_value = do
  desc_loop_start ← bitpos
  u16 0
  u8 0x02
  seg_len_pos ← reserve_u8
  u32 0x43554549
  u32 1
  u1 0
  u7 0
  u1 1
  u1 (if is_some duration_90k then 1 else 0)
  u1 1
  u5 0
  write_duration duration_90k
  let upid_type_val = unwrap_or upid_type 0x0C
  u8 upid_type_val
  upid_bytes ← lift (chosen_upid upid_type_val upid_value)
  u8 (length upid_bytes % 2 ^ 8)
  act (write_bytes upid_bytes)
  let seg_type = unwrap_or seg_type_id 0x10
  u8 seg_type
  u8 0
  u8 0
  write_sub_segments (has_sub_segments seg_type)
  seg_end ← bitpos
  patch_u8 seg_len_pos ((seg_end - (seg_len_pos + 8)) / 8 % 2 ^ 8)
  loop_end ← bitpos
  patch_u16 desc_loop_start ((loop_end - (desc_loop_start + 16)) / 8 % 2 ^ 16)

-- `while !w.bitpos.is_multiple_of(8) { w.u1(1); }`: seven rounds are enough.
unfoldable pub align : ℕ → BitWriter → BitWriter
align zero w = w
align (suc fuel) w =
    let next = align fuel (write_bits 1 1 w) in if w.bitpos % 8 == 0 then w else next

unfoldable pub finalize_with_crc32 : ℕ → M Bytes
finalize_with_crc32 section_length_pos = do
  act (align 7)
  let section_start_byte = (section_length_pos + 12) / 8
  section_length ← gets (λ w. (length w.bytes - section_start_byte) + 4)
  patch_u12 section_length_pos (section_length % 2 ^ 16)
  crc ← gets (λ w. compute_crc32 w.bytes)
  u32 crc
  gets (λ w. w.bytes)

-- What every builder writes first; the result is the place of section_length.
unfoldable pub section_header : M ℕ
section_header = do
  u8 0xFC
  u1 0
  u1 0
  u2 3
  section_length_pos ← reserve_u12
  u8 0
  u1 0
  u6 0
  u33 0
  u8 0
  u12 0x0FFF
  gets (λ _. section_length_pos)

abbrev pub run_builder : M Bytes → Run Bytes
run_builder m = elim (m new) [ done (bytes, _) ↦ done bytes | panics ↦ panics ]

-- The steps from the place of splice_command_length to its patch, around a command's fields.
unfoldable pub splice_command : ℕ → M Unit → M Unit
splice_command command_type body = do
  splice_cmd_len_pos ← bitpos
  u12 0
  u8 command_type
  splice_cmd_start ← bitpos
  body
  splice_cmd_end ← bitpos
  patch_u12 splice_cmd_len_pos ((splice_cmd_end - splice_cmd_start) / 8 % 2 ^ 16)

unfoldable pub build_time_signal_section : Option ℕ → Option ℕ → Option Bytes → Run Bytes
build_time_signal_section seg_type_id upid_type upid_value = run_builder do
  section_length_pos ← section_header
  splice_command 0x06 (do u1 0; u7 0)
  (if is_some seg_type_id || is_some upid_type
      then add_segmentation_descriptor none seg_type_id upid_type upid_value
      else u16 0)
  finalize_with_crc32 section_length_pos

unfoldable pub build_time_signal_immediate_section : Run Bytes
build_time_signal_immediate_section = build_time_signal_section none none none

unfoldable pub build_splice_insert_out_section : ℕ → Option ℕ → Option ℕ → Option Bytes → Run Bytes
build_splice_insert_out_section duration_s seg_type_id upid_type upid_value = run_builder do
  section_length_pos ← section_header
  let dur90k = duration_s * 90000
  splice_command 0x05
      do u32 1; u1 0; u7 0; u1 1; u1 1; u1 1; u1 1; u4 0; u1 1; u6 0; u33 dur90k; u16 1; u8 0; u8 0
  add_segmentation_descriptor (some dur90k) seg_type_id upid_type upid_value
  finalize_with_crc32 section_length_pos

unfoldable pub build_splice_insert_in_section : Run Bytes
build_splice_insert_in_section = run_builder do
  section_length_pos ← section_header
  splice_command 0x05 (do u32 2; u1 0; u7 0; u1 0; u1 1; u1 0; u1 1; u4 0; u16 1; u8 0; u8 0)
  u16 0
  finalize_with_crc32 section_length_pos

unfoldable pub build_splice_insert_in_with_pts_section : ℕ → Run Bytes
build_splice_insert_in_with_pts_section pts_time = run_builder do
  section_length_pos ← section_header
  splice_command 0x05 do
    u32 2
    u1 0
    u7 0
    u1 0
    u1 1
    u1 0
    u1 0
    u4 0
    u1 1
    u6 0
    u33 pts_time
    u16 1
    u8 0
    u8 0
  u16 0
  finalize_with_crc32 section_length_pos
