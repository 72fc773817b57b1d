-- ===== src/Tools/Rewrite/Examples.antt =====
-- The rewriters of src/tools_api.rs on concrete bytes: a time_signal with one segmentation descriptor,
-- and a splice_insert with a break of 30 seconds.
use rust_pois.Prelude.{
  ℕ, ◌+◌, ◌*◌, ◌/◌, ◌%◌, ◌^◌, ◌≤◌, ◌≡◌, refl, ap, true, false, Option, none, some, [], ◌∷◌, arith,
  length, get_or, done, codes, unwrap_or,
}
use rust_pois.Bits.{Bytes}
use rust_pois.Scte35.Crc.{compute_crc32}
use rust_pois.Scte35.Upid.{encode_upid}
use rust_pois.Tools.Reader.{read_bits, read_u8, read_u16, read_u32, read_u64, skip_bits}
use rust_pois.Tools.Command.{
  ◌>>=◌, read_header, parse_command_info, parse_splice_insert, parse_splice_insert_rest,
  read_splice_time, read_break_duration,
}
use rust_pois.Tools.Locate.{
  DescriptorLoop, locate_descriptor_loop, locate_break_duration, seek_break_duration, skip_to_break,
}
use rust_pois.Tools.Rewrite.{
  walk, flag, restrict_delivery, put_break, get_break, rewrite_delivery_flags, change_durations,
  refresh_crc_in_place,
}
use rust_pois.Tools.Rewrite.Upid.{rewrite_upid}
use rust_pois.Tools.Rewrite.Upid.Laws.{Consistent, rewrite_upid-Consistent}
use rust_pois.Tools.Rewrite.Walk.{here, walk_enough}
use rust_pois.Tools.Rewrite.Delivery.{rewrite_delivery_flags-IsValid}
use rust_pois.Tools.Rewrite.Marks.{rewrite_delivery_flags-marks}
use rust_pois.Tools.Rewrite.Durations.{change_durations-IsValid, change_durations-get_break}
use rust_pois.Tools.Validate.Builders.{IsValid}

abbrev time_signal : Bytes
time_signal =
    0xFC ∷ 0x30 ∷ 0x26 ∷ 0x00 ∷ 0x00 ∷ 0x00 ∷ 0x00 ∷ 0x00 ∷ 0x00 ∷ 0x00 ∷ 0xFF ∷ 0xF0 ∷ 0x01 ∷ 0x06
    ∷ 0x7F ∷ 0x00 ∷ 0x14 ∷ 0x02 ∷ 0x12 ∷ 0x43 ∷ 0x55 ∷ 0x45 ∷ 0x49 ∷ 0x00 ∷ 0x00 ∷ 0x00 ∷ 0x01
    ∷ 0x7F ∷ 0xBF ∷ 0x09 ∷ 0x03 ∷ 0x61 ∷ 0x62 ∷ 0x63 ∷ 0x34 ∷ 0x00 ∷ 0x00 ∷ 0xB6 ∷ 0x1F ∷ 0xE7
    ∷ 0x46 ∷ []

abbrev restricted : Bytes
restricted =
    0xFC ∷ 0x30 ∷ 0x26 ∷ 0x00 ∷ 0x00 ∷ 0x00 ∷ 0x00 ∷ 0x00 ∷ 0x00 ∷ 0x00 ∷ 0xFF ∷ 0xF0 ∷ 0x01 ∷ 0x06
    ∷ 0x7F ∷ 0x00 ∷ 0x14 ∷ 0x02 ∷ 0x12 ∷ 0x43 ∷ 0x55 ∷ 0x45 ∷ 0x49 ∷ 0x00 ∷ 0x00 ∷ 0x00 ∷ 0x01
    ∷ 0x7F ∷ 0x96 ∷ 0x09 ∷ 0x03 ∷ 0x61 ∷ 0x62 ∷ 0x63 ∷ 0x34 ∷ 0x00 ∷ 0x00 ∷ 0xFA ∷ 0xD7 ∷ 0x79
    ∷ 0xAF ∷ []

abbrev renamed : Bytes
renamed =
    0xFC ∷ 0x30 ∷ 0x25 ∷ 0x00 ∷ 0x00 ∷ 0x00 ∷ 0x00 ∷ 0x00 ∷ 0x00 ∷ 0x00 ∷ 0xFF ∷ 0xF0 ∷ 0x01 ∷ 0x06
    ∷ 0x7F ∷ 0x00 ∷ 0x13 ∷ 0x02 ∷ 0x11 ∷ 0x43 ∷ 0x55 ∷ 0x45 ∷ 0x49 ∷ 0x00 ∷ 0x00 ∷ 0x00 ∷ 0x01
    ∷ 0x7F ∷ 0xBF ∷ 0x09 ∷ 0x02 ∷ 0x78 ∷ 0x79 ∷ 0x34 ∷ 0x00 ∷ 0x00 ∷ 0x7F ∷ 0x77 ∷ 0xB1 ∷ 0xD1 ∷ []

abbrev insert : Bytes
insert =
    0xFC ∷ 0x30 ∷ 0x20 ∷ 0x00 ∷ 0x00 ∷ 0x00 ∷ 0x00 ∷ 0x00 ∷ 0x00 ∷ 0x00 ∷ 0xFF ∷ 0xF0 ∷ 0x0F ∷ 0x05
    ∷ 0x00 ∷ 0x00 ∷ 0x00 ∷ 0x07 ∷ 0x7F ∷ 0xFF ∷ 0xFE ∷ 0x00 ∷ 0x29 ∷ 0x32 ∷ 0xE0 ∷ 0x00 ∷ 0x01
    ∷ 0x00 ∷ 0x00 ∷ 0x00 ∷ 0x00 ∷ 0xDF ∷ 0x9E ∷ 0x70 ∷ 0x35 ∷ []

abbrev shortened : Bytes
shortened =
    0xFC ∷ 0x30 ∷ 0x20 ∷ 0x00 ∷ 0x00 ∷ 0x00 ∷ 0x00 ∷ 0x00 ∷ 0x00 ∷ 0x00 ∷ 0xFF ∷ 0xF0 ∷ 0x0F ∷ 0x05
    ∷ 0x00 ∷ 0x00 ∷ 0x00 ∷ 0x07 ∷ 0x7F ∷ 0xFF ∷ 0xFE ∷ 0x00 ∷ 0x14 ∷ 0x99 ∷ 0x70 ∷ 0x00 ∷ 0x01
    ∷ 0x00 ∷ 0x00 ∷ 0x00 ∷ 0x00 ∷ 0x9B ∷ 0xEE ∷ 0xDC ∷ 0x9B ∷ []

abbrev truncated : Bytes
truncated =
    0xFC ∷ 0x30 ∷ 0x20 ∷ 0x00 ∷ 0x00 ∷ 0x00 ∷ 0x00 ∷ 0x00 ∷ 0x00 ∷ 0x00 ∷ 0xFF ∷ 0xF0 ∷ 0x0F ∷ 0x05
    ∷ 0x00 ∷ 0x00 ∷ 0x00 ∷ 0x07 ∷ 0x7F ∷ 0xFF ∷ []

abbrev descriptors : DescriptorLoop
descriptors = record { dlw_off = 15; loop_start = 17; loop_end = 37 }

found : locate_descriptor_loop time_signal ≡ some descriptors
unfolding locate_descriptor_loop read_header ◌>>=◌ read_u8 read_bits read_u16 read_u64
    parse_command_info read_splice_time skip_bits
found = refl

delivered : rewrite_delivery_flags true false true 2 time_signal ≡ some restricted
unfolding rewrite_delivery_flags locate_descriptor_loop read_header ◌>>=◌ read_u8 read_bits read_u16
    read_u64 parse_command_info read_splice_time skip_bits refresh_crc_in_place compute_crc32
delivered = refl

to_a_new_upid : rewrite_upid none (codes "xy") time_signal ≡ done (some renamed)
unfolding rewrite_upid locate_descriptor_loop read_header ◌>>=◌ read_u8 read_bits read_u16 read_u64
    parse_command_info read_splice_time skip_bits encode_upid compute_crc32
to_a_new_upid = refl

break_at : locate_break_duration insert ≡ some 20
unfolding locate_break_duration seek_break_duration ◌>>=◌ read_u8 read_bits read_u16 read_u64
    skip_to_break read_u32 skip_bits
break_at = refl

halved : change_durations (λ t. t / 2) insert ≡ done (some shortened)
unfolding change_durations locate_break_duration seek_break_duration ◌>>=◌ read_u8 read_bits
    read_u16 read_u64 skip_to_break read_u32 skip_bits locate_descriptor_loop read_header
    parse_command_info parse_splice_insert parse_splice_insert_rest read_break_duration
    refresh_crc_in_place compute_crc32
halved = refl

behind :
    (l : DescriptorLoop)
    → locate_descriptor_loop (put_break 20 (get_break 20 insert / 2 % 2 ^ 33) insert) ≡ some l
    → 20 + 5 ≤ l.loop_start
unfolding locate_descriptor_loop ◌>>=◌ read_u8 read_bits read_u16 read_u64 read_u32 skip_bits
    read_header parse_command_info parse_splice_insert parse_splice_insert_rest read_break_duration
behind l e =
    let start : 31 ≡ l.loop_start =
      ap (λ (o : Option DescriptorLoop). (unwrap_or o l).loop_start) e in
    omega arith

rewrite_delivery_flags-IsValid_example :
    (length restricted ≡ length time_signal) × IsValid restricted
rewrite_delivery_flags-IsValid_example =
    rewrite_delivery_flags-IsValid true false true 2 time_signal restricted (omega arith) delivered

rewrite_delivery_flags-marks_example :
    get_or restricted 28 0
    ≡ get_or time_signal 28 0 / 2 ^ 6 % 2 ^ 2 * 2 ^ 6
      + (flag true * 2 ^ 4 + flag false * 2 ^ 3 + flag true * 2 ^ 2 + 2 % 2 ^ 2)
rewrite_delivery_flags-marks_example =
    rewrite_delivery_flags-marks true false true 2 time_signal restricted descriptors 17 found
      delivered (here (omega arith)) refl (omega arith) (omega arith)

change_durations-IsValid_example : (length shortened ≡ length insert) × IsValid shortened
change_durations-IsValid_example =
    change_durations-IsValid (λ t. t / 2) insert shortened (omega arith) halved

change_durations-get_break_example : get_break 20 shortened ≡ get_break 20 insert / 2 % 2 ^ 33
change_durations-get_break_example =
    change_durations-get_break (λ t. t / 2) insert shortened 20 break_at (omega arith) behind halved

rewrite_upid-Consistent_example : (n : ℕ) × Consistent time_signal descriptors renamed n
rewrite_upid-Consistent_example =
    rewrite_upid-Consistent none (codes "xy") time_signal renamed descriptors found to_a_new_upid

walk_enough_example :
    walk (restrict_delivery true false true 2) 41 37 17 time_signal false
    ≡ walk (restrict_delivery true false true 2) 100 37 17 time_signal false
walk_enough_example =
    walk_enough (restrict_delivery true false true 2) 41 100 37 17 time_signal false (omega arith)
      (omega arith)
