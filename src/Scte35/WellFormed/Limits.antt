-- ===== src/Scte35/WellFormed/Limits.antt =====
-- Where the fields of the builders of src/scte35.rs are too narrow for what they are given.
use rust_pois.Prelude.{
  ℕ, sym, ap, ◌∙◌, subst, Bool, true, false, unwrap_run, ◌+◌, ◌*◌, ◌%◌, ◌^◌, ◌≤◌, ◌<◌, ◌≡◌, ◌↔◌,
  Option, some, [], ◌∷◌, ◌++◌, arith, length, done, unwrap_or, if◌then◌else◌,
}
use rust_pois.Bits.{Bytes}
use rust_pois.Scte35.Fields.{◌is◌}
use rust_pois.Scte35.Build.{chosen_upid, has_sub_segments, build_splice_insert_out_section}
use rust_pois.Scte35.Build.Descriptor.{descriptor_length, body_fields}
use rust_pois.Scte35.Build.Finalize.{prefix}
use rust_pois.Scte35.Build.Shape.{common, command_fields}
use rust_pois.Scte35.Build.Sections.{insert_out_body, splice_insert_out-Emits}
use rust_pois.Scte35.WellFormed.{WellFormed, field_at, field_at-Section}
use rust_pois.Scte35.WellFormed.Builders.{
  AsciiValue, value_length, chosen_upid-Encoded, splice_insert_out-WellFormed, Returns,
  descriptor_length-le,
}

-- The descriptor loop holds one descriptor, tag 2: its length byte agrees with the loop's length.
abbrev pub DescriptorFits : ℕ → Bytes → Type 0
DescriptorFits scl bytes = field_at bytes (136 + 8 * scl) 8 + 2 ≡ field_at bytes (112 + 8 * scl) 16

-- Where the UPID encodes to at most 4000 bytes, a splice_insert out is built, and the length byte of
-- its descriptor agrees with the descriptor loop exactly when the descriptor has fewer than 256 bytes.
pub splice_insert_out-DescriptorFits :
    (duration_s : ℕ) (type_id upid_type : Option ℕ) (value : Option Bytes) (upid : Bytes)
    → chosen_upid (unwrap_or upid_type 0x0C) value ≡ done upid
    → length upid ≤ 4000
    → Returns
        (λ bytes.
          DescriptorFits 15 bytes
          ↔ (20 + length upid + (if has_sub_segments (unwrap_or type_id 0x10) then 2 else 0) < 256))
        (build_splice_insert_out_section duration_s type_id upid_type value)
splice_insert_out-DescriptorFits d ti ut value upid enc short =
    let dur = some (d * 90000) in
    let st = unwrap_or ti 0x10 in
    let len = descriptor_length dur upid st in
    let body = body_fields dur (unwrap_or ut 0x0C) upid st in
    let small = descriptor_length-le dur upid st in
    let (bytes, run, s) = splice_insert_out-Emits d ti ut value upid enc in
    let before =
      prefix ((15 + 15 + (4 + len)) % 2 ^ 16)
      ++ (common ++ command_fields 15 0x05 (insert_out_body (d * 90000))) in
    let loop =
      field_at-Section before (8 is 0x02 ∷ 8 is (len % 2 ^ 8) ∷ body) 16 ((2 + len) % 2 ^ 16) s in
    let inner =
      field_at-Section (before ++ 16 is ((2 + len) % 2 ^ 16) ∷ 8 is 0x02 ∷ []) body 8 (len % 2 ^ 8)
        s in
    (
      bytes,
      run,
      ((λ h. omega (arith, loop, inner, small)), (λ h. omega (arith, loop, inner, small))),
    )

-- For every duration, every type and every ASCII UPID of up to 233 bytes,
-- `build_splice_insert_out_section` returns, without a panic, a section that a strict receiver delimits
-- rightly: its section length, a command of 15 bytes, the descriptor loop that ends at the CRC, the length
-- byte of the one descriptor in it, and the remainder 0.
pub splice_insert_out-Delimited :
    (duration_s : ℕ) (type_id upid_type : Option ℕ) (value : Option Bytes)
    → AsciiValue value
    → value_length value ≤ 233
    → Returns
        (λ bytes. WellFormed 0x05 15 bytes × DescriptorFits 15 bytes)
        (build_splice_insert_out_section duration_s type_id upid_type value)
splice_insert_out-Delimited d ti ut value ascii short =
    let e = chosen_upid-Encoded (unwrap_or ut 0x0C) value ascii in
    let (bytes, run, formed) = splice_insert_out-WellFormed d ti ut value ascii (omega arith) in
    let (bytes', run', (to, from)) =
      splice_insert_out-DescriptorFits d ti ut value e.bytes e.result (omega (arith, e.short)) in
    let same : bytes' ≡ bytes = ap (unwrap_run []) (sym run' ∙ run) in
    let fits =
      from (small (has_sub_segments (unwrap_or ti 0x10)) e.bytes (omega (arith, e.short))) in
    (bytes, run, (formed, subst (DescriptorFits 15) same fits))
  where
    small :
        (b : Bool) (upid : Bytes)
        → length upid ≤ 233
        → 20 + length upid + (if b then 2 else 0) < 256
    small true upid h = omega arith
    small false upid h = omega arith

-- Where the UPID encodes, a splice_insert out is built, and its duration reads back from
-- break_duration exactly for durations below 95444 seconds, and from segmentation_duration exactly
-- for those below 12216796.
pub splice_insert_out-durations :
    (duration_s : ℕ) (type_id upid_type : Option ℕ) (value : Option Bytes) (upid : Bytes)
    → chosen_upid (unwrap_or upid_type 0x0C) value ≡ done upid
    → Returns
        (λ bytes.
          ((field_at bytes 167 33 ≡ duration_s * 90000) ↔ (duration_s < 95444))
          × ((field_at bytes 344 40 ≡ duration_s * 90000) ↔ (duration_s < 12216796)))
        (build_splice_insert_out_section duration_s type_id upid_type value)
splice_insert_out-durations d ti ut value upid enc =
    let dur = some (d * 90000) in
    let st = unwrap_or ti 0x10 in
    let len = descriptor_length dur upid st in
    let (bytes, run, s) = splice_insert_out-Emits d ti ut value upid enc in
    let head = prefix ((15 + 15 + (4 + len)) % 2 ^ 16) ++ (common ++ 12 is 15 ∷ 8 is 0x05 ∷ []) in
    let flags =
      32 is 1
      ∷ 1 is 0
      ∷ 7 is 0
      ∷ 1 is 1
      ∷ 1 is 1
      ∷ 1 is 1
      ∷ 1 is 1
      ∷ 4 is 0
      ∷ 1 is 1
      ∷ 6 is 0
      ∷ [] in
    let loop =
      16 is ((2 + len) % 2 ^ 16)
      ∷ 8 is 0x02
      ∷ 8 is (len % 2 ^ 8)
      ∷ 32 is 0x43554549
      ∷ 32 is 1
      ∷ 1 is 0
      ∷ 7 is 0
      ∷ 1 is 1
      ∷ 1 is 1
      ∷ 1 is 1
      ∷ 5 is 0
      ∷ [] in
    let break = field_at-Section (head ++ flags) _ 33 (d * 90000) s in
    let seg = field_at-Section (head ++ (insert_out_body (d * 90000) ++ loop)) _ 40 (d * 90000) s in
    (
      bytes,
      run,
      (
        ((λ h. omega (arith, break)), (λ h. omega (arith, break))),
        ((λ h. omega (arith, seg)), (λ h. omega (arith, seg))),
      ),
    )
