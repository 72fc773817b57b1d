-- ===== src/Scte35/WellFormed/Builders.antt =====
-- What a receiver reads from the output of the builders of src/scte35.rs.
use rust_pois.Prelude.{
  ℕ, ◌+◌, ◌*◌, ◌%◌, ◌^◌, ◌≤◌, ◌≡◌, refl, subst, Bool, true, false, ◌||◌, Option, none, some, [],
  ◌∷◌, arith, length, Run, done, unwrap_or, All,
}
use rust_pois.Bits.{Bytes}
use rust_pois.Scte35.Upid.Laws.{IsAscii, Encoded, encode_upid-Encoded}
use rust_pois.Scte35.Fields.{◌is◌}
use rust_pois.Scte35.Build.{
  is_some, pois_out, chosen_upid, build_time_signal_section, build_splice_insert_out_section,
  build_splice_insert_in_section, build_splice_insert_in_with_pts_section,
}
use rust_pois.Scte35.Build.Descriptor.{descriptor_length, body_fields, width-body_fields}
use rust_pois.Scte35.Build.Finalize.{Section}
use rust_pois.Scte35.Build.Shape.{section_fields}
use rust_pois.Scte35.Build.Sections.{
  time_signal_loop, time_signal_loop_bytes, time_signal-Emits, insert_out_body,
  splice_insert_out-Emits, insert_in_body, splice_insert_in-Emits, insert_in_pts_body,
  splice_insert_in_pts-Emits,
}
use rust_pois.Scte35.WellFormed.{WellFormed, Section-WellFormed}

-- A UPID argument in ASCII, and the bytes of the text that it or the default has.
abbrev pub AsciiValue : Option Bytes → Type 0
AsciiValue none = Unit
AsciiValue (some value) = All IsAscii value

abbrev pub value_length : Option Bytes → ℕ
value_length none = 8
value_length (some value) = length value

pub chosen_upid-Encoded :
    (upid_type : ℕ) (value : Option Bytes)
    → AsciiValue value
    → Encoded (value_length value) (chosen_upid upid_type value)
unfolding chosen_upid
chosen_upid-Encoded ut none h = record {
  bytes = pois_out;
  result = refl;
  short = omega arith;
  are_bytes = omega arith;
}
chosen_upid-Encoded ut (some value) h = encode_upid-Encoded ut value h

-- A builder returns bytes of which `P` holds.
abbrev pub Returns : (Bytes → Type 0) → Run Bytes → Type 0
Returns P r = (bytes : Bytes) × (r ≡ done bytes) × P bytes

pub descriptor_length-le :
    (dur : Option ℕ) (upid : Bytes) (st : ℕ) → descriptor_length dur upid st ≤ 22 + length upid
descriptor_length-le none upid st = ground arith
descriptor_length-le (some d) upid st = ground arith

time_signal-WellFormed_if :
    (b : Bool) (ut : ℕ) (upid : Bytes) (st : ℕ) {bytes : Bytes}
    → length upid ≤ 4000
    → Section
        (section_fields 1 0x06
          (1 is 0 ∷ 7 is 0 ∷ [])
          (time_signal_loop_bytes b upid st)
          (time_signal_loop b ut upid st))
        bytes
    → WellFormed 0x06 1 bytes
time_signal-WellFormed_if false ut upid st h s =
    Section-WellFormed 1 0x06 2 0 (1 is 0 ∷ 7 is 0 ∷ []) [] refl (omega arith) refl refl
      (omega arith) s
time_signal-WellFormed_if true ut upid st {bytes} h s =
    let small = descriptor_length-le none upid st in
    let loop = 2 + descriptor_length none upid st in
    let bits = width-body_fields none ut upid st in
    let fits : loop % 2 ^ 16 ≡ loop = omega (arith, small) in
    Section-WellFormed 1 0x06 (4 + descriptor_length none upid st) loop (1 is 0 ∷ 7 is 0 ∷ [])
      (8 is 0x02 ∷ 8 is (descriptor_length none upid st % 2 ^ 8) ∷ body_fields none ut upid st) refl
      (omega arith) (omega arith) (omega (arith, bits)) (omega (arith, small))
      (subst
        (λ (t : ℕ).
          Section
            (section_fields 1 0x06 (1 is 0 ∷ 7 is 0 ∷ []) (4 + descriptor_length none upid st) (
              16 is t
              ∷ 8 is 0x02
              ∷ 8 is (descriptor_length none upid st % 2 ^ 8)
              ∷ body_fields none ut upid st))
            bytes)
        fits s)

-- For every type and every ASCII UPID of up to 4000 bytes, `build_time_signal_section` returns,
-- without a panic, a section that a strict receiver delimits rightly: its section length, a command of one byte, the
-- descriptor loop that ends at the CRC, and the remainder 0.
pub time_signal-WellFormed :
    (type_id upid_type : Option ℕ) (value : Option Bytes)
    → AsciiValue value
    → value_length value ≤ 4000
    → Returns (WellFormed 0x06 1) (build_time_signal_section type_id upid_type value)
time_signal-WellFormed ti ut value ascii short =
    let e = chosen_upid-Encoded (unwrap_or ut 0x0C) value ascii in
    let (bytes, run, s) = time_signal-Emits ti ut value e.bytes e.result in
    (
      bytes,
      run,
      time_signal-WellFormed_if (is_some ti || is_some ut) (unwrap_or ut 0x0C) e.bytes
          (unwrap_or ti 0x10) (omega (arith, e.short)) s,
    )

-- For every duration, every type and every ASCII UPID of up to 4000 bytes,
-- `build_splice_insert_out_section` returns, without a panic, a section with the right section length, a
-- command of 15 bytes, a descriptor loop that ends at the CRC, and the remainder 0.
pub splice_insert_out-WellFormed :
    (duration_s : ℕ) (type_id upid_type : Option ℕ) (value : Option Bytes)
    → AsciiValue value
    → value_length value ≤ 4000
    → Returns
        (WellFormed 0x05 15)
        (build_splice_insert_out_section duration_s type_id upid_type value)
splice_insert_out-WellFormed d ti ut value ascii short =
    let e = chosen_upid-Encoded (unwrap_or ut 0x0C) value ascii in
    let dur = some (d * 90000) in
    let st = unwrap_or ti 0x10 in
    let len = descriptor_length dur e.bytes st in
    let body = body_fields dur (unwrap_or ut 0x0C) e.bytes st in
    let small = descriptor_length-le dur e.bytes st in
    let bits = width-body_fields dur (unwrap_or ut 0x0C) e.bytes st in
    let fits : (2 + len) % 2 ^ 16 ≡ 2 + len = omega (arith, small, e.short) in
    let (bytes, run, s) = splice_insert_out-Emits d ti ut value e.bytes e.result in
    (
      bytes,
      run,
      Section-WellFormed 15 0x05 (4 + len) (2 + len) (insert_out_body (d * 90000))
          (8 is 0x02 ∷ 8 is (len % 2 ^ 8) ∷ body) refl (omega arith) (omega arith)
          (omega (arith, bits)) (omega (arith, small, e.short))
          (subst
            (λ (t : ℕ).
              Section
                (section_fields 15 0x05 (insert_out_body (d * 90000)) (4 + len)
                  (16 is t ∷ 8 is 0x02 ∷ 8 is (len % 2 ^ 8) ∷ body))
                bytes)
            fits s),
    )

-- The two splice_insert in builders return well-formed sections with commands of 10 and 15 bytes, for
-- every PTS.
pub splice_insert_in-WellFormed :
    (pts : ℕ)
    → Returns (WellFormed 0x05 10) build_splice_insert_in_section
      × Returns (WellFormed 0x05 15) (build_splice_insert_in_with_pts_section pts)
splice_insert_in-WellFormed pts =
    let (bytes, run, s) = splice_insert_in-Emits in
    let (bytes', run', s') = splice_insert_in_pts-Emits pts in
    (
      (
        bytes,
        run,
        Section-WellFormed 10 0x05 2 0 insert_in_body [] refl (omega arith) refl refl (omega arith)
            s,
      ),
      (
        bytes',
        run',
        Section-WellFormed 15 0x05 2 0 (insert_in_pts_body pts) [] refl (omega arith) refl refl
            (omega arith) s',
      ),
    )
