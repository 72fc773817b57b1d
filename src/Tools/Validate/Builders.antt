-- ===== src/Tools/Validate/Builders.antt =====
-- The validator of src/tools_api.rs on the output of the builders of src/scte35.rs.
use rust_pois.Prelude.{
  ℕ, ◌+◌, ◌-◌, ◌≤◌, ◌≡◌, refl, sym, ap, subst, ◌∙◌, Option, List, [], ◌∷◌, ◌++◌, arith, length,
  get_or, take, All-append, length-append, take-length, unwrap_or, ok,
}
use rust_pois.Bits.{Bytes, AreBytes, IsByte}
use rust_pois.Bits.Number.{from_bits-to_bits_zero}
use rust_pois.Scte35.Crc.{compute_crc32, to_be_bytes}
use rust_pois.Scte35.Fields.{Field, ◌is◌, width}
use rust_pois.Scte35.Build.{
  build_time_signal_section, build_splice_insert_out_section, build_splice_insert_in_section,
  build_splice_insert_in_with_pts_section,
}
use rust_pois.Scte35.Build.Finalize.{Section, to_be_bytes-AreBytes}
use rust_pois.Scte35.Build.Sections.{
  time_signal-Emits, splice_insert_out-Emits, splice_insert_in-Emits, splice_insert_in_pts-Emits,
}
use rust_pois.Scte35.WellFormed.{field_at, field_at-Section, length-Section}
use rust_pois.Scte35.WellFormed.Builders.{AsciiValue, Returns, chosen_upid-Encoded}
use rust_pois.Tools.Validate.{validate_bytes}
use rust_pois.Tools.Validate.Laws.{validate_bytes_iff}

-- The validator names the length and the CRC of these bytes.
abbrev pub IsValid : Bytes → Type 0
IsValid bytes =
    validate_bytes bytes ≡ ok (length bytes, compute_crc32 (take (length bytes - 4) bytes))

head_byte :
    (bytes : Bytes) → AreBytes bytes → 14 ≤ length bytes → get_or bytes 0 0 ≡ field_at bytes 0 8
head_byte [] h long = absurd (omega arith)
head_byte (x ∷ bytes) h long = omega (arith, from_bits-to_bits_zero 8 x, h.0)

Section-IsValid :
    (rest : List Field) {bytes : Bytes}
    → 80 ≤ width (8 is 0xFC ∷ rest)
    → Section (8 is 0xFC ∷ rest) bytes
    → IsValid bytes
Section-IsValid rest {bytes} wide s =
    let crc = compute_crc32 s.content in
    let long : 14 ≤ length bytes = omega (arith, length-Section (8 is 0xFC ∷ rest) s) in
    let total : length bytes ≡ length s.content + 4 =
      ap (λ (l : Bytes). length l) s.closed ∙ length-append s.content (to_be_bytes crc) in
    let front : take (length bytes - 4) bytes ≡ s.content =
      ap (λ (l : Bytes). take (length bytes - 4) l) s.closed
      ∙ take-length s.content (to_be_bytes crc) (length bytes - 4) (omega (arith, total)) in
    let are_bytes : AreBytes bytes =
      subst AreBytes (sym s.closed)
        (All-append IsByte s.content (to_be_bytes crc) s.are_bytes (to_be_bytes-AreBytes crc)) in
    (validate_bytes_iff bytes (length bytes) (compute_crc32 (take (length bytes - 4) bytes))
        are_bytes).1
      (
        long,
        head_byte bytes are_bytes long ∙ field_at-Section [] rest 8 0xFC s,
        refl,
        refl,
        s.closed ∙ ap (λ (l : Bytes). l ++ to_be_bytes (compute_crc32 l)) (sym front),
      )

-- The validator accepts what every builder returns, without a bound on the duration, the PTS or the
-- length of the ASCII UPID.
pub builders-IsValid :
    (duration_s pts : ℕ) (type_id upid_type : Option ℕ) (value : Option Bytes)
    → AsciiValue value
    → Returns IsValid (build_time_signal_section type_id upid_type value)
      × Returns IsValid (build_splice_insert_out_section duration_s type_id upid_type value)
      × Returns IsValid build_splice_insert_in_section
      × Returns IsValid (build_splice_insert_in_with_pts_section pts)
builders-IsValid d pts ti ut value ascii =
    let e = chosen_upid-Encoded (unwrap_or ut 0x0C) value ascii in
    let (b₁, r₁, s₁) = time_signal-Emits ti ut value e.bytes e.result in
    let (b₂, r₂, s₂) = splice_insert_out-Emits d ti ut value e.bytes e.result in
    let (b₃, r₃, s₃) = splice_insert_in-Emits in
    let (b₄, r₄, s₄) = splice_insert_in_pts-Emits pts in
    (
      (b₁, r₁, Section-IsValid _ (omega arith) s₁),
      (b₂, r₂, Section-IsValid _ (omega arith) s₂),
      (b₃, r₃, Section-IsValid _ (omega arith) s₃),
      (b₄, r₄, Section-IsValid _ (omega arith) s₄),
    )
