-- ===== src/Scte35/Build/Sections.antt =====
-- What the builders of src/scte35.rs emit, field by field.
use rust_pois.Prelude.{
  ℕ, ◌+◌, ◌*◌, ◌≡◌, refl, Bool, true, false, ◌||◌, Option, none, some, List, [], ◌∷◌, arith,
  if◌then◌else◌, Run, done, unwrap_or,
}
use rust_pois.Bits.{Bytes}
use rust_pois.Scte35.Writer.{u1, u7, u16, ◌>>◌}
use rust_pois.Scte35.Fields.{Field, Appends, ◌is◌, width}
use rust_pois.Scte35.Build.{
  is_some, chosen_upid, add_segmentation_descriptor, build_time_signal_section,
  build_splice_insert_out_section, build_splice_insert_in_section,
  build_splice_insert_in_with_pts_section,
}
use rust_pois.Scte35.Build.Descriptor.{
  descriptor_length, loop_fields, width-body_fields, add_segmentation_descriptor-Appends,
}
use rust_pois.Scte35.Build.Finalize.{Section}
use rust_pois.Scte35.Build.Shape.{section_fields, Appends-fields, builder-Section}

-- A builder returns a section with these fields.
abbrev pub Emits : Run Bytes → List Field → Type 0
Emits r fs = (bytes : Bytes) × (r ≡ done bytes) × Section fs bytes

-- The descriptor loop of a time_signal: one segmentation descriptor if it was asked for.
abbrev pub time_signal_loop : Bool → ℕ → Bytes → ℕ → List Field
time_signal_loop false upid_type upid type_id = 16 is 0 ∷ []
time_signal_loop true upid_type upid type_id = loop_fields none upid_type upid type_id

abbrev pub time_signal_loop_bytes : Bool → Bytes → ℕ → ℕ
time_signal_loop_bytes false upid type_id = 2
time_signal_loop_bytes true upid type_id = 4 + descriptor_length none upid type_id

pub time_signal_loop-width :
    (b : Bool) (ut : ℕ) (upid : Bytes) (st : ℕ)
    → width (time_signal_loop b ut upid st) ≡ 8 * time_signal_loop_bytes b upid st
time_signal_loop-width false ut upid st = refl
time_signal_loop-width true ut upid st = omega (arith, width-body_fields none ut upid st)

no_descriptor-Appends : Appends (u16 0) (16 is 0 ∷ [])
no_descriptor-Appends = Appends-fields (u16 0) (16 is 0 ∷ []) (λ w. refl)

time_signal_loop-Appends :
    (b : Bool) (ti ut : Option ℕ) (value : Option Bytes) (upid : Bytes)
    → chosen_upid (unwrap_or ut 0x0C) value ≡ done upid
    → Appends
        (if b then add_segmentation_descriptor none ti ut value else u16 0)
        (time_signal_loop b (unwrap_or ut 0x0C) upid (unwrap_or ti 0x10))
time_signal_loop-Appends true ti ut value upid enc =
    add_segmentation_descriptor-Appends none ti ut value upid enc
time_signal_loop-Appends false ti ut value upid enc = no_descriptor-Appends

-- A time_signal section: splice_command_length is 1.
pub time_signal-Emits :
    (ti ut : Option ℕ) (value : Option Bytes) (upid : Bytes)
    → chosen_upid (unwrap_or ut 0x0C) value ≡ done upid
    → Emits (build_time_signal_section ti ut value) (
        section_fields 1 0x06
          (1 is 0 ∷ 7 is 0 ∷ [])
          (time_signal_loop_bytes (is_some ti || is_some ut) upid (unwrap_or ti 0x10))
          (time_signal_loop
            (is_some ti || is_some ut)
            (unwrap_or ut 0x0C)
            upid
            (unwrap_or ti 0x10)))
unfolding build_time_signal_section
time_signal-Emits ti ut value upid enc =
    builder-Section 0x06 1 (do u1 0; u7 0) (1 is 0 ∷ 7 is 0 ∷ []) (λ w. refl) refl (omega arith) _ _
      _ (time_signal_loop-Appends (is_some ti || is_some ut) ti ut value upid enc)
      (time_signal_loop-width (is_some ti || is_some ut) (unwrap_or ut 0x0C) upid
        (unwrap_or ti 0x10))

abbrev pub insert_out_body : ℕ → List Field
insert_out_body ticks =
    32 is 1
    ∷ 1 is 0
    ∷ 7 is 0
    ∷ 1 is 1
    ∷ 1 is 1
    ∷ 1 is 1
    ∷ 1 is 1
    ∷ 4 is 0
    ∷ 1 is 1
    ∷ 6 is 0
    ∷ 33 is ticks
    ∷ 16 is 1
    ∷ 8 is 0
    ∷ 8 is 0
    ∷ []

-- A splice_insert out section: splice_command_length is 15.
pub splice_insert_out-Emits :
    (duration_s : ℕ) (ti ut : Option ℕ) (value : Option Bytes) (upid : Bytes)
    → chosen_upid (unwrap_or ut 0x0C) value ≡ done upid
    → Emits (build_splice_insert_out_section duration_s ti ut value) (
        section_fields 15 0x05
          (insert_out_body (duration_s * 90000))
          (4 + descriptor_length (some (duration_s * 90000)) upid (unwrap_or ti 0x10))
          (loop_fields (some (duration_s * 90000)) (unwrap_or ut 0x0C) upid (unwrap_or ti 0x10)))
unfolding build_splice_insert_out_section
splice_insert_out-Emits d ti ut value upid enc =
    let dur = some (d * 90000) in
    let bits = width-body_fields (some (d * 90000)) (unwrap_or ut 0x0C) upid (unwrap_or ti 0x10) in
    builder-Section 0x05 15 _ (insert_out_body (d * 90000)) (λ w. refl) refl (omega arith) _ _ _
      (add_segmentation_descriptor-Appends (some (d * 90000)) ti ut value upid enc)
      (omega (arith, bits))

abbrev pub insert_in_body : List Field
insert_in_body =
    32 is 2
    ∷ 1 is 0
    ∷ 7 is 0
    ∷ 1 is 0
    ∷ 1 is 1
    ∷ 1 is 0
    ∷ 1 is 1
    ∷ 4 is 0
    ∷ 16 is 1
    ∷ 8 is 0
    ∷ 8 is 0
    ∷ []

-- A splice_insert in section, immediate.
pub splice_insert_in-Emits :
    Emits build_splice_insert_in_section (section_fields 10 0x05 insert_in_body 2 (16 is 0 ∷ []))
unfolding build_splice_insert_in_section
splice_insert_in-Emits =
    builder-Section 0x05 10 _ insert_in_body (λ w. refl) refl (omega arith) _ 2 _
      no_descriptor-Appends refl

abbrev pub insert_in_pts_body : ℕ → List Field
insert_in_pts_body pts =
    32 is 2
    ∷ 1 is 0
    ∷ 7 is 0
    ∷ 1 is 0
    ∷ 1 is 1
    ∷ 1 is 0
    ∷ 1 is 0
    ∷ 4 is 0
    ∷ 1 is 1
    ∷ 6 is 0
    ∷ 33 is pts
    ∷ 16 is 1
    ∷ 8 is 0
    ∷ 8 is 0
    ∷ []

-- A splice_insert in section at a time.
pub splice_insert_in_pts-Emits :
    (pts : ℕ)
    → Emits
        (build_splice_insert_in_with_pts_section pts)
        (section_fields 15 0x05 (insert_in_pts_body pts) 2 (16 is 0 ∷ []))
unfolding build_splice_insert_in_with_pts_section
splice_insert_in_pts-Emits pts =
    builder-Section 0x05 15 _ (insert_in_pts_body pts) (λ w. refl) refl (omega arith) _ 2 _
      no_descriptor-Appends refl
