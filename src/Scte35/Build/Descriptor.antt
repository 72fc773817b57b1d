-- ===== src/Scte35/Build/Descriptor.antt =====
-- The fields that `add_segmentation_descriptor` writes.
use mathlib.Core.Path.{fun_ext}
use rust_pois.Prelude.{
  ℕ, ◌+◌, ◌-◌, ◌*◌, ◌/◌, ◌%◌, ◌^◌, ◌≡◌, refl, ◌∙◌, Bool, true, false, Option, none, some, List, [],
  ◌∷◌, ◌++◌, arith, length, if◌then◌else◌, done, unwrap_or,
}
use rust_pois.Bits.{Bytes}
use rust_pois.Scte35.Writer.{BitWriter, act, write_bits, patch_bits}
use rust_pois.Scte35.Writer.Laws.{Holds}
use rust_pois.Scte35.Fields.{
  Field, Appends, ◌is◌, bits_of, width, byte_fields, write_fields, width-append, width-byte_fields,
  length-bits_of, write_fields-append, bitpos-write_fields, bitpos-patch_bits, write_fields-Holds,
  patch_inner-Holds,
}
use rust_pois.Scte35.Build.{
  is_some, chosen_upid, write_bytes, write_duration, has_sub_segments, write_sub_segments,
  add_segmentation_descriptor,
}

abbrev pub duration_fields : Option ℕ → List Field
duration_fields none = []
duration_fields (some dur) = 40 is dur ∷ []

abbrev pub sub_segment_fields : Bool → List Field
sub_segment_fields false = []
sub_segment_fields true = 8 is 0 ∷ 8 is 0 ∷ []

abbrev pub flag : Bool → ℕ
flag b = if b then 1 else 0

-- The bytes of a segmentation_descriptor behind its length.
abbrev pub descriptor_length : Option ℕ → Bytes → ℕ → ℕ
descriptor_length dur upid type_id =
    15 + (if is_some dur then 5 else 0) + length upid + (if has_sub_segments type_id then 2 else 0)

abbrev pub body_fields : Option ℕ → ℕ → Bytes → ℕ → List Field
body_fields dur upid_type upid type_id =
    32 is 0x43554549
    ∷ 32 is 1
    ∷ 1 is 0
    ∷ 7 is 0
    ∷ 1 is 1
    ∷ 1 is flag (is_some dur)
    ∷ 1 is 1
    ∷ 5 is 0
    ∷ (duration_fields dur
        ++ (8 is upid_type
            ∷ 8 is (length upid % 2 ^ 8)
            ∷ (byte_fields upid
                ++ (8 is type_id
                    ∷ 8 is 0
                    ∷ 8 is 0
                    ∷ sub_segment_fields (has_sub_segments type_id)))))

-- The descriptor loop with its one descriptor.
abbrev pub loop_fields : Option ℕ → ℕ → Bytes → ℕ → List Field
loop_fields dur upid_type upid type_id =
    16 is ((2 + descriptor_length dur upid type_id) % 2 ^ 16)
    ∷ 8 is 0x02
    ∷ 8 is (descriptor_length dur upid type_id % 2 ^ 8)
    ∷ body_fields dur upid_type upid type_id

sub_segments_width : (b : Bool) → width (sub_segment_fields b) ≡ 8 * (if b then 2 else 0)
sub_segments_width true = refl
sub_segments_width false = refl

-- The fields from the UPID's type on.
abbrev upid_fields : ℕ → Bytes → ℕ → List Field
upid_fields upid_type upid type_id =
    8 is upid_type
    ∷ 8 is (length upid % 2 ^ 8)
    ∷ (byte_fields upid
        ++ (8 is type_id ∷ 8 is 0 ∷ 8 is 0 ∷ sub_segment_fields (has_sub_segments type_id)))

width-upid_fields :
    (ut : ℕ) (upid : Bytes) (st : ℕ)
    → width (upid_fields ut upid st)
      ≡ 8 * (5 + length upid + (if has_sub_segments st then 2 else 0))
width-upid_fields ut upid st = omega (
  arith,
  width-append (byte_fields upid)
      (8 is st ∷ 8 is 0 ∷ 8 is 0 ∷ sub_segment_fields (has_sub_segments st)),
  width-byte_fields upid,
  sub_segments_width (has_sub_segments st),
)

pub width-body_fields :
    (dur : Option ℕ) (ut : ℕ) (upid : Bytes) (st : ℕ)
    → width (body_fields dur ut upid st) ≡ 8 * descriptor_length dur upid st
width-body_fields none ut upid st = omega (arith, width-upid_fields ut upid st)
width-body_fields (some d) ut upid st = omega (arith, width-upid_fields ut upid st)

write_bytes-fields_at :
    (bs : Bytes) (w : BitWriter) → write_bytes bs w ≡ write_fields (byte_fields bs) w
unfolding write_bytes
write_bytes-fields_at [] w = refl
write_bytes-fields_at (b ∷ bs) w = write_bytes-fields_at bs (write_bits b 8 w)

write_bytes-fields : (bs : Bytes) → write_bytes bs ≡ write_fields (byte_fields bs)
write_bytes-fields bs = fun_ext (write_bytes-fields_at bs)

write_duration-fields :
    (dur : Option ℕ) → write_duration dur ≡ act (write_fields (duration_fields dur))
unfolding write_duration
write_duration-fields none = refl
write_duration-fields (some d) = refl

write_sub_segments-fields :
    (b : Bool) → write_sub_segments b ≡ act (write_fields (sub_segment_fields b))
unfolding write_sub_segments
write_sub_segments-fields true = refl
write_sub_segments-fields false = refl

-- What stands in the buffer before the two lengths are patched.
abbrev unpatched : Option ℕ → ℕ → Bytes → ℕ → List Field
unpatched dur ut upid st = 16 is 0 ∷ 8 is 0x02 ∷ 8 is 0 ∷ body_fields dur ut upid st

module _ (dur type_id upid_type : Option ℕ) (value : Option Bytes) (upid : Bytes)
    (w : BitWriter) where
  abbrev ut : ℕ
  ut = unwrap_or upid_type 0x0C

  abbrev st : ℕ
  st = unwrap_or type_id 0x10

  abbrev raw : BitWriter
  raw = write_fields (unpatched dur ut upid st) w

  -- The place of the descriptor's length.
  abbrev len_pos : ℕ
  len_pos = (write_fields (16 is 0 ∷ 8 is 0x02 ∷ []) w).bitpos

  abbrev with_length : BitWriter
  with_length = patch_bits 8 len_pos ((raw.bitpos - (len_pos + 8)) / 8 % 2 ^ 8) raw

  abbrev patched : BitWriter
  patched = patch_bits 16 w.bitpos ((with_length.bitpos - (w.bitpos + 16)) / 8 % 2 ^ 16) with_length

  add_segmentation_descriptor-run :
      chosen_upid ut value ≡ done upid
      → add_segmentation_descriptor dur type_id upid_type value w ≡ done (tt, patched)
  unfolding add_segmentation_descriptor
  add_segmentation_descriptor-run enc = simp (
    write_duration-fields, enc, write_bytes-fields, write_sub_segments-fields, write_fields-append,
  )

  patched-Holds :
      (fs : List Field)
      → Holds w (bits_of fs)
      → Holds patched (bits_of (fs ++ loop_fields dur ut upid st))
  patched-Holds fs h =
      let bits = width-body_fields dur ut upid st in
      let at : w.bitpos ≡ width fs = h.pos ∙ length-bits_of fs in
      let raw_end : raw.bitpos ≡ w.bitpos + width (unpatched dur ut upid st) =
        bitpos-write_fields (unpatched dur ut upid st) w in
      let len_at : len_pos ≡ w.bitpos + 24 = bitpos-write_fields (16 is 0 ∷ 8 is 0x02 ∷ []) w in
      let end : with_length.bitpos ≡ raw.bitpos =
        bitpos-patch_bits 8 len_pos ((raw.bitpos - (len_pos + 8)) / 8 % 2 ^ 8) raw in
      patch_inner-Holds fs [] _ 16 0 _ _ w.bitpos (omega arith) (omega arith) (
        patch_inner-Holds fs (16 is 0 ∷ 8 is 0x02 ∷ []) _ 8 0 _ _ len_pos (omega arith)
          (omega arith) (write_fields-Holds (unpatched dur ut upid st) fs h))

-- The descriptor is written behind what the writer holds, its two lengths patched in.
pub add_segmentation_descriptor-Appends :
    (dur type_id upid_type : Option ℕ) (value : Option Bytes) (upid : Bytes)
    → chosen_upid (unwrap_or upid_type 0x0C) value ≡ done upid
    → Appends
        (add_segmentation_descriptor dur type_id upid_type value)
        (loop_fields dur (unwrap_or upid_type 0x0C) upid (unwrap_or type_id 0x10))
add_segmentation_descriptor-Appends dur ti ut value upid enc fs w h = (
  patched dur ti ut value upid w,
  add_segmentation_descriptor-run dur ti ut value upid w enc,
  patched-Holds dur ti ut value upid w fs h,
)
