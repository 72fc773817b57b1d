-- ===== src/Scte35/Fields.antt =====
-- The syntax tables of SCTE-35 as lists of fields, each a width in bits and a value, and what the
-- writer's actions do to such a list.
use rust_pois.Prelude.{
  ℕ, zero, suc, ◌+◌, ◌*◌, ◌/◌, ◌%◌, ◌^◌, ◌≡◌, refl, sym, ap, subst, ◌∙◌, List, [], ◌∷◌, ◌++◌, arith,
  length, append-nil, append_assoc, length-append, done,
}
use rust_pois.Bits.{to_bits, Bytes, unpack}
use rust_pois.Bits.Number.{length-to_bits}
use rust_pois.Scte35.Writer.{BitWriter, M, write_bit, write_bits, patch_u1, patch_bits}
use rust_pois.Scte35.Writer.Laws.{Holds, write_bits-Holds, patch_bits-Holds}

abbrev pub Field : Type 0
Field = ℕ × ℕ

-- A field of `n` bits that holds the value `v`.
infix 68 ◌is◌
abbrev pub ◌is◌ : ℕ → ℕ → Field
n is v = (n, v)

abbrev pub bits_of : List Field → List ℕ
bits_of [] = []
bits_of ((n, v) ∷ fs) = to_bits n v ++ bits_of fs

abbrev pub width : List Field → ℕ
width [] = 0
width ((n, v) ∷ fs) = n + width fs

abbrev pub byte_fields : Bytes → List Field
byte_fields [] = []
byte_fields (b ∷ bs) = 8 is b ∷ byte_fields bs

abbrev pub write_fields : List Field → BitWriter → BitWriter
write_fields [] w = w
write_fields ((n, v) ∷ fs) w = write_fields fs (write_bits v n w)

pub bits_of-append : (fs gs : List Field) → bits_of (fs ++ gs) ≡ bits_of fs ++ bits_of gs
bits_of-append [] gs = refl
bits_of-append ((n, v) ∷ fs) gs =
    ap (λ (l : List ℕ). to_bits n v ++ l) (bits_of-append fs gs)
    ∙ sym (append_assoc (to_bits n v) (bits_of fs) (bits_of gs))

pub length-bits_of : (fs : List Field) → length (bits_of fs) ≡ width fs
length-bits_of [] = refl
length-bits_of ((n, v) ∷ fs) =
    omega (arith, length-append (to_bits n v) (bits_of fs), length-to_bits n v, length-bits_of fs)

pub width-append : (fs gs : List Field) → width (fs ++ gs) ≡ width fs + width gs
width-append [] gs = omega arith
width-append ((n, v) ∷ fs) gs = omega (arith, width-append fs gs)

pub width-byte_fields : (bs : Bytes) → width (byte_fields bs) ≡ 8 * length bs
width-byte_fields [] = refl
width-byte_fields (b ∷ bs) = omega (arith, width-byte_fields bs)

pub bits_of-byte_fields : (bs : Bytes) → bits_of (byte_fields bs) ≡ unpack bs
bits_of-byte_fields [] = refl
bits_of-byte_fields (b ∷ bs) = ap (λ (l : List ℕ). to_bits 8 b ++ l) (bits_of-byte_fields bs)

pub write_fields-append :
    (fs gs : List Field) (w : BitWriter)
    → write_fields (fs ++ gs) w ≡ write_fields gs (write_fields fs w)
write_fields-append [] gs w = refl
write_fields-append ((n, v) ∷ fs) gs w = write_fields-append fs gs (write_bits v n w)

bitpos-write_bits : (v n : ℕ) (w : BitWriter) → (write_bits v n w).bitpos ≡ w.bitpos + n
unfolding write_bits
bitpos-write_bits v zero w = omega arith
bitpos-write_bits v (suc n) w = omega (arith, bitpos-write_bits v n (write_bit w (v / 2 ^ n % 2)))

pub bitpos-write_fields :
    (fs : List Field) (w : BitWriter) → (write_fields fs w).bitpos ≡ w.bitpos + width fs
bitpos-write_fields [] w = omega arith
bitpos-write_fields ((n, v) ∷ fs) w =
    omega (arith, bitpos-write_bits v n w, bitpos-write_fields fs (write_bits v n w))

pub bitpos-patch_bits : (n p v : ℕ) (w : BitWriter) → (patch_bits n p v w).bitpos ≡ w.bitpos
unfolding patch_bits
bitpos-patch_bits zero p v w = refl
bitpos-patch_bits (suc n) p v w =
    bitpos-patch_bits n (p + 1) v (patch_u1 p (v / 2 ^ n % 2) w) ∙ one p (v / 2 ^ n % 2)
  where
    one : (p b : ℕ) → (patch_u1 p b w).bitpos ≡ w.bitpos
    one p b = ground arith

-- Writing fields appends them.
pub write_fields-Holds :
    (gs fs : List Field) {w : BitWriter}
    → Holds w (bits_of fs)
    → Holds (write_fields gs w) (bits_of (fs ++ gs))
write_fields-Holds [] fs h = rw append-nil h
write_fields-Holds ((n, v) ∷ gs) fs {w} h =
    let written : Holds (write_bits v n w) (bits_of (fs ++ (n, v) ∷ [])) =
      rw (bits_of-append fs ((n, v) ∷ []), append-nil) (write_bits-Holds v n h) in
    rw (append_assoc fs ((n, v) ∷ []) gs) at (write_fields-Holds gs (fs ++ (n, v) ∷ []) written)

-- Patching replaces the value of the field at its place.
pub patch_field-Holds :
    (pre post : List Field) (n old v p : ℕ) {w : BitWriter}
    → p ≡ width pre
    → Holds w (bits_of (pre ++ n is old ∷ post))
    → Holds (patch_bits n p v w) (bits_of (pre ++ n is v ∷ post))
patch_field-Holds pre post n old v p e h = rw (bits_of-append pre (n is v ∷ post)) (
    patch_bits-Holds v n p (bits_of pre) (to_bits n old) (bits_of post)
      (e ∙ sym (length-bits_of pre)) (length-to_bits n old)
      (rw (bits_of-append pre (n is old ∷ post)) at h))

-- The same with the fields or the value named otherwise.
pub Holds-eq :
    {w : BitWriter} (fs gs : List Field) → fs ≡ gs → Holds w (bits_of fs) → Holds w (bits_of gs)
Holds-eq {w} fs gs e h = subst (λ (l : List Field). Holds w (bits_of l)) e h

-- Patching a field behind `pre` and `mid`, in the shape that a builder's fields have.
pub patch_inner-Holds :
    (pre mid post : List Field) (n old v v' p : ℕ) {w : BitWriter}
    → p ≡ width pre + width mid
    → v ≡ v'
    → Holds w (bits_of (pre ++ (mid ++ n is old ∷ post)))
    → Holds (patch_bits n p v w) (bits_of (pre ++ (mid ++ n is v' ∷ post)))
patch_inner-Holds pre mid post n old v v' p e ev h =
    Holds-eq ((pre ++ mid) ++ n is v ∷ post) (pre ++ (mid ++ n is v' ∷ post))
      (ap (λ (t : ℕ). (pre ++ mid) ++ n is t ∷ post) ev ∙ append_assoc pre mid (n is v' ∷ post))
      (patch_field-Holds (pre ++ mid) post n old v p (e ∙ sym (width-append pre mid)) (
        Holds-eq (pre ++ (mid ++ n is old ∷ post)) ((pre ++ mid) ++ n is old ∷ post)
          (sym (append_assoc pre mid (n is old ∷ post))) h))

-- `m` runs from `w` and appends `gs` to what the writer holds.
abbrev pub Appends : M Unit → List Field → Type 0
Appends m gs =
    (fs : List Field) (w : BitWriter)
    → Holds w (bits_of fs)
    → (w' : BitWriter) × (m w ≡ done (tt, w')) × Holds w' (bits_of (fs ++ gs))
