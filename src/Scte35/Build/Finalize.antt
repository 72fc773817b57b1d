-- ===== src/Scte35/Build/Finalize.antt =====
-- `finalize_with_crc32`: the length of the section and its CRC.
use rust_pois.Prelude.{
  ℕ, zero, suc, ◌+◌, ◌-◌, ◌*◌, ◌/◌, ◌%◌, ◌^◌, ◌≤◌, ◌≡◌, refl, sym, ap, ◌∙◌, List, [], ◌∷◌, ◌++◌,
  arith, length, replicate, append-nil, All-append, Bool-cases, inl, inr, ◌==◌, done,
}
use rust_pois.Bits.{Bytes, AreBytes, IsByte, to_bits, unpack}
use rust_pois.Bits.Stream.{unpack-append, unpack-injective}
use rust_pois.Scte35.Writer.{BitWriter, write_bits, patch_bits}
use rust_pois.Scte35.Writer.Laws.{Holds, size, write_bits-Holds}
use rust_pois.Scte35.Crc.{compute_crc32, to_be_bytes}
use rust_pois.Scte35.Fields.{
  Field, ◌is◌, bits_of, width, length-bits_of, bitpos-write_fields, bitpos-patch_bits,
  patch_inner-Holds,
}
use rust_pois.Scte35.Build.{align, finalize_with_crc32}

-- The bytes are those of the fields, and their CRC-32 behind them.
pub record Section (fs : List Field) (bytes : Bytes) : Type 0 where
  pub content : Bytes
  pub bits : unpack content ≡ bits_of fs
  pub are_bytes : AreBytes content
  pub closed : bytes ≡ content ++ to_be_bytes (compute_crc32 content)

align_rounds :
    (fuel : ℕ) (w : BitWriter) → (8 - w.bitpos % 8) % 8 ≤ fuel → (align fuel w).bitpos % 8 ≡ 0
unfolding align
align_rounds zero w h = omega arith
align_rounds (suc fuel) w h = elim (Bool-cases (w.bitpos % 8 == 0)) [
  | inl e ↦ rw e (ground arith)
  | inr e ↦
      rw e
        (align_rounds fuel (write_bits 1 1 w) (ground (arith, bitpos-write_fields (1 is 1 ∷ []) w)))
]

-- The padding loop of `finalize_with_crc32` stops at a whole byte, from any state of the writer, within
-- the seven rounds that the model gives it.
pub align-aligned : (w : BitWriter) → (align 7 w).bitpos % 8 ≡ 0
align-aligned w = align_rounds 7 w (omega arith)

pub align-id : (w : BitWriter) → w.bitpos % 8 ≡ 0 → align 7 w ≡ w
unfolding align
align-id w h = ground arith

-- At a whole byte the buffer holds the bits and no padding.
exact : {w : BitWriter} {bs : List ℕ} → Holds w bs → w.bitpos % 8 ≡ 0 → unpack w.bytes ≡ bs
exact {w} {bs} h e =
    let none_left : h.pad ≡ 0 = omega (arith, size h, h.pad_small) in
    h.content ∙ ap (λ (n : ℕ). bs ++ replicate n 0) none_left ∙ append-nil bs

-- Equal digits give equal lists of eight.
eight_digits :
    (x : ℕ) (rest : List ℕ) {y₇ y₆ y₅ y₄ y₃ y₂ y₁ y₀ : ℕ} {rest' : List ℕ}
    → (x / 128 % 2 ≡ y₇)
      × (x / 64 % 2 ≡ y₆)
      × (x / 32 % 2 ≡ y₅)
      × (x / 16 % 2 ≡ y₄)
      × (x / 8 % 2 ≡ y₃)
      × (x / 4 % 2 ≡ y₂)
      × (x / 2 % 2 ≡ y₁)
      × (x / 1 % 2 ≡ y₀)
    → rest ≡ rest'
    → to_bits 8 x ++ rest ≡ y₇ ∷ y₆ ∷ y₅ ∷ y₄ ∷ y₃ ∷ y₂ ∷ y₁ ∷ y₀ ∷ rest'
eight_digits x rest h e = cc

unpack-to_be_bytes : (c : ℕ) → unpack (to_be_bytes c) ≡ to_bits 32 c
unpack-to_be_bytes c = eight_digits (c / 2 ^ 24 % 256) _ (omega arith) (
    eight_digits (c / 2 ^ 16 % 256) _ (omega arith) (
      eight_digits (c / 2 ^ 8 % 256) _ (omega arith)
        (eight_digits (c % 256) [] (omega arith) refl)))

pub to_be_bytes-AreBytes : (c : ℕ) → AreBytes (to_be_bytes c)
to_be_bytes-AreBytes c = omega arith

-- Appending the CRC's 32 bits appends its bytes.
append_crc :
    (w : BitWriter) (crc : ℕ) {bs : List ℕ}
    → Holds w bs
    → w.bitpos % 8 ≡ 0
    → (write_bits crc 32 w).bytes ≡ w.bytes ++ to_be_bytes crc
append_crc w crc {bs} h e =
    let h' = write_bits-Holds crc 32 h in
    let e' : (write_bits crc 32 w).bitpos % 8 ≡ 0 =
      omega (arith, bitpos-write_fields (32 is crc ∷ []) w) in
    unpack-injective _ _ h'.are_bytes
      (All-append IsByte w.bytes (to_be_bytes crc) h.are_bytes (to_be_bytes-AreBytes crc))
      (exact h' e'
        ∙ ap (λ (l : List ℕ). l ++ to_bits 32 crc) (sym (exact h e))
        ∙ ap (λ (l : List ℕ). unpack w.bytes ++ l) (sym (unpack-to_be_bytes crc))
        ∙ sym (unpack-append w.bytes (to_be_bytes crc)))

-- The first fields of every section, up to its length.
abbrev pub prefix : ℕ → List Field
prefix section_length = 8 is 0xFC ∷ 1 is 0 ∷ 1 is 0 ∷ 2 is 3 ∷ 12 is section_length ∷ []

module _ (rest : List Field) (k : ℕ) (w : BitWriter) where
  abbrev patched : BitWriter
  patched = patch_bits 12 12 ((k + 4) % 2 ^ 16) w

  finalize-run :
      (pos : ℕ)
      → pos ≡ 12
      → w.bitpos % 8 ≡ 0
      → length w.bytes ≡ 3 + k
      → finalize_with_crc32 pos w
        ≡ done (
          (write_bits (compute_crc32 patched.bytes) 32 patched).bytes,
          write_bits (compute_crc32 patched.bytes) 32 patched,
        )
  unfolding finalize_with_crc32
  finalize-run pos p e len =
      let section : (length w.bytes - (12 + 12) / 8) + 4 ≡ k + 4 = omega arith in
      simp (align-id w e, p, section)

  -- A whole number of bytes behind the header is closed by its length and its CRC.
  pub finalize-Section :
      (pos : ℕ)
      → pos ≡ 12
      → width rest ≡ 8 * k
      → Holds w (bits_of (prefix 0 ++ rest))
      → (bytes : Bytes) × (w' : BitWriter) × (finalize_with_crc32 pos w ≡ done (bytes, w'))
        × Section (prefix ((k + 4) % 2 ^ 16) ++ rest) bytes
  finalize-Section pos p e h =
      let at : w.bitpos ≡ 24 + 8 * k = omega (arith, h.pos, length-bits_of (prefix 0 ++ rest)) in
      let len : length w.bytes ≡ 3 + k = omega (arith, size h, h.pad_small) in
      let h' =
        patch_inner-Holds (8 is 0xFC ∷ 1 is 0 ∷ 1 is 0 ∷ 2 is 3 ∷ []) [] rest 12 0
          ((k + 4) % 2 ^ 16) _ 12 refl refl h in
      let aligned : patched.bitpos % 8 ≡ 0 =
        omega (arith, bitpos-patch_bits 12 12 ((k + 4) % 2 ^ 16) w) in
      (
        _,
        _,
        finalize-run pos p (omega arith) len,
        record {
          content = patched.bytes;
          bits = exact h' aligned;
          are_bytes = h'.are_bytes;
          closed = append_crc patched (compute_crc32 patched.bytes) h' aligned;
        },
      )
