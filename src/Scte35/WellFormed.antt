-- ===== src/Scte35/WellFormed.antt =====
-- What a spec-strict receiver reads from a section: the fixed header, the two lengths that delimit
-- the command and the descriptor loop, and the CRC.
pub mod Builders
pub mod Limits
use rust_pois.Prelude.{
  ℕ, zero, suc, ◌+◌, ◌-◌, ◌*◌, ◌/◌, ◌%◌, ◌^◌, ◌≤◌, ◌<◌, ◌≡◌, refl, sym, ap, ◌∙◌, List, [], ◌∷◌,
  ◌++◌, arith, length, take, drop, append_assoc, length-append, take-length, drop-length, Run, done,
}
use rust_pois.Bits.{Bytes, to_bits, from_bits, unpack}
use rust_pois.Bits.Number.{length-to_bits, from_bits-to_bits_zero}
use rust_pois.Bits.Stream.{unpack-append, length-unpack}
use rust_pois.Scte35.Crc.{compute_crc32, to_be_bytes}
use rust_pois.Scte35.Crc.Residue.{compute_crc32-residue}
use rust_pois.Scte35.Fields.{
  Field, ◌is◌, bits_of, width, bits_of-append, length-bits_of, width-append,
}
use rust_pois.Scte35.Build.Finalize.{Section, prefix}
use rust_pois.Scte35.Build.Shape.{section_fields, common, command_fields}

-- The number in the `n` bits from bit `pos` on.
abbrev pub field_at : Bytes → ℕ → ℕ → ℕ
field_at bytes pos n = from_bits 0 (take n (drop pos (unpack bytes)))

-- Bytes delimited as SCTE-35 has it, with a command of `scl` bytes behind its type.
pub record WellFormed (command_type scl : ℕ) (bytes : Bytes) : Type 0 where
  pub table_id : field_at bytes 0 8 ≡ 0xFC
  pub section_length : field_at bytes 12 12 + 3 ≡ length bytes
  pub splice_command_length : field_at bytes 92 12 ≡ scl
  pub splice_command_type : field_at bytes 104 8 ≡ command_type
  pub descriptor_loop_length : 14 + scl + 2 + field_at bytes (112 + 8 * scl) 16 + 4 ≡ length bytes
  pub remainder : compute_crc32 bytes ≡ 0

-- A field of a section reads back as written.
pub field_at-Section :
    (pre post : List Field) (n v : ℕ) {bytes : Bytes}
    → Section (pre ++ n is v ∷ post) bytes
    → field_at bytes (width pre) n ≡ v % 2 ^ n
field_at-Section pre post n v {bytes} s =
    let crc = unpack (to_be_bytes (compute_crc32 s.content)) in
    let tail = bits_of post ++ crc in
    let bits : unpack bytes ≡ bits_of pre ++ (to_bits n v ++ tail) =
      ap unpack s.closed
      ∙ unpack-append s.content (to_be_bytes (compute_crc32 s.content))
      ∙ ap (λ (l : List ℕ). l ++ crc) (s.bits ∙ bits_of-append pre (n is v ∷ post))
      ∙ append_assoc (bits_of pre) (to_bits n v ++ bits_of post) crc
      ∙ ap (λ (l : List ℕ). bits_of pre ++ l) (append_assoc (to_bits n v) (bits_of post) crc) in
    ap (λ (l : List ℕ). from_bits 0 (take n (drop (width pre) l))) bits
    ∙ ap (λ (l : List ℕ). from_bits 0 (take n l))
        (drop-length (bits_of pre) (to_bits n v ++ tail) (width pre) (length-bits_of pre))
    ∙ ap (λ (l : List ℕ). from_bits 0 l) (take-length (to_bits n v) tail n (length-to_bits n v))
    ∙ from_bits-to_bits_zero n v

-- A section has the bytes of its fields and four more.
pub length-Section :
    (fs : List Field) {bytes : Bytes} → Section fs bytes → 8 * length bytes ≡ width fs + 32
length-Section fs {bytes} s =
    let crc = to_be_bytes (compute_crc32 s.content) in
    omega (
      arith,
      ap (λ (l : Bytes). length l) s.closed,
      length-append s.content crc,
      length-unpack s.content,
      ap (λ (l : List ℕ). length l) s.bits,
      length-bits_of fs,
    )

-- What the builders emit is well-formed while its length fits the 12 bits of section_length.
pub Section-WellFormed :
    (n command_type k loop : ℕ) (body descriptors : List Field) {bytes : Bytes}
    → width body ≡ 8 * n
    → command_type < 256
    → k ≡ 2 + loop
    → width descriptors ≡ 8 * loop
    → 15 + n + k < 2 ^ 12
    → Section (section_fields n command_type body k (16 is loop ∷ descriptors)) bytes
    → WellFormed command_type n bytes
Section-WellFormed n t k loop body descriptors {bytes} wb ht hk wd fits s =
    let before = prefix ((15 + n + k) % 2 ^ 16) ++ (common ++ command_fields n t body) in
    let total : 8 * length bytes ≡ width body + width descriptors + 160 = omega (
      arith,
      length-Section (section_fields n t body k (16 is loop ∷ descriptors)) s,
      width-append body (16 is loop ∷ descriptors),
    ) in
    let before_at : 112 + 8 * n ≡ width before = omega (arith, wb) in
    let section_len =
      field_at-Section (8 is 0xFC ∷ 1 is 0 ∷ 1 is 0 ∷ 2 is 3 ∷ []) _ 12 ((15 + n + k) % 2 ^ 16) s in
    let loop_len : field_at bytes (112 + 8 * n) 16 ≡ loop % 2 ^ 16 =
      ap (λ (p : ℕ). field_at bytes p 16) before_at
      ∙ field_at-Section before descriptors 16 loop s in
    record {
      table_id = field_at-Section [] _ 8 0xFC s;
      section_length = omega (arith, section_len);
      splice_command_length =
          field_at-Section (prefix ((15 + n + k) % 2 ^ 16) ++ common) _ 12 n s ∙ omega arith;
      splice_command_type =
          field_at-Section (prefix ((15 + n + k) % 2 ^ 16) ++ (common ++ 12 is n ∷ [])) _ 8 t s
          ∙ omega arith;
      descriptor_loop_length = omega (arith, loop_len);
      remainder = ap compute_crc32 s.closed ∙ compute_crc32-residue s.content;
    }
