-- ===== src/Scte35/Build/Shape.antt =====
-- The shape that all builders share: header, one splice command, the descriptor loop, the CRC.
use rust_pois.Prelude.{
  ℕ, ◌+◌, ◌-◌, ◌*◌, ◌/◌, ◌%◌, ◌^◌, ◌<◌, ◌≡◌, refl, subst, ◌∙◌, List, [], ◌∷◌, ◌++◌, arith, done,
}
use rust_pois.Bits.{Bytes}
use rust_pois.Scte35.Writer.{BitWriter, new, patch_bits, M, ◌>>=◌, ◌>>◌}
use rust_pois.Scte35.Writer.Laws.{Holds, Holds-new}
use rust_pois.Scte35.Fields.{
  Field, Appends, ◌is◌, bits_of, width, write_fields, width-append, length-bits_of,
  bitpos-write_fields, write_fields-Holds, patch_inner-Holds,
}
use rust_pois.Scte35.Build.{section_header, splice_command, finalize_with_crc32, run_builder}
use rust_pois.Scte35.Build.Finalize.{prefix, Section, finalize-Section}

-- The header behind section_length.
abbrev pub common : List Field
common = 8 is 0 ∷ 1 is 0 ∷ 6 is 0 ∷ 33 is 0 ∷ 8 is 0 ∷ 12 is 0x0FFF ∷ []

-- splice_command_length counts the bytes of the command behind its type.
abbrev pub command_fields : ℕ → ℕ → List Field → List Field
command_fields n command_type body = 12 is n ∷ 8 is command_type ∷ body

-- A section whose command has `n` bytes and whose descriptor loop has `k`, its length word included.
abbrev pub section_fields : ℕ → ℕ → List Field → ℕ → List Field → List Field
section_fields n command_type body k descriptors =
    prefix ((15 + n + k) % 2 ^ 16)
    ++ (common ++ (command_fields n command_type body ++ descriptors))

pub Appends-fields :
    (m : M Unit) (gs : List Field)
    → ((w : BitWriter) → m w ≡ done (tt, write_fields gs w))
    → Appends m gs
Appends-fields m gs e fs w h = (write_fields gs w, e w, write_fields-Holds gs fs h)

pub bind-done :
    {A B : Type 0} (m : M A) (f : A → M B) (w w' : BitWriter) (a : A)
    → m w ≡ done (a, w')
    → (m >>= f) w ≡ f a w'
bind-done m f w w' a e = rw (e, ◌>>=◌)

run_builder-done :
    (m : M Bytes) (w : BitWriter) (bytes : Bytes)
    → m new ≡ done (bytes, w)
    → run_builder m ≡ done bytes
run_builder-done m w bytes e = rw (e, run_builder)

header_writer : BitWriter
header_writer = write_fields (prefix 0 ++ common) new

section_header-run : (p : ℕ) × (p ≡ 12) × (section_header new ≡ done (p, header_writer))
unfolding section_header header_writer
section_header-run = (_, bitpos-write_fields (8 is 0xFC ∷ 1 is 0 ∷ 1 is 0 ∷ 2 is 3 ∷ []) new, refl)

header-Holds : Holds header_writer (bits_of (prefix 0 ++ common))
unfolding header_writer
header-Holds = write_fields-Holds (prefix 0 ++ common) [] Holds-new

module _ (command_type n : ℕ) (m : M Unit) (body : List Field)
    (runs : (w : BitWriter) → m w ≡ done (tt, write_fields body w)) (bytes : width body ≡ 8 * n)
    (small : n < 2 ^ 12) where
  splice_command-Appends :
      Appends (splice_command command_type m) (command_fields n command_type body)
  unfolding splice_command
  splice_command-Appends fs w h =
      let start = write_fields (12 is 0 ∷ 8 is command_type ∷ []) w in
      let stop = write_fields body start in
      let len = (stop.bitpos - start.bitpos) / 8 % 2 ^ 16 in
      let len_eq : len ≡ n = omega (arith, bitpos-write_fields body start) in
      (
        patch_bits 12 w.bitpos len stop,
        bind-done m _ start stop tt (runs start),
        patch_inner-Holds fs [] (8 is command_type ∷ body) 12 0 len n w.bitpos
            (omega (arith, h.pos, length-bits_of fs)) len_eq
            (write_fields-Holds (12 is 0 ∷ 8 is command_type ∷ body) fs h),
      )

  module _ (loop : M Unit) (k : ℕ) (descriptors : List Field) (appends : Appends loop descriptors)
      (loop_bytes : width descriptors ≡ 8 * k) where
    abbrev pub builder : M Bytes
    builder = do
      section_length_pos ← section_header
      splice_command command_type m
      loop
      finalize_with_crc32 section_length_pos

    pub builder-Section :
        (bytes : Bytes) × (run_builder builder ≡ done bytes)
        × Section (section_fields n command_type body k descriptors) bytes
    builder-Section =
        let (p, at, e0) = section_header-run in
        let (w1, e1, h1) = splice_command-Appends (prefix 0 ++ common) header_writer header-Holds in
        let (w2, e2, h2) =
          appends (prefix 0 ++ (common ++ command_fields n command_type body)) w1 h1 in
        let rest = common ++ (command_fields n command_type body ++ descriptors) in
        let size : width rest ≡ 8 * (11 + n + k) =
          omega (arith, width-append (command_fields n command_type body) descriptors) in
        let (bytes, w3, e3, s3) = finalize-Section rest (11 + n + k) w2 p at size h2 in
        let run : builder new ≡ done (bytes, w3) =
          bind-done section_header _ new header_writer p e0
          ∙ bind-done (splice_command command_type m) _ header_writer w1 tt e1
          ∙ bind-done loop _ w1 w2 tt e2
          ∙ e3 in
        let len : (11 + n + k + 4) % 2 ^ 16 ≡ (15 + n + k) % 2 ^ 16 = omega arith in
        (
          bytes,
          run_builder-done builder w3 bytes run,
          subst (λ (t : ℕ). Section (prefix t ++ rest) bytes) len s3,
        )
