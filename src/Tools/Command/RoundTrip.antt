-- ===== src/Tools/Command/RoundTrip.antt =====
-- Decoding the sections that the builders of src/scte35.rs emit.
use rust_pois.Prelude.{
  ℕ, ◌+◌, ◌*◌, ◌%◌, ◌^◌, ◌≤◌, ◌<◌, ◌≡◌, refl, sym, ap, ap₂, subst, ◌∙◌, Bool, true, false, ◌||◌,
  Option, none, some, List, [], ◌∷◌, ◌++◌, arith, length, unwrap_or, ok, append-nil, append_assoc,
}
use rust_pois.Bits.{Bytes, unpack}
use rust_pois.Bits.Stream.{unpack-append}
use rust_pois.Scte35.Crc.{compute_crc32, to_be_bytes}
use rust_pois.Scte35.Fields.{Field, ◌is◌, bits_of, width, bits_of-append}
use rust_pois.Scte35.Build.{
  is_some, build_time_signal_section, build_splice_insert_out_section,
  build_splice_insert_in_section, build_splice_insert_in_with_pts_section,
}
use rust_pois.Scte35.Build.Descriptor.{width-body_fields}
use rust_pois.Scte35.Build.Finalize.{Section, prefix}
use rust_pois.Scte35.Build.Shape.{section_fields, common}
use rust_pois.Scte35.Build.Sections.{
  time_signal_loop_bytes, time_signal_loop-width, time_signal-Emits, splice_insert_out-Emits,
  splice_insert_in-Emits, splice_insert_in_pts-Emits,
}
use rust_pois.Scte35.WellFormed.{length-Section}
use rust_pois.Scte35.WellFormed.Builders.{
  AsciiValue, value_length, Returns, chosen_upid-Encoded, descriptor_length-le,
}
use rust_pois.Tools.Reader.{new, advance, P}
use rust_pois.Tools.Command.{Header, CommandInfo, parse_command_info, read_header, pure, ◌>>=◌}
use rust_pois.Tools.Command.Reads.{
  Reads, Reads-pure, Reads-seq, Reads-then, Reads-u8, Reads-u16, Reads-u64, Reads-flag,
}
use rust_pois.Tools.Command.Builders.{
  out_command, in_command, out-Reads, in-Reads, in_pts-Reads, time_signal-Reads,
}

abbrev pub header_of : ℕ → CommandInfo → Header
header_of t info = record {
  protocol_version = 0;
  encrypted_packet = false;
  pts_adjustment = 0;
  command_type = t;
  command_info = info;
}

-- The header that the builders write, with a command behind it.
header-Reads :
    (len n command_type : ℕ) (body : List Field) (info : CommandInfo)
    → Reads (parse_command_info (command_type % 2 ^ 8 % 2 ^ 8)) body info
    → Reads read_header
        (prefix len ++ (common ++ 12 is n ∷ 8 is command_type ∷ body))
        (header_of (command_type % 2 ^ 8 % 2 ^ 8) info)
unfolding read_header
header-Reads len n t body info h = Reads-then _ (Reads-u8 8 0xFC (omega arith)) (
    Reads-then _ (Reads-u8 1 0 (omega arith)) (
      Reads-then _ (Reads-u8 1 0 (omega arith)) (
        Reads-then _ (Reads-u8 2 3 (omega arith)) (
          Reads-then _ (Reads-u16 12 len (omega arith)) (
            Reads-then _ (Reads-u8 8 0 (omega arith)) (
              Reads-then _ (Reads-flag 0) (
                Reads-then _ (Reads-u8 6 0 (omega arith)) (
                  Reads-then _ (Reads-u64 33 0 (omega arith)) (
                    Reads-then _ (Reads-u8 8 0 (omega arith)) (
                      Reads-then _ (Reads-u16 12 0x0FFF (omega arith)) (
                        Reads-then _ (Reads-u16 12 n (omega arith))
                          (Reads-then _ (Reads-u8 8 t (omega arith)) (end_of _ body h)))))))))))))
  where
    end_of :
        {A B : Type 0} {m : P A} {a : A} (f : A → B) (fs : List Field)
        → Reads m fs a
        → Reads (m >>= λ x. pure (f x)) fs (f a)
    end_of {m = m} {a = a} f fs h =
        subst (λ (gs : List Field). Reads (m >>= λ x. pure (f x)) gs (f a)) (append-nil fs)
          (Reads-seq _ fs h (Reads-pure _))

-- Decoding the header and the command of `bytes` gives these, and stops at the descriptor loop.
abbrev pub Decodes : ℕ → CommandInfo → ℕ → Bytes → Type 0
Decodes t info n bytes =
    read_header (new bytes) ≡ (ok (header_of t info), advance (112 + 8 * n) (new bytes))

Section-Decodes :
    (n t k : ℕ) (body descriptors : List Field) (info : CommandInfo) {bytes : Bytes}
    → width body ≡ 8 * n
    → 8 * length bytes < 2 ^ 64
    → t % 2 ^ 8 % 2 ^ 8 ≡ t
    → Reads (parse_command_info t) body info
    → Section (section_fields n t body k descriptors) bytes
    → Decodes t info n bytes
Section-Decodes n t k body descriptors info {bytes} wb room small h s =
    let before = prefix ((15 + n + k) % 2 ^ 16) ++ (common ++ 12 is n ∷ 8 is t ∷ body) in
    let crc = unpack (to_be_bytes (compute_crc32 s.content)) in
    let bits : unpack bytes ≡ bits_of before ++ (bits_of descriptors ++ crc) =
      ap unpack s.closed
      ∙ unpack-append s.content (to_be_bytes (compute_crc32 s.content))
      ∙ ap (λ (l : List ℕ). l ++ crc) (s.bits ∙ bits_of-append before descriptors)
      ∙ append_assoc (bits_of before) (bits_of descriptors) crc in
    let wide : width before ≡ 112 + 8 * n = omega (arith, wb) in
    let h' = subst (λ (t' : ℕ). Reads (parse_command_info t') body info) (sym small) h in
    (header-Reads ((15 + n + k) % 2 ^ 16) n t body info h').run (new bytes)
      (bits_of descriptors ++ crc) room bits
    ∙ ap₂ (λ (t' w : ℕ). (ok (header_of t' info), advance w (new bytes))) small wide

loop_bytes-le :
    (b : Bool) (upid : Bytes) (st : ℕ) → time_signal_loop_bytes b upid st ≤ 26 + length upid
loop_bytes-le false upid st = omega arith
loop_bytes-le true upid st = omega (arith, descriptor_length-le none upid st)

-- For an ASCII UPID of up to 4000 bytes, decoding what each builder returns gives the command that the
-- builder means, the duration and the PTS cut to 33 bits, and stops at the descriptor loop.
pub builders-Decode :
    (duration_s pts : ℕ) (type_id upid_type : Option ℕ) (value : Option Bytes)
    → AsciiValue value
    → value_length value ≤ 4000
    → Returns
        (Decodes 0x06 (CommandInfo.time_signal none) 1)
        (build_time_signal_section type_id upid_type value)
      × Returns
          (Decodes 0x05 (out_command duration_s) 15)
          (build_splice_insert_out_section duration_s type_id upid_type value)
      × Returns (Decodes 0x05 (in_command true none) 10) build_splice_insert_in_section
      × Returns
          (Decodes 0x05 (in_command false (some (pts % 2 ^ 33))) 15)
          (build_splice_insert_in_with_pts_section pts)
builders-Decode d pts ti ut value ascii short =
    let e = chosen_upid-Encoded (unwrap_or ut 0x0C) value ascii in
    let b = is_some ti || is_some ut in
    let ty = unwrap_or ut 0x0C in
    let st = unwrap_or ti 0x10 in
    let (b₁, r₁, s₁) = time_signal-Emits ti ut value e.bytes e.result in
    let (b₂, r₂, s₂) = splice_insert_out-Emits d ti ut value e.bytes e.result in
    let (b₃, r₃, s₃) = splice_insert_in-Emits in
    let (b₄, r₄, s₄) = splice_insert_in_pts-Emits pts in
    let few₁ : 8 * length b₁ < 2 ^ 64 = omega (
      arith,
      length-Section _ s₁,
      time_signal_loop-width b ty e.bytes st,
      loop_bytes-le b e.bytes st,
      e.short,
    ) in
    let few₂ : 8 * length b₂ < 2 ^ 64 = omega (
      arith,
      length-Section _ s₂,
      width-body_fields (some (d * 90000)) ty e.bytes st,
      descriptor_length-le (some (d * 90000)) e.bytes st,
      e.short,
    ) in
    let few₃ : 8 * length b₃ < 2 ^ 64 = omega (arith, length-Section _ s₃) in
    let few₄ : 8 * length b₄ < 2 ^ 64 = omega (arith, length-Section _ s₄) in
    (
      (b₁, r₁, Section-Decodes 1 6 _ _ _ _ refl few₁ refl time_signal-Reads s₁),
      (b₂, r₂, Section-Decodes 15 5 _ _ _ _ refl few₂ refl (out-Reads d) s₂),
      (b₃, r₃, Section-Decodes 10 5 2 _ (16 is 0 ∷ []) _ refl few₃ refl in-Reads s₃),
      (b₄, r₄, Section-Decodes 15 5 2 _ (16 is 0 ∷ []) _ refl few₄ refl (in_pts-Reads pts) s₄),
    )
