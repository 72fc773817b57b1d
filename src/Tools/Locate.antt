-- ===== src/Tools/Locate.antt =====
-- src/tools_api.rs: where the descriptor loop, the break duration and a segmentation duration stand.
-- An index that a guard keeps inside the buffer is read by `get_or`.
pub mod Bounds
pub mod Inside
use rust_pois.Prelude.{
  ℕ, ◌+◌, ◌-◌, ◌*◌, ◌/◌, ◌%◌, ◌^◌, Bool, true, false, not, ◌&&◌, ◌||◌, Option, none, some, List, [],
  ◌∷◌, length, get_or, get_elem?, bind_option, ltb, ◌==◌, ◌!=◌, if◌then◌else◌, Result, ok, err,
  zero, suc,
}
use rust_pois.Bits.{Bytes}
use rust_pois.Tools.Reader.{BitReader, P, new, read_u8, read_u16, read_u32, read_u64, skip_bits}
use rust_pois.Tools.Command.{◌>>=◌, ◌>>◌, pure, read_flag, read_header}

pub record DescriptorLoop : Type 0 where
  pub dlw_off : ℕ
  pub loop_start : ℕ
  pub loop_end : ℕ

-- Too short, another table, or encrypted.
abbrev pub is_refused : Bytes → Bool
is_refused bytes =
    ltb (length bytes) 15 || get_or bytes 0 0 != 0xFC || get_or bytes 4 0 / 2 ^ 7 % 2 != 0

-- `u16::from_be_bytes`
abbrev pub word_at : Bytes → ℕ → ℕ
word_at bytes i = get_or bytes i 0 * 2 ^ 8 + get_or bytes (i + 1) 0

-- From the descriptor loop's length word at `dlw_off`; `& 0x03FF` is the remainder by 1024.
unfoldable pub loop_at : Bytes → ℕ → Option DescriptorLoop
loop_at bytes dlw_off =
    let loop_end = dlw_off + 2 + word_at bytes dlw_off % 2 ^ 10 in
    if ltb (length bytes) (dlw_off + 2)
    then none
    else if ltb (length bytes) (loop_end + 4)
    then none
    else some (record { dlw_off = dlw_off; loop_start = dlw_off + 2; loop_end = loop_end })

-- A place that ends a whole byte.
abbrev pub whole_byte {ℓ κ} :
    {A : Type ℓ} {E : Type ℓ} {B : Type κ} → Result E A × BitReader → (ℕ → Option B) → Option B
whole_byte (err e, r) f = none
whole_byte (ok a, r) f = if r.bitpos % 8 != 0 then none else f (r.bitpos / 8)

unfoldable pub locate_descriptor_loop : Bytes → Option DescriptorLoop
unfolding loop_at
locate_descriptor_loop bytes =
    if is_refused bytes then none else whole_byte (read_header (new bytes)) (loop_at bytes)

unfoldable pub skip_splice_time : P Unit
skip_splice_time = do
  time_specified ← read_flag
  (if time_specified then (do skip_bits 6; read_u64 33; pure tt) else skip_bits 7)

unfoldable pub skip_components : Bool → ℕ → P Unit
unfolding skip_splice_time
skip_components immediate zero = pure tt
skip_components immediate (suc n) = do
  read_u8 8
  (if immediate then pure tt else skip_splice_time)
  skip_components immediate n

-- From the event id of a splice_insert to its break duration: false where there is none.
unfoldable pub skip_to_break : P Bool
unfolding skip_splice_time skip_components
skip_to_break = do
  read_u32 32
  cancel ← read_flag
  skip_bits 7
  (if cancel then pure false else (do
    read_u8 1
    program_splice ← read_flag
    duration_flag ← read_flag
    splice_immediate ← read_flag
    skip_bits 4
    (if not duration_flag then pure false else (do
      (if program_splice && not splice_immediate
          then skip_splice_time
          else if not program_splice
          then (do cc ← read_u8 8; skip_components splice_immediate cc)
          else pure tt)
      pure true))))

-- The header to the command type, and what a splice_insert has before its break duration.
unfoldable pub seek_break_duration : P Bool
seek_break_duration = do
  read_u8 8
  read_u8 1
  read_u8 1
  read_u8 2
  read_u16 12
  read_u8 8
  read_u8 1
  read_u8 6
  read_u64 33
  read_u8 8
  read_u16 12
  read_u16 12
  command_type ← read_u8 8
  (if command_type != 0x05 then pure false else skip_to_break)

abbrev pub found_break : {E : Type 0} → Result E Bool × BitReader → Option ℕ
found_break (err e, r) = none
found_break (ok false, r) = none
found_break (ok true, r) = if r.bitpos % 8 != 0 then none else some (r.bitpos / 8)

unfoldable pub locate_break_duration : Bytes → Option ℕ
locate_break_duration bytes =
    if is_refused bytes then none else found_break (seek_break_duration (new bytes))

-- Behind the components, of six bytes each, where the segmentation is by component.
abbrev pub after_components : Bytes → Bool → Option ℕ
after_components body program_segmentation_flag =
    if program_segmentation_flag
    then some 10
    else bind_option (get_elem? body 10) (λ cc. some (11 + cc * 6))

unfoldable pub seg_duration_offset : Bytes → Option ℕ
seg_duration_offset body =
    let flags = get_or body 9 0 in
    if ltb (length body) 10 || get_or body 8 0 / 2 ^ 7 % 2 != 0
    then none
    else if flags / 2 ^ 6 % 2 == 0
    then none
    else bind_option (after_components body (flags / 2 ^ 7 % 2 != 0))
        (λ idx. if ltb (length body) (idx + 5) then none else some idx)
