-- ===== src/Tools/Reader.antt =====
-- src/tools_api.rs, `BitReader`: reading a buffer bit by bit. A method is an action on the reader; a
-- failed one leaves the reader where it stopped.
pub mod Laws
pub mod Consumes
pub mod Inside
use Prim.Native.String.{String}
use rust_pois.Prelude.{
  ℕ, zero, suc, ◌+◌, ◌-◌, ◌*◌, ◌/◌, ◌%◌, ◌^◌, Bool, length, get_or, leb, ltb, if◌then◌else◌, Result,
  ok, err,
}
use rust_pois.Bits.{Bytes}

pub record BitReader : Type 0 where
  pub source : Bytes
  pub bitpos : ℕ

abbrev pub new : Bytes → BitReader
new bytes = record { source = bytes; bitpos = 0 }

abbrev pub P : Type 0 → Type 0
P A = BitReader → Result String A × BitReader

abbrev pub advance : ℕ → BitReader → BitReader
advance n r = record r { bitpos = r.bitpos + n }

-- The loop of `read_bits`, with `n` rounds left; the new bit is or-ed into an even number.
unfoldable pub read_rounds : ℕ → ℕ → P ℕ
read_rounds zero v r = (ok v, r)
read_rounds (suc n) v r =
    let idx = r.bitpos / 8 in
    let byte = get_or r.source idx 0 in
    let next = read_rounds n (v * 2 % 2 ^ 64 + byte / 2 ^ (7 - r.bitpos % 8) % 2) (advance 1 r) in
    if leb (length r.source) idx then (err "out of bounds", r) else next

unfoldable pub read_bits : ℕ → P ℕ
unfolding read_rounds
read_bits nbits = read_rounds nbits 0

-- The reader's `as u8`, `as u16` and `as u32`.
abbrev pub narrow : ℕ → Result String ℕ × BitReader → Result String ℕ × BitReader
narrow w (ok v, r) = (ok (v % 2 ^ w), r)
narrow w (err e, r) = (err e, r)

unfoldable pub read_u8 : ℕ → P ℕ
read_u8 nbits r = narrow 8 (read_bits nbits r)

unfoldable pub read_u16 : ℕ → P ℕ
read_u16 nbits r = narrow 16 (read_bits nbits r)

unfoldable pub read_u32 : ℕ → P ℕ
read_u32 nbits r = narrow 32 (read_bits nbits r)

unfoldable pub read_u64 : ℕ → P ℕ
read_u64 nbits = read_bits nbits

-- A sum that leaves `usize` is an error that leaves the reader unchanged.
unfoldable pub skip_bits : ℕ → P Unit
skip_bits nbits r =
    if leb (2 ^ 64) (r.bitpos + nbits)
    then (err "overflow", r)
    else if ltb (length r.source) ((r.bitpos + nbits) / 8)
    then (err "out of bounds", advance nbits r)
    else (ok tt, advance nbits r)
