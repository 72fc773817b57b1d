-- ===== src/Bits.antt =====
-- The bits of numbers and of bytes, most significant first. The section writer and the readers of
-- src/scte35.rs and src/tools_api.rs are described by the list of bits that a byte buffer holds.
mod Tables
pub mod Stream
pub mod Number
pub mod Words
use rust_pois.Prelude.{ℕ, zero, suc, ◌+◌, ◌*◌, ◌/◌, ◌%◌, ◌^◌, ◌<◌, List, [], ◌∷◌, ◌++◌, All}

-- The low `n` bits of `v`.
abbrev pub to_bits : ℕ → ℕ → List ℕ
to_bits zero v = []
to_bits (suc n) v = (v / 2 ^ n) % 2 ∷ to_bits n v

-- The number that a list of bits stands for, after the bits read so far.
abbrev pub from_bits : ℕ → List ℕ → ℕ
from_bits acc [] = acc
from_bits acc (b ∷ bs) = from_bits (acc * 2 + b) bs

-- The bits of a buffer.
abbrev pub unpack : List ℕ → List ℕ
unpack [] = []
unpack (x ∷ xs) = to_bits 8 x ++ unpack xs

abbrev pub IsByte : ℕ → Type 0
IsByte x = x < 256

abbrev pub IsBit : ℕ → Type 0
IsBit b = b < 2

abbrev pub Bytes : Type 0
Bytes = List ℕ

abbrev pub AreBytes : Bytes → Type 0
AreBytes = All IsByte
