-- ===== src/Scte35/Crc.antt =====
-- src/scte35.rs, `compute_crc32`: the CRC-32 that closes a section.
pub mod Residue
use rust_pois.Prelude.{
  ℕ, zero, suc, ◌+◌, ◌*◌, ◌/◌, ◌%◌, ◌^◌, bit_and, bit_xor, List, [], ◌∷◌, ◌!=◌, if◌then◌else◌,
}
use rust_pois.Bits.{Bytes}

-- One round of the inner loop; `<<` drops what leaves the 32 bits.
unfoldable pub crc_round : ℕ → ℕ
crc_round crc =
    if bit_and crc 0x80000000 != 0 then bit_xor (crc * 2 % 2 ^ 32) 0x04C11DB7 else crc * 2 % 2 ^ 32

unfoldable pub crc_rounds : ℕ → ℕ → ℕ
unfolding crc_round
crc_rounds zero crc = crc
crc_rounds (suc n) crc = crc_rounds n (crc_round crc)

unfoldable pub crc_byte : ℕ → ℕ → ℕ
unfolding crc_rounds
crc_byte crc byte = crc_rounds 8 (bit_xor crc (byte * 2 ^ 24))

-- The loop over the bytes.
unfoldable pub crc_bytes : ℕ → Bytes → ℕ
unfolding crc_byte
crc_bytes crc [] = crc
crc_bytes crc (byte ∷ data') = crc_bytes (crc_byte crc byte) data'

unfoldable pub compute_crc32 : Bytes → ℕ
unfolding crc_bytes
compute_crc32 bytes = crc_bytes 0xFFFFFFFF bytes

-- `u32::to_be_bytes`
abbrev pub to_be_bytes : ℕ → Bytes
to_be_bytes v = v / 2 ^ 24 % 256 ∷ v / 2 ^ 16 % 256 ∷ v / 2 ^ 8 % 256 ∷ v % 256 ∷ []
