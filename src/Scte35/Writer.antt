-- ===== src/Scte35/Writer.antt =====
-- src/scte35.rs, `BitWriter`: a byte buffer that is filled bit by bit and patched in place. A method
-- is an action on the writer; `panics` is a Rust panic in what it calls.
pub mod Laws
use rust_pois.Prelude.{
  ℕ, zero, suc, ◌+◌, ◌-◌, ◌/◌, ◌%◌, ◌^◌, Option, none, some, List, [], ◌∷◌, ◌++◌, length, leb, ltb,
  if◌then◌else◌, Run, done, panics,
}
use rust_pois.Bits.{Bytes}
use rust_pois.Bits.Stream.{or_bit, put_bit}

pub record BitWriter : Type 0 where
  pub bytes : Bytes
  pub bitpos : ℕ

abbrev pub new : BitWriter
new = record { bytes = []; bitpos = 0 }

-- One round of the loop of `write_bits`.
unfoldable pub write_bit : BitWriter → ℕ → BitWriter
write_bit w bit =
    let grown = if leb (length w.bytes) (w.bitpos / 8) then w.bytes ++ 0 ∷ [] else w.bytes in
    record { bytes = or_bit grown w.bitpos bit; bitpos = w.bitpos + 1 }

-- The bits of `val` from place `nbits - 1` down to 0.
unfoldable pub write_bits : ℕ → ℕ → BitWriter → BitWriter
unfolding write_bit
write_bits val zero w = w
write_bits val (suc i) w = write_bits val i (write_bit w (val / 2 ^ i % 2))

unfoldable pub patch_u1 : ℕ → ℕ → BitWriter → BitWriter
patch_u1 bitpos val w =
    if ltb (bitpos / 8) (length w.bytes)
    then record w { bytes = put_bit w.bytes bitpos (val % 2) }
    else w

-- The loop of `patch_u8`, `patch_u12` and `patch_u16`, with `n` rounds left.
unfoldable pub patch_bits : ℕ → ℕ → ℕ → BitWriter → BitWriter
unfolding patch_u1
patch_bits zero bitpos val w = w
patch_bits (suc n) bitpos val w =
    patch_bits n (bitpos + 1) val (patch_u1 bitpos (val / 2 ^ n % 2) w)

-- Actions on the writer.
abbrev pub M : Type 0 → Type 0
M A = BitWriter → Run (A × BitWriter)

infixl 5 ◌>>=◌ ◌>>◌
abbrev pub ◌>>=◌ : {A B : Type 0} → M A → (A → M B) → M B
◌>>=◌ m f w = elim (m w) [ done (a, w') ↦ f a w' | panics ↦ panics ]

abbrev pub ◌>>◌ : {B : Type 0} → M Unit → M B → M B
m >> k = m >>= λ _. k

abbrev pub act : (BitWriter → BitWriter) → M Unit
act f w = done (tt, f w)

abbrev pub gets : {A : Type 0} → (BitWriter → A) → M A
gets f w = done (f w, w)

abbrev pub lift : {A : Type 0} → Run A → M A
lift r w = elim r [ done a ↦ done (a, w) | panics ↦ panics ]

abbrev pub u1 : ℕ → M Unit
u1 v = act (write_bits v 1)

abbrev pub u2 : ℕ → M Unit
u2 v = act (write_bits v 2)

abbrev pub u4 : ℕ → M Unit
u4 v = act (write_bits v 4)

abbrev pub u5 : ℕ → M Unit
u5 v = act (write_bits v 5)

abbrev pub u6 : ℕ → M Unit
u6 v = act (write_bits v 6)

abbrev pub u7 : ℕ → M Unit
u7 v = act (write_bits v 7)

abbrev pub u8 : ℕ → M Unit
u8 v = act (write_bits v 8)

abbrev pub u12 : ℕ → M Unit
u12 v = act (write_bits v 12)

abbrev pub u16 : ℕ → M Unit
u16 v = act (write_bits v 16)

abbrev pub u32 : ℕ → M Unit
u32 v = act (write_bits v 32)

abbrev pub u33 : ℕ → M Unit
u33 v = act (write_bits v 33)

abbrev pub u40 : ℕ → M Unit
u40 v = act (write_bits v 40)

abbrev pub bitpos : M ℕ
bitpos = gets (λ w. w.bitpos)

abbrev pub reserve_u8 : M ℕ
reserve_u8 = do pos ← bitpos; u8 0; gets (λ _. pos)

abbrev pub reserve_u12 : M ℕ
reserve_u12 = do pos ← bitpos; u12 0; gets (λ _. pos)

abbrev pub patch_u8 : ℕ → ℕ → M Unit
patch_u8 pos val = act (patch_bits 8 pos val)

abbrev pub patch_u12 : ℕ → ℕ → M Unit
patch_u12 pos val = act (patch_bits 12 pos val)

abbrev pub patch_u16 : ℕ → ℕ → M Unit
patch_u16 pos val = act (patch_bits 16 pos val)
