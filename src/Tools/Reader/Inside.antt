-- ===== src/Tools/Reader/Inside.antt =====
-- A successful reading stays inside the buffer, but for the bits of one byte that a skip may pass.
use Prim.Native.String.{String}
use rust_pois.Prelude.{
  ℕ, zero, suc, ◌+◌, ◌*◌, ◌/◌, ◌^◌, ◌≤◌, ◌≡◌, refl, Bool, true, false, arith, length, leb, ltb,
  ◌==◌, if◌then◌else◌, Bool-cases, inl, inr, Result, ok, err,
}
use rust_pois.Tools.Reader.{
  BitReader, P, advance, narrow, read_rounds, read_bits, read_u8, read_u16, read_u32, read_u64,
  skip_bits,
}
use rust_pois.Tools.Command.{continue, ◌>>=◌, pure, read_flag}

-- The reader is in a buffer of `n` bytes, or in the bits of the byte behind it.
abbrev pub In : ℕ → BitReader → Type 0
In n r = (length r.source ≡ n) × (r.bitpos ≤ 8 * n + 7)

pub record Inside {A : Type 0} (m : P A) : Type 0 where
  pub stays : (n : ℕ) (r : BitReader) (a : A) → (m r).0 ≡ ok a → In n r → In n (m r).1

read_rounds-In :
    (n k v : ℕ) (r : BitReader) (a : ℕ)
    → (read_rounds k v r).0 ≡ ok a
    → In n r
    → In n (read_rounds k v r).1
unfolding read_rounds
read_rounds-In n zero v r a h i = i
read_rounds-In n (suc k) v r a h (len, low) =
    elim (Bool-cases (leb (length r.source) (r.bitpos / 8))) [
      | inl e ↦ cc (let bad = rw e at h in bad)
      | inr e ↦
          rw e (let h' = rw e at h in read_rounds-In n k _ (advance 1 r) a h' (len, ground arith))
    ]

narrow-In :
    (n w : ℕ) (x : Result String ℕ × BitReader) (a : ℕ)
    → ((v : ℕ) → x.0 ≡ ok v → In n x.1)
    → (narrow w x).0 ≡ ok a
    → In n (narrow w x).1
narrow-In n w (ok v, r) a h e = h v refl
narrow-In n w (err s, r) a h e = cc

pub read_u64-Inside : (k : ℕ) → Inside (read_u64 k)
unfolding read_u64 read_bits
read_u64-Inside k = record { stays = λ n r a e i. read_rounds-In n k 0 r a e i }

pub read_u8-Inside : (k : ℕ) → Inside (read_u8 k)
unfolding read_u8 read_bits
read_u8-Inside k = record {
  stays = λ n r a e i. narrow-In n 8 (read_bits k r) a (λ v h. read_rounds-In n k 0 r v h i) e;
}

pub read_u16-Inside : (k : ℕ) → Inside (read_u16 k)
unfolding read_u16 read_bits
read_u16-Inside k = record {
  stays = λ n r a e i. narrow-In n 16 (read_bits k r) a (λ v h. read_rounds-In n k 0 r v h i) e;
}

pub read_u32-Inside : (k : ℕ) → Inside (read_u32 k)
unfolding read_u32 read_bits
read_u32-Inside k = record {
  stays = λ n r a e i. narrow-In n 32 (read_bits k r) a (λ v h. read_rounds-In n k 0 r v h i) e;
}

pub skip_bits-Inside : (k : ℕ) → Inside (skip_bits k)
unfolding skip_bits
skip_bits-Inside k = record { stays = stays }
  where
    stays :
        (n : ℕ) (r : BitReader) (a : Unit)
        → (skip_bits k r).0 ≡ ok a
        → In n r
        → In n (skip_bits k r).1
    stays n r a e (len, low) = elim (Bool-cases (leb (2 ^ 64) (r.bitpos + k))) [
      | inl h ↦ cc (let bad = rw h at e in bad)
      | inr h ↦ elim (Bool-cases (ltb (length r.source) ((r.bitpos + k) / 8))) [
        | inl h' ↦ cc (let bad = rw (h, h') at e in bad)
        | inr h' ↦ rw (h, h') (len, ground arith)
      ]
    ]

pub pure-Inside : {A : Type 0} (a : A) → Inside (pure a)
pure-Inside a = record { stays = λ n r b e i. i }

pub Inside-if :
    {A : Type 0} {m k : P A} (b : Bool) → Inside m → Inside k → Inside (if b then m else k)
Inside-if true c d = c
Inside-if false c d = d

pub Inside-step :
    {A B : Type 0} {m : P A} {f : A → P B} → Inside m → ((a : A) → Inside (f a)) → Inside (m >>= f)
unfolding ◌>>=◌
Inside-step {A} {B} {m} {f} c d = record {
  stays = λ n r b e i. onward n (m r) b (λ a h. c.stays n r a h i) e;
}
  where
    onward :
        (n : ℕ) (x : Result String A × BitReader) (b : B)
        → ((a : A) → x.0 ≡ ok a → In n x.1)
        → (continue f x).0 ≡ ok b
        → In n (continue f x).1
    onward n (ok a, r) b h e = (d a).stays n r b e (h a refl)
    onward n (err s, r) b h e = cc

pub read_flag-Inside : Inside read_flag
read_flag-Inside = Inside-step (read_u8-Inside 1) (λ a. pure-Inside (a == 1))

pub ruleset inside = (
  Inside-step, read_u8-Inside, read_u16-Inside, read_u32-Inside, read_u64-Inside, skip_bits-Inside,
  read_flag-Inside, pure-Inside, Inside-if,
)
