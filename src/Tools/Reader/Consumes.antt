-- ===== src/Tools/Reader/Consumes.antt =====
-- How far a successful reading moves the reader.
use Prim.Native.String.{String}
use rust_pois.Prelude.{
  ℕ, zero, suc, ◌+◌, ◌/◌, ◌^◌, ◌≤◌, ◌≡◌, refl, Bool, true, false, arith, length, leb, ltb, ◌==◌,
  if◌then◌else◌, Bool-cases, inl, inr, Result, ok, err,
}
use rust_pois.Tools.Reader.{
  BitReader, P, advance, narrow, read_rounds, read_bits, read_u8, read_u16, read_u32, read_u64,
  skip_bits,
}
use rust_pois.Tools.Command.{continue, ◌>>=◌, pure, read_flag}

pub record Consumes {A : Type 0} (k : ℕ) (m : P A) : Type 0 where
  pub moves : (r : BitReader) (a : A) → (m r).0 ≡ ok a → r.bitpos + k ≤ (m r).1.bitpos

read_rounds-moves :
    (n v : ℕ) (r : BitReader) (a : ℕ)
    → (read_rounds n v r).0 ≡ ok a
    → r.bitpos + n ≤ (read_rounds n v r).1.bitpos
unfolding read_rounds
read_rounds-moves zero v r a h = omega arith
read_rounds-moves (suc n) v r a h = elim (Bool-cases (leb (length r.source) (r.bitpos / 8))) [
  | inl e ↦ cc (let bad = rw e at h in bad)
  | inr e ↦ rw e (let h' = rw e at h in omega (arith, read_rounds-moves n _ (advance 1 r) a h'))
]

pub Consumes-then :
    {A B : Type 0} {j k : ℕ} {m : P A} {f : A → P B}
    → Consumes j m
    → ((a : A) → Consumes k (f a))
    → Consumes (j + k) (m >>= f)
unfolding ◌>>=◌
Consumes-then {A} {B} {j} {k} {m} {f} c d = record { moves = moves }
  where
    onward :
        (x : Result String A × BitReader) (p : ℕ) (b : B)
        → ((a : A) → x.0 ≡ ok a → p + j ≤ x.1.bitpos)
        → (continue f x).0 ≡ ok b
        → p + (j + k) ≤ (continue f x).1.bitpos
    onward (ok a, r) p b h e = omega (arith, h a refl, (d a).moves r b e)
    onward (err s, r) p b h e = cc

    moves :
        (r : BitReader) (b : B)
        → (continue f (m r)).0 ≡ ok b
        → r.bitpos + (j + k) ≤ (continue f (m r)).1.bitpos
    moves r b e = onward (m r) r.bitpos b (λ a h. c.moves r a h) e

narrow-Consumes :
    (w n : ℕ) (x : Result String ℕ × BitReader) (p a : ℕ)
    → ((v : ℕ) → x.0 ≡ ok v → p + n ≤ x.1.bitpos)
    → (narrow w x).0 ≡ ok a
    → p + n ≤ (narrow w x).1.bitpos
narrow-Consumes w n (ok v, r) p a h e = h v refl
narrow-Consumes w n (err s, r) p a h e = cc

pub read_bits-Consumes : (n : ℕ) → Consumes n (read_bits n)
unfolding read_bits
read_bits-Consumes n = record { moves = λ r a e. read_rounds-moves n 0 r a e }

pub read_u64-Consumes : (n : ℕ) → Consumes n (read_u64 n)
unfolding read_u64
read_u64-Consumes n = read_bits-Consumes n

pub read_u8-Consumes : (n : ℕ) → Consumes n (read_u8 n)
unfolding read_u8
read_u8-Consumes n = record {
  moves =
      λ r a e. narrow-Consumes 8 n (read_bits n r) r.bitpos a ((read_bits-Consumes n).moves r) e;
}

pub read_u16-Consumes : (n : ℕ) → Consumes n (read_u16 n)
unfolding read_u16
read_u16-Consumes n = record {
  moves =
      λ r a e. narrow-Consumes 16 n (read_bits n r) r.bitpos a ((read_bits-Consumes n).moves r) e;
}

pub read_u32-Consumes : (n : ℕ) → Consumes n (read_u32 n)
unfolding read_u32
read_u32-Consumes n = record {
  moves =
      λ r a e. narrow-Consumes 32 n (read_bits n r) r.bitpos a ((read_bits-Consumes n).moves r) e;
}

pub skip_bits-Consumes : (n : ℕ) → Consumes n (skip_bits n)
unfolding skip_bits
skip_bits-Consumes n = record { moves = moves }
  where
    moves :
        (r : BitReader) (a : Unit)
        → (skip_bits n r).0 ≡ ok a
        → r.bitpos + n ≤ (skip_bits n r).1.bitpos
    moves r a e = elim (Bool-cases (leb (2 ^ 64) (r.bitpos + n))) [
      | inl h ↦ cc (let bad = rw h at e in bad)
      | inr h ↦ elim (Bool-cases (ltb (length r.source) ((r.bitpos + n) / 8))) [
        | inl h' ↦ cc (let bad = rw (h, h') at e in bad)
        | inr h' ↦ rw (h, h') (omega arith)
      ]
    ]

pub pure-Consumes : {A : Type 0} (a : A) → Consumes 0 (pure a)
pure-Consumes a = record { moves = λ r b e. omega arith }

pub Consumes-if :
    {A : Type 0} {k : ℕ} {m n : P A} (b : Bool)
    → Consumes k m
    → Consumes k n
    → Consumes k (if b then m else n)
Consumes-if true c d = c
Consumes-if false c d = d

pub Consumes-weak : {A : Type 0} {k : ℕ} (j : ℕ) {m : P A} → j ≤ k → Consumes k m → Consumes j m
Consumes-weak j h c = record { moves = λ r a e. omega (arith, c.moves r a e) }

-- Every reading moves forward or stays.
pub Consumes-any : {A : Type 0} {k : ℕ} {m : P A} → Consumes k m → Consumes 0 m
Consumes-any c = Consumes-weak 0 (omega arith) c

pub Consumes-step :
    {A B : Type 0} {m : P A} {f : A → P B}
    → Consumes 0 m
    → ((a : A) → Consumes 0 (f a))
    → Consumes 0 (m >>= f)
Consumes-step c d = Consumes-then c d

pub read_flag-Consumes : Consumes 1 read_flag
read_flag-Consumes = Consumes-then {k = 0} (read_u8-Consumes 1) (λ a. pure-Consumes (a == 1))

pub any_u8 : (n : ℕ) → Consumes 0 (read_u8 n)
any_u8 n = Consumes-any (read_u8-Consumes n)

pub any_u16 : (n : ℕ) → Consumes 0 (read_u16 n)
any_u16 n = Consumes-any (read_u16-Consumes n)

pub any_u32 : (n : ℕ) → Consumes 0 (read_u32 n)
any_u32 n = Consumes-any (read_u32-Consumes n)

pub any_u64 : (n : ℕ) → Consumes 0 (read_u64 n)
any_u64 n = Consumes-any (read_u64-Consumes n)

pub any_skip : (n : ℕ) → Consumes 0 (skip_bits n)
any_skip n = Consumes-any (skip_bits-Consumes n)

pub ruleset forward =
    (Consumes-step, any_u8, any_u16, any_u32, any_u64, any_skip, pure-Consumes, Consumes-if)
