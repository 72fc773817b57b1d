-- ===== src/Tools/Command/Reads.antt =====
-- Readings of known fields: a parser that meets the bits of some fields gives their values and stops
-- behind them.
use rust_pois.Prelude.{
  ℕ, ◌+◌, ◌*◌, ◌/◌, ◌%◌, ◌^◌, ◌≤◌, ◌<◌, ◌≡◌, refl, sym, ap, ap₂, ◌∙◌, List, [], ◌∷◌, ◌++◌, arith,
  length, drop, ◌==◌, ok, append_assoc, append-nil, drop-drop, drop-length, length-append,
  length-drop, leb, ltb, false,
}
use rust_pois.Bits.{to_bits, unpack}
use rust_pois.Bits.Number.{to_bits-IsBit, length-to_bits, from_bits-to_bits_zero}
use rust_pois.Bits.Stream.{length-unpack}
use rust_pois.Scte35.Fields.{
  Field, ◌is◌, bits_of, width, bits_of-append, length-bits_of, width-append,
}
use rust_pois.Tools.Reader.{
  BitReader, P, advance, narrow, read_rounds, read_bits, read_u8, read_u16, read_u32, read_u64,
  skip_bits,
}
use rust_pois.Tools.Reader.Laws.{At, read_rounds-At, advance_to, from_bits-lt}
use rust_pois.Tools.Command.{continue, ◌>>=◌, pure, read_flag}

pub record Reads {A : Type 0} (m : P A) (fs : List Field) (a : A) : Type 0 where
  pub run :
      (r : BitReader) (rest : List ℕ)
      → 8 * length r.source < 2 ^ 64
      → At r (bits_of fs ++ rest)
      → m r ≡ (ok a, advance (width fs) r)

At-advance :
    (r : BitReader) (fs : List Field) (rest : List ℕ)
    → At r (bits_of fs ++ rest)
    → At (advance (width fs) r) rest
At-advance r fs rest at =
    sym (drop-drop (width fs) r.bitpos (unpack r.source))
    ∙ ap (λ (l : List ℕ). drop (width fs) l) at
    ∙ drop-length (bits_of fs) rest (width fs) (length-bits_of fs)

pub Reads-pure : {A : Type 0} (a : A) → Reads (pure a) [] a
Reads-pure a = record {
  run = λ r rest small at.
      ap (λ (r' : BitReader). (ok a, r')) (ap (λ (q : ℕ). record r { bitpos = q }) (omega arith));
}

bind-continue :
    {A B : Type 0} (m : P A) (f : A → P B) (r : BitReader) → (m >>= f) r ≡ continue f (m r)
unfolding ◌>>=◌
bind-continue m f r = refl

pub Reads-seq :
    {A B : Type 0} {m : P A} (f : A → P B) (fs : List Field) {gs : List Field} {a : A} {b : B}
    → Reads m fs a
    → Reads (f a) gs b
    → Reads (m >>= f) (fs ++ gs) b
Reads-seq {m = m} f fs {gs = gs} {a = a} {b = b} hm hf = record {
  run = λ r rest small at.
      let split =
        at
        ∙ ap (λ (l : List ℕ). l ++ rest) (bits_of-append fs gs)
        ∙ append_assoc (bits_of fs) (bits_of gs) rest in
      let first = hm.run r (bits_of gs ++ rest) small split in
      let second =
        hf.run (advance (width fs) r) rest small (At-advance r fs (bits_of gs ++ rest) split) in
      bind-continue m f r
      ∙ ap (continue f) first
      ∙ second
      ∙ ap (λ (r' : BitReader). (ok b, r'))
          (advance_to r (width fs) (width gs) (width (fs ++ gs)) (sym (width-append fs gs)));
}

-- One field, then others.
pub Reads-then :
    {A B : Type 0} {m : P A} (f : A → P B) {x : Field} {gs : List Field} {a : A} {b : B}
    → Reads m (x ∷ []) a
    → Reads (f a) gs b
    → Reads (m >>= f) (x ∷ gs) b
Reads-then f {x = x} hm hf = Reads-seq f (x ∷ []) hm hf

one_field : (n v : ℕ) (rest : List ℕ) → bits_of (n is v ∷ []) ++ rest ≡ to_bits n v ++ rest
one_field n v rest = ap (λ (l : List ℕ). l ++ rest) (append-nil (to_bits n v))

module _ (n v : ℕ) (small : n ≤ 64) where
  pub Reads-bits : Reads (read_bits n) (n is v ∷ []) (v % 2 ^ n)
  unfolding read_bits
  Reads-bits = record {
    run = λ r rest room at.
        let len = length-to_bits n v in
        let fits =
          from_bits-lt (to_bits n v) 0 0 (to_bits-IsBit n v) (omega arith) (omega (arith, len)) in
        let go =
          read_rounds-At (to_bits n v) rest 0 r (to_bits-IsBit n v) fits
            (at ∙ one_field n v rest) in
        let wide : length (to_bits n v) ≡ n + 0 = omega (arith, len) in
        ap (λ (k : ℕ). read_rounds k 0 r) (sym len)
        ∙ go
        ∙ ap₂ (λ (t k : ℕ). (ok t, advance k r)) (from_bits-to_bits_zero n v) wide;
  }

  pub Reads-u8 : Reads (read_u8 n) (n is v ∷ []) (v % 2 ^ n % 2 ^ 8)
  unfolding read_u8
  Reads-u8 = record { run = λ r rest room at. ap (narrow 8) (Reads-bits.run r rest room at) }

  pub Reads-u16 : Reads (read_u16 n) (n is v ∷ []) (v % 2 ^ n % 2 ^ 16)
  unfolding read_u16
  Reads-u16 = record { run = λ r rest room at. ap (narrow 16) (Reads-bits.run r rest room at) }

  pub Reads-u32 : Reads (read_u32 n) (n is v ∷ []) (v % 2 ^ n % 2 ^ 32)
  unfolding read_u32
  Reads-u32 = record { run = λ r rest room at. ap (narrow 32) (Reads-bits.run r rest room at) }

  pub Reads-u64 : Reads (read_u64 n) (n is v ∷ []) (v % 2 ^ n)
  unfolding read_u64
  Reads-u64 = Reads-bits

pub Reads-flag : (v : ℕ) → Reads read_flag (1 is v ∷ []) (v % 2 ^ 1 % 2 ^ 8 == 1)
Reads-flag v = Reads-then _ (Reads-u8 1 v (omega arith)) (Reads-pure _)

drop-length_le :
    (p : ℕ) (l bits : List ℕ) → 0 < length bits → drop p l ≡ bits → p + length bits ≤ length l
drop-length_le p l bits pos e = omega (arith, ap (λ (x : List ℕ). length x) e, length-drop p l)

pub Reads-skip : (n v : ℕ) → 0 < n → Reads (skip_bits n) (n is v ∷ []) tt
unfolding skip_bits
Reads-skip n v pos = record {
  run = λ r rest room at.
      let long : length (bits_of (n is v ∷ []) ++ rest) ≡ n + length rest =
        ap (λ (l : List ℕ). length l) (one_field n v rest)
        ∙ length-append (to_bits n v) rest
        ∙ ap (λ (k : ℕ). k + length rest) (length-to_bits n v) in
      let inside : r.bitpos + n ≤ 8 * length r.source = omega (
        arith,
        long,
        drop-length_le r.bitpos (unpack r.source) _ (omega (arith, long)) at,
        length-unpack r.source,
      ) in
      let no_overflow : leb (2 ^ 64) (r.bitpos + n) ≡ false = ground arith in
      let in_bounds : ltb (length r.source) ((r.bitpos + n) / 8) ≡ false = ground arith in
      let wide : n ≡ n + 0 = omega arith in
      rw (no_overflow, in_bounds) (ap (λ (k : ℕ). (ok tt, advance k r)) wide);
}
