-- ===== src/Tools/Locate/Bounds.antt =====
-- Where the locators can point.
use Prim.Native.String.{String}
use rust_pois.Prelude.{
  ℕ, zero, suc, ◌+◌, ◌/◌, ◌%◌, ◌^◌, ◌≤◌, ◌≡◌, refl, ap, subst, unwrap_or, Bool, true, false, Option,
  none, some, [], arith, length, get_or, ltb, ◌!=◌, Bool-cases, inl, inr, Result, ok, err,
}
use rust_pois.Bits.{Bytes}
use rust_pois.Tools.Reader.{BitReader, P, new}
use rust_pois.Tools.Command.{
  read_header, parse_command_info, read_splice_time, read_components, read_break_duration, when,
  parse_splice_insert_rest, parse_splice_insert,
}
use rust_pois.Tools.Locate.{
  DescriptorLoop, is_refused, word_at, loop_at, whole_byte, locate_descriptor_loop,
  skip_splice_time, skip_components, skip_to_break, seek_break_duration, found_break,
  locate_break_duration,
}
use rust_pois.Tools.Reader.Consumes.{
  Consumes, Consumes-then, read_u8-Consumes, read_u16-Consumes, read_u64-Consumes, pure-Consumes,
  Consumes-if, Consumes-step, read_flag-Consumes, forward, any_u8,
}

skip_splice_time-Consumes : Consumes 0 skip_splice_time
unfolding skip_splice_time
skip_splice_time-Consumes = search forward

skip_components-Consumes : (immediate : Bool) (n : ℕ) → Consumes 0 (skip_components immediate n)
unfolding skip_components
skip_components-Consumes immediate zero = pure-Consumes tt
skip_components-Consumes immediate (suc n) = Consumes-step (any_u8 8) (λ _.
    Consumes-step (Consumes-if immediate (pure-Consumes tt) skip_splice_time-Consumes)
      (λ _. skip_components-Consumes immediate n))

skip_to_break-Consumes : Consumes 0 skip_to_break
unfolding skip_to_break
skip_to_break-Consumes =
    search (forward, skip_splice_time-Consumes, skip_components-Consumes) depth 25

read_splice_time-Consumes : Consumes 0 read_splice_time
unfolding read_splice_time
read_splice_time-Consumes = search forward

read_components-Consumes : (immediate : Bool) (n : ℕ) → Consumes 0 (read_components immediate n)
unfolding read_components
read_components-Consumes immediate zero = pure-Consumes []
read_components-Consumes immediate (suc n) = Consumes-step (any_u8 8) (λ _.
    Consumes-step (Consumes-if immediate (pure-Consumes none) read_splice_time-Consumes)
      (λ _. Consumes-step (read_components-Consumes immediate n) (λ _. pure-Consumes _)))

read_break-Consumes : Consumes 0 read_break_duration
unfolding read_break_duration
read_break-Consumes = search forward

when-Consumes : {A : Type 0} (b : Bool) {m : P A} → Consumes 0 m → Consumes 0 (when b m)
when-Consumes true c = Consumes-step c (λ a. pure-Consumes (some a))
when-Consumes false c = pure-Consumes none

rest-Consumes : (id : ℕ) (o p d i : Bool) → Consumes 0 (parse_splice_insert_rest id o p d i)
unfolding parse_splice_insert_rest
rest-Consumes id o p d i =
    search
      (
        forward, when-Consumes, read_splice_time-Consumes, read_components-Consumes,
        read_break-Consumes,
      )
      depth 25

insert-Consumes : Consumes 0 parse_splice_insert
unfolding parse_splice_insert
insert-Consumes = search (forward, rest-Consumes) depth 25

parse-Consumes : (t : ℕ) → Consumes 0 (parse_command_info t)
unfolding parse_command_info
parse-Consumes t = search (forward, insert-Consumes, read_splice_time-Consumes) depth 25

read_header-Consumes : Consumes 112 read_header
unfolding read_header
read_header-Consumes = Consumes-then (read_u8-Consumes 8) (λ _.
    Consumes-then (read_u8-Consumes 1) (λ _. Consumes-then (read_u8-Consumes 1) (λ _.
      Consumes-then (read_u8-Consumes 2) (λ _. Consumes-then (read_u16-Consumes 12) (λ _.
        Consumes-then (read_u8-Consumes 8) (λ _. Consumes-then read_flag-Consumes (λ _.
          Consumes-then (read_u8-Consumes 6) (λ _. Consumes-then (read_u64-Consumes 33) (λ _.
            Consumes-then (read_u8-Consumes 8) (λ _. Consumes-then (read_u16-Consumes 12) (λ _.
              Consumes-then (read_u16-Consumes 12) (λ _.
                Consumes-then {k = 0} (read_u8-Consumes 8)
                  (λ t. Consumes-step (info t) (λ _. pure-Consumes _))))))))))))))
  where
    info : (t : ℕ) → Consumes 0 (parse_command_info t)
    info t = parse-Consumes t

-- A section that is not refused.
pub record Accepted (bytes : Bytes) : Type 0 where
  pub long : 15 ≤ length bytes
  pub head : get_or bytes 0 0 ≡ 0xFC

not_refused : (bytes : Bytes) → is_refused bytes ≡ false → Accepted bytes
not_refused bytes h = record { long = ground arith; head = ground arith }

-- The loop stands behind the header, and leaves room for the CRC.
pub record Fits (bytes : Bytes) (l : DescriptorLoop) : Type 0 where
  pub accepted : Accepted bytes
  pub behind : 14 ≤ l.dlw_off
  pub start : l.loop_start ≡ l.dlw_off + 2
  pub stop : l.loop_end ≡ l.loop_start + word_at bytes l.dlw_off % 2 ^ 10
  pub room : l.loop_end + 4 ≤ length bytes

some-injective : {A : Type 0} {a b : A} → some a ≡ some b → a ≡ b
some-injective {a = a} e = ap (λ o. unwrap_or o a) e

loop_at-Fits :
    (bytes : Bytes) (off : ℕ) (l : DescriptorLoop)
    → Accepted bytes
    → 14 ≤ off
    → loop_at bytes off ≡ some l
    → Fits bytes l
unfolding loop_at
loop_at-Fits bytes off l acc h e =
    let loop_end = off + 2 + word_at bytes off % 2 ^ 10 in
    elim (Bool-cases (ltb (length bytes) (off + 2))) [
      | inl c ↦ cc (let bad = rw c at e in bad)
      | inr c ↦ elim (Bool-cases (ltb (length bytes) (loop_end + 4))) [
        | inl c' ↦ cc (let bad = rw (c, c') at e in bad)
        | inr c' ↦
            let same = some-injective (rw (c, c') at e) in
            subst (Fits bytes) same (record {
              accepted = acc;
              behind = h;
              start = refl;
              stop = refl;
              room = ground arith;
            })
      ]
    ]

aligned :
    {A : Type 0} (x : Result String A × BitReader) (f : ℕ → Option DescriptorLoop)
    (l : DescriptorLoop)
    → ((a : A) → x.0 ≡ ok a → 112 ≤ x.1.bitpos)
    → whole_byte x f ≡ some l
    → (q : ℕ) × (14 ≤ q) × (f q ≡ some l)
aligned (ok a, r) f l h e = elim (Bool-cases (r.bitpos % 8 != 0)) [
  | inl c ↦ cc (let bad = rw c at e in bad)
  | inr c ↦ (r.bitpos / 8, omega (arith, h a refl), rw c at e)
]
aligned (err s, r) f l h e = cc

-- Where the descriptor loop is found, the section is long enough, not of another table, and the loop
-- stands behind the header and before the CRC.
pub locate_descriptor_loop-Fits :
    (bytes : Bytes) (l : DescriptorLoop) → locate_descriptor_loop bytes ≡ some l → Fits bytes l
unfolding locate_descriptor_loop
locate_descriptor_loop-Fits bytes l e = elim (Bool-cases (is_refused bytes)) [
  | inl c ↦ cc (let bad = rw c at e in bad)
  | inr c ↦
      let (q, low, found) =
        aligned (read_header (new bytes)) (loop_at bytes) l
          (λ a h. read_header-Consumes.moves (new bytes) a h) (rw c at e) in
      loop_at-Fits bytes q l (not_refused bytes c) low found
]

seek-Consumes : Consumes 112 seek_break_duration
unfolding seek_break_duration
seek-Consumes = Consumes-then (read_u8-Consumes 8) (λ _. Consumes-then (read_u8-Consumes 1) (λ _.
    Consumes-then (read_u8-Consumes 1) (λ _. Consumes-then (read_u8-Consumes 2) (λ _.
      Consumes-then (read_u16-Consumes 12) (λ _. Consumes-then (read_u8-Consumes 8) (λ _.
        Consumes-then (read_u8-Consumes 1) (λ _. Consumes-then (read_u8-Consumes 6) (λ _.
          Consumes-then (read_u64-Consumes 33) (λ _. Consumes-then (read_u8-Consumes 8) (λ _.
            Consumes-then (read_u16-Consumes 12) (λ _. Consumes-then (read_u16-Consumes 12) (λ _.
              Consumes-then {k = 0} (read_u8-Consumes 8) (λ t.
                Consumes-if (t != 0x05) (pure-Consumes false) skip_to_break-Consumes)))))))))))))

found :
    (x : Result String Bool × BitReader) (bd : ℕ)
    → ((a : Bool) → x.0 ≡ ok a → 112 ≤ x.1.bitpos)
    → found_break x ≡ some bd
    → 14 ≤ bd
found (err s, r) bd h e = cc
found (ok false, r) bd h e = cc
found (ok true, r) bd h e = elim (Bool-cases (r.bitpos % 8 != 0)) [
  | inl c ↦ cc (let bad = rw c at e in bad)
  | inr c ↦ let same = some-injective (rw c at e) in omega (arith, same, h true refl)
]

pub locate_break_duration-bounds :
    (bytes : Bytes) (bd : ℕ) → locate_break_duration bytes ≡ some bd → Accepted bytes × (14 ≤ bd)
unfolding locate_break_duration
locate_break_duration-bounds bytes bd e = elim (Bool-cases (is_refused bytes)) [
  | inl c ↦ cc (let bad = rw c at e in bad)
  | inr c ↦ (
    not_refused bytes c,
    found (seek_break_duration (new bytes)) bd (λ a h. seek-Consumes.moves (new bytes) a h)
        (rw c at e),
  )
]
