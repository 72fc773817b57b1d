-- ===== src/Tools/Locate/Inside.antt =====
-- A break duration that is found starts inside the section, or where it ends.
use Prim.Native.String.{String}
use rust_pois.Prelude.{
  ℕ, zero, suc, ◌/◌, ◌%◌, ◌≤◌, ◌≡◌, refl, ap, unwrap_or, Bool, true, false, some, arith, length,
  ◌!=◌, Bool-cases, inl, inr, Result, ok, err,
}
use rust_pois.Bits.{Bytes}
use rust_pois.Tools.Reader.{BitReader, new}
use rust_pois.Tools.Reader.Inside.{
  In, Inside, Inside-step, Inside-if, pure-Inside, read_u8-Inside, inside,
}
use rust_pois.Tools.Locate.{
  is_refused, skip_splice_time, skip_components, skip_to_break, seek_break_duration, found_break,
  locate_break_duration,
}

skip_splice_time-Inside : Inside skip_splice_time
unfolding skip_splice_time
skip_splice_time-Inside = search inside

skip_components-Inside : (immediate : Bool) (n : ℕ) → Inside (skip_components immediate n)
unfolding skip_components
skip_components-Inside immediate zero = pure-Inside tt
skip_components-Inside immediate (suc n) = Inside-step (read_u8-Inside 8) (λ _.
    Inside-step (Inside-if immediate (pure-Inside tt) skip_splice_time-Inside)
      (λ _. skip_components-Inside immediate n))

skip_to_break-Inside : Inside skip_to_break
unfolding skip_to_break
skip_to_break-Inside = search (inside, skip_splice_time-Inside, skip_components-Inside) depth 25

seek-Inside : Inside seek_break_duration
unfolding seek_break_duration
seek-Inside = search (inside, skip_to_break-Inside) depth 32

found-inside :
    (n : ℕ) (x : Result String Bool × BitReader) (bd : ℕ)
    → ((a : Bool) → x.0 ≡ ok a → In n x.1)
    → found_break x ≡ some bd
    → bd ≤ n
found-inside n (err s, r) bd h e = cc
found-inside n (ok false, r) bd h e = cc
found-inside n (ok true, r) bd h e = elim (Bool-cases (r.bitpos % 8 != 0)) [
  | inl c ↦ cc (let bad = rw c at e in bad)
  | inr c ↦
      let same : r.bitpos / 8 ≡ bd = ap (λ o. unwrap_or o bd) (rw c at e) in
      omega (arith, same, (h true refl).1)
]

pub locate_break_duration-inside :
    (bytes : Bytes) (bd : ℕ) → locate_break_duration bytes ≡ some bd → bd ≤ length bytes
unfolding locate_break_duration
locate_break_duration-inside bytes bd e = elim (Bool-cases (is_refused bytes)) [
  | inl c ↦ cc (let bad = rw c at e in bad)
  | inr c ↦
      found-inside (length bytes) (seek_break_duration (new bytes)) bd
        (λ a h. seek-Inside.stays (length bytes) (new bytes) a h (refl, omega arith)) (rw c at e)
]
