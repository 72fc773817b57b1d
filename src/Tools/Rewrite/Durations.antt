-- ===== src/Tools/Rewrite/Durations.antt =====
-- `rewrite_break_duration` and `adjust_break_duration`: what they change, and what they leave. Both are
-- `change_durations`, of a constant and of a sum.
use rust_pois.Prelude.{
  ℕ, ◌+◌, ◌%◌, ◌^◌, ◌≤◌, ◌<◌, ◌≡◌, inl, inr, refl, sym, ap, subst, ◌∙◌, Bool, true, false, some,
  none, arith, length, get_or, Option-cases, unwrap_or, done,
}
use rust_pois.Bits.{Bytes, AreBytes}
use rust_pois.Tools.Locate.{DescriptorLoop, locate_descriptor_loop, locate_break_duration}
use rust_pois.Tools.Locate.Bounds.{
  locate_descriptor_loop-Fits, locate_break_duration-bounds, Accepted,
}
use rust_pois.Tools.Rewrite.Outcome.{segments_of, broken, Refreshed, no_break, at_break, outcome}
use rust_pois.Tools.Rewrite.{put_break, get_break, change_segments, change_durations}
use rust_pois.Tools.Rewrite.Within.{
  Within-trans, Within-wider, put_break-Within, get_break-put_break,
}
use rust_pois.Tools.Rewrite.Closing.{refresh-Within, refreshed-some, get_or-refresh}
use rust_pois.Tools.Validate.Builders.{IsValid}
use rust_pois.Tools.Rewrite.Segments.{change_segments-Within, segments-Within}

segments-changed :
    (f : ℕ → ℕ) (bytes : Bytes) → (segments_of f bytes false).changed ≡ true → Accepted bytes
segments-changed f bytes e = elim (Option-cases (locate_descriptor_loop bytes)) [
  | inl c ↦ cc (let bad = rw (c, change_segments) at e in bad)
  | inr (l, c) ↦ (locate_descriptor_loop-Fits bytes l c).accepted
]

-- The duration rewriters, where they return bytes, return a section that the validator accepts, of the
-- same length.
pub change_durations-IsValid :
    (f : ℕ → ℕ) (bytes out : Bytes)
    → AreBytes bytes
    → change_durations f bytes ≡ done (some out)
    → (length out ≡ length bytes) × IsValid out
change_durations-IsValid f bytes out are e = elim (outcome f bytes out e) [
  | no_break c r ↦
      let (ch, same) = refreshed-some _ _ out r in
      subst (λ (o : Bytes). (length o ≡ length bytes) × IsValid o) same
        (refresh-Within 14 (length bytes) bytes _ are (segments-changed f bytes ch) (omega arith)
          (segments-Within (λ cur. f cur % 2 ^ 40) bytes false))
  | at_break bd c room r ↦
      let (ch, same) = refreshed-some _ _ out r in
      let (acc, behind) = locate_break_duration-bounds bytes bd c in
      let first = put_break-Within bd (f (get_break bd bytes) % 2 ^ 33) bytes in
      let len = first.same_length in
      subst (λ (o : Bytes). (length o ≡ length bytes) × IsValid o) same
        (refresh-Within 14 (length bytes) bytes _ are acc (omega arith) (
          Within-trans (Within-wider (omega arith) (omega arith) first) (
            Within-wider (omega arith) (omega arith)
              (segments-Within (λ cur. f cur % 2 ^ 40) (broken f bd bytes) true))))
]

get_break-same :
    (bd : ℕ) (a b : Bytes)
    → ((i : ℕ) → bd ≤ i → i < bd + 5 → get_or a i 0 ≡ get_or b i 0)
    → get_break bd a ≡ get_break bd b
get_break-same bd a b h = omega (
  arith,
  h bd (omega arith) (omega arith),
  h (bd + 1) (omega arith) (omega arith),
  h (bd + 1 + 1) (omega arith) (omega arith),
  h (bd + 1 + 2) (omega arith) (omega arith),
  h (bd + 1 + 3) (omega arith) (omega arith),
)

-- The segmentation descriptors leave the bytes in front of the loop.
segments-before :
    (f : ℕ → ℕ) (b : Bytes) (changed : Bool) (p i : ℕ)
    → ((l : DescriptorLoop) → locate_descriptor_loop b ≡ some l → p ≤ l.loop_start)
    → i < p
    → get_or (change_segments f b changed).bytes i 0 ≡ get_or b i 0
segments-before f b changed p i before lt = elim (Option-cases (locate_descriptor_loop b)) [
  | inl c ↦ rw (c, change_segments) refl
  | inr (l, c) ↦
      let low = before l c in
      (change_segments-Within f b changed l c).elsewhere i (inl (omega arith))
]

-- The break duration that is read from the bytes that are returned is the one that `f` makes of that in
-- the input, cut to 33 bits, where the descriptor loop stands behind it.
pub change_durations-get_break :
    (f : ℕ → ℕ) (bytes out : Bytes) (bd : ℕ)
    → locate_break_duration bytes ≡ some bd
    → bd + 9 ≤ length bytes
    → ((l : DescriptorLoop)
        → locate_descriptor_loop (put_break bd (f (get_break bd bytes) % 2 ^ 33) bytes) ≡ some l
        → bd + 5 ≤ l.loop_start)
    → change_durations f bytes ≡ done (some out)
    → get_break bd out ≡ f (get_break bd bytes) % 2 ^ 33
change_durations-get_break f bytes out bd c room behind e = elim (outcome f bytes out e) [
  | no_break n r ↦ let bad : none ≡ some bd = sym n ∙ c in cc
  | at_break bd' c' room' r ↦
      let same_bd : bd' ≡ bd = ap (λ o. unwrap_or o bd) (sym c' ∙ c) in
      let r' = subst (λ (q : ℕ). Refreshed f q bytes out) same_bd r in
      let (ch, same) = refreshed-some _ _ out r' in
      let t = f (get_break bd bytes) % 2 ^ 33 in
      let b₁ = put_break bd t bytes in
      let walked = segments_of f b₁ true in
      let len₁ = (put_break-Within bd t bytes).same_length in
      let len₂ = (segments-Within (λ cur. f cur % 2 ^ 40) b₁ true).same_length in
      get_break-same bd out b₁ (λ i lo hi.
        ap (λ (o : Bytes). get_or o i 0) (sym same)
        ∙ get_or-refresh walked.bytes i (omega arith)
        ∙ segments-before (λ cur. f cur % 2 ^ 40) b₁ true (bd + 5) i behind hi)
      ∙ get_break-put_break bd t bytes (omega arith)
      ∙ (let twice : t % 2 ^ 33 ≡ t = omega arith in twice)
]
