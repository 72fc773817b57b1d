-- ===== src/Tools/Rewrite/Segments.antt =====
-- The segmentation durations: the edits stay inside the descriptor loop.
use rust_pois.Prelude.{
  ℕ, ◌+◌, ◌-◌, ◌/◌, ◌%◌, ◌^◌, ◌≤◌, ◌≡◌, inl, inr, ap, subst, Bool, Option, some, none, arith,
  length, get_or, Bool-cases, Option-cases, if◌then◌else◌, ltb, ◌==◌, ◌!=◌, ◌||◌, drop, length-take,
  unwrap_or, bind_option,
}
use rust_pois.Bits.{Bytes}
use rust_pois.Tools.Locate.{
  DescriptorLoop, locate_descriptor_loop, seg_duration_offset, after_components,
}
use rust_pois.Tools.Locate.Bounds.{locate_descriptor_loop-Fits}
use rust_pois.Tools.Rewrite.{slice, put_duration, get_duration, change_duration, change_segments}
use rust_pois.Tools.Rewrite.Within.{
  Within, Within-refl, Within-trans, Within-wider, put_duration-Within,
}
use rust_pois.Tools.Rewrite.Walk.{Keeps, walk-keeps}

-- The five bytes of a segmentation duration stand in the descriptor's body.
seg_duration_offset-fits :
    (body : Bytes) (off : ℕ) → seg_duration_offset body ≡ some off → off + 5 ≤ length body
unfolding seg_duration_offset
seg_duration_offset-fits body off e =
    elim (Bool-cases (ltb (length body) 10 || get_or body 8 0 / 2 ^ 7 % 2 != 0)) [
      | inl c ↦ cc (let bad = rw c at e in bad)
      | inr c ↦ elim (Bool-cases (get_or body 9 0 / 2 ^ 6 % 2 == 0)) [
        | inl c' ↦ cc (let bad = rw (c, c') at e in bad)
        | inr c' ↦
            at_index (after_components body (get_or body 9 0 / 2 ^ 7 % 2 != 0)) (rw (c, c') at e)
      ]
    ]
  where
    at_index :
        (o : Option ℕ)
        → bind_option o (λ idx. if ltb (length body) (idx + 5) then none else some idx) ≡ some off
        → off + 5 ≤ length body
    at_index none h = cc
    at_index (some idx) h = elim (Bool-cases (ltb (length body) (idx + 5))) [
      | inl c ↦ cc (let bad = rw c at h in bad)
      | inr c ↦
          let same : idx ≡ off = ap (λ o. unwrap_or o off) (rw c at h) in
          let room : idx + 5 ≤ length body = ground arith in omega (arith, same)
    ]

change_duration-Keeps :
    (f : ℕ → ℕ) (lo hi : ℕ) (before : Bytes) → Keeps (Within lo hi before) lo hi (change_duration f)
unfolding change_duration
change_duration-Keeps f lo hi before bytes out cursor low high e w =
    let body_start = cursor + 2 in
    let body_end = cursor + 2 + get_or bytes (cursor + 1) 0 in
    let body = slice body_start body_end bytes in
    elim (Bool-cases (get_or bytes cursor 0 == 0x02)) [
      | inr c ↦ cc (let bad = rw c at e in bad)
      | inl c ↦ elim (Option-cases (seg_duration_offset body)) [
        | inl o ↦ cc (let bad = rw (c, o) at e in bad)
        | inr (off, o) ↦
            let at_off = body_start + off in
            let same : put_duration at_off (f (get_duration at_off bytes)) bytes ≡ out =
              ap (λ x. unwrap_or x out) (rw (c, o) at e) in
            let room = seg_duration_offset-fits body off o in
            let cut = length-take (body_end - body_start) (drop body_start bytes) in
            Within-trans w (
              subst (Within lo hi bytes) same (
                Within-wider (omega arith) (omega (arith, room, cut))
                  (put_duration-Within at_off (f (get_duration at_off bytes)) bytes)))
      ]
    ]

pub change_segments-Within :
    (f : ℕ → ℕ) (bytes : Bytes) (changed : Bool) (l : DescriptorLoop)
    → locate_descriptor_loop bytes ≡ some l
    → Within l.loop_start l.loop_end bytes (change_segments f bytes changed).bytes
change_segments-Within f bytes changed l e =
    rw (e, change_segments)
      (walk-keeps (Within l.loop_start l.loop_end bytes) l.loop_start l.loop_end (change_duration f)
        (change_duration-Keeps f l.loop_start l.loop_end bytes) (length bytes) l.loop_start bytes
        changed (omega arith) (Within-refl _ _ bytes))

-- Every place behind the table id.
pub segments-Within :
    (f : ℕ → ℕ) (bytes : Bytes) (changed : Bool)
    → Within 14 (length bytes) bytes (change_segments f bytes changed).bytes
segments-Within f bytes changed = elim (Option-cases (locate_descriptor_loop bytes)) [
  | inl c ↦ rw (c, change_segments) (Within-refl 14 (length bytes) bytes)
  | inr (l, c) ↦
      let fits = locate_descriptor_loop-Fits bytes l c in
      let b = fits.behind in
      let s = fits.start in
      let r = fits.room in
      Within-wider (omega arith) (omega arith) (change_segments-Within f bytes changed l c)
]
