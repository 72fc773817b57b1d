-- ===== src/Tools/Rewrite/Upid/Laws.antt =====
-- The lengths and the CRC that `rewrite_upid` writes around the new descriptors.
use rust_pois.Prelude.{
  unwrap_run, ℕ, zero, suc, ◌+◌, ◌-◌, ◌*◌, ◌/◌, ◌%◌, ◌^◌, ◌≤◌, ◌≡◌, inl, inr, refl, sym, ap, subst,
  ◌∙◌, Bool, false, not, ◌||◌, [], ◌∷◌, ◌++◌, Option, some, none, arith, length, get_or, Bool-cases,
  ltb, set, take, drop, length-take, length-drop, length-append, length-set, get_or-set,
  get_or-set_other, get_or-front, take-length, unwrap_or, Run, done, panics, bind_run, Text,
  get_or-append,
}
use rust_pois.Bits.{Bytes}
use rust_pois.Scte35.Crc.{compute_crc32, to_be_bytes}
use rust_pois.Tools.Locate.{DescriptorLoop, word_at, locate_descriptor_loop}
use rust_pois.Tools.Locate.Bounds.{Fits, locate_descriptor_loop-Fits}
use rust_pois.Tools.Rewrite.{slice}
use rust_pois.Tools.Rewrite.Upid.{rewrite_loop, reassemble, finish_rewrite, rewrite_upid}

abbrev loop_word : Bytes → DescriptorLoop → Bytes → ℕ
loop_word bytes l new_loop = word_at bytes l.dlw_off / 2 ^ 10 * 2 ^ 10 + length new_loop % 2 ^ 10

abbrev stuffing : Bytes → DescriptorLoop → Bytes
stuffing bytes l = slice l.loop_end (length bytes - 4) bytes

-- The section before its length and its CRC are written.
abbrev body_of : Bytes → DescriptorLoop → Bytes → Bytes
body_of bytes l new_loop =
    take l.dlw_off bytes
    ++ ((loop_word bytes l new_loop / 2 ^ 8)
        ∷ (loop_word bytes l new_loop % 2 ^ 8)
        ∷ (new_loop ++ stuffing bytes l))

abbrev section_length_of : Bytes → ℕ
section_length_of out = (length out + 4 - 3) % 2 ^ 16

abbrev with_length : Bytes → Bytes
with_length out =
    let out₁ = set out 1 (get_or out 1 0 / 2 ^ 4 * 2 ^ 4 + section_length_of out / 2 ^ 8 % 2 ^ 4) in
    set out₁ 2 (section_length_of out % 2 ^ 8)

get_or-second :
    (xs : Bytes) (y z : ℕ) (ys : Bytes) (n : ℕ)
    → length xs ≡ n
    → get_or (xs ++ y ∷ z ∷ ys) (n + 1) 0 ≡ z
get_or-second [] y z ys zero h = refl
get_or-second [] y z ys (suc n) h = absurd (omega arith)
get_or-second (x ∷ xs) y z ys zero h = absurd (omega arith)
get_or-second (x ∷ xs) y z ys (suc n) h =
    let e : suc n + 1 ≡ suc (n + 1) = omega arith in
    ap (λ (i : ℕ). get_or (x ∷ xs ++ y ∷ z ∷ ys) i 0) e ∙ get_or-second xs y z ys n (omega arith)

module _ (bytes : Bytes) (l : DescriptorLoop) (new_loop : Bytes) (fits : Fits bytes l) where
  abbrev body : Bytes
  body = body_of bytes l new_loop

  abbrev front : Bytes
  front = with_length body

  length-prefix : length (take l.dlw_off bytes) ≡ l.dlw_off
  length-prefix =
      let r = fits.room in
      let s = fits.start in let e = fits.stop in omega (arith, length-take l.dlw_off bytes)

  length-stuffing : length (stuffing bytes l) ≡ length bytes - 4 - l.loop_end
  length-stuffing = omega (
    arith,
    length-take (length bytes - 4 - l.loop_end) (drop l.loop_end bytes),
    length-drop l.loop_end bytes,
  )

  length-body : length body + (l.loop_end - l.loop_start) + 4 ≡ length bytes + length new_loop
  length-body =
      let r = fits.room in
      let s = fits.start in
      let e = fits.stop in
      omega (
        arith,
        length-append (take l.dlw_off bytes) (
            (loop_word bytes l new_loop / 2 ^ 8)
            ∷ (loop_word bytes l new_loop % 2 ^ 8)
            ∷ (new_loop ++ stuffing bytes l)),
        length-append new_loop (stuffing bytes l),
        length-prefix,
        length-stuffing,
      )

  length-front : length front ≡ length body
  length-front = length-set (set body 1 _) 2 _ ∙ length-set body 1 _

  section_length-front :
      get_or front 1 0 % 2 ^ 4 * 2 ^ 8 + get_or front 2 0 ≡ (length front + 1) % 2 ^ 12
  section_length-front =
      let b = fits.behind in
      let long : 16 ≤ length body = omega (
        arith,
        length-append (take l.dlw_off bytes) (
            (loop_word bytes l new_loop / 2 ^ 8)
            ∷ (loop_word bytes l new_loop % 2 ^ 8)
            ∷ (new_loop ++ stuffing bytes l)),
        length-prefix,
      ) in
      let v = get_or body 1 0 / 2 ^ 4 * 2 ^ 4 + section_length_of body / 2 ^ 8 % 2 ^ 4 in
      let one : get_or front 1 0 ≡ v =
        get_or-set_other (set body 1 v) 2 1 _ 0 (λ h. omega arith)
        ∙ get_or-set body 1 v 0 (omega arith) in
      let two : get_or front 2 0 ≡ section_length_of body % 2 ^ 8 =
        get_or-set (set body 1 v) 2 _ 0 (omega (arith, length-set body 1 v)) in
      omega (arith, one, two, length-front)

  loop_word-front : length new_loop ≤ 0x3FF → word_at front l.dlw_off % 2 ^ 10 ≡ length new_loop
  loop_word-front short =
      let b = fits.behind in
      let w = loop_word bytes l new_loop in
      let rest = new_loop ++ stuffing bytes l in
      let keep : (i : ℕ) → 3 ≤ i → get_or front i 0 ≡ get_or body i 0 = λ i h.
        get_or-set_other (set body 1 _) 2 i _ 0 (λ e. omega arith)
        ∙ get_or-set_other body 1 i _ 0 (λ e. omega arith) in
      let hi : get_or front l.dlw_off 0 ≡ w / 2 ^ 8 =
        keep l.dlw_off (omega arith)
        ∙ get_or-append (take l.dlw_off bytes) (w / 2 ^ 8) ((w % 2 ^ 8) ∷ rest) l.dlw_off 0
            length-prefix in
      let lo : get_or front (l.dlw_off + 1) 0 ≡ w % 2 ^ 8 =
        keep (l.dlw_off + 1) (omega arith)
        ∙ get_or-second (take l.dlw_off bytes) (w / 2 ^ 8) (w % 2 ^ 8) rest l.dlw_off
            length-prefix in
      omega (arith, hi, lo)

-- What is returned is put together from a new loop that its ten length bits can hold.
data Reassembled (bytes : Bytes) (l : DescriptorLoop) (out : Bytes) : Type 0 where
  reassembled :
      (new_loop : Bytes)
      → length new_loop ≤ 0x3FF
      → reassemble bytes l new_loop ≡ out
      → Reassembled bytes l out

finish-Reassembled :
    (bytes out : Bytes) (l : DescriptorLoop) (o : Option (Bytes × Bool))
    → finish_rewrite bytes l o ≡ some out
    → Reassembled bytes l out
finish-Reassembled bytes out l none e = cc
finish-Reassembled bytes out l (some (new_loop, changed)) e =
    elim (Bool-cases (not changed || ltb 0x3FF (length new_loop))) [
      | inl c ↦ cc (let bad = rw c at e in bad)
      | inr c ↦ reassembled new_loop (ground arith) (ap (λ x. unwrap_or x out) (rw c at e))
    ]

run-Reassembled :
    (bytes out : Bytes) (l : DescriptorLoop) (r : Run (Option (Bytes × Bool)))
    → bind_run r (λ o. done (finish_rewrite bytes l o)) ≡ done (some out)
    → Reassembled bytes l out
run-Reassembled bytes out l (done o) e = finish-Reassembled bytes out l o (ap (unwrap_run none) e)
run-Reassembled bytes out l panics e = cc

rewrite_upid-Reassembled :
    (new_type : Option ℕ) (new_value : Text) (bytes out : Bytes) (l : DescriptorLoop)
    → locate_descriptor_loop bytes ≡ some l
    → rewrite_upid new_type new_value bytes ≡ done (some out)
    → Reassembled bytes l out
unfolding rewrite_upid
rewrite_upid-Reassembled new_type new_value bytes out l found e =
    run-Reassembled bytes out l
      (rewrite_loop (length bytes) bytes l.loop_end new_type new_value l.loop_start [] false)
      (rw (found, rewrite_upid) at e)

-- What the UPID rewrite promises of the bytes it returns, whose new loop has `n` bytes.
abbrev pub Consistent : Bytes → DescriptorLoop → Bytes → ℕ → Type 0
Consistent bytes l out n =
    (word_at out l.dlw_off % 2 ^ 10 ≡ n)
    × (length out + (l.loop_end - l.loop_start) ≡ length bytes + n)
    × (get_or out 1 0 % 2 ^ 4 * 2 ^ 8 + get_or out 2 0 ≡ (length out - 3) % 2 ^ 12)
    × (out ≡ take (length out - 4) out ++ to_be_bytes (compute_crc32 (take (length out - 4) out)))

reassemble-Consistent :
    (bytes : Bytes) (l : DescriptorLoop) (new_loop : Bytes)
    → Fits bytes l
    → length new_loop ≤ 0x3FF
    → Consistent bytes l (reassemble bytes l new_loop) (length new_loop)
unfolding reassemble
reassemble-Consistent bytes l new_loop fits short =
    let fr = with_length (body_of bytes l new_loop) in
    let tail = to_be_bytes (compute_crc32 fr) in
    let total : length (fr ++ tail) ≡ length fr + 4 = length-append fr tail in
    let len = length-front bytes l new_loop fits in
    let lb = length-body bytes l new_loop fits in
    let long : l.dlw_off + 2 ≤ length fr = omega (
      arith,
      len,
      length-append (take l.dlw_off bytes) (
          (loop_word bytes l new_loop / 2 ^ 8)
          ∷ (loop_word bytes l new_loop % 2 ^ 8)
          ∷ (new_loop ++ stuffing bytes l)),
      length-prefix bytes l new_loop fits,
    ) in
    let word = loop_word-front bytes l new_loop fits short in
    let first = get_or-front fr tail l.dlw_off 0 (omega arith) in
    let second = get_or-front fr tail (l.dlw_off + 1) 0 (omega arith) in
    let back : take (length (fr ++ tail) - 4) (fr ++ tail) ≡ fr =
      take-length fr tail (length (fr ++ tail) - 4) (omega (arith, total)) in
    let b = fits.behind in
    (
      omega (arith, first, second, word),
      omega (arith, total, len, lb),
      omega (
        arith,
        section_length-front bytes l new_loop fits,
        get_or-front fr tail 1 0 (omega arith),
        get_or-front fr tail 2 0 (omega arith),
        total,
      ),
      ap (λ (f : Bytes). f ++ to_be_bytes (compute_crc32 f)) (sym back),
    )

-- A section whose UPIDs are rewritten names its new lengths: the descriptor loop's word holds the
-- loop's new length, by which the section's length has changed, the 12 bits of the section length hold
-- what follows them, by 4096, and the last four bytes are the CRC of those before.
pub rewrite_upid-Consistent :
    (new_type : Option ℕ) (new_value : Text) (bytes out : Bytes) (l : DescriptorLoop)
    → locate_descriptor_loop bytes ≡ some l
    → rewrite_upid new_type new_value bytes ≡ done (some out)
    → (n : ℕ) × Consistent bytes l out n
rewrite_upid-Consistent new_type new_value bytes out l found e =
    elim (rewrite_upid-Reassembled new_type new_value bytes out l found e) [
      | reassembled new_loop short same ↦ (
        length new_loop,
        subst (λ (o : Bytes). Consistent bytes l o (length new_loop)) same
            (reassemble-Consistent bytes l new_loop (locate_descriptor_loop-Fits bytes l found)
              short),
      )
    ]
