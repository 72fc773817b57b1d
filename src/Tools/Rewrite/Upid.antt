-- ===== src/Tools/Rewrite/Upid.antt =====
-- src/tools_api.rs, `rewrite_upid_b64` on the bytes of a section: the UPID of every segmentation
-- descriptor is replaced, and the lengths around it follow.
pub mod Laws
use rust_pois.Prelude.{
  ℕ, zero, suc, ◌+◌, ◌-◌, ◌*◌, ◌/◌, ◌%◌, ◌^◌, Bool, true, false, not, ◌&&◌, ◌||◌, Option, none,
  some, List, [], ◌∷◌, ◌++◌, length, take, drop, set, get_or, get_elem?, bind_option, unwrap_or,
  ltb, leb, ◌==◌, ◌!=◌, if◌then◌else◌, Run, done, panics, bind_run, Text,
}
use rust_pois.Bits.{Bytes}
use rust_pois.Scte35.Crc.{compute_crc32, to_be_bytes}
use rust_pois.Scte35.Upid.{encode_upid}
use rust_pois.Tools.Locate.{DescriptorLoop, word_at, locate_descriptor_loop, after_components}
use rust_pois.Tools.Rewrite.{slice}

-- What `rewrite_seg_descriptor_body` finds of a body: the place of the UPID's type, the type, and what
-- follows the UPID.
pub record UpidField : Type 0 where
  pub idx : ℕ
  pub upid_type : ℕ
  pub tail : Bytes

unfoldable pub find_upid : Bytes → Option UpidField
find_upid body =
    if ltb (length body) 9 || get_or body 8 0 / 2 ^ 7 % 2 != 0
    then none
    else bind_option (get_elem? body 9) (λ flags.
      bind_option (after_components body (flags / 2 ^ 7 % 2 != 0)) (λ start.
        let idx = if flags / 2 ^ 6 % 2 != 0 then start + 5 else start in
        bind_option (get_elem? body idx) (λ upid_type.
          bind_option (get_elem? body (idx + 1)) (λ upid_len.
            if ltb (length body) (idx + 2 + upid_len)
            then none
            else some (record {
              idx = idx;
              upid_type = upid_type;
              tail = drop (idx + 2 + upid_len) body;
            })))))

-- The new body, around the encoded UPID.
abbrev pub with_upid : Bytes → UpidField → ℕ → Bytes → Option Bytes
with_upid body at new_type new_upid =
    if ltb 255 (length new_upid)
    then none
    else some (take at.idx body ++ (new_type ∷ (length new_upid % 2 ^ 8) ∷ (new_upid ++ at.tail)))

unfoldable pub rewrite_seg_descriptor_body : Bytes → Option ℕ → Text → Run (Option Bytes)
unfolding find_upid
rewrite_seg_descriptor_body body new_type new_value = elim (find_upid body) [
  | none ↦ done none
  | some at ↦
      let new_type_val = unwrap_or new_type at.upid_type in
      bind_run (encode_upid new_type_val new_value)
        (λ new_upid. done (with_upid body at new_type_val new_upid))
]

-- One descriptor of the new loop, and whether it is a changed one; `none` gives the rewrite up.
abbrev pub new_descriptor : Bytes → Option Bytes → Option (Bytes × Bool)
new_descriptor old (some nb) =
    if leb (length nb) 255 then some (0x02 ∷ (length nb % 2 ^ 8) ∷ nb, true) else none
new_descriptor old none = some (old, false)

unfoldable pub rewrite_descriptor : Bytes → Option ℕ → Text → Run (Option (Bytes × Bool))
unfolding rewrite_seg_descriptor_body
rewrite_descriptor old new_type new_value =
    if get_or old 0 0 == 0x02
    then bind_run (rewrite_seg_descriptor_body (drop 2 old) new_type new_value)
        (λ o. done (new_descriptor old o))
    else done (some (old, false))

-- The loop over the descriptors, at `cursor`.
unfoldable pub rewrite_loop :
    ℕ → Bytes → ℕ → Option ℕ → Text → ℕ → Bytes → Bool → Run (Option (Bytes × Bool))
unfolding rewrite_descriptor
rewrite_loop zero bytes loop_end new_type new_value cursor new_loop changed =
    done (some (new_loop, changed))
rewrite_loop (suc fuel) bytes loop_end new_type new_value cursor new_loop changed =
    let body_end = cursor + 2 + get_or bytes (cursor + 1) 0 in
    if ltb loop_end (cursor + 2)
    then done (some (new_loop, changed))
    else if ltb loop_end body_end
    then done none
    else bind_run (rewrite_descriptor (slice cursor body_end bytes) new_type new_value) (λ o.
      elim o [
        | none ↦ done none
        | some (piece, edited) ↦
            rewrite_loop fuel bytes loop_end new_type new_value body_end (new_loop ++ piece)
              (changed || edited)
      ])

-- Header and command, the new loop with its length, what followed the loop, and the lengths and the CRC.
unfoldable pub reassemble : Bytes → DescriptorLoop → Bytes → Bytes
reassemble bytes l new_loop =
    let new_word = word_at bytes l.dlw_off / 2 ^ 10 * 2 ^ 10 + length new_loop % 2 ^ 10 in
    let out =
      take l.dlw_off bytes
      ++ ((new_word / 2 ^ 8)
          ∷ (new_word % 2 ^ 8)
          ∷ (new_loop ++ slice l.loop_end (length bytes - 4) bytes)) in
    let section_length = (length out + 4 - 3) % 2 ^ 16 in
    let out₁ = set out 1 (get_or out 1 0 / 2 ^ 4 * 2 ^ 4 + section_length / 2 ^ 8 % 2 ^ 4) in
    let out₂ = set out₁ 2 (section_length % 2 ^ 8) in out₂ ++ to_be_bytes (compute_crc32 out₂)

abbrev pub finish_rewrite : Bytes → DescriptorLoop → Option (Bytes × Bool) → Option Bytes
finish_rewrite bytes l none = none
finish_rewrite bytes l (some (new_loop, changed)) =
    if not changed || ltb 0x3FF (length new_loop) then none else some (reassemble bytes l new_loop)

unfoldable pub rewrite_upid : Option ℕ → Text → Bytes → Run (Option Bytes)
unfolding rewrite_loop reassemble
rewrite_upid new_type new_value bytes = elim (locate_descriptor_loop bytes) [
  | none ↦ done none
  | some l ↦
      bind_run
        (rewrite_loop (length bytes) bytes l.loop_end new_type new_value l.loop_start [] false)
        (λ o. done (finish_rewrite bytes l o))
]
