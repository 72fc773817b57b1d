-- ===== src/Tools/Rewrite.antt =====
-- src/tools_api.rs: the edits of an incoming section, on its bytes. Each closes the section with its
-- CRC again. `none` says that the caller passes the original on.
pub mod Within
pub mod Indexing
pub mod Outcome
pub mod Walk
pub mod Closing
pub mod Marks
pub mod Segments
pub mod Delivery
pub mod Durations
pub mod Upid
pub mod Text
mod Examples
use rust_pois.Prelude.{
  is_there, ℕ, zero, suc, ◌+◌, ◌-◌, ◌*◌, ◌/◌, ◌%◌, ◌^◌, Bool, true, false, not, ◌&&◌, ◌||◌, Option,
  none, some, List, [], ◌∷◌, ◌++◌, length, take, drop, set, get_or, get_elem?, bind_option,
  unwrap_or, ltb, leb, ◌==◌, ◌!=◌, if◌then◌else◌, ℤ, pos, negsuc, Run, done, panics, bind_run,
}
use rust_pois.Bits.{Bytes}
use rust_pois.Scte35.Crc.{compute_crc32, to_be_bytes}
use rust_pois.Scte35.Upid.{encode_upid}
use rust_pois.Tools.Locate.{
  DescriptorLoop, word_at, locate_descriptor_loop, locate_break_duration, after_components,
  seg_duration_offset,
}

-- `bytes[i..j]`
abbrev pub slice : ℕ → ℕ → Bytes → Bytes
slice i j bytes = take (j - i) (drop i bytes)

-- The last four bytes become the CRC of those before them.
unfoldable pub refresh_crc_in_place : Bytes → Bytes
refresh_crc_in_place bytes =
    let front = take (length bytes - 4) bytes in front ++ to_be_bytes (compute_crc32 front)

-- What a walk over the descriptors leaves: the bytes, whether some were edited, and whether it came to
-- the end of the loop, not to a descriptor that reaches beyond it.
pub record Walked : Type 0 where
  pub bytes : Bytes
  pub changed : Bool
  pub complete : Bool

-- The loop over the descriptors, at `cursor`. An edit is given the bytes, the place of the tag, the body's
-- start and its end, and says whether it changed anything.
unfoldable pub walk : (Bytes → ℕ → ℕ → ℕ → Option Bytes) → ℕ → ℕ → ℕ → Bytes → Bool → Walked
walk edit zero loop_end cursor bytes changed = record {
  bytes = bytes;
  changed = changed;
  complete = true;
}
walk edit (suc fuel) loop_end cursor bytes changed =
    let body_end = cursor + 2 + get_or bytes (cursor + 1) 0 in
    let edited = edit bytes cursor (cursor + 2) body_end in
    let rest =
      walk edit fuel loop_end body_end (unwrap_or edited bytes)
        (elim edited [ some _ ↦ true | none ↦ changed ]) in
    if ltb loop_end (cursor + 2)
    then record { bytes = bytes; changed = changed; complete = true }
    else if ltb loop_end body_end
    then record { bytes = bytes; changed = changed; complete = false }
    else rest

abbrev pub flag : Bool → ℕ
flag true = 1
flag false = 0

-- The flags byte of a segmentation descriptor that is not cancelled: its two high bits stay.
unfoldable pub restrict_delivery : Bool → Bool → Bool → ℕ → Bytes → ℕ → ℕ → ℕ → Option Bytes
restrict_delivery web nrb archive device bytes cursor body_start body_end =
    let restr = flag web * 2 ^ 4 + flag nrb * 2 ^ 3 + flag archive * 2 ^ 2 + device % 2 ^ 2 in
    let flags = get_or bytes (body_start + 9) 0 in
    if get_or bytes cursor 0 == 0x02
      && leb 10 (body_end - body_start)
      && get_or bytes (body_start + 8) 0 / 2 ^ 7 % 2 == 0
    then some (set bytes (body_start + 9) (flags / 2 ^ 6 % 2 ^ 2 * 2 ^ 6 + restr))
    else none

abbrev pub refreshed : Bool → Bytes → Option Bytes
refreshed changed bytes = if changed then some (refresh_crc_in_place bytes) else none

unfoldable pub rewrite_delivery_flags : Bool → Bool → Bool → ℕ → Bytes → Option Bytes
unfolding walk restrict_delivery
rewrite_delivery_flags web nrb archive device bytes =
    bind_option (locate_descriptor_loop bytes) (λ l.
      let walked =
        walk (restrict_delivery web nrb archive device) (length bytes) l.loop_end l.loop_start bytes
          false in
      if walked.complete then refreshed walked.changed walked.bytes else none)

-- `bytes[i] = (t >> 8) as u8; …`: the four low bytes of `t` from place `i` on.
abbrev pub put_word : ℕ → ℕ → Bytes → Bytes
put_word i t bytes =
    set
      (set (set (set bytes i (t / 2 ^ 24 % 256)) (i + 1) (t / 2 ^ 16 % 256)) (i + 2)
        (t / 2 ^ 8 % 256))
      (i + 3) (t % 256)

-- The 33 bits behind auto_return and the reserved bits.
abbrev pub put_break : ℕ → ℕ → Bytes → Bytes
put_break bd t bytes =
    put_word (bd + 1) t (set bytes bd (get_or bytes bd 0 / 2 * 2 + t / 2 ^ 32 % 2))

abbrev pub get_word : ℕ → Bytes → ℕ
get_word i bytes =
    get_or bytes i 0 * 2 ^ 24
    + get_or bytes (i + 1) 0 * 2 ^ 16
    + get_or bytes (i + 2) 0 * 2 ^ 8
    + get_or bytes (i + 3) 0

abbrev pub get_break : ℕ → Bytes → ℕ
get_break bd bytes = get_or bytes bd 0 % 2 * 2 ^ 32 + get_word (bd + 1) bytes

abbrev pub put_duration : ℕ → ℕ → Bytes → Bytes
put_duration i t bytes = put_word (i + 1) t (set bytes i (t / 2 ^ 32 % 256))

abbrev pub get_duration : ℕ → Bytes → ℕ
get_duration i bytes = get_or bytes i 0 * 2 ^ 32 + get_word (i + 1) bytes

-- The duration of a segmentation descriptor that has one becomes what `f` makes of it.
unfoldable pub change_duration : (ℕ → ℕ) → Bytes → ℕ → ℕ → ℕ → Option Bytes
change_duration f bytes cursor body_start body_end =
    if get_or bytes cursor 0 == 0x02
    then bind_option (seg_duration_offset (slice body_start body_end bytes)) (λ off.
      some (put_duration (body_start + off) (f (get_duration (body_start + off) bytes)) bytes))
    else none

-- `bytes[i]` and `bytes[i] = v`
unfoldable pub index : Bytes → ℕ → Run ℕ
index bytes i = if ltb i (length bytes) then done (get_or bytes i 0) else panics

unfoldable pub store : Bytes → ℕ → ℕ → Run Bytes
store bytes i v = if ltb i (length bytes) then done (set bytes i v) else panics

-- The five readings, of which `rewrite_break_duration_b64` makes the first only.
unfoldable pub read_break : ℕ → Bytes → Run ℕ
unfolding index
read_break bd bytes = bind_run (index bytes bd) (λ a. bind_run (index bytes (bd + 1)) (λ b.
    bind_run (index bytes (bd + 2)) (λ c. bind_run (index bytes (bd + 3)) (λ d.
      bind_run (index bytes (bd + 4))
        (λ e. done (a % 2 * 2 ^ 32 + (b * 2 ^ 24 + c * 2 ^ 16 + d * 2 ^ 8 + e)))))))

-- The five assignments.
unfoldable pub write_break : ℕ → ℕ → Bytes → Run Bytes
unfolding index store
write_break bd t bytes = bind_run (index bytes bd) (λ a.
    bind_run (store bytes bd (a / 2 * 2 + t / 2 ^ 32 % 2)) (λ b₁.
      bind_run (store b₁ (bd + 1) (t / 2 ^ 24 % 256)) (λ b₂.
        bind_run (store b₂ (bd + 2) (t / 2 ^ 16 % 256)) (λ b₃.
          bind_run (store b₃ (bd + 3) (t / 2 ^ 8 % 256)) (λ b₄. store b₄ (bd + 4) (t % 256))))))

unfoldable pub change_break : (ℕ → ℕ) → Bytes → Run (Option Bytes)
unfolding read_break write_break
change_break f bytes = elim (locate_break_duration bytes) [
  | none ↦ done none
  | some bd ↦
      bind_run (read_break bd bytes)
        (λ cur. bind_run (write_break bd (f cur) bytes) (λ out. done (some out)))
]

-- Here a descriptor that reaches beyond the loop only ends the walk.
abbrev pub change_segments : (ℕ → ℕ) → Bytes → Bool → Walked
change_segments f bytes changed = elim (locate_descriptor_loop bytes) [
  | none ↦ record { bytes = bytes; changed = changed; complete = true }
  | some l ↦ walk (change_duration f) (length bytes) l.loop_end l.loop_start bytes changed
]

-- `f` for break_duration, cut to 33 bits, and `f` for segmentation_duration, cut to 40.
unfoldable pub change_durations : (ℕ → ℕ) → Bytes → Run (Option Bytes)
unfolding walk change_duration change_break
change_durations f bytes = bind_run (change_break (λ cur. f cur % 2 ^ 33) bytes) (λ broken.
    let walked =
      change_segments (λ cur. f cur % 2 ^ 40) (unwrap_or broken bytes) (is_there broken) in
    done (refreshed walked.changed walked.bytes))

unfoldable pub rewrite_break_duration : ℕ → Bytes → Run (Option Bytes)
unfolding change_durations
rewrite_break_duration new_ticks = change_durations (λ cur. new_ticks)

-- `(cur as i64 + delta).max(0)`: a sum of 2 ^ 63 or more wraps around to a negative one.
unfoldable pub add_ticks : ℤ → ℕ → ℕ
add_ticks (pos d) cur = if leb (2 ^ 63) (cur + d) then 0 else cur + d
add_ticks (negsuc d) cur = cur - (d + 1)

unfoldable pub adjust_break_duration : ℤ → Bytes → Run (Option Bytes)
unfolding change_durations add_ticks
adjust_break_duration delta_ticks = change_durations (add_ticks delta_ticks)
