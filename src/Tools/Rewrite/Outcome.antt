-- ===== src/Tools/Rewrite/Outcome.antt =====
-- The ways that `change_durations` can end.
use rust_pois.Prelude.{
  is_there, unwrap_run, ℕ, ◌+◌, ◌%◌, ◌^◌, ◌≤◌, ◌<◌, ◌≡◌, inl, inr, refl, sym, ap, ◌∙◌, Bool, true,
  false, Option, some, none, arith, length, Bool-cases, Option-cases, ltb→lt, ltb, unwrap_or, Run,
  done, panics, bind_run,
}
use rust_pois.Bits.{Bytes}
use rust_pois.Tools.Locate.{locate_break_duration}
use rust_pois.Tools.Rewrite.{
  Walked, put_break, get_break, change_break, change_segments, change_durations, refreshed,
}
use rust_pois.Tools.Rewrite.Indexing.{read_break-some, read_break-short, write_break-some}

abbrev pub segments_of : (ℕ → ℕ) → Bytes → Bool → Walked
segments_of f = change_segments (λ cur. f cur % 2 ^ 40)

abbrev pub broken : (ℕ → ℕ) → ℕ → Bytes → Bytes
broken f bd bytes = put_break bd (f (get_break bd bytes) % 2 ^ 33) bytes

abbrev pub Refreshed : (ℕ → ℕ) → ℕ → Bytes → Bytes → Type 0
Refreshed f bd bytes out =
    refreshed (segments_of f (broken f bd bytes) true).changed
      (segments_of f (broken f bd bytes) true).bytes
    ≡ some out

-- The two ways to a result.
pub data Outcome (f : ℕ → ℕ) (bytes out : Bytes) : Type 0 where
  no_break :
      locate_break_duration bytes ≡ none
      → refreshed (segments_of f bytes false).changed (segments_of f bytes false).bytes ≡ some out
      → Outcome f bytes out
  at_break :
      (bd : ℕ)
      → locate_break_duration bytes ≡ some bd
      → bd + 5 ≤ length bytes
      → Refreshed f bd bytes out
      → Outcome f bytes out

-- What follows the edit of the break duration.
unfoldable pub finish : (ℕ → ℕ) → Bytes → Run (Option Bytes) → Run (Option Bytes)
finish f bytes r = bind_run r (λ b.
    let walked = segments_of f (unwrap_or b bytes) (is_there b) in
    done (refreshed walked.changed walked.bytes))

pub finish-change :
    (f : ℕ → ℕ) (bytes : Bytes)
    → change_durations f bytes ≡ finish f bytes (change_break (λ cur. f cur % 2 ^ 33) bytes)
unfolding change_durations finish
finish-change f bytes = refl

module _ (f : ℕ → ℕ) (bytes : Bytes) where
  pub change_break-none : locate_break_duration bytes ≡ none → change_break f bytes ≡ done none
  unfolding change_break
  change_break-none c = rw (c, change_break) refl

  pub change_break-short :
      (bd : ℕ)
      → locate_break_duration bytes ≡ some bd
      → length bytes < bd + 5
      → change_break f bytes ≡ panics
  unfolding change_break
  change_break-short bd c short = rw (c, read_break-short bd bytes short, change_break) refl

  pub change_break-some :
      (bd : ℕ)
      → locate_break_duration bytes ≡ some bd
      → bd + 5 ≤ length bytes
      → change_break f bytes ≡ done (some (put_break bd (f (get_break bd bytes)) bytes))
  unfolding change_break
  change_break-some bd c room =
      rw
        (
          c,
          read_break-some bd bytes room,
          write_break-some bd (f (get_break bd bytes)) bytes room,
          change_break,
        )
        refl

pub outcome :
    (f : ℕ → ℕ) (bytes out : Bytes)
    → change_durations f bytes ≡ done (some out)
    → Outcome f bytes out
unfolding finish
outcome f bytes out e =
    let g : ℕ → ℕ = λ cur. f cur % 2 ^ 33 in
    let e' = sym (finish-change f bytes) ∙ e in
    elim (Option-cases (locate_break_duration bytes)) [
      | inl c ↦
          no_break c
            (ap (unwrap_run none) (sym (ap (finish f bytes) (change_break-none g bytes c)) ∙ e'))
      | inr (bd, c) ↦ elim (Bool-cases (ltb (length bytes) (bd + 5))) [
        | inl c' ↦
            let bad : panics ≡ done (some out) =
              sym (ap (finish f bytes) (change_break-short g bytes bd c (ltb→lt _ _ c'))) ∙ e' in
            cc
        | inr c' ↦ at_break bd c (ground arith) (
            ap (unwrap_run none)
              (sym (ap (finish f bytes) (change_break-some g bytes bd c (ground arith))) ∙ e'))
      ]
    ]
