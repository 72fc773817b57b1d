-- ===== src/Tools/Rewrite/Text.antt =====
-- src/tools_api.rs, the rewriters on texts: `*_b64`.
use rust_pois.Prelude.{
  ℕ, Bool, Option, none, some, bind_option, Run, done, bind_run, ok, err, Text, ℤ,
}
use rust_pois.Bits.{Bytes}
use rust_pois.Tools.Input.{Base64, scte35_input_to_bytes}
use rust_pois.Tools.Rewrite.{rewrite_delivery_flags, rewrite_break_duration, adjust_break_duration}
use rust_pois.Tools.Rewrite.Upid.{rewrite_upid}

-- `scte35_input_to_bytes(input).ok()?`, the edit, and `Some(B64.encode(out))`.
abbrev pub on_input : Base64 → Text → (Bytes → Run (Option Bytes)) → Run (Option Text)
on_input b64 input edit = bind_run (scte35_input_to_bytes b64 input) (λ r. elim r [
  | err e ↦ done none
  | ok bytes ↦ bind_run (edit bytes) (λ o. done (bind_option o (λ out. some (b64.encode out))))
])

unfoldable pub rewrite_upid_b64 : Base64 → Text → Option ℕ → Text → Run (Option Text)
rewrite_upid_b64 b64 input new_type new_value = on_input b64 input (rewrite_upid new_type new_value)

unfoldable pub rewrite_delivery_flags_b64 :
    Base64 → Text → Bool → Bool → Bool → ℕ → Run (Option Text)
rewrite_delivery_flags_b64 b64 input web nrb archive device =
    on_input b64 input (λ bytes. done (rewrite_delivery_flags web nrb archive device bytes))

unfoldable pub rewrite_break_duration_b64 : Base64 → Text → ℕ → Run (Option Text)
rewrite_break_duration_b64 b64 input new_ticks =
    on_input b64 input (rewrite_break_duration new_ticks)

unfoldable pub adjust_break_duration_b64 : Base64 → Text → ℤ → Run (Option Text)
adjust_break_duration_b64 b64 input delta_ticks =
    on_input b64 input (adjust_break_duration delta_ticks)
