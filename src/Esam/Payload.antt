-- ===== src/Esam/Payload.antt =====
-- src/main.rs, `maybe_build_scte35` and `apply_action`: the outbound payload of a rule's action.
pub mod Laws
use Prim.Native.String.{String}
use text.Mathlib.Text.{◌==◌ as str_eq}
use rust_pois.Prelude.{
  or_else, ℕ, zero, suc, ◌+◌, ◌-◌, ◌*◌, ◌%◌, ◌^◌, Bool, true, false, not, ◌&&◌, ◌||◌, Option, none,
  some, List, [], ◌∷◌, map, length, ltb, leb, ◌==◌, ◌!=◌, if◌then◌else◌, Run, done, panics,
  bind_run, unwrap_or, bind_option, Text, codes, text_eq, starts_with, drop, to_lower, ℤ,
}
use rust_pois.Bits.{Bytes}
use rust_pois.Json.{Value, Fields, get, get_str, as_str, lookup}
use rust_pois.Scte35.Upid.{hex_digit}
use rust_pois.Scte35.Build.{
  is_some, build_time_signal_section, build_time_signal_immediate_section,
  build_splice_insert_out_section,
}
use rust_pois.Tools.Input.{whitespace}
use rust_pois.Tools.Rewrite.Text.{
  rewrite_upid_b64, rewrite_delivery_flags_b64, rewrite_break_duration_b64,
  adjust_break_duration_b64,
}
use rust_pois.Esam.{Serde, Env}

-- `Map::insert`; the order of the entries is left out.
unfoldable pub insert_field : String → Value → Fields → Fields
insert_field key v Fields.end = Fields.field key v Fields.end
insert_field key v (Fields.field k w rest) =
    let later = insert_field key v rest in
    if str_eq k key then Fields.field k v rest else Fields.field k w later

-- `p[key] = v`: null becomes an object, and another value that is none panics.
unfoldable pub set_field : String → Value → Value → Run Value
unfolding insert_field
set_field key v Value.null = done (Value.object (Fields.field key v Fields.end))
set_field key v (Value.object fields) = done (Value.object (insert_field key v fields))
set_field key v _ = panics

-- `str::trim`, at either end
unfoldable pub trim_start : ℕ → Text → Text
trim_start skip [] = []
trim_start (suc skip) (c ∷ s) = trim_start skip s
trim_start zero (c ∷ s) =
    let n = whitespace (c ∷ s) in let rest = trim_start (n - 1) s in if n != 0 then rest else c ∷ s

unfoldable pub only_white : Text → Bool
unfolding trim_start
only_white s = length (trim_start 0 s) == 0

unfoldable pub trim_end : Text → Text
unfolding only_white
trim_end [] = []
trim_end (c ∷ s) = let rest = trim_end s in if only_white (c ∷ s) then [] else c ∷ rest

-- `trim_start_matches` of a pattern of two bytes; `fuel` is the length of the text.
unfoldable pub trim_prefix : ℕ → Text → Text → Text
trim_prefix zero part s = s
trim_prefix (suc fuel) part s =
    let rest = trim_prefix fuel part (drop 2 s) in if starts_with s part then rest else s

-- The digits of `u8::from_str_radix(s, 16)`
unfoldable pub hex_value : ℕ → Text → Option ℕ
hex_value acc [] = some acc
hex_value acc (c ∷ s) =
    bind_option (hex_digit c)
      (λ d. if ltb 255 (acc * 16 + d) then none else hex_value (acc * 16 + d) s)

unfoldable pub from_hex_u8 : Text → Option ℕ
unfolding hex_value
from_hex_u8 [] = none
from_hex_u8 (c ∷ []) = hex_value 0 (c ∷ [])
from_hex_u8 (c ∷ d ∷ s) = if c == b'+' then hex_value 0 (d ∷ s) else hex_value 0 (c ∷ d ∷ s)

unfoldable pub parse_hex_u8 : Text → Option ℕ
unfolding trim_end trim_prefix from_hex_u8
parse_hex_u8 s =
    let t = trim_end (trim_start 0 s) in
    let u = trim_prefix (length t) (codes "0x") t in
    from_hex_u8 (trim_prefix (length u) (codes "0X") u)

-- `.get(key).and_then(|v| v.as_u64())`, `as_bool` and, on the way to ticks, `as_f64`.
abbrev pub number_text : Value → Option Text
number_text (Value.number t) = some t
number_text _ = none

abbrev pub as_bool : Value → Option Bool
as_bool (Value.boolean b) = some b
as_bool _ = none

unfoldable pub get_bool : String → Value → Option Bool
get_bool key v = bind_option (get key v) as_bool

unfoldable pub get_u64 : Serde → String → Value → Option ℕ
get_u64 serde key v = bind_option (get key v) (λ w. bind_option (number_text w) serde.as_u64)

abbrev pub hex_field : String → Value → Option ℕ
hex_field key v = bind_option (get_str key v) parse_hex_u8

-- The `match cmd` of `maybe_build_scte35`: the `_b64` builders of src/scte35.rs, each the encoding of
-- its section.
unfoldable pub build_command : Env → Value → Text → Run Text
unfolding get_u64 parse_hex_u8
build_command env build cmd =
    let seg_type = hex_field "segmentation_type_id" build in
    let upid_type = hex_field "upid_type" build in
    let upid_val = get_str "upid" build in
    let advanced = is_some seg_type || is_some upid_type || is_some upid_val in
    let dur = unwrap_or (get_u64 env.serde "duration_s" build) 0 % 2 ^ 32 in
    let encoded =
      λ (section : Run Bytes). bind_run section (λ bytes. done (env.b64.encode bytes)) in
    if text_eq cmd (codes "time_signal_immediate") || text_eq cmd (codes "time_signal")
    then encoded (
        if advanced
        then build_time_signal_section seg_type upid_type upid_val
        else build_time_signal_immediate_section)
    else if text_eq cmd (codes "splice_insert_out")
    then encoded (
        if advanced
        then build_splice_insert_out_section dur seg_type upid_type upid_val
        else build_splice_insert_out_section dur none none none)
    else done []

abbrev pub put_built : Value → Text → Run Value
put_built params [] = done params
put_built params (c ∷ out) = set_field "scte35_b64" (Value.string (c ∷ out)) params

unfoldable pub maybe_build_scte35 : Env → Value → Run Value
unfolding build_command set_field
maybe_build_scte35 env params = elim (get "build" params) [
  | none ↦ done params
  | some build ↦ elim (get_str "command" build) [
    | none ↦ done params
    | some cmd ↦ bind_run (build_command env build cmd) (put_built params)
  ]
]

-- `if let Some(o) = orig_b64 { p["scte35_b64"] = … }`
abbrev pub pass_through : Value → Option Text → Run Value
pass_through p none = done p
pass_through p (some o) = set_field "scte35_b64" (Value.string o) p

unfoldable pub set_payload : Value → Option Text → Option Text → Run Value
unfolding set_field
set_payload p (some b) orig = set_field "scte35_b64" (Value.string b) p
set_payload p none orig = pass_through p orig

-- `orig_b64.and_then(edit)`, and the payload from what it gives.
abbrev pub edit_payload : Value → Option Text → (Text → Run (Option Text)) → Run Value
edit_payload p none edit = set_payload p none none
edit_payload p (some o) edit = bind_run (edit o) (λ edited. set_payload p edited (some o))

-- The edit of the UPID that `v` describes.
abbrev pub upid_edit : Env → Value → Text → Run (Option Text)
upid_edit env v o =
    rewrite_upid_b64 env.b64 o (hex_field "upid_type" v) (unwrap_or (get_str "upid" v) [])

abbrev pub delivery_edit : Env → Value → Text → Run (Option Text)
delivery_edit env r o =
    rewrite_delivery_flags_b64 env.b64 o (unwrap_or (get_bool "web_delivery_allowed" r) false)
      (unwrap_or (get_bool "no_regional_blackout" r) false)
      (unwrap_or (get_bool "archive_allowed" r) true)
      (unwrap_or (get_u64 env.serde "device_restrictions" r) 0 % 256)

-- The number of seconds under the first of two keys that is there.
abbrev pub seconds : String → String → Value → Option Text
seconds first second p = bind_option (or_else (get first p) (get second p)) number_text

abbrev pub when_some : Option Text → (Text → Run (Option Text)) → Run (Option Text)
when_some none edit = done none
when_some (some s) edit = edit s

abbrev pub set_seconds : Env → Value → Text → Run (Option Text)
set_seconds env p o =
    when_some (seconds "to_duration_s" "duration_s" p)
      (λ s. rewrite_break_duration_b64 env.b64 o (env.serde.ticks_u64 s))

abbrev pub add_seconds : Env → Value → Text → Run (Option Text)
add_seconds env p o =
    when_some (seconds "duration_s" "to_duration_s" p)
      (λ s. adjust_break_duration_b64 env.b64 o (env.serde.ticks_i64 s))

abbrev pub restrictions : Value → Value
restrictions p = unwrap_or (get "restrictions" p) (Value.object Fields.end)

-- The arms of the `match` on the action in lower case.
unfoldable pub act : Env → Text → Value → Option Text → Run Value
unfolding set_payload get_bool get_u64 parse_hex_u8
act env action p orig =
    let is = λ (name : String). text_eq action (codes name) in
    if is "noop" || is "tracking-only" || is "slate"
    then pass_through p orig
    else if is "replace"
    then elim (get "rewrite_upid" p) [
      | none ↦ done p
      | some rw' ↦ edit_payload p orig (upid_edit env rw')
    ]
    else if is "regionalize"
    then edit_payload p orig (upid_edit env p)
    else if is "blackout"
    then edit_payload p orig (delivery_edit env (restrictions p))
    else if is "shorten" || is "fill"
    then edit_payload p orig (set_seconds env p)
    else if is "extend"
    then edit_payload p orig (add_seconds env p)
    else if is "delete"
    then done p
    else pass_through p orig

unfoldable pub apply_action : Env → Text → Value → Option Text → Run Value
unfolding maybe_build_scte35 act
apply_action env action params orig =
    bind_run (maybe_build_scte35 env params) (λ p. act env (map to_lower action) p orig)
