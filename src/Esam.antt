-- ===== src/Esam.antt =====
-- src/main.rs and src/esam.rs: what a matched rule makes of a signal, and the answer that is sent. The
-- SESAME exchange in front of it, the parse of the XML into facts and the event log are not here.
pub mod Payload
pub mod Escape
pub mod Notification
pub mod Decide
mod Examples
use rust_pois.Prelude.{ℕ, ℤ, Option, Text}
use rust_pois.Json.{Value}
use rust_pois.Tools.Input.{Base64}

-- What `serde_json` makes of a number: `as_u64`, and `as_f64` times 90000.0 as a `u64` and as an `i64`;
-- and its printer and parser of values.
pub record Serde : Type 0 where
  pub as_u64 : Text → Option ℕ
  pub ticks_u64 : Text → ℕ
  pub ticks_i64 : Text → ℤ
  pub to_string : Value → Text
  pub from_str : Text → Option Value

pub record Env : Type 0 where
  pub b64 : Base64
  pub serde : Serde
