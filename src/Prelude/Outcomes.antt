-- ===== src/Prelude/Outcomes.antt =====
-- The results of Rust code: a value, an `Err`, or a panic.
use mathlib.Core.Bool.{Bool, true, false}
use mathlib.Core.Option.{Option, none, some}

-- `Result<T, E>`
pub data Result {ℓ} (E A : Type ℓ) : Type ℓ where
  ok : A → Result E A
  err : E → Result E A

-- What a call does that may panic.
pub data Run {ℓ} (A : Type ℓ) : Type ℓ where
  done : A → Run A
  panics : Run A

abbrev pub bind_run {ℓ κ} : {A : Type ℓ} {B : Type κ} → Run A → (A → Run B) → Run B
bind_run (done a) f = f a
bind_run panics f = panics

-- `Option::unwrap_or`
abbrev pub unwrap_or {ℓ} : {A : Type ℓ} → Option A → A → A
unwrap_or none d = d
unwrap_or (some a) d = a

abbrev pub bind_option {ℓ κ} : {A : Type ℓ} {B : Type κ} → Option A → (A → Option B) → Option B
bind_option none f = none
bind_option (some a) f = f a

-- `Option::or`
abbrev pub or_else {ℓ} : {A : Type ℓ} → Option A → Option A → Option A
or_else (some a) o = some a
or_else none o = o

-- `Option::is_some`
abbrev pub is_there {ℓ} : {A : Type ℓ} → Option A → Bool
is_there none = false
is_there (some _) = true

-- What a run gives, or a default.
abbrev pub unwrap_run : {A : Type 0} → A → Run A → A
unwrap_run a (done b) = b
unwrap_run a panics = a

-- `Result::unwrap_or`, the default first.
abbrev pub unwrap_ok {ℓ} : {E A : Type ℓ} → A → Result E A → A
unwrap_ok a (ok b) = b
unwrap_ok a (err e) = a
