-- ===== src/Outcome.antt =====
-- The answer of a call: a value, an `AppError`, the answer of one of axum's own extractors (by its
-- status), or a panic that unwinds.
use xray_bridge.Prelude.{ℕ}
use xray_bridge.Error.{AppError}

pub data Outcome (A : Type 0) : Type 0 where
  done : A → Outcome A
  fail : AppError → Outcome A
  reject : ℕ → Outcome A
  panic : Outcome A
