-- ===== src/Scoring/Floats.antt =====
-- The floating-point arithmetic that backend/app/services/evaluation.py computes with. There are no
-- floats in this language, so the type and its operations are a parameter.
use nafas_hr.Prelude.{ℕ, Bool, if◌then◌else◌}

-- Python's `float`: `decimal n k` is the float of the decimal n / 10 ^ k, `round_to x k` is
-- `round(x, k)`, and `hundredths` is the value that a column of type Numeric(5, 2) stores.
pub record FloatOps (F : Type 0) : Type 0 where
  pub decimal : ℕ → ℕ → F
  pub add : F → F → F
  pub sub : F → F → F
  pub mul : F → F → F
  pub div : F → F → F
  pub lt : F → F → Bool
  pub is_zero : F → Bool
  pub round_to : F → ℕ → F
  pub hundredths : F → ℕ

module _ {F : Type 0} (fl : FloatOps F) where
  -- `max(a, b)` and `min(a, b)`, which keep the first of equal values.
  unfoldable pub larger : F → F → F
  larger a b = if fl.lt a b then b else a

  unfoldable pub smaller : F → F → F
  smaller a b = if fl.lt b a then b else a
