-- ===== src/Platform.antt =====
-- What the program takes from outside its sources: the arithmetic of `f64`, and the codes that
-- libevdev names `BTN_*`, from which src/ecodes.rs computes `BTN_CODE_RANGES`.
use evsieve.Base.{ℕ, Bool, ℤ, IsI32, List}

pub record Platform : Type 1 where
  -- Of `f64` the program uses these operations.
  pub F64 : Type 0
  pub of_i32 : ℤ → F64
  -- `x as i32`, which saturates and takes NaN to 0.
  pub to_i32 : F64 → ℤ
  pub zero : F64
  pub one : F64
  pub add : F64 → F64 → F64
  pub sub : F64 → F64 → F64
  pub mul : F64 → F64 → F64
  pub neg : F64 → F64
  pub floor : F64 → F64
  pub ceil : F64 → F64
  pub trunc : F64 → F64
  pub round : F64 → F64
  pub fract_is_half : F64 → Bool
  pub is_nan : F64 → Bool
  pub min : F64 → F64 → F64
  pub max : F64 → F64 → F64
  pub lt : F64 → F64 → Bool
  pub eq : F64 → F64 → Bool
  pub to_i32-IsI32 : (x : F64) → IsI32 (to_i32 x)
  -- Half-open ranges of codes, as pairs of the first and the end.
  pub btn_code_ranges : List (ℕ × ℕ)
