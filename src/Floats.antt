-- ===== src/Floats.antt =====
-- The floating-point numbers of the platform, which the program computes with and does not
-- implement: `float` and `double` are types of a parameter, with the operations that the code uses.
use axis_cam_metrics.Base.{ℕ, ◌≡◌, Bool, true}
use axis_cam_metrics.Base.Int.{ℤ}

pub record Floats : Type 1 where
  pub Float : Type 0
  pub Double : Type 0
  pub nan : Float
  pub is_nan : Float → Bool
  pub is_inf : Float → Bool
  -- `NAN` and `isnan` on a double
  pub nan_double : Double
  pub is_nan_double : Double → Bool
  -- the conversions (double)f, (double)n of an unsigned and of a signed n, and (float)d
  pub widen : Float → Double
  pub of_nat : ℕ → Double
  pub of_int : ℤ → Double
  pub narrow : Double → Float
  pub add : Double → Double → Double
  pub mul : Double → Double → Double
  pub div : Double → Double → Double
  pub sub : Double → Double → Double
  pub lt : Double → Double → Bool
  pub le : Double → Double → Bool
  -- (guint)d
  pub truncate : Double → ℕ
  -- `isnan(NAN)` holds, of the double too and of what (float) makes of it.
  pub nan_is_nan : is_nan nan ≡ true
  pub nan_double_is_nan : is_nan_double nan_double ≡ true
  pub narrow_nan : is_nan (narrow nan_double) ≡ true
