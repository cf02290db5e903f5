-- ===== src/Prelude/Float.antt =====
-- The float64 operations that the program calls, as an interface.
use Prim.Native.Nat.{ℕ}
use mathlib.Core.Bool.{Bool}

-- `lit n k` is the literal n * 10^-k; `to_ℕ` is the conversion of a non-negative value to an
-- integer type (it drops the fraction); `ceil` is math.Ceil; `flt` is `<`.
pub record Float : Type 1 where
  pub F : Type 0
  pub of_ℕ : ℕ → F
  pub lit : ℕ → ℕ → F
  pub add : F → F → F
  pub sub : F → F → F
  pub mul : F → F → F
  pub div : F → F → F
  pub flt : F → F → Bool
  pub ceil : F → F
  pub sqrt : F → F
  pub log : F → F
  pub pow : F → F → F
  pub to_ℕ : F → ℕ
