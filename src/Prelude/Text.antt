-- ===== src/Prelude/Text.antt =====
-- The functions of Go's strings package that the program calls, as an interface.
use Prim.Native.String.{String}
use mathlib.Core.Bool.{Bool}
use mathlib.Core.List.{List}

pub record Strings : Type 0 where
  pub to_upper : String → String
  pub to_lower : String → String
  pub trim_space : String → String
  pub has_prefix : String → String → Bool
  pub split : String → String → List String
