-- ===== src/Prelude/Maps.antt =====
-- A Go map with text keys, as an association list.
use Prim.Native.String.{String}
use mathlib.Core.Path.{◌≡◌, refl}
use mathlib.Core.List.{List, [], ◌∷◌}
use mathlib.Core.Option.{Option, none, some}
use native.Mathlib.Omega.{arith}
use text.Mathlib.Text.{◌==◌ as str_eq}
use text.Mathlib.TextEquality.{eq_iff}
use handling_50k_requestes_p.Prelude.Tests.{if◌then◌else◌}
use mathlib.Core.Bool.{Bool, false, ◌||◌}

-- The cases of a switch over texts.
abbrev pub is_one_of : String → List String → Bool
is_one_of s [] = false
is_one_of s (x ∷ xs) = str_eq s x || is_one_of s xs

module _ {ℓ} {Value : Type ℓ} where
  -- `v, ok := m[key]`
  unfoldable pub lookup : String → List (String × Value) → Option Value
  lookup key (entry ∷ rest) = if str_eq entry.0 key then some entry.1 else lookup key rest
  lookup key [] = none

  -- `m[key] = value`
  unfoldable pub insert : String → Value → List (String × Value) → List (String × Value)
  insert key value (entry ∷ rest) =
      if str_eq entry.0 key then (key, value) ∷ rest else entry ∷ insert key value rest
  insert key value [] = (key, value) ∷ []

  pub lookup-insert :
      (written asked : String) (value : Value) (entries : List (String × Value))
      → lookup asked (insert written value entries)
        ≡ (if str_eq written asked then some value else lookup asked entries)
  unfolding lookup insert
  lookup-insert written asked value (entry ∷ rest) = ground (
    arith,
    eq_iff entry.0 written,
    eq_iff entry.0 asked,
    eq_iff written asked,
    lookup-insert written asked value rest,
  )
  lookup-insert written asked value [] = refl
