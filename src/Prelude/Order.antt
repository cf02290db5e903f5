-- ===== src/Prelude/Order.antt =====
-- The order of texts, Go's `<`, is total: by the bytes of UTF-8, as `compare` has it.
use Prim.Native.Nat.{ℕ, Ordering, compare as compare_ℕ}
use Prim.Native.Char.{code}
use Prim.Native.String.{String, [], ◌∷◌, then, compare}
use mathlib.Core.Path.{◌≡◌, refl, sym, ◌∙◌, ap}
use mathlib.Core.Bool.{Bool, true, false}
use native.Mathlib.Omega.{arith}
use text.Mathlib.TextEquality.{path_by_compare}
use text.Mathlib.TextPositions.{compare_refl}
use Prim.Native.String.compare

abbrev pub is_less : Ordering → Bool
is_less Ordering.lt = true
is_less Ordering.eq = false
is_less Ordering.gt = false

-- `s < t`
abbrev pub str_less : String → String → Bool
str_less s t = is_less (compare s t)

abbrev reversed : Ordering → Ordering
reversed Ordering.lt = Ordering.gt
reversed Ordering.eq = Ordering.eq
reversed Ordering.gt = Ordering.lt

reversed-then : (o p : Ordering) → reversed (then o p) ≡ then (reversed o) (reversed p)
reversed-then Ordering.lt p = refl
reversed-then Ordering.eq p = refl
reversed-then Ordering.gt p = refl

reversed-compare_ℕ : (m n : ℕ) → compare_ℕ n m ≡ reversed (compare_ℕ m n)
reversed-compare_ℕ m n = ground arith

reversed-compare : (s t : String) → compare t s ≡ reversed (compare s t)
reversed-compare [] [] = ap reversed (refl {a = Ordering.eq})
reversed-compare [] (d ∷ t) = compare.cons-nil d t ∙ sym (ap reversed (compare.nil-cons d t))
reversed-compare (c ∷ s) [] = compare.nil-cons c s ∙ sym (ap reversed (compare.cons-nil c s))
reversed-compare (c ∷ s) (d ∷ t) =
    compare.cons-cons d c t s
    ∙ ap (λ o. then o (compare t s)) (reversed-compare_ℕ (code c) (code d))
    ∙ ap (then (reversed (compare_ℕ (code c) (code d)))) (reversed-compare s t)
    ∙ sym (reversed-then (compare_ℕ (code c) (code d)) (compare s t))
    ∙ sym (ap reversed (compare.cons-cons c d s t))

not_less_either :
    (o : Ordering) → is_less o ≡ false → is_less (reversed o) ≡ false → o ≡ Ordering.eq
not_less_either Ordering.lt h k = ground arith
not_less_either Ordering.eq h k = refl
not_less_either Ordering.gt h k = ground arith

-- Of two texts that differ, one is less.
pub str_less_total : (s t : String) → str_less s t ≡ false → str_less t s ≡ false → s ≡ t
str_less_total s t h k =
    path_by_compare s t
      (not_less_either (compare s t) h (ap is_less (sym (reversed-compare s t)) ∙ k))

pub str_less_self : (s : String) → str_less s s ≡ false
str_less_self s = ap is_less (compare_refl s)

less_reversed : (o : Ordering) → is_less o ≡ true → is_less (reversed o) ≡ false
less_reversed Ordering.lt h = refl
less_reversed Ordering.eq h = ground arith
less_reversed Ordering.gt h = ground arith

pub str_less_asym : (s t : String) → str_less s t ≡ true → str_less t s ≡ false
str_less_asym s t h = ap is_less (reversed-compare s t) ∙ less_reversed (compare s t) h
