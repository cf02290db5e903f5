-- ===== src/Prelude/Counts.antt =====
-- A Go `map[string]uint64` of counters, as an association list. A missing key reads as 0.
use Prim.Native.Nat.{ℕ, ◌+◌}
use Prim.Native.String.{String}
use mathlib.Core.Path.{◌≡◌, refl, ◌∙◌}
use mathlib.Core.Bool.{Bool, false, ◌||◌}
use mathlib.Core.Logic.{inl, inr}
use mathlib.Core.List.{List, [], ◌∷◌}
use native.Mathlib.Omega.{arith}
use text.Mathlib.Text.{◌==◌ as str_eq}
use text.Mathlib.TextEquality.{eq_iff}
use handling_50k_requestes_p.Prelude.Tests.{if◌then◌else◌, Bool-cases}
use handling_50k_requestes_p.Prelude.Words.{u64}

abbrev pub Counts : Type 0
Counts = List (String × ℕ)

-- `m[k]`
unfoldable pub count_of : String → Counts → ℕ
count_of k [] = 0
count_of k ((j, v) ∷ m) = if str_eq j k then v else count_of k m

pub count_of_empty : (k : String) → count_of k [] ≡ 0
unfolding count_of
count_of_empty k = refl

-- `m[k] += v`
pub bump : String → ℕ → Counts → Counts
bump k v [] = (k, u64 v) ∷ []
bump k v ((j, w) ∷ m) = if str_eq j k then (j, u64 (w + v)) ∷ m else (j, w) ∷ bump k v m

pub count_of-bump :
    (k j : String) (v : ℕ) (m : Counts)
    → count_of j (bump k v m) ≡ (if str_eq k j then u64 (count_of j m + v) else count_of j m)
unfolding count_of bump
count_of-bump k j v [] = ground arith
count_of-bump k j v ((i, w) ∷ m) =
    ground (arith, eq_iff k j, eq_iff i k, eq_iff i j, count_of-bump k j v m)

-- `for k, v := range o { m[k] += v }`
pub add_counts : Counts → Counts → Counts
add_counts m [] = m
add_counts m ((k, v) ∷ o) = add_counts (bump k v m) o

unfoldable pub has_key : String → Counts → Bool
has_key k [] = false
has_key k ((j, v) ∷ m) = str_eq j k || has_key k m

pub has_key_empty : (k : String) → has_key k [] ≡ false
unfolding has_key
has_key_empty k = refl

pub has_key-cons :
    (k j : String) (v : ℕ) (m : Counts) → has_key k ((j, v) ∷ m) ≡ (str_eq j k || has_key k m)
unfolding has_key
has_key-cons k j v m = refl

pub count_of-cons :
    (k j : String) (v : ℕ) (m : Counts)
    → count_of k ((j, v) ∷ m) ≡ (if str_eq j k then v else count_of k m)
unfolding count_of
count_of-cons k j v m = refl

-- Every key stands once, as in a map.
abbrev pub Distinct : Counts → Type 0
Distinct [] = Unit {0}
Distinct ((k, v) ∷ m) = (has_key k m ≡ false) × Distinct m

pub count_of_absent : (k : String) (m : Counts) → has_key k m ≡ false → count_of k m ≡ 0
unfolding count_of has_key
count_of_absent k [] h = refl
count_of_absent k ((j, v) ∷ m) h = ground (arith, count_of_absent k m)

pub has_key-bump :
    (k j : String) (v : ℕ) (m : Counts) → has_key j (bump k v m) ≡ (str_eq k j || has_key j m)
unfolding has_key bump
has_key-bump k j v [] = refl
has_key-bump k j v ((i, w) ∷ m) =
    ground (arith, eq_iff k j, eq_iff i k, eq_iff i j, has_key-bump k j v m)

pub bump-Distinct : (k : String) (v : ℕ) (m : Counts) → Distinct m → Distinct (bump k v m)
unfolding bump
bump-Distinct k v [] d = (unfold has_key in refl, tt)
bump-Distinct k v ((j, w) ∷ m) d =
    ground (arith, eq_iff j k, eq_iff k j, has_key-bump k j v m, bump-Distinct k v m)

pub add_counts-Distinct : (m o : Counts) → Distinct m → Distinct (add_counts m o)
unfolding add_counts
add_counts-Distinct m [] d = d
add_counts-Distinct m ((k, v) ∷ o) d = add_counts-Distinct (bump k v m) o (bump-Distinct k v m d)

-- Adding a map to another adds up the values of each key.
pub count_of-add_counts :
    (j : String) (a : ℕ) (m o : Counts)
    → Distinct o
    → count_of j m ≡ u64 a
    → count_of j (add_counts m o) ≡ u64 (a + count_of j o)
unfolding add_counts count_of
count_of-add_counts j a m [] d e = ground arith
count_of-add_counts j a m ((k, v) ∷ o) d e = elim (Bool-cases (str_eq k j)) [
  | inl same ↦ rw same (
      count_of-add_counts j (a + v) (bump k v m) o d.1 (ground (arith, count_of-bump k j v m))
      ∙ ground (arith, eq_iff k j, count_of_absent k o d.0))
  | inr other ↦
      rw other (count_of-add_counts j a (bump k v m) o d.1 (ground (arith, count_of-bump k j v m)))
]
