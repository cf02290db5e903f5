-- ===== src/Prelude/Words.antt =====
-- Machine words: unsigned 64-bit values with wrap-around, and lists of counters updated in place.
use Prim.Native.Nat.{ℕ, zero, suc, ◌+◌, ◌-◌, ◌%◌, ◌^◌, ◌<◌}
use mathlib.Core.Path.{◌≡◌, refl, ap}
use mathlib.Core.List.{List, [], ◌∷◌}
use native.Mathlib.Omega.{arith}
use handling_50k_requestes_p.Prelude.Tests.{◌==◌, if◌then◌else◌}
use handling_50k_requestes_p.Prelude.Lists.{length, get_or}

-- uint64 arithmetic wraps.
abbrev pub u64 : ℕ → ℕ
u64 n = n % 2 ^ 64

-- math.MaxUint64
abbrev pub max_u64 : ℕ
max_u64 = 18446744073709551615

-- a - b on uint64.
abbrev pub sub64 : ℕ → ℕ → ℕ
sub64 a b = u64 (u64 a + 2 ^ 64 - u64 b)

-- `xs[i] += v` on an array of uint64. An index past the end, which panics in Go, changes nothing;
-- every caller's index is proved in range.
unfoldable pub add_at : ℕ → ℕ → List ℕ → List ℕ
add_at i v [] = []
add_at zero v (x ∷ xs) = u64 (x + v) ∷ xs
add_at (suc i) v (x ∷ xs) = x ∷ add_at i v xs

pub length-add_at : (i v : ℕ) (xs : List ℕ) → length (add_at i v xs) ≡ length xs
unfolding add_at
length-add_at i v [] = refl
length-add_at zero v (x ∷ xs) = refl
length-add_at (suc i) v (x ∷ xs) = ap suc (length-add_at i v xs)

pub get_or-add_at :
    (i v j : ℕ) (xs : List ℕ)
    → i < length xs
    → get_or (add_at i v xs) j 0 ≡ (if i == j then u64 (get_or xs j 0 + v) else get_or xs j 0)
unfolding add_at
get_or-add_at i v j [] h = absurd (omega arith)
get_or-add_at zero v zero (x ∷ xs) h = refl
get_or-add_at zero v (suc j) (x ∷ xs) h = ground arith
get_or-add_at (suc i) v zero (x ∷ xs) h = ground arith
get_or-add_at (suc i) v (suc j) (x ∷ xs) h = ground (arith, get_or-add_at i v j xs)

-- `for i := range ys { xs[i] += ys[i] }`, for `i < n`.
pub add_upto : ℕ → List ℕ → List ℕ → List ℕ
add_upto zero xs ys = xs
add_upto (suc n) [] ys = []
add_upto (suc n) (x ∷ xs) [] = x ∷ xs
add_upto (suc n) (x ∷ xs) (y ∷ ys) = u64 (x + y) ∷ add_upto n xs ys

pub length-add_upto : (n : ℕ) (xs ys : List ℕ) → length (add_upto n xs ys) ≡ length xs
unfolding add_upto
length-add_upto zero xs ys = refl
length-add_upto (suc n) [] ys = refl
length-add_upto (suc n) (x ∷ xs) [] = refl
length-add_upto (suc n) (x ∷ xs) (y ∷ ys) = ap suc (length-add_upto n xs ys)

pub get_or-add_upto :
    (n j : ℕ) (xs ys : List ℕ)
    → j < n
    → j < length xs
    → j < length ys
    → get_or (add_upto n xs ys) j 0 ≡ u64 (get_or xs j 0 + get_or ys j 0)
unfolding add_upto
get_or-add_upto zero j xs ys a b c = absurd (omega arith)
get_or-add_upto (suc n) j [] ys a b c = absurd (omega arith)
get_or-add_upto (suc n) j (x ∷ xs) [] a b c = absurd (omega arith)
get_or-add_upto (suc n) zero (x ∷ xs) (y ∷ ys) a b c = refl
get_or-add_upto (suc n) (suc j) (x ∷ xs) (y ∷ ys) a b c =
    get_or-add_upto n j xs ys (omega arith) (omega arith) (omega arith)
