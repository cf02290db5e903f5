-- ===== src/Prelude/Sums.antt =====
-- Sums over the first members of a family.
use Prim.Native.Nat.{ℕ, zero, suc, ◌+◌, ◌≤◌, ◌<◌}
use mathlib.Core.Path.{◌≡◌, refl}
use native.Mathlib.Omega.{arith}
use handling_50k_requestes_p.Prelude.Tests.{◌==◌, if◌then◌else◌}

unfoldable pub sum : ℕ → (ℕ → ℕ) → ℕ
sum zero f = 0
sum (suc n) f = sum n f + f n

pub sum_le : (n : ℕ) (f g : ℕ → ℕ) → ((p : ℕ) → f p ≤ g p) → sum n f ≤ sum n g
unfolding sum
sum_le zero f g h = omega arith
sum_le (suc n) f g h = omega (arith, sum_le n f g h, h n)

pub sum_same : (n : ℕ) (f g : ℕ → ℕ) → ((p : ℕ) → f p ≡ g p) → sum n f ≡ sum n g
unfolding sum
sum_same zero f g h = refl
sum_same (suc n) f g h = omega (arith, sum_same n f g h, h n)

pub sum_zero : (n : ℕ) (f : ℕ → ℕ) → ((p : ℕ) → f p ≡ 0) → sum n f ≡ 0
unfolding sum
sum_zero zero f h = refl
sum_zero (suc n) f h = omega (arith, sum_zero n f h, h n)

-- Two sums against two sums, member by member.
pub sum_exchange_le :
    (n : ℕ) (f g h k : ℕ → ℕ)
    → ((p : ℕ) → f p + g p ≤ h p + k p)
    → sum n f + sum n g ≤ sum n h + sum n k
unfolding sum
sum_exchange_le zero f g h k e = omega arith
sum_exchange_le (suc n) f g h k e = omega (arith, sum_exchange_le n f g h k e, e n)

pub sum_exchange :
    (n : ℕ) (f g h k : ℕ → ℕ)
    → ((p : ℕ) → f p + g p ≡ h p + k p)
    → sum n f + sum n g ≡ sum n h + sum n k
unfolding sum
sum_exchange zero f g h k e = refl
sum_exchange (suc n) f g h k e = omega (arith, sum_exchange n f g h k e, e n)

sum_below :
    (n p d : ℕ) (f g : ℕ → ℕ)
    → n ≤ p
    → ((q : ℕ) → g q ≡ (if p == q then f q + d else f q))
    → sum n g ≡ sum n f
unfolding sum
sum_below zero p d f g h e = refl
sum_below (suc n) p d f g h e = ground (arith, sum_below n p d f g, e n)

-- One member raised by d.
pub sum_raised :
    (n p d : ℕ) (f g : ℕ → ℕ)
    → p < n
    → ((q : ℕ) → g q ≡ (if p == q then f q + d else f q))
    → sum n g ≡ sum n f + d
unfolding sum
sum_raised zero p d f g h e = absurd (omega arith)
sum_raised (suc n) p d f g h e = ground (arith, sum_below n p d f g, sum_raised n p d f g, e n)
