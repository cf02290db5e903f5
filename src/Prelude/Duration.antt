-- ===== src/Prelude/Duration.antt =====
-- Durations of the standard library: signed nanoseconds, and their seconds as a float64.
use Prim.Native.Nat.{ℕ, ◌+◌, ◌-◌, ◌/◌, ◌%◌}
use handling_50k_requestes_p.Prelude.Tests.{ltb, ◌==◌, if◌then◌else◌}
use handling_50k_requestes_p.Prelude.Int.{ℤ, pos, negsuc}
use handling_50k_requestes_p.Prelude.Float.{Float}

-- The conversion of a signed integer to a float64.
abbrev pub of_ℤ : (fl : Float) → ℤ → fl.F
of_ℤ fl (pos n) = fl.of_ℕ n
of_ℤ fl (negsuc n) = fl.sub (fl.lit 0 0) (fl.of_ℕ (n + 1))

-- Go's division of signed integers, which drops the fraction, by a positive number.
abbrev pub quotient : ℤ → ℕ → ℤ
quotient (pos n) d = pos (n / d)
quotient (negsuc n) d = if ltb (n + 1) d then pos 0 else negsuc ((n + 1) / d - 1)

abbrev pub remainder : ℤ → ℕ → ℤ
remainder (pos n) d = pos (n % d)
remainder (negsuc n) d = if (n + 1) % d == 0 then pos 0 else negsuc ((n + 1) % d - 1)

-- Duration.Seconds of the standard library: the whole seconds plus the rest over 1e9.
unfoldable pub seconds : (fl : Float) → ℤ → fl.F
seconds fl d =
    fl.add (of_ℤ fl (quotient d 1000000000))
      (fl.div (of_ℤ fl (remainder d 1000000000)) (fl.lit 1000000000 0))
