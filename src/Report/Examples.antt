-- ===== src/Report/Examples.antt =====
-- The summary's numbers at concrete inputs.
use handling_50k_requestes_p.Prelude.{
  ℕ, ◌≡◌, refl, List, [], ◌∷◌, arith, pos, negsuc, ◌/◌, ◌==◌, if◌then◌else◌,
}
use handling_50k_requestes_p.Report.{num, num_of, separated, bytes, scaled}
use handling_50k_requestes_p.Report.Grouping.{Grouped, without_commas, num-Grouped}
use handling_50k_requestes_p.Stats.Examples.{fixed}

-- The decimal digits of 1234567, as character codes.
abbrev seven_digits : ℕ → List ℕ
seven_digits n = 49 ∷ 50 ∷ 51 ∷ 52 ∷ 53 ∷ 54 ∷ 55 ∷ []

seven_digits_grouped :
    num seven_digits (pos 1234567) ≡ 49 ∷ 44 ∷ 50 ∷ 51 ∷ 52 ∷ 44 ∷ 53 ∷ 54 ∷ 55 ∷ []
unfolding num separated
seven_digits_grouped = refl

-- The least int64 is shown with two signs.
abbrev least_digits : ℕ → List ℕ
least_digits n = 57 ∷ 50 ∷ []

two_signs : num least_digits (negsuc 9223372036854775807) ≡ 45 ∷ 45 ∷ 57 ∷ 50 ∷ []
unfolding num separated
two_signs = refl

one_and_a_half :
    num_of fixed (λ x. pos (x / 1000)) (λ n. if n == 2 then 50 ∷ [] else 49 ∷ []) 1500 ≡ 50 ∷ []
unfolding num_of num separated
one_and_a_half = refl

two_megabytes : bytes fixed 2097152000 ≡ (2000, "MB")
unfolding bytes scaled
two_megabytes = refl

num-Grouped_example :
    Grouped (num seven_digits (pos 1234567))
    × (without_commas (num seven_digits (pos 1234567)) ≡ seven_digits 1234567)
num-Grouped_example =
    num-Grouped seven_digits 1234567 (omega arith)
      (refl, (refl, (refl, (refl, (refl, (refl, (refl, tt)))))))
