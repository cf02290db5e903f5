-- ===== src/Stats/Bounds.antt =====
-- Bounds between the derived figures: the mean lies between the least and the greatest latency, and
-- failures never outnumber requests.
use handling_50k_requestes_p.Prelude.{
  ℕ, ◌*◌, ◌/◌, ◌≤◌, ◌<◌, ◌^◌, ◌≡◌, List, [], ◌∷◌, arith, length, count_by-le,
}
use handling_50k_requestes_p.Prelude.Float.{Float}
use handling_50k_requestes_p.Stats.{Sample, Snapshot, mean, min_latency, max_latency}
use handling_50k_requestes_p.Stats.Samples.{Summarises, us_of, sum_by, max_by, min_by, fails}

module _ {ℓ} {A : Type ℓ} (f : A → ℕ) where
  sum_by-le-max : (xs : List A) → sum_by f xs ≤ length xs * max_by f xs
  sum_by-le-max [] = omega arith
  sum_by-le-max (x ∷ xs) = grind (arith, sum_by-le-max xs)

  min-le-sum_by : (xs : List A) → length xs * min_by f xs ≤ sum_by f xs
  min-le-sum_by [] = omega arith
  min-le-sum_by (x ∷ xs) = grind (arith, min-le-sum_by xs)

div-le : (a n m : ℕ) → 0 < n → a ≤ n * m → a / n ≤ m
div-le a n m pos_n h = grind arith

le-div : (a n m : ℕ) → 0 < n → n * m ≤ a → m ≤ a / n
le-div a n m pos_n h = grind arith

-- Of a snapshot of at least one sample, where the requests and the sum of the latencies do not wrap
-- and the greatest latency is less than 2^63 nanoseconds: Min is at most Mean, Mean is at most Max,
-- and the failures are at most the requests.
mean_bounds :
    (fl : Float) (sn : Snapshot) (xs : List Sample)
    → Summarises fl sn xs
    → 0 < length xs
    → length xs < 2 ^ 64
    → sum_by us_of xs < 2 ^ 64
    → max_by us_of xs * 1000 < 2 ^ 63
    → (min_latency sn ≤ mean sn) × (mean sn ≤ max_latency sn) × (sn.failures ≤ sn.requests)
unfolding mean min_latency max_latency
mean_bounds fl sn xs d some_sample few small range =
    let n : sn.requests ≡ length xs = omega (arith, d.requests_count) in
    let total : sn.sum_us ≡ sum_by us_of xs = omega (arith, d.us_sum) in
    let upper : sum_by us_of xs / length xs ≤ max_by us_of xs =
      div-le _ _ _ some_sample (sum_by-le-max us_of xs) in
    let lower : min_by us_of xs ≤ sum_by us_of xs / length xs =
      le-div _ _ _ some_sample (min-le-sum_by us_of xs) in
    (
      rw (n, total) (ground (arith, d.us_min)),
      rw (n, total) (ground (arith, d.us_max)),
      omega (arith, d.failures_count, count_by-le fails xs),
    )
