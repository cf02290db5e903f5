-- ===== src/Coordinator/Split.antt =====
-- The shares of the workers: a request budget is neither lost nor exceeded by much.
use handling_50k_requestes_p.Prelude.{ℕ, ◌+◌, ◌-◌, ◌*◌, ◌/◌, ◌^◌, ◌≤◌, ◌<◌, ◌≡◌, ap, ◌∙◌, arith}
use handling_50k_requestes_p.Prelude.Words.{u64}
use handling_50k_requestes_p.Prelude.Float.{Float}
use handling_50k_requestes_p.Engine.{Config}
use handling_50k_requestes_p.Coordinator.Watch.{split}

ceil_div : (m n : ℕ) → 0 < n → (m ≤ n * ((m + n - 1) / n)) × (n * ((m + n - 1) / n) < m + n)
ceil_div m n h = (grind arith, grind arith)

limited_share :
    {fl : Float} (cfg : Config fl) (n : ℕ)
    → 0 < cfg.max_requests
    → (split cfg n).max_requests ≡ u64 (cfg.max_requests + n - 1) / n
unfolding split
limited_share cfg n limited = ground arith

-- For n workers, n ≥ 1, and a budget m ≥ 1 with m + n ≤ 2^64: each worker's share is at least 1 (a
-- share of 0 would mean no limit), the shares together cover the budget, and exceed it by less than n.
split_budget :
    {fl : Float} (cfg : Config fl) (n : ℕ)
    → 0 < n
    → 0 < cfg.max_requests
    → cfg.max_requests + n ≤ 2 ^ 64
    → (0 < (split cfg n).max_requests)
      × (cfg.max_requests ≤ n * (split cfg n).max_requests)
      × (n * (split cfg n).max_requests < cfg.max_requests + n)
split_budget cfg n some_worker limited fits =
    let e : (split cfg n).max_requests ≡ (cfg.max_requests + n - 1) / n =
      limited_share cfg n limited ∙ ap (λ (k : ℕ). k / n) (omega arith) in
    let (covers, tight) = ceil_div cfg.max_requests n some_worker in
    (rw e (grind arith), rw e covers, rw e tight)

-- Near the top of uint64 the rounding up wraps: with n workers and a budget m between 2^64 - n + 1
-- and 2^64 - 1, each share is 0, which a worker reads as no limit.
pub split_wraps :
    {fl : Float} (cfg : Config fl) (n : ℕ)
    → 1 < n
    → n < 2 ^ 63
    → cfg.max_requests < 2 ^ 64
    → 2 ^ 64 < cfg.max_requests + n
    → (split cfg n).max_requests ≡ 0
split_wraps cfg n many bound word over =
    let e : u64 (cfg.max_requests + n - 1) ≡ cfg.max_requests + n - 1 - 2 ^ 64 = omega arith in
    limited_share cfg n (omega arith) ∙ ap (λ (k : ℕ). k / n) e ∙ (grind arith)
