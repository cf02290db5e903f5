-- ===== src/Dashboard/Examples.antt =====
-- The live view at concrete observations.
use handling_50k_requestes_p.Prelude.{
  ℕ, ◌≤◌, ◌-◌, ◌^◌, ◌≡◌, refl, true, [], ◌∷◌, some, arith, length, pos,
}
use handling_50k_requestes_p.Prelude.Words.{u64}
use handling_50k_requestes_p.Stats.{Snapshot, new_snapshot, bucket_upper, sub, merge, total_of}
use handling_50k_requestes_p.Stats.Examples.{fixed}
use handling_50k_requestes_p.Dashboard.{
  View, Shown, Observed, WorkerView, new_view, tick, next_view, worker_interval, worker_lines,
  worker_numbers, distribution, bucket_nanos, timer, source_done, drawn, clock,
}
use handling_50k_requestes_p.Prelude.Maps.{lookup, insert}
use handling_50k_requestes_p.Dashboard.Rows.{sum_of, distribution_complete}

abbrev few : Snapshot
few = record new_snapshot { hist = 3 ∷ 2 ∷ []; requests = 5 }

abbrev more : Snapshot
more = record new_snapshot { hist = 3 ∷ 4 ∷ []; requests = 7 }

abbrev seen_at : ℕ → Snapshot → Observed
seen_at now total = record { now = now; total = total; workers = [] }

abbrev named : Snapshot → WorkerView
named sn = record { name = "host"; state = "RUNNING"; snap = some sn }

-- Two workers that share their name, as the default name, the one of the host, makes them.
abbrev both : ℕ → Observed
both now = record (seen_at now few) { workers = named few ∷ named more ∷ [] }

last_draw :
    drawn (pos 500) 0 (timer (seen_at 500 few) ∷ source_done (seen_at 700 more) ∷ [])
    ≡ seen_at 500 few ∷ []
unfolding drawn
last_draw = refl

one_hour : clock 3661 ≡ (1, 1, 1)
unfolding clock
one_hour = refl

abbrev after_both : View fixed × Shown fixed
after_both = next_view fixed (new_view fixed 0) (both 1) (merge new_snapshot (some few))

both_observed : tick fixed true (new_view fixed 0) (both 1) ≡ some after_both
unfolding tick sub new_view worker_lines worker_numbers lookup
both_observed = refl

-- The first of the two has not done a request since, and its line shows 2^64 - 2 of them.
shared_name_wraps :
    (d : Snapshot) × (worker_interval after_both.0.prev_worker "host" (some few) ≡ some d)
    × (d.requests ≡ 2 ^ 64 - 2)
unfolding lookup insert sub new_view
shared_name_wraps = (_, refl, refl)

low : bucket_nanos fixed 0 ≤ 4611686018427387904
unfolding bucket_upper
low = omega arith

low_1 : bucket_nanos fixed 1 ≤ 4611686018427387904
unfolding bucket_upper
low_1 = omega arith

distribution_complete_example :
    ((distribution fixed more).1 ≡ total_of 0 more.hist)
    × (length (distribution fixed more).0 ≡ 8)
    × (u64 (sum_of (distribution fixed more).0) ≡ total_of 0 more.hist)
distribution_complete_example = distribution_complete fixed more (λ h. low, (λ h. low_1, tt))
