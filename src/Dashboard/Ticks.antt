-- ===== src/Dashboard/Ticks.antt =====
-- The intervals that the view shows add up to the totals, and its histories stay short.
use handling_50k_requestes_p.Prelude.{ℕ, ◌+◌, ◌≤◌, ◌≡◌, List, [], ◌∷◌, Option, none, some, length}
use handling_50k_requestes_p.Prelude.Float.{Float}
use handling_50k_requestes_p.Prelude.Words.{u64}
use handling_50k_requestes_p.Stats.{Snapshot, num_buckets}
use handling_50k_requestes_p.Dashboard.{WorkerView, stored, View, Shown, Observed}

abbrev pub requests_of : Option Snapshot → ℕ
requests_of none = 0
requests_of (some sn) = sn.requests

abbrev pub shown_requests : {fl : Float} → List (Shown fl) → ℕ
shown_requests [] = 0
shown_requests (x ∷ xs) = x.interval.requests + shown_requests xs

-- What a tick makes of the state: the interval is the new total less the previous one.
record Ticked {fl : Float} (s t : View fl) (o : Observed) (x : Shown fl) : Type 0 where
  stored : t.prev ≡ some o.total
  adds_up : u64 (x.interval.requests + requests_of s.prev) ≡ u64 o.total.requests
  short : length t.rps_hist ≤ 120
  short_p99 : length t.p99_hist ≤ 120

abbrev pub FitsSnapshot : Option Snapshot → Type 0
FitsSnapshot none = Unit {0}
FitsSnapshot (some sn) = length sn.hist ≤ num_buckets

abbrev pub FitsWorkers : List WorkerView → Type 0
FitsWorkers [] = Unit {0}
FitsWorkers (w ∷ ws) = FitsSnapshot w.snap × FitsWorkers ws

-- The snapshots of the sources and their workers have at most the buckets of a fresh one.
abbrev pub Fits : List Observed → Type 0
Fits [] = Unit {0}
Fits (o ∷ os) = (length o.total.hist ≤ num_buckets) × FitsWorkers o.workers × Fits os

abbrev pub last_total : Option Snapshot → List Observed → Option Snapshot
last_total prev [] = prev
last_total prev (o ∷ os) = last_total (some o.total) os

-- What holds after some ticks from a state.
record Totals {fl : Float} (s : View fl) (os : List Observed) (v : View fl)
    (shown : List (Shown fl)) : Type 0 where
  adds_up :
      u64 (shown_requests shown + requests_of s.prev) ≡ u64 (requests_of (last_total s.prev os))
  all_shown : length shown ≡ length os
  short : length v.rps_hist ≤ 120
  short_p99 : length v.p99_hist ≤ 120
