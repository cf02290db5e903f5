-- ===== src/Coordinator/Totals.antt =====
-- Snapshot: the total over the workers is the snapshot of all that they recorded.
use mathlib.Core.List.{append-nil, append_assoc}
use handling_50k_requestes_p.Prelude.{
  ◌<◌, ◌^◌, ◌≡◌, sym, String, List, [], ◌∷◌, ◌++◌, Option, none, some, length,
}
use handling_50k_requestes_p.Prelude.Float.{Float}
use handling_50k_requestes_p.Prelude.Maps.{lookup}
use handling_50k_requestes_p.Stats.{Sample, Snapshot, new_snapshot, merge}
use handling_50k_requestes_p.Stats.Samples.{Summarises}
use handling_50k_requestes_p.Stats.Combine.{new_snapshot-Summarises, merge-Summarises}
use handling_50k_requestes_p.Coordinator.{WorkerState, Coordinator, snapshot, total_from}

-- What a worker last reported summarises its samples; nothing reported, no samples.
abbrev pub Accounts : Float → Option Snapshot → List Sample → Type 0
Accounts fl none xs = xs ≡ []
Accounts fl (some sn) xs = Summarises fl sn xs

-- Every worker of the order is known, and accounts for its own samples.
abbrev pub AllAccount :
    Float → (String → List Sample) → List (String × WorkerState) → List String → Type 0
AllAccount fl work ws [] = Unit {0}
AllAccount fl work ws (id ∷ ids) =
    ((w : WorkerState) × (lookup id ws ≡ some w)
      × Accounts fl w.snap (work id)
      × (length (work id) < 2 ^ 64))
    × AllAccount fl work ws ids

abbrev pub work_of : (String → List Sample) → List String → List Sample
work_of work [] = []
work_of work (id ∷ ids) = work id ++ work_of work ids

merge-Accounts :
    (fl : Float) (total : Snapshot) (snap : Option Snapshot) (xs ys : List Sample)
    → Summarises fl total xs
    → Accounts fl snap ys
    → length ys < 2 ^ 64
    → Summarises fl (merge total snap) (xs ++ ys)
merge-Accounts fl total none xs ys d e h = unfold merge in rw e (rw append-nil d)
merge-Accounts fl total (some sn) xs ys d e h = merge-Summarises fl total sn xs ys d e h

total_from-Summarises :
    (fl : Float) (work : String → List Sample) (ws : List (String × WorkerState))
    (ids : List String) (total : Snapshot) (xs : List Sample)
    → Summarises fl total xs
    → AllAccount fl work ws ids
    → Summarises fl (total_from total ws ids) (xs ++ work_of work ids)
unfolding total_from
total_from-Summarises fl work ws [] total xs d h = rw append-nil d
total_from-Summarises fl work ws (id ∷ ids) total xs d ((w, e, account, few), rest) =
    rw (e, total_from)
      (rw (sym (append_assoc xs (work id) (work_of work ids))) (
        total_from-Summarises fl work ws ids (merge total w.snap) (xs ++ work id)
          (merge-Accounts fl total w.snap xs (work id) d account few) rest))

-- If what each registered worker last reported summarises its own samples, fewer than 2^64 for each
-- (or it has reported nothing, and has none), then the coordinator's snapshot summarises all the
-- workers' samples, one after the other in the order of registration: aggregation is exact.
pub snapshot-Summarises :
    (fl : Float) (work : String → List Sample) (c : Coordinator fl)
    → AllAccount fl work c.workers c.order
    → Summarises fl (snapshot c) (work_of work c.order)
unfolding snapshot
snapshot-Summarises fl work c h =
    total_from-Summarises fl work c.workers c.order new_snapshot [] (new_snapshot-Summarises fl) h
