-- ===== src/Engine/Run.antt =====
-- Engine.worker of engine.go: the goroutines of a run, which share the request counter and the context.
--
-- An interleaving is a list of events. A goroutine looks at the context (and in rate mode waits for a
-- token), then claims a request from the budget, then completes it. In rate mode the select may take a
-- token although the context is over: the event says which it took.
use handling_50k_requestes_p.Prelude.{
  ℕ, zero, suc, ◌+◌, ◌%◌, Bool, true, false, ◌&&◌, List, [], ◌∷◌, ltb, if◌then◌else◌,
}
use handling_50k_requestes_p.Prelude.Words.{u64}

pub data Phase : Type 0 where
  waiting cleared busy finished : Phase

-- A goroutine with the index of its next target and the number of samples in its shard.
pub record Goroutine : Type 0 where
  pub phase : Phase
  pub idx : ℕ
  pub recorded : ℕ

-- `sent` counts the requests begun.
pub record Shared : Type 0 where
  pub issued : ℕ
  pub stopped : Bool
  pub sent : ℕ

pub record Plan : Type 0 where
  pub max_requests : ℕ
  pub targets : ℕ
  pub paced : Bool

unfoldable pub look : Plan → Bool → Shared → Goroutine → Shared × Goroutine
look plan took_done sh g = elim g.phase [
  | waiting ↦
      if sh.stopped && (if plan.paced then took_done else true)
      then (sh, record g { phase = finished })
      else (sh, record g { phase = cleared })
  | cleared ↦ (sh, g)
  | busy ↦ (sh, g)
  | finished ↦ (sh, g)
]

abbrev pub begin : Plan → Shared → Goroutine → Shared × Goroutine
begin plan sh g =
    (record sh { sent = sh.sent + 1 }, record g { phase = busy; idx = (g.idx + 1) % plan.targets })

-- `max > 0 && e.issued.Add(1) > max`
unfoldable pub claim : Plan → Shared → Goroutine → Shared × Goroutine
claim plan sh g = elim g.phase [
  | waiting ↦ (sh, g)
  | cleared ↦
      if ltb 0 plan.max_requests
      then (if ltb plan.max_requests (u64 (sh.issued + 1))
          then (
            record sh { issued = u64 (sh.issued + 1); stopped = true },
            record g { phase = finished },
          )
          else begin plan (record sh { issued = u64 (sh.issued + 1) }) g)
      else begin plan sh g
  | busy ↦ (sh, g)
  | finished ↦ (sh, g)
]

-- The end of a request, which is recorded in the goroutine's shard.
unfoldable pub complete : Shared → Goroutine → Shared × Goroutine
complete sh g = elim g.phase [
  | waiting ↦ (sh, g)
  | cleared ↦ (sh, g)
  | busy ↦ (sh, record g { phase = waiting; recorded = g.recorded + 1 })
  | finished ↦ (sh, g)
]

-- One goroutine acts.
unfoldable pub act :
    ℕ
    → (Shared → Goroutine → Shared × Goroutine)
    → Shared
    → List Goroutine
    → Shared × List Goroutine
act w f sh [] = (sh, [])
act zero f sh (g ∷ gs) = ((f sh g).0, (f sh g).1 ∷ gs)
act (suc w) f sh (g ∷ gs) = let rest = act w f sh gs in (rest.0, g ∷ rest.1)

pub data Event : Type 0 where
  looks : ℕ → Bool → Event
  claims completes : ℕ → Event
  cancels : Event

unfoldable pub happen : Plan → Shared × List Goroutine → Event → Shared × List Goroutine
unfolding act
happen plan (sh, gs) (looks w took_done) = act w (look plan took_done) sh gs
happen plan (sh, gs) (claims w) = act w (claim plan) sh gs
happen plan (sh, gs) (completes w) = act w complete sh gs
happen plan (sh, gs) cancels = (record sh { stopped = true }, gs)

unfoldable pub happen_all : Plan → Shared × List Goroutine → List Event → Shared × List Goroutine
unfolding happen
happen_all plan s [] = s
happen_all plan s (e ∷ es) = happen_all plan (happen plan s e) es

-- The goroutines `i`, `i + 1`, ... of Run.
unfoldable pub spawn : Plan → ℕ → ℕ → List Goroutine
spawn plan i zero = []
spawn plan i (suc n) =
    record { phase = waiting; idx = i % plan.targets; recorded = 0 } ∷ spawn plan (i + 1) n

unfoldable pub start : Plan → ℕ → Shared × List Goroutine
unfolding spawn
start plan concurrency =
    (record { issued = 0; stopped = false; sent = 0 }, spawn plan 0 concurrency)
