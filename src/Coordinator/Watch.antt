-- ===== src/Coordinator/Watch.antt =====
-- Run of distributed.go: waiting for the workers, releasing the job, and watching until they finish.
--
-- `step` takes one event: a request to a handler, or what the select statements of Run wait for.
use handling_50k_requestes_p.Prelude.{
  ℕ, ◌+◌, ◌-◌, ◌/◌, String, Bool, true, false, ◌&&◌, List, [], ◌∷◌, Option, none, some, pos,
  pos_part, ltb_ℤ, ltb, leb, if◌then◌else◌, length,
}
use handling_50k_requestes_p.Prelude.Words.{u64}
use handling_50k_requestes_p.Prelude.Float.{Float}
use handling_50k_requestes_p.Prelude.Maps.{lookup, insert}
use handling_50k_requestes_p.Engine.{Config}
use handling_50k_requestes_p.Report.{signed_64}
use handling_50k_requestes_p.Coordinator.{
  Status, ready, running, done, failed, lost, is_terminal, WorkerState, Coordinator,
  RegisterRequest, ReportRequest, Wake, register, poll, report, auth, is_some, all_finished, finish,
}

-- `for _, id := range c.order { s := c.workers[id]; ... }`
unfoldable pub for_each :
    (WorkerState → WorkerState)
    → List String
    → List (String × WorkerState)
    → List (String × WorkerState)
for_each f [] ws = ws
for_each f (id ∷ ids) ws =
    for_each f ids (elim (lookup id ws) [ none ↦ ws | some w ↦ insert id (f w) ws ])

abbrev pub is_running : Status → Bool
is_running ready = false
is_running running = true
is_running done = false
is_running failed = false
is_running lost = false

-- A running worker that has reported, and then was silent for more than 15 seconds.
unfoldable pub give_up : ℕ → WorkerState → WorkerState
give_up now w =
    if is_running w.state && is_some w.snap && ltb 15000000000 (now - w.last_seen)
    then record w { state = lost }
    else w

-- markLost
unfoldable pub mark_lost : {fl : Float} → Coordinator fl → ℕ → Coordinator fl
unfolding give_up
mark_lost c now =
    let c' = record c { workers = for_each (give_up now) c.order c.workers } in
    if all_finished c' then finish c' else c'

unfoldable pub expire_worker : WorkerState → WorkerState
expire_worker w = if is_terminal w.state then w else record w { state = lost }

-- The deadline case of Run.
unfoldable pub expire : {fl : Float} → Coordinator fl → Coordinator fl
unfolding expire_worker
expire c = finish (record c { workers = for_each expire_worker c.order c.workers })

-- The share of each of n workers.
unfoldable pub split : {fl : Float} → Config fl → ℕ → Config fl
split {fl} cfg n = record cfg {
  rate = if fl.flt (fl.lit 0 0) cfg.rate then fl.div cfg.rate (fl.of_ℕ n) else cfg.rate;
  max_requests =
      if ltb 0 cfg.max_requests then u64 (cfg.max_requests + n - 1) / n else cfg.max_requests;
}

-- The part of Run that hands out the job.
unfoldable pub release : {fl : Float} → Coordinator fl → ℕ → Coordinator fl
unfolding split
release c now = record c {
  job =
      some (record {
        run_id = c.run_id;
        config = split c.cfg (length c.order);
        start_delay = c.delay;
      });
  started = now + c.delay;
  released = true;
}

-- Where Run stands; `returned` says whether it returned nil.
pub data Phase : Type 0 where
  waiting watching : Phase
  returned : Bool → Phase

pub record System (fl : Float) : Type 0 where
  pub coord : Coordinator fl
  pub phase : Phase
  pub deadline : Option ℕ

-- The state in which Run begins.
abbrev pub initial : {fl : Float} → Coordinator fl → System fl
initial c = record { coord = c; phase = waiting; deadline = none }

-- The handlers' requests come with the token header and the time.
pub data Event : Type 0 where
  registers : String → ℕ → Option RegisterRequest → Event
  polls : String → ℕ → String → Wake → Event
  reports : String → ℕ → Option ReportRequest → Event
  ticks : ℕ → Event
  deadline_timer : ℕ → Event
  cancelled done_closed : Event

-- `timeout = time.After(deadline)`, started at the release; none without a duration, and where the
-- int64 sum wraps to a negative one.
unfoldable pub deadline_of : {fl : Float} → Coordinator fl → ℕ → Option ℕ
unfolding split
deadline_of c now =
    let sum =
      signed_64 (u64 (c.delay + pos_part c.cfg.duration + pos_part c.cfg.timeout + 30000000000)) in
    if ltb_ℤ (pos 0) c.cfg.duration && ltb_ℤ (pos 0) sum then some (now + pos_part sum) else none

unfoldable pub tick : {fl : Float} → System fl → ℕ → Phase → System fl
tick s now waiting = if ltb_ℤ (pos (length s.coord.order)) s.coord.expect then s else record s {
  coord = release s.coord now;
  phase = watching;
  deadline = deadline_of s.coord now;
}
tick s now watching = record s { coord = mark_lost s.coord now }
tick s now (returned b) = s

unfoldable pub fire : {fl : Float} → System fl → ℕ → Phase → Option ℕ → System fl
fire s now watching (some at) =
    if leb at now then record s { coord = expire s.coord; phase = returned true } else s
fire s now watching none = s
fire s now waiting at = s
fire s now (returned b) at = s

unfoldable pub cancel : {fl : Float} → System fl → Phase → System fl
cancel s waiting = record s { phase = returned false }
cancel s watching = record s { coord = finish s.coord; phase = returned false }
cancel s (returned b) = s

unfoldable pub see_done : {fl : Float} → System fl → Phase → System fl
see_done s watching = if s.coord.finished then record s { phase = returned true } else s
see_done s waiting = s
see_done s (returned b) = s

unfoldable pub step : {fl : Float} → (ℕ → String) → System fl → Event → System fl
unfolding tick fire cancel see_done
step format s (registers token now req) = record s {
  coord = (auth s.coord token (register format s.coord now req)).0;
}
step format s (polls token now id wake) = record s {
  coord = (auth s.coord token (poll s.coord now id wake)).0;
}
step format s (reports token now req) = record s {
  coord = (auth s.coord token (report s.coord now req)).0;
}
step format s (ticks now) = tick s now s.phase
step format s (deadline_timer now) = fire s now s.phase s.deadline
step format s cancelled = cancel s s.phase
step format s done_closed = see_done s s.phase

unfoldable pub run : {fl : Float} → (ℕ → String) → System fl → List Event → System fl
run format s [] = s
run format s (e ∷ es) = run format (step format s e) es
