-- ===== src/Coordinator.antt =====
-- internal/titanload/distributed/distributed.go: the coordinator of a distributed load test.
--
-- Every handler holds the mutex while it reads or writes, so it is one function from a state to a
-- state and a reply. Times are nanoseconds of one clock. The format of worker ids (fmt.Sprintf with
-- "w%03d"), JSON decoding (`none` is a body that does not decode) and the timers are arguments.
pub mod Watch
pub mod Registry
pub mod Ids
pub mod Lifecycle
pub mod Split
pub mod Completion
pub mod Totals
pub mod Settled
pub mod Collect
pub mod Views
pub mod Examples
use text.Mathlib.Text.{◌==◌ as str_eq}
use handling_50k_requestes_p.Prelude.{
  ℕ, ◌+◌, ◌-◌, ◌/◌, ◌≤◌, ◌<◌, String, Bool, true, false, not, ◌&&◌, ◌||◌, List, [], ◌∷◌, ◌++◌,
  Option, none, some, ℤ, pos, pos_part, ltb_ℤ, ltb, leb, ◌==◌, if◌then◌else◌, length,
}
use handling_50k_requestes_p.Prelude.Words.{u64}
use handling_50k_requestes_p.Prelude.Float.{Float}
use handling_50k_requestes_p.Prelude.Text.{Strings}
use handling_50k_requestes_p.Prelude.Maps.{lookup, insert}
use handling_50k_requestes_p.Prelude.Results.{Result, ok, err}
use handling_50k_requestes_p.Stats.{Snapshot, new_snapshot, merge}
use handling_50k_requestes_p.Engine.{Config, ConfigError, validate}

pub data Status : Type 0 where
  ready running done failed lost : Status

abbrev pub is_terminal : Status → Bool
is_terminal ready = false
is_terminal running = false
is_terminal done = true
is_terminal failed = true
is_terminal lost = true

pub record WorkerState : Type 0 where
  pub name : String
  pub host : String
  pub cpus : ℤ
  pub snap : Option Snapshot
  pub state : Status
  pub last_seen : ℕ
  pub error : String

pub record Job (fl : Float) : Type 0 where
  pub run_id : String
  pub config : Config fl
  pub start_delay : ℕ

-- `released` and `finished` say whether the channels `released` and `done` are closed.
pub record Coordinator (fl : Float) : Type 0 where
  pub token : String
  pub expect : ℤ
  pub cfg : Config fl
  pub run_id : String
  pub delay : ℕ
  pub workers : List (String × WorkerState)
  pub order : List String
  pub job : Option (Job fl)
  pub released : Bool
  pub started : ℕ
  pub finished : Bool

pub record Options : Type 0 where
  pub expect : ℤ
  pub token : String
  pub run_id : String
  pub start_delay : ℤ

pub data NewError : Type 0 where
  bad_config : ConfigError → NewError
  bad_expect : NewError

unfoldable pub coordinator_of : {fl : Float} → Config fl → Options → Coordinator fl
coordinator_of cfg opts = record {
  token = opts.token;
  expect = opts.expect;
  cfg = cfg;
  run_id = opts.run_id;
  delay = pos_part (if ltb_ℤ (pos 0) opts.start_delay then opts.start_delay else pos 3000000000);
  workers = [];
  order = [];
  job = none;
  released = false;
  started = 0;
  finished = false;
}

unfoldable pub new_coordinator :
    {fl : Float} → Strings → Config fl → Options → Result NewError (Coordinator fl)
unfolding coordinator_of
new_coordinator st cfg opts = elim (validate st cfg) [
  | err e ↦ err (bad_config e)
  | ok c ↦ if ltb_ℤ opts.expect (pos 1) then err bad_expect else ok (coordinator_of c opts)
]

-- `blocked` is a handler that is still waiting; `panicked` is a nil dereference.
pub data Reply (fl : Float) : Type 0 where
  unauthorized bad_request conflict not_found no_content hung_up blocked panicked : Reply fl
  registered : String → Reply fl
  job_reply : Job fl → Reply fl

pub record RegisterRequest : Type 0 where
  pub name : String
  pub host : String
  pub cpus : ℤ

pub record ReportRequest : Type 0 where
  pub id : String
  pub snapshot : Option Snapshot
  pub is_done : Bool
  pub error : String

abbrev pub new_worker : String → ℕ → RegisterRequest → WorkerState
new_worker id now req = record {
  name = if str_eq req.name "" then id else req.name;
  host = req.host;
  cpus = req.cpus;
  snap = none;
  state = ready;
  last_seen = now;
  error = "";
}

-- handleRegister
unfoldable pub register :
    {fl : Float}
    → (ℕ → String)
    → Coordinator fl
    → ℕ
    → Option RegisterRequest
    → Coordinator fl × Reply fl
register format c now none = (c, bad_request)
register format c now (some req) = elim c.job [
  | some job ↦ (c, conflict)
  | none ↦
      let id = format (length c.order + 1) in
      (
        record c {
          workers = insert id (new_worker id now req) c.workers;
          order = c.order ++ id ∷ [];
        },
        registered id,
      )
]

-- What ends the wait of a poll: the release, the 25 second timer, or the client.
pub data Wake : Type 0 where
  on_release on_timer on_cancel : Wake

unfoldable pub poll_released :
    {fl : Float}
    → Coordinator fl
    → ℕ
    → String
    → WorkerState
    → Option (Job fl)
    → Coordinator fl × Reply fl
poll_released c now id w none = (c, panicked)
poll_released c now id w (some job) = (
  record c { workers = insert id (record w { state = running }) c.workers },
  job_reply (record job { start_delay = c.started - now }),
)

unfoldable pub poll_woken :
    {fl : Float} → Coordinator fl → ℕ → String → WorkerState → Wake → Coordinator fl × Reply fl
unfolding poll_released
poll_woken c now id w on_release =
    if c.released then poll_released c now id w c.job else (c, blocked)
poll_woken c now id w on_timer = (c, no_content)
poll_woken c now id w on_cancel = (c, hung_up)

-- handleJob. A start delay is `max(0, time.Until(c.started))`.
unfoldable pub poll : {fl : Float} → Coordinator fl → ℕ → String → Wake → Coordinator fl × Reply fl
unfolding poll_woken
poll c now id wake = elim (lookup id c.workers) [
  | none ↦ (c, not_found)
  | some w ↦ poll_woken c now id w wake
]

-- A worker of the order that the map lacks would be a nil dereference; `Known` excludes it.
unfoldable pub all_terminal : List (String × WorkerState) → List String → Bool
all_terminal ws [] = true
all_terminal ws (id ∷ ids) =
    let rest = all_terminal ws ids in
    elim (lookup id ws) [ none ↦ false | some w ↦ is_terminal w.state && rest ]

abbrev pub is_some {ℓ} : {A : Type ℓ} → Option A → Bool
is_some none = false
is_some (some a) = true

abbrev pub is_empty {ℓ} : {A : Type ℓ} → List A → Bool
is_empty [] = true
is_empty (x ∷ xs) = false

-- allFinishedLocked
unfoldable pub all_finished : {fl : Float} → Coordinator fl → Bool
all_finished c = is_some c.job && not (is_empty c.order) && all_terminal c.workers c.order

-- Closing the channel a second time is prevented by the `sync.Once`.
abbrev pub finish : {fl : Float} → Coordinator fl → Coordinator fl
finish c = record c { finished = true }

abbrev pub or_else {ℓ} : {A : Type ℓ} → Option A → Option A → Option A
or_else none b = b
or_else (some a) b = some a

unfoldable pub reported : ℕ → ReportRequest → WorkerState → WorkerState
reported now r w = record w {
  snap = or_else r.snapshot w.snap;
  last_seen = now;
  state = if not (str_eq r.error "") then failed else if r.is_done then done else w.state;
  error = if not (str_eq r.error "") then r.error else w.error;
}

-- handleReport
unfoldable pub report :
    {fl : Float} → Coordinator fl → ℕ → Option ReportRequest → Coordinator fl × Reply fl
unfolding reported
report c now none = (c, bad_request)
report c now (some r) = elim (lookup r.id c.workers) [
  | none ↦ (c, not_found)
  | some w ↦
      let c' = record c { workers = insert r.id (reported now r w) c.workers } in
      (if all_finished c' then finish c' else c', no_content)
]

-- The shared token in front of a handler.
unfoldable pub auth :
    {fl : Float} → Coordinator fl → String → Coordinator fl × Reply fl → Coordinator fl × Reply fl
auth c header handled =
    if not (str_eq c.token "") && not (str_eq header c.token) then (c, unauthorized) else handled

-- Snapshot: the workers' snapshots merged in the order of their registration.
unfoldable pub total_from : Snapshot → List (String × WorkerState) → List String → Snapshot
total_from total ws [] = total
total_from total ws (id ∷ ids) =
    total_from (elim (lookup id ws) [ none ↦ total | some w ↦ merge total w.snap ]) ws ids

unfoldable pub snapshot : {fl : Float} → Coordinator fl → Snapshot
unfolding total_from
snapshot c = total_from new_snapshot c.workers c.order
