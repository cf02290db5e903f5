-- ===== src/Remote.antt =====
-- internal/titanload/distributed/worker.go: the remote worker's side of the protocol.
--
-- A script says how the coordinator, the engine and the context behave in one run; the functions
-- below say which requests the worker sends, and what it returns.
pub mod Reporting
pub mod Arrival
pub mod Examples
use handling_50k_requestes_p.Prelude.{
  ℕ, zero, suc, ◌+◌, Bool, true, false, not, ◌&&◌, ◌||◌, List, [], ◌∷◌, ◌++◌, Option, none, some,
  leb, ◌==◌, if◌then◌else◌,
}

-- What client.do returns: the status, whether there is an error, and what was decoded.
pub record Done (A : Type 0) : Type 0 where
  pub status : ℕ
  pub failed : Bool
  pub decoded : Option A

abbrev pub no_body : {A : Type 0} → Option A → Bool
no_body none = true
no_body (some a) = false

-- client.do after the request is built: `answer` is none where the exchange failed, and otherwise the
-- status and the decoded body, none where it does not decode.
unfoldable pub client_do : {A : Type 0} → Bool → Option (ℕ × Option A) → Done A
client_do wanted none = record { status = 0; failed = true; decoded = none }
client_do wanted (some (status, body)) =
    if leb 300 status
    then record { status = status; failed = true; decoded = none }
    else if wanted && not (status == 204)
    then record { status = status; failed = no_body body; decoded = body }
    else record { status = status; failed = false; decoded = none }

-- The requests of a run, in the order in which they are sent.
pub data Sent : Type 0 where
  register poll_job report_error report_progress report_final : Sent

pub record Script (A : Type 0) : Type 0 where
  -- The answers to the registrations; the context is cancelled after the last.
  pub registrations : List (Option (ℕ × Option A))
  -- The answers to the polls for the job; the context is cancelled after the last.
  pub polls : List (Option (ℕ × Option A))
  pub engine_starts : Bool
  pub cancelled_in_delay : Bool
  -- The ticks before the engine is done.
  pub ticks : ℕ
  pub finals : ℕ → Option (ℕ × Option A)

-- What follows a request that succeeded, in front of which the requests so far are sent.
abbrev pub after : Sent → List Sent × Bool → List Sent × Bool
after s (sent, good) = (s ∷ sent, good)

-- The loop of the final report: `left` attempts remain, and `i` were made.
unfoldable pub final_report :
    {A : Type 0} → (ℕ → Option (ℕ × Option A)) → ℕ → ℕ → Bool → List Sent × Bool
unfolding client_do
final_report finals zero i good = ([], good)
final_report finals (suc left) i good =
    let rest = final_report finals left (i + 1) false in
    after report_final (if (client_do false (finals i)).failed then rest else ([], true))

-- The progress reports, whose failures are only logged.
abbrev pub progress : ℕ → List Sent × Bool → List Sent × Bool
progress zero rest = rest
progress (suc n) rest = after report_progress (progress n rest)

-- From the job to the end of the run.
unfoldable pub execute : {A : Type 0} → Script A → List Sent × Bool
unfolding final_report
execute s =
    if not s.engine_starts
    then (report_error ∷ [], false)
    else if s.cancelled_in_delay
    then ([], false)
    else progress s.ticks (final_report s.finals 5 0 true)

unfoldable pub await_job : {A : Type 0} → Script A → List (Option (ℕ × Option A)) → List Sent × Bool
unfolding client_do execute
await_job s [] = (poll_job ∷ [], false)
await_job s (a ∷ more) =
    let rest = await_job s more in
    let d = client_do true a in
    after poll_job (if d.failed then ([], false) else if d.status == 200 then execute s else rest)

-- runOnce: the requests that it sends, and whether it returns nil.
unfoldable pub run_once : {A : Type 0} → Script A → List (Option (ℕ × Option A)) → List Sent × Bool
unfolding client_do await_job
run_once s [] = ([], false)
run_once s (a ∷ more) =
    let rest = run_once s more in
    after register (if (client_do true a).failed then rest else await_job s s.polls)

-- How one turn of RunWorker's loop went: whether runOnce returned nil, and whether the context was
-- over after it, before the pause, and in the pause.
pub record Turn : Type 0 where
  pub good : Bool
  pub over_after : Bool
  pub over_before_pause : Bool
  pub over_in_pause : Bool

-- RunWorker: none while it runs; otherwise how many turns it took, and whether it returned nil.
unfoldable pub run_worker : Bool → List Turn → Option (ℕ × Bool)
run_worker loop ts = turns 1 ts
  where
    turns : ℕ → List Turn → Option (ℕ × Bool)
    turns n [] = none
    turns n (t ∷ ts) =
        let rest = turns (n + 1) ts in
        if not t.good && t.over_after
        then some (n, true)
        else if not t.good && not loop
        then some (n, false)
        else if not loop || t.over_before_pause
        then some (n, true)
        else if t.over_in_pause
        then some (n, true)
        else rest
