-- ===== src/Titanload/Examples.antt =====
-- The command line at concrete inputs.
use handling_50k_requestes_p.Prelude.{◌≡◌, refl, false, true, [], ◌∷◌, none, some}
use handling_50k_requestes_p.Stats.{new_snapshot}
use handling_50k_requestes_p.Stats.Examples.{fixed, snapshot_of, first_run}
use handling_50k_requestes_p.Engine.Examples.{one_line}
use handling_50k_requestes_p.Engine.{parse_mode, validate, check_targets, check_limits}
use handling_50k_requestes_p.Report.{build, rps}
use handling_50k_requestes_p.Prelude.{ℤ, Bool, List, pos, ltb_ℤ}
use handling_50k_requestes_p.Dashboard.{Observed}
use handling_50k_requestes_p.Engine.{Config, http1}
use handling_50k_requestes_p.Coordinator.{
  Coordinator, Options, ReportRequest, coordinator_of, snapshot,
}
use handling_50k_requestes_p.Coordinator.Watch.{Event, initial, registers, ticks, run}
use handling_50k_requestes_p.Titanload.{
  info_for, finish, slo, Host, LoadFlags, default_flags, command_of, worker_args, cmd_run, prepared,
}
use handling_50k_requestes_p.Titanload.ExitCodes.{Decided, cmd_run-Decided}

abbrev small_host : Host
small_host = record {
  lines = one_line;
  decimal = λ n. "2";
  contains = λ s t. false;
  cut = λ s t. none;
  canonical = λ s. s;
  read_lines = λ s. none;
}

worker_command : command_of small_host ("worker" ∷ "--loop" ∷ []) ≡ worker_args ("--loop" ∷ [])
unfolding command_of
worker_command = refl

-- One percent of errors is allowed; half of the first run's requests failed.
abbrev strict : LoadFlags fixed
strict = record (default_flags fixed) { url = "http://localhost/ping"; slo_err_pct = 1000 }

-- A million shards can be made.
abbrev some_room : ℤ → Bool
some_room n = ltb_ℤ n (pos 1000000)

cmd_run-Decided_example :
    Decided some_room strict true
      (snapshot_of first_run)
      (prepared small_host true strict [])
      (cmd_run small_host some_room true true (snapshot_of first_run) strict [])
cmd_run-Decided_example =
    cmd_run-Decided small_host some_room true true (snapshot_of first_run) strict []

abbrev fast : LoadFlags fixed
fast = record (default_flags fixed) { url = "http://localhost/ping"; slo_min_rps = 1000 }

-- Nothing was measured, so that the throughput gate is not met.
idle_run_fails : cmd_run small_host some_room true true new_snapshot fast [] ≡ some 2
unfolding cmd_run parse_mode default_flags validate check_targets check_limits info_for finish build
    slo rps new_snapshot
idle_run_fails = refl

-- More workers than make can make a slice for pass the validation, and the command panics.
abbrev crowded : LoadFlags fixed
crowded = record fast { concurrency = pos 4611686018427387904 }

crowded_run_panics : cmd_run small_host some_room true true new_snapshot crowded [] ≡ none
unfolding cmd_run parse_mode default_flags validate check_targets check_limits
crowded_run_panics = refl

-- One worker registers, and the next tick releases the job.
abbrev one_worker : Options
one_worker = record { expect = pos 1; token = ""; run_id = "run"; start_delay = pos 0 }

abbrev fast_config : Config fixed
fast_config = record {
  targets = record { method = "GET"; url = "http://localhost/ping"; body = ""; headers = [] } ∷ [];
  mode = http1;
  concurrency = pos 64;
  connections = pos 0;
  rate = 0;
  duration = pos 30000000000;
  max_requests = 0;
  timeout = pos 5000000000;
  ramp = pos 0;
  insecure = false;
  disable_keepalive = false;
  grpc_service = "";
}

abbrev joined : List Event
joined = registers "" 1 (some (record { name = "a"; host = "h"; cpus = pos 4 })) ∷ ticks 10 ∷ []

abbrev whole : ReportRequest
whole = record { id = "w"; snapshot = some (snapshot_of first_run); is_done = true; error = "" }

abbrev fresh : Coordinator fixed
fresh = coordinator_of fast_config one_worker

abbrev after_join : Coordinator fixed
after_join = (run (λ n. "w") (initial fresh) joined).coord

-- What the dashboard sees at a tick while the worker is at work.
abbrev seen : List Observed
seen = record { total = new_snapshot; workers = []; now = 30 } ∷ []
