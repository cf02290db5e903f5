-- ===== src/Coordinator/Examples.antt =====
-- Tests of the coordinator, and its properties at a run with two workers.
use Prim.Native.String.{String}
use text.Mathlib.Text.{◌==◌ as str_eq}
use handling_50k_requestes_p.Prelude.{
  inl, inr, ◌^◌, ℕ, zero, suc, ◌<◌, ◌≡◌, refl, sym, ap, ◌∙◌, true, false, List, [], ◌∷◌, ◌++◌, none,
  some, arith, if◌then◌else◌, length, pos,
}
use handling_50k_requestes_p.Prelude.Maps.{lookup, insert}
use handling_50k_requestes_p.Stats.{Sample}
use handling_50k_requestes_p.Stats.Samples.{Summarises}
use handling_50k_requestes_p.Stats.Examples.{
  fixed, first_run, second_run, snapshot_of, snapshot_of-Summarises,
}
use handling_50k_requestes_p.Engine.{Config, validate, check_targets, check_limits}
use handling_50k_requestes_p.Engine.Examples.{valid_config, one_line}
use handling_50k_requestes_p.Prelude.Results.{ok}
use handling_50k_requestes_p.Coordinator.{
  Coordinator, Options, RegisterRequest, ReportRequest, auth, coordinator_of, register, report,
  new_coordinator, all_terminal, all_finished, reported, snapshot,
}
use handling_50k_requestes_p.Coordinator.Watch.{
  initial, System, Event, registers, reports, ticks, done_closed, release, split, step, run, tick,
}
use handling_50k_requestes_p.Coordinator.Registry.{
  Inv, IsInjective, new-Inv, run-Inv, run-initial-Inv,
}
use handling_50k_requestes_p.Coordinator.Lifecycle.{Frozen, run-Frozen}
use handling_50k_requestes_p.Coordinator.Split.{split_wraps}
use handling_50k_requestes_p.Coordinator.Completion.{report_each}
use handling_50k_requestes_p.Coordinator.Collect.{reports_collect}
use handling_50k_requestes_p.Coordinator.Totals.{work_of, snapshot-Summarises}

-- Ids by tally marks stand in for the decimal ones.
abbrev pub tally : ℕ → String
tally zero = String.[]
tally (suc n) = String.◌∷◌ "w" (tally n)

abbrev pub marks : String → ℕ
marks String.[] = 0
marks (String.◌∷◌ c s) = suc (marks s)

pub marks-tally : (n : ℕ) → marks (tally n) ≡ n
marks-tally zero = refl
marks-tally (suc n) = ap suc (marks-tally n)

tally-IsInjective : IsInjective tally
tally-IsInjective m n e = sym (marks-tally m) ∙ ap marks e ∙ marks-tally n

abbrev options : Options
options = record { expect = pos 2; token = "secret"; run_id = "run"; start_delay = pos 0 }

abbrev fresh : Coordinator fixed
fresh = coordinator_of valid_config options

fresh-Inv : Inv tally fresh
fresh-Inv = new-Inv tally valid_config options

abbrev worker_request : RegisterRequest
worker_request = record { name = "a"; host = "h"; cpus = pos 4 }

abbrev final_report : String → ReportRequest
final_report id = record { id = id; snapshot = none; is_done = true; error = "" }

abbrev start : System fixed
start = initial fresh

-- Two workers register, and the next tick of Run releases the job.
abbrev opening : List Event
opening =
    registers "secret" 1 (some worker_request)
    ∷ registers "secret" 2 (some worker_request)
    ∷ ticks 10
    ∷ []

started : System fixed
unfolding run step tick release register coordinator_of insert auth
started = run tally start opening

abbrev finale : List Event
finale = reports "secret" 50 (some (final_report "w")) ∷ ticks 60 ∷ done_closed ∷ []

fresh_made : new_coordinator one_line.strings valid_config options ≡ ok fresh
unfolding new_coordinator validate check_targets check_limits coordinator_of
fresh_made = refl

run-initial-Inv_example : Inv tally (run tally (initial fresh) (opening ++ finale)).coord
run-initial-Inv_example =
    run-initial-Inv one_line.strings tally valid_config options fresh (opening ++ finale) fresh_made

started-Inv : Inv tally started.coord
unfolding started
started-Inv = run-Inv tally start opening fresh-Inv

run-Frozen_example : Frozen started.coord (run tally started finale).coord
unfolding started
run-Frozen_example = run-Frozen tally started finale refl tt

abbrev huge_config : Config fixed
huge_config = record valid_config { max_requests = 18446744073709551615 }

split_wraps_example : (split huge_config 4).max_requests ≡ 0
split_wraps_example =
    split_wraps huge_config 4 (omega arith) (omega arith) (omega arith) (omega arith)

-- What the two workers recorded.
abbrev work : String → List Sample
work id = if str_eq id "w" then first_run else second_run

abbrev reporting : Coordinator fixed
reporting =
    (report
      (report started.coord 30 (
        some (record {
          id = "w";
          snapshot = some (snapshot_of first_run);
          is_done = false;
          error = "";
        }))).0
      31
      (some (record {
        id = "ww";
        snapshot = some (snapshot_of second_run);
        is_done = true;
        error = "";
      }))).0

snapshot-Summarises_example : Summarises fixed (snapshot reporting) (work_of work reporting.order)
unfolding started report lookup insert all_finished all_terminal reported
snapshot-Summarises_example = snapshot-Summarises fixed work reporting (
  (_, refl, snapshot_of-Summarises first_run, omega arith),
  ((_, refl, snapshot_of-Summarises second_run, omega arith), tt),
)

-- A final report with all that a worker recorded, and one that comes while it still works.
abbrev complete_report : String → ReportRequest
complete_report id = record {
  id = id;
  snapshot = some (snapshot_of (work id));
  is_done = true;
  error = "";
}

abbrev partial_report : String → ReportRequest
partial_report id = record (complete_report id) {
  snapshot = some (snapshot_of []);
  is_done = false;
}

abbrev three_reports : List (ℕ × ReportRequest)
three_reports = (41, complete_report "ww") ∷ (42, complete_report "w") ∷ []

few_samples : (id : String) → length (work id) < 2 ^ 64
few_samples id = ground arith

reports_collect_example :
    ((report_each started.coord ((40, partial_report "w") ∷ three_reports)).finished ≡ true)
    × Summarises fixed
        (snapshot (report_each started.coord ((40, partial_report "w") ∷ three_reports)))
        (work_of work (report_each started.coord ((40, partial_report "w") ∷ three_reports)).order)
unfolding started
reports_collect_example =
    reports_collect fixed work tally few_samples started.coord 40 (partial_report "w") three_reports
      started-Inv refl refl
      (
        inr refl,
        (
          inl (refl, (_, refl, snapshot_of-Summarises second_run)),
          (inl (refl, (_, refl, snapshot_of-Summarises first_run)), tt),
        ),
      )
      (refl, (refl, (refl, tt))) (λ id m. ground (arith, m))
