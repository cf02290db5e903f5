-- ===== src/Remote/Examples.antt =====
-- A run of the remote worker.
use handling_50k_requestes_p.Prelude.{
  ℕ, zero, suc, ◌+◌, ◌<◌, ◌≡◌, refl, true, false, [], ◌∷◌, Option, none, some,
}
use handling_50k_requestes_p.Remote.{
  Script, register, poll_job, report_progress, report_final, run_once, await_job, execute,
  final_report, client_do,
}
use handling_50k_requestes_p.Prelude.{pos}
use handling_50k_requestes_p.Prelude.Maps.{lookup, insert}
use handling_50k_requestes_p.Stats.Examples.{fixed, first_run, snapshot_of}
use handling_50k_requestes_p.Engine.Examples.{valid_config}
use handling_50k_requestes_p.Coordinator.{
  Coordinator, Options, ReportRequest, coordinator_of, register as join, report, auth, all_finished,
}
use handling_50k_requestes_p.Remote.Reporting.{finals_in}
use handling_50k_requestes_p.Remote.Arrival.{
  Attempt, Stores, answer_of, handled, final_report_arrives,
}

abbrev last_answers : ℕ → Option (ℕ × Option ℕ)
last_answers zero = none
last_answers (suc zero) = some (503, none)
last_answers (suc (suc n)) = some (204, none)

-- The coordinator is not up at first, then has no job at first, and loses two final reports.
abbrev rough_run : Script ℕ
rough_run = record {
  registrations = none ∷ some (200, some 1) ∷ [];
  polls = some (204, none) ∷ some (200, some 1) ∷ [];
  engine_starts = true;
  cancelled_in_delay = false;
  ticks = 1;
  finals = last_answers;
}

rough_run_requests : run_once rough_run rough_run.registrations ≡ (
  register ∷ register ∷ poll_job ∷ poll_job ∷ report_progress ∷ report_final ∷ report_final
      ∷ report_final ∷ [],
  true,
)
unfolding run_once await_job execute final_report client_do
rough_run_requests = refl

rough_run_good : (run_once rough_run rough_run.registrations).1 ≡ true
unfolding run_once await_job execute final_report client_do
rough_run_good = refl

abbrev open_house : Options
open_house = record { expect = pos 1; token = "secret"; run_id = "run"; start_delay = pos 0 }

-- The coordinator with the one worker.
abbrev joined : Coordinator fixed
joined =
    (join (λ n. "w") (coordinator_of valid_config open_house) 1
      (some (record { name = "a"; host = "h"; cpus = pos 4 }))).0

abbrev last_words : ReportRequest
last_words = record {
  id = "w";
  snapshot = some (snapshot_of first_run);
  is_done = true;
  error = "";
}

-- The first request is lost, of the second the answer, and the third goes through.
abbrev tries : ℕ → Attempt fixed
tries zero = record { coordinator = joined; now = 50; arrives = false; answered = false }
tries (suc zero) = record { coordinator = joined; now = 51; arrives = true; answered = false }
tries (suc (suc n)) = record {
  coordinator = (report joined 51 (some last_words)).0;
  now = 52;
  arrives = true;
  answered = true;
}

abbrev patient_run : Script ℕ
patient_run = record rough_run { finals = λ i. answer_of "secret" last_words (tries i) }

patient_run_good : (run_once patient_run patient_run.registrations).1 ≡ true
unfolding run_once await_job execute final_report client_do join report auth coordinator_of lookup
    all_finished insert
patient_run_good = refl

final_report_arrives_example :
    (k : ℕ) × (k < 5)
    × (finals_in (run_once patient_run patient_run.registrations).0 ≡ k + 1)
    × Stores last_words (snapshot_of first_run) (handled "secret" last_words (tries k)).0
final_report_arrives_example =
    final_report_arrives patient_run "secret" last_words (snapshot_of first_run) tries refl refl
      (λ i. refl) patient_run_good
