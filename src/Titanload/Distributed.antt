-- ===== src/Titanload/Distributed.antt =====
-- A whole distributed run: from the workers' samples to the exit code of the coordinator.
use handling_50k_requestes_p.Prelude.{ℕ, String, List, [], ◌∷◌, some}
use handling_50k_requestes_p.Prelude.Float.{Float}
use handling_50k_requestes_p.Coordinator.{Coordinator, ReportRequest}
use handling_50k_requestes_p.Coordinator.Watch.{Event, reports}

-- The reports as requests that carry the token.
abbrev pub report_events : String → List (ℕ × ReportRequest) → List Event
report_events token [] = []
report_events token ((now, r) ∷ rs) = reports token now (some r) ∷ report_events token rs
