-- ===== src/Coordinator/Collect.antt =====
-- The whole of a distributed run's results: the last final report ends it, and the total is complete.
use handling_50k_requestes_p.Prelude.{
  ℕ, ◌<◌, ◌^◌, ◌≡◌, ◌∙◌, String, true, false, List, [], ◌∷◌, some, ◌⊎◌, inl, inr, length, arith,
}
use handling_50k_requestes_p.Prelude.Float.{Float}
use handling_50k_requestes_p.Stats.{Sample}
use handling_50k_requestes_p.Stats.Samples.{Summarises}
use handling_50k_requestes_p.Coordinator.{
  Coordinator, ReportRequest, report, is_some, is_empty, snapshot, all_finished,
}
use handling_50k_requestes_p.Coordinator.Registry.{Inv, mem, report-Inv}
use handling_50k_requestes_p.Coordinator.Completion.{
  report_ids, report_each, AllKnown, AllKnown-order, all_terminal_intro, report_finished,
  report_order, report_job,
}
use handling_50k_requestes_p.Coordinator.Totals.{work_of, snapshot-Summarises}
use handling_50k_requestes_p.Coordinator.Settled.{
  IsComplete, AllComplete, Awaits, report-Awaits, Settled-at_end, all-Account, nothing_awaited,
  known_worker,
}

module _ (fl : Float) (work : String → List Sample) where
  -- The state after the last report: the run is finished and the total is complete.
  record Collected (c : Coordinator fl) : Type 0 where
    pub finished : c.finished ≡ true
    pub complete : Summarises fl (snapshot c) (work_of work c.order)

  complete_report :
      (r : ReportRequest) → IsComplete fl work r ⊎ (mem r.id [] ≡ true) → IsComplete fl work r
  complete_report r (inl complete) = complete
  complete_report r (inr none_left) = absurd (cc)

  module _ (format : ℕ → String) (few : (id : String) → length (work id) < 2 ^ 64) where
    last-Collected :
        (c : Coordinator fl) (now : ℕ) (r : ReportRequest)
        → Inv format c
        → is_some c.job ≡ true
        → is_empty c.order ≡ false
        → IsComplete fl work r
        → mem r.id c.order ≡ true
        → Awaits fl work c ((now, r) ∷ [])
        → Collected (report c now (some r)).0
    last-Collected c now r v out busy complete m awaits =
        let (w, e) = known_worker fl work format c r.id v m in
        let d = (report c now (some r)).0 in
        let settled =
          nothing_awaited fl work d (report-Awaits fl work c now r [] w e (inl complete) awaits) in
        let job : is_some d.job ≡ true = rw (report_job c now r) out in
        let some_worker : is_empty d.order ≡ false = rw (report_order c now r) busy in
        let ended =
          all_terminal_intro d.workers d.order
            (λ id n. Settled-at_end fl work d.workers id (settled id n)) in
        record {
          finished =
              report_finished c now r complete.0 (v.keys r.id ∙ m)
                (unfold all_finished in ground (arith, job, some_worker, ended));
          complete =
              snapshot-Summarises fl work d (all-Account fl work d.workers d.order few settled);
        }

    reports-Collected :
        (c : Coordinator fl) (now : ℕ) (r : ReportRequest) (rs : List (ℕ × ReportRequest))
        → Inv format c
        → is_some c.job ≡ true
        → is_empty c.order ≡ false
        → AllComplete fl work ((now, r) ∷ rs)
        → AllKnown c ((now, r) ∷ rs)
        → Awaits fl work c ((now, r) ∷ rs)
        → Collected (report_each c ((now, r) ∷ rs))
    unfolding report_each
    reports-Collected c now r [] v out busy complete known awaits =
        last-Collected c now r v out busy (complete_report r complete.0) known.0 awaits
    reports-Collected c now r ((now', r') ∷ rs) v out busy complete known awaits =
        let (w, e) = known_worker fl work format c r.id v known.0 in
        let d = (report c now (some r)).0 in
        reports-Collected d now' r' rs (report-Inv format c v now (some r))
          (rw (report_job c now r) out) (rw (report_order c now r) busy) complete.1
          (AllKnown-order c d ((now', r') ∷ rs) (report_order c now r) known.1)
          (report-Awaits fl work c now r ((now', r') ∷ rs) w e complete.0 awaits)

    -- In a released run with at least one worker: let reports of known workers come in, at any times, in
    -- any order and with repetitions, among them one of each worker of the order, such that each either
    -- is final and carries a snapshot of all that its worker recorded, fewer than 2^64 samples, or is
    -- followed by another report of the same worker. Then the run is finished, and the coordinator's
    -- snapshot summarises all that the workers recorded.
    pub reports_collect :
        (c : Coordinator fl) (now : ℕ) (r : ReportRequest) (rs : List (ℕ × ReportRequest))
        → Inv format c
        → is_some c.job ≡ true
        → is_empty c.order ≡ false
        → AllComplete fl work ((now, r) ∷ rs)
        → AllKnown c ((now, r) ∷ rs)
        → ((id : String) → mem id c.order ≡ true → mem id (report_ids ((now, r) ∷ rs)) ≡ true)
        → ((report_each c ((now, r) ∷ rs)).finished ≡ true)
          × Summarises fl
              (snapshot (report_each c ((now, r) ∷ rs)))
              (work_of work (report_each c ((now, r) ∷ rs)).order)
    reports_collect c now r rs v out busy complete known all =
        let z = reports-Collected c now r rs v out busy complete known (λ id m. inr (all id m)) in
        (z.finished, z.complete)
