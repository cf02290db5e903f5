-- ===== src/Coordinator/Settled.antt =====
-- The workers of a distributed run that have reported all that they recorded.
use text.Mathlib.Text.{◌==◌ as str_eq}
use text.Mathlib.TextEquality.{eq_iff}
use handling_50k_requestes_p.Prelude.{
  ℕ, ◌<◌, ◌^◌, ◌≡◌, refl, sym, ◌∙◌, String, true, false, List, [], ◌∷◌, Option, none, some, ◌⊎◌,
  inl, inr, length, arith, Bool-cases, if◌then◌else◌,
}
use handling_50k_requestes_p.Prelude.Float.{Float}
use handling_50k_requestes_p.Prelude.Maps.{lookup, lookup-insert}
use handling_50k_requestes_p.Stats.{Sample, Snapshot}
use handling_50k_requestes_p.Stats.Samples.{Summarises}
use handling_50k_requestes_p.Coordinator.{
  is_terminal, WorkerState, Coordinator, ReportRequest, report, reported, is_some,
}
use handling_50k_requestes_p.Coordinator.Registry.{Inv, mem}
use handling_50k_requestes_p.Coordinator.Completion.{at_end, is_final, report_ids, report_order}
use handling_50k_requestes_p.Coordinator.Totals.{AllAccount}

module _ (fl : Float) (work : String → List Sample) where
  -- A final report with a snapshot of all that its worker recorded.
  abbrev pub IsComplete : ReportRequest → Type 0
  IsComplete r =
      (is_final r ≡ true)
      × ((sn : Snapshot) × (r.snapshot ≡ some sn) × Summarises fl sn (work r.id))

  -- Each report is complete, or one of the same worker follows it.
  abbrev pub AllComplete : List (ℕ × ReportRequest) → Type 0
  AllComplete [] = Unit {0}
  AllComplete ((now, r) ∷ rs) = (IsComplete r ⊎ (mem r.id (report_ids rs) ≡ true)) × AllComplete rs

  -- The worker is in a final state, and its last snapshot summarises its work.
  pub record Settled (ws : List (String × WorkerState)) (id : String) : Type 0 where
    pub known :
        (w : WorkerState) × (lookup id ws ≡ some w)
        × (is_terminal w.state ≡ true)
        × ((sn : Snapshot) × (w.snap ≡ some sn) × Summarises fl sn (work id))

  -- Every worker of the order is settled, or has a report still to come.
  abbrev pub Awaits : Coordinator fl → List (ℕ × ReportRequest) → Type 0
  Awaits c rs =
      (id : String) → mem id c.order ≡ true → Settled c.workers id ⊎ (mem id (report_ids rs) ≡ true)

  pub report-lookup :
      (c : Coordinator fl) (now : ℕ) (r : ReportRequest) (id : String) (w : WorkerState)
      → lookup r.id c.workers ≡ some w
      → lookup id (report c now (some r)).0.workers
        ≡ (if str_eq r.id id then some (reported now r w) else lookup id c.workers)
  unfolding report
  report-lookup c now r id w e =
      ground (arith, eq_iff r.id id, lookup-insert r.id id (reported now r w) c.workers)

  pub reported-terminal :
      (now : ℕ) (r : ReportRequest) (w : WorkerState)
      → is_final r ≡ true
      → is_terminal (reported now r w).state ≡ true
  unfolding reported
  reported-terminal now r w final = ground arith

  pub reported-snap :
      (now : ℕ) (r : ReportRequest) (w : WorkerState) (sn : Snapshot)
      → r.snapshot ≡ some sn
      → (reported now r w).snap ≡ some sn
  unfolding reported
  reported-snap now r w sn e = rw e refl

  -- The worker of a complete report is settled by it.
  settles :
      (c : Coordinator fl) (now : ℕ) (r : ReportRequest) (w : WorkerState)
      → lookup r.id c.workers ≡ some w
      → IsComplete r
      → Settled (report c now (some r)).0.workers r.id
  settles c now r w e (final, (sn, carries, sums)) = record {
    known = (
      reported now r w,
      report-lookup c now r r.id w e ∙ ground (arith, eq_iff r.id r.id),
      reported-terminal now r w final,
      (sn, reported-snap now r w sn carries, sums),
    );
  }

  report-Settled :
      (c : Coordinator fl) (now : ℕ) (r : ReportRequest) (w : WorkerState) (id : String)
      → lookup r.id c.workers ≡ some w
      → str_eq r.id id ≡ false
      → Settled c.workers id
      → Settled (report c now (some r)).0.workers id
  report-Settled c now r w id e other s =
      let (v, there, final, carried) = s.known in
      let same : lookup id (report c now (some r)).0.workers ≡ lookup id c.workers =
        report-lookup c now r id w e ∙ rw other refl in
      record { known = (v, same ∙ there, final, carried) }

  pub report-Awaits :
      (c : Coordinator fl) (now : ℕ) (r : ReportRequest) (rs : List (ℕ × ReportRequest))
      (w : WorkerState)
      → lookup r.id c.workers ≡ some w
      → IsComplete r ⊎ (mem r.id (report_ids rs) ≡ true)
      → Awaits c ((now, r) ∷ rs)
      → Awaits (report c now (some r)).0 rs
  report-Awaits c now r rs w e good awaits id m = elim (Bool-cases (str_eq r.id id)) [
    | inl here ↦ own ((eq_iff r.id id).0 here) good
    | inr other ↦ others other (awaits id (rw (sym (report_order c now r)) m))
  ]
    where
      own :
          r.id ≡ id
          → IsComplete r ⊎ (mem r.id (report_ids rs) ≡ true)
          → Settled (report c now (some r)).0.workers id ⊎ (mem id (report_ids rs) ≡ true)
      own same (inl complete) = inl (rw (← same) (settles c now r w e complete))
      own same (inr later) = inr (rw (← same) later)

      others :
          str_eq r.id id ≡ false
          → Settled c.workers id ⊎ (mem id (r.id ∷ report_ids rs) ≡ true)
          → Settled (report c now (some r)).0.workers id ⊎ (mem id (report_ids rs) ≡ true)
      others other (inl s) = inl (report-Settled c now r w id e other s)
      others other (inr later) = inr (ground (arith, other, later))

  pub Settled-at_end :
      (ws : List (String × WorkerState)) (id : String) → Settled ws id → at_end ws id ≡ true
  Settled-at_end ws id s = let (w, there, final, carried) = s.known in rw (there, at_end) final

  pub all-Account :
      (ws : List (String × WorkerState)) (ids : List String)
      → ((id : String) → length (work id) < 2 ^ 64)
      → ((id : String) → mem id ids ≡ true → Settled ws id)
      → AllAccount fl work ws ids
  all-Account ws [] few h = tt
  all-Account ws (id ∷ ids) few h =
      let s = h id (ground (arith, eq_iff id id)) in
      let (w, there, final, (sn, carries, sums)) = s.known in
      ((w, there, rw carries sums, few id), all-Account ws ids few (λ j m. h j (ground arith)))

  pub nothing_awaited :
      (c : Coordinator fl)
      → Awaits c []
      → (id : String) → mem id c.order ≡ true
      → Settled c.workers id
  nothing_awaited c awaits id m = settled (awaits id m)
    where
      settled : Settled c.workers id ⊎ (mem id [] ≡ true) → Settled c.workers id
      settled (inl s) = s
      settled (inr none_left) = absurd (cc)

  pub known_worker :
      (format : ℕ → String) (c : Coordinator fl) (id : String)
      → Inv format c
      → mem id c.order ≡ true
      → (w : WorkerState) × (lookup id c.workers ≡ some w)
  known_worker format c id v m = found (lookup id c.workers) (v.keys id ∙ m)
    where
      found : (o : Option WorkerState) → is_some o ≡ true → (w : WorkerState) × (o ≡ some w)
      found none e = absurd (cc)
      found (some w) e = (w, refl)
