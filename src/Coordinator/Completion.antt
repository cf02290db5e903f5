-- ===== src/Coordinator/Completion.antt =====
-- How a run comes to its end: by the last final report, or by the deadline.
use text.Mathlib.Text.{◌==◌ as str_eq}
use text.Mathlib.TextEquality.{eq_iff}
use handling_50k_requestes_p.Prelude.{
  ℕ, ◌≡◌, refl, sym, ◌∙◌, String, Bool, true, false, not, ◌||◌, List, [], ◌∷◌, none, some, inl, inr,
  arith, Option-cases, Bool-cases,
}
use handling_50k_requestes_p.Prelude.Float.{Float}
use handling_50k_requestes_p.Prelude.Maps.{lookup, insert, lookup-insert}
use handling_50k_requestes_p.Coordinator.{
  is_terminal, WorkerState, Coordinator, ReportRequest, report, reported, is_some, is_empty,
  all_terminal, all_finished,
}
use handling_50k_requestes_p.Coordinator.Watch.{for_each, expire, expire_worker}
use handling_50k_requestes_p.Coordinator.Registry.{Inv, mem, report-Inv}

-- The worker is known and in a final state.
abbrev pub at_end : List (String × WorkerState) → String → Bool
at_end ws id = elim (lookup id ws) [ none ↦ false | some w ↦ is_terminal w.state ]

pub all_terminal_intro :
    (ws : List (String × WorkerState)) (ids : List String)
    → ((id : String) → mem id ids ≡ true → at_end ws id ≡ true)
    → all_terminal ws ids ≡ true
unfolding all_terminal
all_terminal_intro ws [] h = refl
all_terminal_intro ws (id ∷ ids) h =
    let here = h id (ground (arith, eq_iff id id)) in
    let rest = all_terminal_intro ws ids (λ j m. h j (ground arith)) in ground (arith, here, rest)

all_terminal_elim :
    (ws : List (String × WorkerState)) (ids : List String) (id : String)
    → all_terminal ws ids ≡ true
    → mem id ids ≡ true
    → at_end ws id ≡ true
unfolding all_terminal
all_terminal_elim ws [] id h m = cc
all_terminal_elim ws (j ∷ ids) id h m = ground (arith, eq_iff j id, all_terminal_elim ws ids id)

-- A report that says that the worker is through, well or badly.
abbrev pub is_final : ReportRequest → Bool
is_final r = not (str_eq r.error "") || r.is_done

abbrev pub report_ids : List (ℕ × ReportRequest) → List String
report_ids [] = []
report_ids ((now, r) ∷ rs) = r.id ∷ report_ids rs

abbrev pub AllFinal : List (ℕ × ReportRequest) → Type 0
AllFinal [] = Unit {0}
AllFinal ((now, r) ∷ rs) = (is_final r ≡ true) × AllFinal rs

unfoldable pub report_each :
    {fl : Float} → Coordinator fl → List (ℕ × ReportRequest) → Coordinator fl
report_each c [] = c
report_each c ((now, r) ∷ rs) = report_each (report c now (some r)).0 rs

module _ {fl : Float} (c : Coordinator fl) (now : ℕ) (r : ReportRequest) where
  pub report_order : (report c now (some r)).0.order ≡ c.order
  unfolding report
  report_order = ground arith

  pub report_job : (report c now (some r)).0.job ≡ c.job
  unfolding report
  report_job = ground arith

module _ {fl : Float} (c : Coordinator fl) (now : ℕ) (r : ReportRequest)
    (final : is_final r ≡ true) where
  -- A final report ends its worker, and takes no other out of a final state.
  report-at_end :
      (id : String)
      → is_some (lookup id c.workers) ≡ true
      → (at_end c.workers id || str_eq r.id id) ≡ true
      → at_end (report c now (some r)).0.workers id ≡ true
  unfolding report
  report-at_end id known h = elim (Option-cases (lookup r.id c.workers)) [
    | inl e ↦ ground (arith, eq_iff r.id id)
    | inr (w, e) ↦
        ground (arith, eq_iff r.id id, lookup-insert r.id id (reported now r w) c.workers)
  ]

  pub report_finished :
      is_some (lookup r.id c.workers) ≡ true
      → all_finished (report c now (some r)).0 ≡ true
      → (report c now (some r)).0.finished ≡ true
  unfolding report all_finished
  report_finished known h = ground arith

-- Every worker of the order is at its end, or has a report still to come.
abbrev pub Covers : {fl : Float} → Coordinator fl → List (ℕ × ReportRequest) → Type 0
Covers c rs =
    (id : String) → mem id c.order ≡ true → (at_end c.workers id || mem id (report_ids rs)) ≡ true

abbrev pub AllKnown : {fl : Float} → Coordinator fl → List (ℕ × ReportRequest) → Type 0
AllKnown c [] = Unit {0}
AllKnown c ((now, r) ∷ rs) = (mem r.id c.order ≡ true) × AllKnown c rs

pub AllKnown-order :
    {fl : Float} (c d : Coordinator fl) (rs : List (ℕ × ReportRequest))
    → d.order ≡ c.order
    → AllKnown c rs
    → AllKnown d rs
AllKnown-order c d [] e h = tt
AllKnown-order c d ((now, r) ∷ rs) e h = (rw e h.0, AllKnown-order c d rs e h.1)

module _ {fl : Float} (format : ℕ → String) where
  report-Covers :
      (c : Coordinator fl) (now : ℕ) (r : ReportRequest) (rs : List (ℕ × ReportRequest))
      → Inv format c
      → is_final r ≡ true
      → Covers c ((now, r) ∷ rs)
      → Covers (report c now (some r)).0 rs
  report-Covers c now r rs v final covers id m =
      let m' : mem id c.order ≡ true = rw (sym (report_order c now r)) m in
      let known = v.keys id ∙ m' in
      ground (arith, covers id m', report-at_end c now r final id known)

  last_report :
      (c : Coordinator fl) (now : ℕ) (r : ReportRequest)
      → Inv format c
      → is_some c.job ≡ true
      → is_empty c.order ≡ false
      → is_final r ≡ true
      → mem r.id c.order ≡ true
      → Covers c ((now, r) ∷ [])
      → (report c now (some r)).0.finished ≡ true
  last_report c now r v out busy final known covers =
      let d = (report c now (some r)).0 in
      let order = report_order c now r in
      let job : is_some d.job ≡ true = rw (report_job c now r) out in
      let some_worker : is_empty d.order ≡ false = rw order busy in
      let ended =
        all_terminal_intro d.workers d.order
          (λ id m. ground (arith, report-Covers c now r [] v final covers id m)) in
      report_finished c now r final (v.keys r.id ∙ known)
        (unfold all_finished in ground (arith, job, some_worker, ended))

  -- Liveness: in a released run with at least one worker, once a sequence of final reports from known
  -- workers has come in, at any times, in any order and with repetitions, such that every worker is
  -- already in a final state or has reported in the sequence, the run is finished.
  finals_close :
      (c : Coordinator fl) (now : ℕ) (r : ReportRequest) (rs : List (ℕ × ReportRequest))
      → Inv format c
      → is_some c.job ≡ true
      → is_empty c.order ≡ false
      → AllFinal ((now, r) ∷ rs)
      → AllKnown c ((now, r) ∷ rs)
      → Covers c ((now, r) ∷ rs)
      → (report_each c ((now, r) ∷ rs)).finished ≡ true
  unfolding report_each
  finals_close c now r [] v out busy final known covers =
      last_report c now r v out busy final.0 known.0 covers
  finals_close c now r ((now', r') ∷ rs) v out busy final known covers =
      let d = (report c now (some r)).0 in
      let order = report_order c now r in
      finals_close d now' r' rs (report-Inv format c v now (some r)) (rw (report_job c now r) out)
        (rw order busy) final.1 (AllKnown-order c d ((now', r') ∷ rs) order known.1)
        (report-Covers c now r ((now', r') ∷ rs) v final.0 covers)

-- A report closes the run only where it should: if it was not finished before and is afterwards, the
-- job is out and every worker of the order is known and in a final state.
report_closes :
    {fl : Float} (c : Coordinator fl) (now : ℕ) (r : ReportRequest)
    → c.finished ≡ false
    → (report c now (some r)).0.finished ≡ true
    → (is_some (report c now (some r)).0.job ≡ true)
      × (all_terminal (report c now (some r)).0.workers (report c now (some r)).0.order ≡ true)
unfolding report all_finished
report_closes c now r before after = ground arith

expire_keeps :
    (id : String) (ids : List String) (ws : List (String × WorkerState))
    → at_end ws id ≡ true
    → lookup id (for_each expire_worker ids ws) ≡ lookup id ws
unfolding for_each
expire_keeps id [] ws h = refl
expire_keeps id (j ∷ ids) ws h = elim (Option-cases (lookup j ws)) [
  | inl e ↦ rw (e, for_each) (expire_keeps id ids ws h)
  | inr (w, e) ↦
      let same : lookup id (insert j (expire_worker w) ws) ≡ lookup id ws =
        unfold expire_worker in
        ground (arith, eq_iff j id, lookup-insert j id (expire_worker w) ws) in
      rw (e, for_each) (expire_keeps id ids _ (rw (same, at_end) h) ∙ same)
]

expire_worker_end :
    (w : WorkerState) (j id : String) (ws : List (String × WorkerState))
    → str_eq j id ≡ true
    → at_end (insert j (expire_worker w) ws) id ≡ true
unfolding expire_worker
expire_worker_end w j id ws here = ground (arith, lookup-insert j id (expire_worker w) ws)

expire_ends :
    (id : String) (ids : List String) (ws : List (String × WorkerState))
    → is_some (lookup id ws) ≡ true
    → mem id ids ≡ true
    → at_end (for_each expire_worker ids ws) id ≡ true
unfolding for_each
expire_ends id [] ws known m = cc
expire_ends id (j ∷ ids) ws known m = elim (Option-cases (lookup j ws)) [
  | inl e ↦ rw (e, for_each) (expire_ends id ids ws known (ground (arith, eq_iff j id)))
  | inr (w, e) ↦
      rw (e, for_each)
        (elim (Bool-cases (str_eq j id)) [
          | inl here ↦ rw (expire_keeps id ids _ (written w e here), at_end) (written w e here)
          | inr there ↦
              expire_ends id ids _
                (unfold expire_worker in ground (arith, lookup-insert j id (expire_worker w) ws))
                (ground arith)
        ])
]
  where
    written :
        (w : WorkerState)
        → lookup j ws ≡ some w
        → str_eq j id ≡ true
        → at_end (insert j (expire_worker w) ws) id ≡ true
    written w e here = expire_worker_end w j id ws here

-- At the deadline the run is finished, every worker of the order is in a final state, and a worker
-- that was in one already is as it was.
expire_closes :
    {fl : Float} (format : ℕ → String) (c : Coordinator fl)
    → Inv format c
    → ((expire c).finished ≡ true)
      × (all_terminal (expire c).workers (expire c).order ≡ true)
      × ((id : String)
          → at_end c.workers id ≡ true
          → lookup id (expire c).workers ≡ lookup id c.workers)
unfolding expire
expire_closes format c v = (
  refl,
  all_terminal_intro _ c.order (λ id m. expire_ends id c.order c.workers (v.keys id ∙ m) m),
  λ id h. expire_keeps id c.order c.workers h,
)
