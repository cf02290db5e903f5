-- ===== src/Remote/Arrival.antt =====
-- The final report and the coordinator that it is sent to: what the worker takes for accepted is stored.
--
-- Each attempt meets the coordinator in some state, whatever happened to it since the attempt before;
-- the network may lose the request, or the answer to it.
use handling_50k_requestes_p.Prelude.{
  ℕ, ◌+◌, ◌<◌, ◌≡◌, String, Bool, true, false, ◌&&◌, [], Option, none, some, arith, if◌then◌else◌,
  Option-cases, inl, inr, ◌∙◌,
}
use text.Mathlib.TextEquality.{eq_iff}
use handling_50k_requestes_p.Prelude.Float.{Float}
use handling_50k_requestes_p.Prelude.Maps.{lookup}
use handling_50k_requestes_p.Stats.{Snapshot}
use handling_50k_requestes_p.Coordinator.{
  unauthorized, bad_request, conflict, not_found, no_content, hung_up, blocked, panicked,
  registered, job_reply, is_terminal, WorkerState, Coordinator, ReportRequest, Reply, report,
  reported, auth,
}
use handling_50k_requestes_p.Coordinator.Completion.{is_final}
use handling_50k_requestes_p.Coordinator.Settled.{report-lookup, reported-terminal, reported-snap}
use handling_50k_requestes_p.Remote.{Script, client_do, run_once}
use handling_50k_requestes_p.Remote.Reporting.{finals_in, run_once_reported}

-- The status of an answer; the handlers that have none leave the request without one.
abbrev pub reply_code : {fl : Float} → Reply fl → Option ℕ
reply_code unauthorized = some 401
reply_code bad_request = some 400
reply_code conflict = some 409
reply_code not_found = some 404
reply_code no_content = some 204
reply_code hung_up = none
reply_code blocked = none
reply_code panicked = none
reply_code (registered id) = some 200
reply_code (job_reply job) = some 200

-- One attempt: the state of the coordinator, its clock, and whether the request and the answer arrive.
pub record Attempt (fl : Float) : Type 0 where
  pub coordinator : Coordinator fl
  pub now : ℕ
  pub arrives : Bool
  pub answered : Bool

abbrev pub handled : {fl : Float} → String → ReportRequest → Attempt fl → Coordinator fl × Reply fl
handled token r a = auth a.coordinator token (report a.coordinator a.now (some r))

abbrev pub as_answer : {A : Type 0} → Option ℕ → Option (ℕ × Option A)
as_answer none = none
as_answer (some code) = some (code, none)

-- What the worker gets to see of an attempt.
abbrev pub answer_of :
    {A : Type 0} {fl : Float} → String → ReportRequest → Attempt fl → Option (ℕ × Option A)
answer_of token r a =
    if a.arrives && a.answered then as_answer (reply_code (handled token r a).1) else none

-- The coordinator has the worker in a final state, with the report's snapshot.
pub record Stores {fl : Float} (r : ReportRequest) (sn : Snapshot) (c : Coordinator fl)
    : Type 0 where
  pub worker : WorkerState
  pub known : lookup r.id c.workers ≡ some worker
  pub ended : is_terminal worker.state ≡ true
  pub stored : worker.snap ≡ some sn

got_through :
    (A : Type 0) (through : Bool) (code : Option ℕ)
    → (client_do {A = A} false (if through then as_answer code else none)).failed ≡ false
    → (client_do {A = A} false (as_answer code)).failed ≡ false
unfolding client_do
got_through A true code good = good
got_through A false code good = absurd (cc)

module _ (A : Type 0) {fl : Float} (token : String) (r : ReportRequest) (sn : Snapshot)
    (final : is_final r ≡ true) (carries : r.snapshot ≡ some sn) where
  report-Stores :
      (c : Coordinator fl) (now : ℕ)
      → (client_do {A = A} false (as_answer (reply_code (report c now (some r)).1))).failed ≡ false
      → Stores r sn (report c now (some r)).0
  unfolding report client_do
  report-Stores c now good = elim (Option-cases (lookup r.id c.workers)) [
    | inl e ↦ absurd (ground arith)
    | inr (w, e) ↦ record {
      worker = reported now r w;
      known = report-lookup fl (λ id. []) c now r r.id w e ∙ ground (arith, eq_iff r.id r.id);
      ended = reported-terminal fl (λ id. []) now r w final;
      stored = reported-snap fl (λ id. []) now r w sn carries;
    }
  ]

  let_in :
      (refused : Bool) (c : Coordinator fl) (p : Coordinator fl × Reply fl)
      → (client_do {A = A} false
          (as_answer (reply_code (if refused then (c, unauthorized) else p).1))).failed
        ≡ false
      → ((client_do {A = A} false (as_answer (reply_code p.1))).failed ≡ false → Stores r sn p.0)
      → Stores r sn (if refused then (c, unauthorized) else p).0
  unfolding client_do
  let_in true c p good stores = absurd (cc)
  let_in false c p good stores = stores good

  handled-Stores :
      (a : Attempt fl)
      → (client_do {A = A} false (answer_of token r a)).failed ≡ false
      → Stores r sn (handled token r a).0
  unfolding auth
  handled-Stores a good =
      let_in _ a.coordinator (report a.coordinator a.now (some r))
        (got_through A (a.arrives && a.answered) (reply_code (handled token r a).1) good)
        (report-Stores a.coordinator a.now)

-- Whatever the coordinator went through between the attempts, and whatever the network lost: if runOnce
-- returns nil, one of its five attempts at the final report, the last that it made, was handled by the
-- coordinator, which then has the worker in a final state with the final snapshot.
pub final_report_arrives :
    {A : Type 0} {fl : Float} (s : Script A) (token : String) (r : ReportRequest) (sn : Snapshot)
    (attempts : ℕ → Attempt fl)
    → is_final r ≡ true
    → r.snapshot ≡ some sn
    → ((i : ℕ) → s.finals i ≡ answer_of token r (attempts i))
    → (run_once s s.registrations).1 ≡ true
    → (k : ℕ) × (k < 5)
      × (finals_in (run_once s s.registrations).0 ≡ k + 1)
      × Stores r sn (handled token r (attempts k)).0
final_report_arrives {A = A} s token r sn attempts final carries net good =
    let (k, at, within, sent) = run_once_reported s good in
    let accepted : (client_do {A = A} false (answer_of token r (attempts k))).failed ≡ false =
      rw (← net k) at.accepted in
    (k, within, sent, handled-Stores A token r sn final carries (attempts k) accepted)
