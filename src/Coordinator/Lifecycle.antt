-- ===== src/Coordinator/Lifecycle.antt =====
-- What a release fixes, what the handlers refuse, and how a run ends.
use text.Mathlib.Text.{◌==◌ as str_eq}
use text.Mathlib.TextEquality.{eq_iff}
use handling_50k_requestes_p.Prelude.{
  ℕ, ◌+◌, ◌-◌, ◌≤◌, ◌≡◌, ◌≢◌, refl, sym, ◌∙◌, String, true, List, [], ◌∷◌, Option, none, some, inl,
  inr, arith, if◌then◌else◌, Bool-cases, leb,
}
use handling_50k_requestes_p.Prelude.Float.{Float}
use handling_50k_requestes_p.Prelude.Maps.{lookup, lookup-insert}
use handling_50k_requestes_p.Coordinator.{
  running, WorkerState, Job, Coordinator, Reply, RegisterRequest, ReportRequest, Wake, on_release,
  unauthorized, job_reply, register, poll, report, auth, is_some,
}
use handling_50k_requestes_p.Coordinator.Watch.{
  mark_lost, expire, Phase, waiting, watching, returned, System, Event, registers, polls, reports,
  ticks, deadline_timer, cancelled, done_closed, tick, fire, cancel, see_done, step, run,
}
use handling_50k_requestes_p.Coordinator.Registry.{Inv}

-- What two states share once the job is out.
pub record Frozen {fl : Float} (c d : Coordinator fl) : Type 0 where
  pub order : d.order ≡ c.order
  pub job : d.job ≡ c.job
  pub started : d.started ≡ c.started
  pub released : d.released ≡ c.released

module _ {fl : Float} (c : Coordinator fl) where
  Frozen-refl : Frozen c c
  Frozen-refl = record { order = refl; job = refl; started = refl; released = refl }

  register-Frozen :
      (format : ℕ → String) (now : ℕ) (req : Option RegisterRequest) {job : Job fl}
      → c.job ≡ some job
      → Frozen c (register format c now req).0
  unfolding register
  register-Frozen format now none e = Frozen-refl
  register-Frozen format now (some req) e = ground arith

  poll-Frozen : (now : ℕ) (id : String) (wake : Wake) → Frozen c (poll c now id wake).0
  unfolding poll
  poll-Frozen now id wake = ground arith

  report-Frozen : (now : ℕ) (req : Option ReportRequest) → Frozen c (report c now req).0
  unfolding report
  report-Frozen now none = Frozen-refl
  report-Frozen now (some r) = ground arith

  mark_lost-Frozen : (now : ℕ) → Frozen c (mark_lost c now)
  unfolding mark_lost
  mark_lost-Frozen now = ground arith

  auth-Frozen :
      (header : String) (handled : Coordinator fl × Reply fl)
      → Frozen c handled.0
      → Frozen c (auth c header handled).0
  unfolding auth
  auth-Frozen header handled h = ground arith

-- Once the job is out, Run is past its waiting loop.
abbrev pub IsPast : Phase → Type 0
IsPast waiting = ⊥
IsPast watching = Unit {0}
IsPast (returned b) = Unit {0}

abbrev FrozenPast : {fl : Float} → System fl → System fl → Type 0
FrozenPast s t = Frozen s.coord t.coord × IsPast t.phase

module _ {fl : Float} (s : System fl) where
  tick-FrozenPast : (now : ℕ) (p : Phase) → s.phase ≡ p → IsPast p → FrozenPast s (tick s now p)
  unfolding tick
  tick-FrozenPast now waiting e h = absurd h
  tick-FrozenPast now watching e h = (mark_lost-Frozen s.coord now, rw e tt)
  tick-FrozenPast now (returned b) e h = (Frozen-refl s.coord, rw e tt)

  fire-FrozenPast :
      (now : ℕ) (p : Phase) (at : Option ℕ)
      → s.phase ≡ p
      → IsPast p
      → FrozenPast s (fire s now p at)
  unfolding fire expire
  fire-FrozenPast now waiting at e h = absurd h
  fire-FrozenPast now watching none e h = (Frozen-refl s.coord, rw e tt)
  fire-FrozenPast now watching (some at) e h = elim (Bool-cases (leb at now)) [
    | inl due ↦ rw due (Frozen-expire, tt)
    | inr early ↦ rw early (Frozen-refl s.coord, rw e tt)
  ]
    where
      Frozen-expire : Frozen s.coord (expire s.coord)
      Frozen-expire = record { order = refl; job = refl; started = refl; released = refl }
  fire-FrozenPast now (returned b) at e h = (Frozen-refl s.coord, rw e tt)

  cancel-FrozenPast : (p : Phase) → s.phase ≡ p → IsPast p → FrozenPast s (cancel s p)
  unfolding cancel
  cancel-FrozenPast waiting e h = absurd h
  cancel-FrozenPast watching e h =
      (record { order = refl; job = refl; started = refl; released = refl }, tt)
  cancel-FrozenPast (returned b) e h = (Frozen-refl s.coord, rw e tt)

  see_done-FrozenPast : (p : Phase) → s.phase ≡ p → IsPast p → FrozenPast s (see_done s p)
  unfolding see_done
  see_done-FrozenPast waiting e h = absurd h
  see_done-FrozenPast watching e h = elim (Bool-cases s.coord.finished) [
    | inl over ↦ (ground arith, ground arith)
    | inr not_yet ↦ (ground arith, ground arith)
  ]
  see_done-FrozenPast (returned b) e h = (Frozen-refl s.coord, rw e tt)

step-FrozenPast :
    {fl : Float} (format : ℕ → String) (s : System fl) (e : Event) {job : Job fl}
    → s.coord.job ≡ some job
    → IsPast s.phase
    → FrozenPast s (step format s e)
unfolding step
step-FrozenPast format s (registers token now req) h p =
    (auth-Frozen s.coord token _ (register-Frozen s.coord format now req h), p)
step-FrozenPast format s (polls token now id wake) h p =
    (auth-Frozen s.coord token _ (poll-Frozen s.coord now id wake), p)
step-FrozenPast format s (reports token now req) h p =
    (auth-Frozen s.coord token _ (report-Frozen s.coord now req), p)
step-FrozenPast format s (ticks now) h p = tick-FrozenPast s now s.phase refl p
step-FrozenPast format s (deadline_timer now) h p = fire-FrozenPast s now s.phase s.deadline refl p
step-FrozenPast format s cancelled h p = cancel-FrozenPast s s.phase refl p
step-FrozenPast format s done_closed h p = see_done-FrozenPast s s.phase refl p

Frozen-trans : {fl : Float} {a b c : Coordinator fl} → Frozen a b → Frozen b c → Frozen a c
Frozen-trans p q = record {
  order = q.order ∙ p.order;
  job = q.job ∙ p.job;
  started = q.started ∙ p.started;
  released = q.released ∙ p.released;
}

-- Once the job is out and Run is past its waiting loop, no sequence of requests and timer events
-- changes the list of workers, the job, the start time or the release.
pub run-Frozen :
    {fl : Float} (format : ℕ → String) (s : System fl) (es : List Event) {job : Job fl}
    → s.coord.job ≡ some job
    → IsPast s.phase
    → Frozen s.coord (run format s es).coord
unfolding run
run-Frozen format s [] h p = Frozen-refl s.coord
run-Frozen format s (e ∷ es) h p =
    let (frozen, past) = step-FrozenPast format s e h p in
    Frozen-trans frozen (run-Frozen format (step format s e) es (frozen.job ∙ h) past)

known_some {ℓ} : {A : Type ℓ} (o : Option A) → is_some o ≡ true → (a : A) × (o ≡ some a)
known_some none h = cc
known_some (some a) h = (a, refl)

-- A known worker that polls a released job, before its start time, gets the configuration that was
-- released, with a delay that ends at the common start time; it is then running, and no other worker
-- is touched.
poll_start :
    {fl : Float} (format : ℕ → String) (c : Coordinator fl) (now : ℕ) (id : String)
    → Inv format c
    → c.released ≡ true
    → is_some (lookup id c.workers) ≡ true
    → now ≤ c.started
    → (job : Job fl) × (w : WorkerState) × (c.job ≡ some job)
      × (lookup id c.workers ≡ some w)
      × ((poll c now id on_release).1 ≡ job_reply (record job { start_delay = c.started - now }))
      × (now + (c.started - now) ≡ c.started)
      × ((j : String)
          → lookup j (poll c now id on_release).0.workers
            ≡ (if str_eq id j then some (record w { state = running }) else lookup j c.workers))
unfolding poll
poll_start format c now id v out known early =
    let (w, found) = known_some (lookup id c.workers) known in
    let (job, released) = known_some c.job (sym v.job_known ∙ out) in
    (
      job,
      w,
      released,
      found,
      ground arith,
      omega arith,
      λ j. ground (arith, lookup-insert id j (record w { state = running }) c.workers),
    )

auth_refused :
    {fl : Float} (c : Coordinator fl) (header : String) (handled : Coordinator fl × Reply fl)
    → c.token ≢ ""
    → header ≢ c.token
    → auth c header handled ≡ (c, unauthorized)
unfolding auth
auth_refused c header handled set wrong = ground (arith, eq_iff c.token "", eq_iff header c.token)

-- With a shared token set, requests to the three worker endpoints that do not present it change
-- nothing in the whole system.
step_unauthorized :
    {fl : Float} (format : ℕ → String) (s : System fl) (header : String)
    → s.coord.token ≢ ""
    → header ≢ s.coord.token
    → (now : ℕ) (id : String) (wake : Wake)
    → (new : Option RegisterRequest) (news : Option ReportRequest)
    → (step format s (registers header now new) ≡ s)
      × (step format s (polls header now id wake) ≡ s)
      × (step format s (reports header now news) ≡ s)
unfolding step
step_unauthorized format s header set wrong now id wake new news = (
  cc (auth_refused s.coord header (register format s.coord now new) set wrong),
  cc (auth_refused s.coord header (poll s.coord now id wake) set wrong),
  cc (auth_refused s.coord header (report s.coord now news) set wrong),
)
