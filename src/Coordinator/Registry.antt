-- ===== src/Coordinator/Registry.antt =====
-- The registry of workers: the map and the order list name the same workers, under distinct ids.
use text.Mathlib.Text.{◌==◌ as str_eq}
use native.Mathlib.Numerals.{add-one}
use text.Mathlib.TextEquality.{eq_iff}
use handling_50k_requestes_p.Prelude.{
  ℕ, zero, suc, ◌+◌, ◌≡◌, refl, ◌∙◌, String, Bool, true, false, ◌||◌, List, [], ◌∷◌, ◌++◌, Option,
  none, some, inl, inr, arith, if◌then◌else◌, length, length-append, Option-cases, Bool-cases,
  ltb_ℤ, leb, pos,
}
use handling_50k_requestes_p.Prelude.Float.{Float}
use handling_50k_requestes_p.Prelude.Maps.{lookup, insert, lookup-insert}
use handling_50k_requestes_p.Coordinator.{
  no_content, blocked, unauthorized, running, WorkerState, Job, Coordinator, Reply, RegisterRequest,
  ReportRequest, Wake, on_release, on_timer, on_cancel, register, new_worker, poll, poll_woken,
  poll_released, report, reported, auth, is_some, all_finished, finish, Options, coordinator_of,
}
use handling_50k_requestes_p.Engine.{Config}
use handling_50k_requestes_p.Prelude.Text.{Strings}
use handling_50k_requestes_p.Prelude.Results.{Result, ok, err}
use handling_50k_requestes_p.Engine.{ConfigError, validate}
use handling_50k_requestes_p.Coordinator.{
  Options, coordinator_of, new_coordinator, bad_config, bad_expect,
}
use handling_50k_requestes_p.Coordinator.Watch.{
  initial, for_each, mark_lost, give_up, expire, expire_worker, release, Phase, waiting, watching,
  returned, System, Event, registers, polls, reports, ticks, deadline_timer, cancelled, done_closed,
  tick, fire, cancel, see_done, step, run,
}

abbrev pub mem : String → List String → Bool
mem k [] = false
mem k (x ∷ xs) = str_eq x k || mem k xs

pub mem-append : (k : String) (xs ys : List String) → mem k (xs ++ ys) ≡ (mem k xs || mem k ys)
mem-append k [] ys = refl
mem-append k (x ∷ xs) ys = ground (arith, mem-append k xs ys)

-- The first n ids.
abbrev pub id_list : (ℕ → String) → ℕ → List String
id_list format zero = []
id_list format (suc n) = id_list format n ++ format (suc n) ∷ []

-- Formatting gives distinct numbers distinct ids.
abbrev pub IsInjective : (ℕ → String) → Type 0
IsInjective format = (m n : ℕ) → format m ≡ format n → m ≡ n

pub record Inv {fl : Float} (format : ℕ → String) (c : Coordinator fl) : Type 0 where
  pub ids : c.order ≡ id_list format (length c.order)
  pub keys : (id : String) → is_some (lookup id c.workers) ≡ mem id c.order
  pub job_known : c.released ≡ is_some c.job

-- Writing through the pointer of a known worker adds no key.
insert_known :
    (id j : String) (v : WorkerState) (ws : List (String × WorkerState))
    → is_some (lookup id ws) ≡ true
    → is_some (lookup j (insert id v ws)) ≡ is_some (lookup j ws)
insert_known id j v ws h = ground (arith, lookup-insert id j v ws, eq_iff id j)

pub for_each_keys :
    (f : WorkerState → WorkerState) (ids : List String) (j : String)
    (ws : List (String × WorkerState))
    → is_some (lookup j (for_each f ids ws)) ≡ is_some (lookup j ws)
unfolding for_each
for_each_keys f [] j ws = refl
for_each_keys f (id ∷ ids) j ws = elim (Option-cases (lookup id ws)) [
  | inl e ↦ rw (e, for_each) (for_each_keys f ids j ws)
  | inr (w, e) ↦
      rw (e, for_each)
        (for_each_keys f ids j (insert id (f w) ws) ∙ insert_known id j (f w) ws (ground arith))
]

pub new-Inv :
    {fl : Float} (format : ℕ → String) (cfg : Config fl) (opts : Options)
    → Inv format (coordinator_of cfg opts)
unfolding coordinator_of
new-Inv format cfg opts = record {
  ids = refl;
  keys = λ id. unfold lookup in refl;
  job_known = refl;
}

if-Inv :
    {fl : Float} (format : ℕ → String) (b : Bool) (p q : Coordinator fl × Reply fl)
    → Inv format p.0
    → Inv format q.0
    → Inv format (if b then p else q).0
if-Inv format true p q hp hq = hp
if-Inv format false p q hp hq = hq

poll_known :
    {fl : Float} (c : Coordinator fl) (now : ℕ) (id : String) (w : WorkerState) (wake : Wake)
    → lookup id c.workers ≡ some w
    → poll c now id wake ≡ poll_woken c now id w wake
unfolding poll
poll_known c now id w wake e = rw (e, poll)

report_known :
    {fl : Float} (c : Coordinator fl) (now : ℕ) (r : ReportRequest) (w : WorkerState)
    → lookup r.id c.workers ≡ some w
    → let c' = record c { workers = insert r.id (reported now r w) c.workers } in
      report c now (some r) ≡ (if all_finished c' then finish c' else c', no_content)
unfolding report
report_known c now r w e = rw (e, report)

module _ {fl : Float} (format : ℕ → String) (c : Coordinator fl) (v : Inv format c) where
  register-Inv : (now : ℕ) (req : Option RegisterRequest) → Inv format (register format c now req).0
  unfolding register
  register-Inv now none = v
  register-Inv now (some req) = elim (Option-cases c.job) [
    | inr (job, e) ↦ rw (e, register) v
    | inl e ↦ rw (e, register) added
  ]
    where
      n : ℕ
      n = length c.order

      id : String
      id = format (n + 1)

      one_more : length (c.order ++ id ∷ []) ≡ suc n
      one_more = omega (arith, length-append c.order (id ∷ []))

      added : Inv format (record c {
        workers = insert id (new_worker id now req) c.workers;
        order = c.order ++ id ∷ [];
      })
      added = record {
        ids = rw one_more (cc (v.ids, add-one n));
        keys = λ j. ground (
          arith,
          lookup-insert id j (new_worker id now req) c.workers,
          v.keys j,
          mem-append j c.order (id ∷ []),
        );
        job_known = v.job_known;
      }

  -- Any change of the map that keeps its keys keeps the invariant.
  workers-Inv :
      (ws : List (String × WorkerState))
      → ((j : String) → is_some (lookup j ws) ≡ is_some (lookup j c.workers))
      → Inv format (record c { workers = ws })
  workers-Inv ws same = record {
    ids = v.ids;
    keys = λ j. same j ∙ v.keys j;
    job_known = v.job_known;
  }

  insert-Inv :
      (id : String) (w w' : WorkerState)
      → lookup id c.workers ≡ some w
      → Inv format (record c { workers = insert id w' c.workers })
  insert-Inv id w w' e = workers-Inv _ (λ j. insert_known id j w' c.workers (ground arith))

  poll_released-Inv :
      (now : ℕ) (id : String) (w : WorkerState) (job : Option (Job fl))
      → lookup id c.workers ≡ some w
      → Inv format (poll_released c now id w job).0
  unfolding poll_released
  poll_released-Inv now id w none e = v
  poll_released-Inv now id w (some job) e = insert-Inv id w (record w { state = running }) e

  poll_woken-Inv :
      (now : ℕ) (id : String) (w : WorkerState) (wake : Wake)
      → lookup id c.workers ≡ some w
      → Inv format (poll_woken c now id w wake).0
  unfolding poll_woken
  poll_woken-Inv now id w on_timer e = v
  poll_woken-Inv now id w on_cancel e = v
  poll_woken-Inv now id w on_release e =
      if-Inv format c.released (poll_released c now id w c.job) (c, blocked)
        (poll_released-Inv now id w c.job e) v

  poll-Inv : (now : ℕ) (id : String) (wake : Wake) → Inv format (poll c now id wake).0
  poll-Inv now id wake = elim (Option-cases (lookup id c.workers)) [
    | inl e ↦ unfold poll in rw (e, poll) v
    | inr (w, e) ↦ rw (poll_known c now id w wake e) (poll_woken-Inv now id w wake e)
  ]

  finish-Inv : Inv format (finish c)
  finish-Inv = record { ids = v.ids; keys = v.keys; job_known = v.job_known }

finish_if-Inv :
    {fl : Float} (format : ℕ → String) (b : Bool) (c : Coordinator fl)
    → Inv format c
    → Inv format (if b then finish c else c)
finish_if-Inv format true c v = finish-Inv format c v
finish_if-Inv format false c v = v

module _ {fl : Float} (format : ℕ → String) (c : Coordinator fl) (v : Inv format c) where
  pub report-Inv : (now : ℕ) (req : Option ReportRequest) → Inv format (report c now req).0
  report-Inv now none = unfold report in v
  report-Inv now (some r) = elim (Option-cases (lookup r.id c.workers)) [
    | inl e ↦ unfold report in rw (e, report) v
    | inr (w, e) ↦
        rw (report_known c now r w e)
          (finish_if-Inv format _ _ (insert-Inv format c v r.id w (reported now r w) e))
  ]

  for_each-Inv :
      (f : WorkerState → WorkerState)
      → Inv format (record c { workers = for_each f c.order c.workers })
  for_each-Inv f = workers-Inv format c v _ (λ j. for_each_keys f c.order j c.workers)

  mark_lost-Inv : (now : ℕ) → Inv format (mark_lost c now)
  unfolding mark_lost
  mark_lost-Inv now = finish_if-Inv format _ _ (for_each-Inv (give_up now))

  expire-Inv : Inv format (expire c)
  unfolding expire
  expire-Inv = finish-Inv format _ (for_each-Inv expire_worker)

  release-Inv : (now : ℕ) → Inv format (release c now)
  unfolding release
  release-Inv now = record { ids = v.ids; keys = v.keys; job_known = refl }

  auth-Inv :
      (header : String) (handled : Coordinator fl × Reply fl)
      → Inv format handled.0
      → Inv format (auth c header handled).0
  unfolding auth
  auth-Inv header handled h = if-Inv format _ (c, unauthorized) handled v h

module _ {fl : Float} (format : ℕ → String) (s : System fl) (v : Inv format s.coord) where
  tick-Inv : (now : ℕ) (p : Phase) → Inv format (tick s now p).coord
  unfolding tick
  tick-Inv now waiting = elim (Bool-cases (ltb_ℤ (pos (length s.coord.order)) s.coord.expect)) [
    | inl few ↦ rw few v
    | inr enough ↦ rw enough (release-Inv format s.coord v now)
  ]
  tick-Inv now watching = mark_lost-Inv format s.coord v now
  tick-Inv now (returned b) = v

  fire-Inv : (now : ℕ) (p : Phase) (at : Option ℕ) → Inv format (fire s now p at).coord
  unfolding fire
  fire-Inv now watching (some at) = elim (Bool-cases (leb at now)) [
    | inl due ↦ rw due (expire-Inv format s.coord v)
    | inr early ↦ rw early v
  ]
  fire-Inv now watching none = v
  fire-Inv now waiting at = v
  fire-Inv now (returned b) at = v

  cancel-Inv : (p : Phase) → Inv format (cancel s p).coord
  unfolding cancel
  cancel-Inv waiting = v
  cancel-Inv watching = finish-Inv format s.coord v
  cancel-Inv (returned b) = v

  see_done-Inv : (p : Phase) → Inv format (see_done s p).coord
  unfolding see_done
  see_done-Inv waiting = v
  see_done-Inv watching = ground arith
  see_done-Inv (returned b) = v

  pub step-Inv : (e : Event) → Inv format (step format s e).coord
  unfolding step
  step-Inv (registers token now req) =
      auth-Inv format s.coord v token _ (register-Inv format s.coord v now req)
  step-Inv (polls token now id wake) =
      auth-Inv format s.coord v token _ (poll-Inv format s.coord v now id wake)
  step-Inv (reports token now req) =
      auth-Inv format s.coord v token _ (report-Inv format s.coord v now req)
  step-Inv (ticks now) = tick-Inv now s.phase
  step-Inv (deadline_timer now) = fire-Inv now s.phase s.deadline
  step-Inv cancelled = cancel-Inv s.phase
  step-Inv done_closed = see_done-Inv s.phase

-- A run keeps the invariant.
pub run-Inv :
    {fl : Float} (format : ℕ → String) (s : System fl) (es : List Event)
    → Inv format s.coord
    → Inv format (run format s es).coord
unfolding run
run-Inv format s [] v = v
run-Inv format s (e ∷ es) v = run-Inv format (step format s e) es (step-Inv format s v e)

-- A coordinator that could be made is a fresh one.
made_fresh :
    {fl : Float} (opts : Options) (c : Coordinator fl) (few : Bool) (d : Config fl)
    → (if few then err bad_expect else ok (coordinator_of d opts)) ≡ ok c
    → coordinator_of d opts ≡ c
made_fresh opts c true d e = absurd (cc)
made_fresh opts c false d e = cc

pub new_coordinator-Inv :
    {fl : Float} (strings : Strings) (format : ℕ → String) (cfg : Config fl) (opts : Options)
    (c : Coordinator fl)
    → new_coordinator strings cfg opts ≡ ok c
    → Inv format c
unfolding new_coordinator
new_coordinator-Inv {fl = fl} strings format cfg opts c e = made (validate strings cfg) e
  where
    made :
        (r : Result ConfigError (Config fl))
        → elim r [
          | err bad ↦ err (bad_config bad)
          | ok d ↦ if ltb_ℤ opts.expect (pos 1) then err bad_expect else ok (coordinator_of d opts)
        ]
          ≡ ok c
        → Inv format c
    made (err bad) m = absurd (cc)
    made (ok d) m = rw (← made_fresh opts c (ltb_ℤ opts.expect (pos 1)) d m) (new-Inv format d opts)

-- A coordinator that NewCoordinator made, whatever requests and timer events come, in any order: the
-- order list holds the first ids that the format gives, the map of workers has exactly those ids as
-- keys, and there is a job exactly when it has been released.
pub run-initial-Inv :
    {fl : Float} (strings : Strings) (format : ℕ → String) (cfg : Config fl) (opts : Options)
    (c : Coordinator fl) (es : List Event)
    → new_coordinator strings cfg opts ≡ ok c
    → Inv format (run format (initial c) es).coord
run-initial-Inv strings format cfg opts c es made =
    run-Inv format (initial c) es (new_coordinator-Inv strings format cfg opts c made)
