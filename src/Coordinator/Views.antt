-- ===== src/Coordinator/Views.antt =====
-- What the coordinator shows of its workers: Workers, WorkerCount and handleStatus.
--
-- The sort by name, of the library, is a parameter. A worker of the order that the map does not have
-- would be a nil dereference, which is none.
use handling_50k_requestes_p.Prelude.{
  ℕ, ◌+◌, ◌≡◌, refl, ap, ◌∙◌, String, true, List, [], ◌∷◌, Option, none, some, ℤ, length, arith,
  suc, inl, inr, Option-cases,
}
use text.Mathlib.TextEquality.{eq_iff}
use handling_50k_requestes_p.Prelude.Float.{Float}
use handling_50k_requestes_p.Prelude.Maps.{lookup}
use handling_50k_requestes_p.Prelude.Words.{u64}
use handling_50k_requestes_p.Stats.{Snapshot, new_snapshot, merge}
use handling_50k_requestes_p.Report.{rps, latency_at, ms}
use handling_50k_requestes_p.Dashboard.{WorkerView}
use handling_50k_requestes_p.Coordinator.{
  ready, running, done, failed, lost, Status, WorkerState, Coordinator, snapshot, total_from,
  is_some,
}
use handling_50k_requestes_p.Coordinator.Registry.{Inv, mem}

abbrev pub status_text : Status → String
status_text ready = "ready"
status_text running = "running"
status_text done = "done"
status_text failed = "failed"
status_text lost = "lost"

-- The loop of both over the order, with what they make of a worker.
unfoldable pub for_order :
    {A : Type 0} → (WorkerState → A) → List (String × WorkerState) → List String → Option (List A)
for_order f ws [] = some []
for_order f ws (id ∷ ids) = elim (lookup id ws) [
  | none ↦ none
  | some w ↦ elim (for_order f ws ids) [ none ↦ none | some rest ↦ some (f w ∷ rest) ]
]

abbrev pub view_of : WorkerState → WorkerView
view_of w = record { name = w.name; state = status_text w.state; snap = w.snap }

abbrev pub sorted_by :
    (List WorkerView → List WorkerView) → Option (List WorkerView) → Option (List WorkerView)
sorted_by sort none = none
sorted_by sort (some vs) = some (sort vs)

-- Workers
unfoldable pub workers_shown :
    {fl : Float} → (List WorkerView → List WorkerView) → Coordinator fl → Option (List WorkerView)
unfolding for_order
workers_shown sort c = sorted_by sort (for_order view_of c.workers c.order)

-- WorkerCount
abbrev pub worker_count : {fl : Float} → Coordinator fl → ℕ
worker_count c = length c.order

pub record Row (fl : Float) : Type 0 where
  pub name : String
  pub host : String
  pub state : String
  pub requests : ℕ
  pub error : String
  pub p99_ms : fl.F

abbrev pub requests_of : Option Snapshot → ℕ
requests_of none = 0
requests_of (some sn) = sn.requests

abbrev pub p99_of : (fl : Float) → Option Snapshot → fl.F
p99_of fl none = fl.lit 0 0
p99_of fl (some sn) = ms fl (latency_at fl sn 99 2)

abbrev pub row_for : (fl : Float) → WorkerState → Row fl
row_for fl w = record {
  name = w.name;
  host = w.host;
  state = status_text w.state;
  requests = requests_of w.snap;
  error = w.error;
  p99_ms = p99_of fl w.snap;
}

-- The answer of handleStatus.
pub record StatusReply (fl : Float) : Type 0 where
  pub run_id : String
  pub expected_workers : ℤ
  pub workers : List (Row fl)
  pub requests : ℕ
  pub failures : ℕ
  pub rps : fl.F
  pub p99_ms : fl.F

abbrev pub reply_for : {fl : Float} → Coordinator fl → List (Row fl) → StatusReply fl
reply_for {fl = fl} c rows =
    let sn = snapshot c in
    record {
      run_id = c.run_id;
      expected_workers = c.expect;
      workers = rows;
      requests = sn.requests;
      failures = sn.failures;
      rps = rps fl sn;
      p99_ms = ms fl (latency_at fl sn 99 2);
    }

abbrev pub reply_with :
    {fl : Float} → Coordinator fl → Option (List (Row fl)) → Option (StatusReply fl)
reply_with c none = none
reply_with c (some rows) = some (reply_for c rows)

unfoldable pub status : {fl : Float} → Coordinator fl → Option (StatusReply fl)
unfolding for_order
status {fl = fl} c = reply_with c (for_order (row_for fl) c.workers c.order)

abbrev pub shown_total : {fl : Float} → List (Row fl) → ℕ
shown_total [] = 0
shown_total (row ∷ rows) = row.requests + shown_total rows

merge-requests :
    (sn : Snapshot) (o : Option Snapshot)
    → u64 (merge sn o).requests ≡ u64 (sn.requests + requests_of o)
unfolding merge
merge-requests sn none = omega arith
merge-requests sn (some o) = omega arith

for_order-total :
    {fl : Float} (ws : List (String × WorkerState)) (ids : List String) (sn : Snapshot)
    → ((id : String) → mem id ids ≡ true → is_some (lookup id ws) ≡ true)
    → (rows : List (Row fl)) × (for_order (row_for fl) ws ids ≡ some rows)
      × (length rows ≡ length ids)
      × (u64 (total_from sn ws ids).requests ≡ u64 (sn.requests + shown_total rows))
unfolding for_order total_from
for_order-total ws [] sn h = ([], refl, refl, omega arith)
for_order-total {fl = fl} ws (id ∷ ids) sn h = elim (Option-cases (lookup id ws)) [
  | inl e ↦ absurd (unknown e (h id (ground (arith, eq_iff id id))))
  | inr (w, e) ↦
      let (rows, shown, count, total) =
        for_order-total {fl = fl} ws ids (merge sn w.snap) (λ j m. h j (ground arith)) in
      let merged = merge-requests sn w.snap in
      (
        row_for fl w ∷ rows,
        rw (e, for_order, shown) refl,
        ap suc count,
        rw (e, total_from) (omega (arith, total, merged)),
      )
]
  where
    unknown : lookup id ws ≡ none → is_some (lookup id ws) ≡ true → ⊥
    unknown e k = ground (arith)

-- In every state that the invariant describes, which every run keeps: the status names each registered
-- worker once, and the requests of the workers' rows add up, modulo 2^64, to the total that it shows.
status_adds_up :
    {fl : Float} (format : ℕ → String) (c : Coordinator fl)
    → Inv format c
    → (reply : StatusReply fl) × (status c ≡ some reply)
      × (length reply.workers ≡ worker_count c)
      × (u64 reply.requests ≡ u64 (shown_total reply.workers))
unfolding status snapshot
status_adds_up {fl = fl} format c v =
    let (rows, shown, count, total) =
      for_order-total {fl = fl} c.workers c.order new_snapshot (λ id m. v.keys id ∙ m) in
    (reply_for c rows, rw shown refl, count, total ∙ (unfold new_snapshot in omega arith))
