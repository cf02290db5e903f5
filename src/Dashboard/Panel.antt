-- ===== src/Dashboard/Panel.antt =====
-- dashboard.go, render: the numbers above the list of workers. Their layout is left out.
use handling_50k_requestes_p.Prelude.{
  ℕ, ◌+◌, ◌^◌, ◌≤◌, ◌<◌, ◌≡◌, ◌&&◌, ◌||◌, List, [], ◌∷◌, Option, none, some, ℤ, pos, ltb_ℤ, max_ℤ,
  ltb, if◌then◌else◌, get_or, arith,
}
use handling_50k_requestes_p.Prelude.Float.{Float}
use handling_50k_requestes_p.Prelude.Words.{sub64}
use handling_50k_requestes_p.Prelude.Counts.{Counts}
use handling_50k_requestes_p.Stats.{
  Snapshot, error_rate, min_latency, mean, max_latency, class_other,
}
use handling_50k_requestes_p.Stats.Kinds.{SortSlice, shown_kinds}
use handling_50k_requestes_p.Report.{RunInfo, Slo, signed_64, latency_at, rps}
use handling_50k_requestes_p.Dashboard.{rate_over}

pub data Color : Type 0 where
  green yellow red : Color

unfoldable pub error_color : (fl : Float) → fl.F → Color
error_color fl er =
    if fl.flt (fl.lit 1 2) er then red else if fl.flt (fl.lit 1 3) er then yellow else green

unfoldable pub p99_color : {fl : Float} → Slo fl → Snapshot → Color
p99_color {fl = fl} slo iv =
    if ltb_ℤ (pos 0) slo.p99 && ltb_ℤ slo.p99 (latency_at fl iv 99 2) then red else green

-- How many workers the head line names, if it does.
unfoldable pub workers_text : {fl : Float} → RunInfo fl → ℕ → Option ℤ
workers_text info n =
    if ltb_ℤ (pos 1) info.workers || ltb 0 n then some (max_ℤ info.workers (pos n)) else none

-- `float64(total.Requests-total.Failures)`
unfoldable pub succeeded : Snapshot → ℕ
succeeded total = sub64 total.requests total.failures

pub record Panel (fl : Float) : Type 0 where
  pub target_rate : Option fl.F  -- none is "unlimited"
  pub workers : Option ℤ
  pub rps : fl.F
  pub average : fl.F
  pub peak : fl.F
  pub requests : ℕ
  pub ok : ℕ
  pub failed : ℕ
  pub failed_color : Color
  pub throughput : Option fl.F
  pub last : List ℤ  -- p50, p90, p95, p99, p99.9 of the interval
  pub last_color : Color
  pub overall : List ℤ  -- min, mean, p99, max of the run
  pub classes : List ℕ  -- 2xx, 3xx, 4xx, 5xx, transport
  pub errors : Counts

unfoldable pub panel :
    {fl : Float}
    → SortSlice
    → RunInfo fl
    → Slo fl
    → (total iv : Snapshot) → (rps peak : fl.F) → (workers : ℕ) → (dt : ℤ) → Panel fl
unfolding succeeded
panel {fl = fl} sort_slice info slo total iv now peak workers dt = record {
  target_rate = if fl.flt (fl.lit 0 0) info.rate then some info.rate else none;
  workers = workers_text info workers;
  rps = now;
  average = rps fl total;
  peak = peak;
  requests = total.requests;
  ok = succeeded total;
  failed = total.failures;
  failed_color = error_color fl (error_rate fl total);
  throughput = if ltb_ℤ (pos 0) dt then some (rate_over fl iv.bytes dt) else none;
  last =
      latency_at fl iv 50 2
      ∷ latency_at fl iv 90 2
      ∷ latency_at fl iv 95 2
      ∷ latency_at fl iv 99 2
      ∷ latency_at fl iv 999 3
      ∷ [];
  last_color = p99_color slo iv;
  overall =
      signed_64 (min_latency total)
      ∷ signed_64 (mean total)
      ∷ latency_at fl total 99 2
      ∷ signed_64 (max_latency total)
      ∷ [];
  classes =
      get_or total.classes 1 0
      ∷ get_or total.classes 2 0
      ∷ get_or total.classes 3 0
      ∷ get_or total.classes 4 0
      ∷ get_or total.classes class_other 0
      ∷ [];
  errors = shown_kinds sort_slice total;
}

-- A total with no more failures than requests: what is shown as ok and as failed adds up to the
-- requests.
panel_adds_up :
    {fl : Float} (sort_slice : SortSlice) (info : RunInfo fl) (slo : Slo fl) (total iv : Snapshot)
    (now peak : fl.F) (workers : ℕ) (dt : ℤ)
    → total.failures ≤ total.requests
    → total.requests < 2 ^ 64
    → let p = panel sort_slice info slo total iv now peak workers dt in p.ok + p.failed ≡ p.requests
unfolding panel succeeded
panel_adds_up sort_slice info slo total iv now peak workers dt few small = omega (arith, few, small)
