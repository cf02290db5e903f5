-- ===== src/Dashboard.antt =====
-- internal/titanload/dashboard: the live view, dashboard.go, and the Prometheus gauges, exporter.go.
--
-- The view is kept as the values that it shows; their layout and colours are left out. Times are
-- nanoseconds since Go's zero time.
pub mod Ticks
pub mod Intervals
pub mod Rows
pub mod Panel
pub mod Examples
use text.Mathlib.Text.{◌==◌ as str_eq}
use handling_50k_requestes_p.Prelude.{
  ℕ, zero, suc, ◌+◌, ◌-◌, ◌*◌, ◌/◌, ◌%◌, String, Bool, true, false, not, ◌&&◌, ◌||◌, List, [], ◌∷◌,
  ◌++◌, Option, none, some, ℤ, pos, negsuc, ltb_ℤ, ltb, leb, ◌==◌, if◌then◌else◌, length, drop,
  take, min, max, get_or, replicate,
}
use handling_50k_requestes_p.Prelude.Float.{Float}
use handling_50k_requestes_p.Prelude.Duration.{seconds, of_ℤ, quotient}
use handling_50k_requestes_p.Prelude.Maps.{lookup, insert}
use handling_50k_requestes_p.Prelude.Words.{u64, add_at}
use handling_50k_requestes_p.Stats.{Snapshot, sub, percentile, bucket_upper, error_rate}
use handling_50k_requestes_p.Report.{RunInfo, Slo, signed_64}

pub record WorkerView : Type 0 where
  pub name : String
  pub state : String
  pub snap : Option Snapshot

-- What a source says at a tick: the time, the cumulative snapshot and the remote workers.
pub record Observed : Type 0 where
  pub now : ℕ
  pub total : Snapshot
  pub workers : List WorkerView

-- The state; a worker without a snapshot stores a nil one.
pub record View (fl : Float) : Type 0 where
  pub prev : Option Snapshot
  pub prev_at : ℕ
  pub prev_worker : List (String × Option Snapshot)
  pub rps_hist : List fl.F
  pub p99_hist : List fl.F
  pub peak : fl.F

unfoldable pub new_view : (fl : Float) → ℕ → View fl
new_view fl now = record {
  prev = none;
  prev_at = now;
  prev_worker = [];
  rps_hist = [];
  p99_hist = [];
  peak = fl.lit 0 0;
}

-- push: the last `limit` values.
unfoldable pub push : {A : Type 0} → List A → A → ℕ → List A
push s v limit =
    let t = s ++ (v ∷ []) in if ltb limit (length t) then drop (length t - limit) t else t

abbrev pub max_F : (fl : Float) → fl.F → fl.F → fl.F
max_F fl a b = if fl.flt a b then b else a

-- The per-second rate over the interval; 0 where no time has passed.
unfoldable pub rate_over : (fl : Float) → ℕ → ℤ → fl.F
rate_over fl n dt = if ltb_ℤ (pos 0) dt then fl.div (fl.of_ℕ n) (seconds fl dt) else fl.lit 0 0

abbrev pub store_all :
    List WorkerView → List (String × Option Snapshot) → List (String × Option Snapshot)
store_all [] m = m
store_all (w ∷ ws) m = store_all ws (insert w.name w.snap m)

-- The numbers of one tick.
pub record Shown (fl : Float) : Type 0 where
  pub interval : Snapshot
  pub rps : fl.F
  pub p99 : ℕ
  pub total : Snapshot

abbrev pub next_view : (fl : Float) → View fl → Observed → Snapshot → View fl × Shown fl
next_view fl s o interval =
    let dt = pos (o.now - s.prev_at) in
    let rps = rate_over fl interval.requests dt in
    let p99 = percentile fl interval (fl.lit 99 2) in
    (
      record {
        prev = some o.total;
        prev_at = o.now;
        prev_worker = store_all o.workers s.prev_worker;
        rps_hist = push s.rps_hist rps 120;
        p99_hist = push s.p99_hist (of_ℤ fl (signed_64 p99)) 120;
        peak = max_F fl s.peak rps;
      },
      record { interval = interval; rps = rps; p99 = p99; total = o.total },
    )

-- The interval of one worker's line: its snapshot less the one that is stored under its name.
abbrev pub stored : Option (Option Snapshot) → Option Snapshot
stored none = none
stored (some s) = s

abbrev pub worker_interval :
    List (String × Option Snapshot) → String → Option Snapshot → Option Snapshot
worker_interval m name none = none
worker_interval m name (some sn) = sub sn (stored (lookup name m))

-- The numbers of a worker's line.
pub record WorkerNumbers (fl : Float) : Type 0 where
  pub rps : fl.F
  pub p99 : ℕ
  pub requests : ℕ
  pub error_pct : fl.F

abbrev pub numbers_from :
    (fl : Float) → ℤ → Snapshot → Option Snapshot → Option (Option (WorkerNumbers fl))
numbers_from fl dt sn none = none
numbers_from fl dt sn (some d) = some (
    some (record {
      rps = rate_over fl d.requests dt;
      p99 = percentile fl d (fl.lit 99 2);
      requests = sn.requests;
      error_pct = fl.mul (error_rate fl sn) (fl.lit 100 0);
    }))

-- A worker without a snapshot has no numbers, `some none`; none is the panic of Sub.
unfoldable pub worker_numbers :
    (fl : Float)
    → List (String × Option Snapshot)
    → ℤ
    → WorkerView
    → Option (Option (WorkerNumbers fl))
worker_numbers fl m dt w = elim w.snap [
  | none ↦ some none
  | some sn ↦ numbers_from fl dt sn (worker_interval m w.name (some sn))
]

abbrev pub Lines : Float → Type 0
Lines fl = List (String × String × Option (WorkerNumbers fl)) × ℕ

-- A line in front of the others, unless one of them panics.
abbrev pub line_before :
    {fl : Float}
    → WorkerView
    → Option (Option (WorkerNumbers fl))
    → Option (Lines fl)
    → Option (Lines fl)
line_before w none rest = none
line_before w (some numbers) none = none
line_before w (some numbers) (some (lines, more)) = some ((w.name, w.state, numbers) ∷ lines, more)

-- The loop of render over the workers: the lines of the first 20, and how many more there are.
unfoldable pub worker_lines :
    (fl : Float) → List (String × Option Snapshot) → ℤ → ℕ → List WorkerView → Option (Lines fl)
unfolding worker_numbers
worker_lines fl m dt i [] = some ([], 0)
worker_lines fl m dt i (w ∷ ws) =
    let rest = worker_lines fl m dt (i + 1) ws in
    if i == 20 then some ([], suc (length ws)) else line_before w (worker_numbers fl m dt w) rest

-- The rest of a tick, after the interval: render, which only an interactive view does, may panic.
abbrev pub after_lines :
    (fl : Float) → View fl → Observed → Snapshot → Option (Lines fl) → Option (View fl × Shown fl)
after_lines fl s o interval none = none
after_lines fl s o interval (some lines) = some (next_view fl s o interval)

abbrev pub tick_with :
    (fl : Float) → Bool → View fl → Observed → Option Snapshot → Option (View fl × Shown fl)
tick_with fl interactive s o none = none
tick_with fl interactive s o (some interval) = after_lines fl s o interval (
    if interactive
    then worker_lines fl s.prev_worker (pos (o.now - s.prev_at)) 0 o.workers
    else some ([], 0))

-- tick; none is a panic of Sub. The clock does not go back.
unfoldable pub tick : (fl : Float) → Bool → View fl → Observed → Option (View fl × Shown fl)
unfolding worker_lines
tick fl interactive s o = tick_with fl interactive s o (sub o.total s.prev)

unfoldable pub ticks :
    (fl : Float) → Bool → View fl → List Observed → Option (View fl × List (Shown fl))
unfolding tick
ticks fl interactive s [] = some (s, [])
ticks fl interactive s (o ∷ os) = elim (tick fl interactive s o) [
  | none ↦ none
  | some (t, shown) ↦ elim (ticks fl interactive t os) [
    | none ↦ none
    | some (u, more) ↦ some (u, shown ∷ more)
  ]
]

-- Run's events: a tick of the timer, the end of the source, the end of the context.
pub data Event : Type 0 where
  timer source_done : Observed → Event
  cancelled : Event

abbrev pub default_interval : ℤ → Bool → ℤ
default_interval interval interactive =
    if ltb_ℤ (pos 0) interval
    then interval
    else if interactive
    then pos 500000000
    else pos 1000000000

abbrev half_passed : ℤ → ℕ → Bool
half_passed (pos i) passed = leb (i / 2) passed
half_passed (negsuc i) passed = true

-- Run: the observations at which it draws. At the end of the source it draws once more, unless less
-- than half of an interval has passed since the last time.
unfoldable pub drawn : ℤ → ℕ → List Event → List Observed
drawn interval prev_at [] = []
drawn interval prev_at (timer o ∷ es) = o ∷ drawn interval o.now es
drawn interval prev_at (source_done o ∷ es) =
    if half_passed interval (o.now - prev_at) then o ∷ [] else []
drawn interval prev_at (cancelled ∷ es) = []

-- The upper edges of the rows, in nanoseconds.
abbrev pub edges : List ℕ
edges =
    1000000 ∷ 5000000 ∷ 10000000 ∷ 50000000 ∷ 100000000 ∷ 500000000 ∷ 1000000000
    ∷ 4611686018427387904 ∷ []

-- The first row whose edge is not below the latency; past the last there is none.
unfoldable pub row_of : ℕ → List ℕ → ℕ → Option ℕ
row_of j [] upper = none
row_of j (e ∷ es) upper = let rest = row_of (j + 1) es upper in if leb upper e then some j else rest

abbrev pub count_row : Option ℕ → ℕ → List ℕ → List ℕ
count_row none c counts = counts
count_row (some j) c counts = add_at j c counts

-- The loop of distribution over the buckets from `i` on: the counts of the rows, and the total.
unfoldable pub distribute : (ℕ → ℕ) → ℕ → List ℕ → List ℕ × ℕ → List ℕ × ℕ
unfolding row_of
distribute upper i [] acc = acc
distribute upper i (c ∷ cs) (counts, total) =
    if c == 0
    then distribute upper (i + 1) cs (counts, total)
    else distribute upper (i + 1) cs
        (count_row (row_of 0 edges (upper i)) c counts, u64 (total + c))

-- The latency of a bucket, `time.Duration(BucketUpper(i) * float64(time.Microsecond))`.
abbrev pub bucket_nanos : Float → ℕ → ℕ
bucket_nanos fl i = fl.to_ℕ (fl.mul (bucket_upper fl i) (fl.lit 1000 0))

-- `make([]uint64, len(distEdges))`
abbrev pub no_counts : List ℕ → List ℕ
no_counts [] = []
no_counts (e ∷ es) = 0 ∷ no_counts es

unfoldable pub distribution : Float → Snapshot → List ℕ × ℕ
unfolding distribute
distribution fl sn = distribute (bucket_nanos fl) 0 sn.hist (no_counts edges, 0)

-- The exporter: the gauges, and the byte counter and time of the last update; 0 is the zero time.
pub record Exporter (fl : Float) : Type 0 where
  pub rps : fl.F
  pub requests : fl.F
  pub failures : fl.F
  pub err_ratio : fl.F
  pub workers : fl.F
  pub byte_rate : fl.F
  pub latency : List (String × fl.F)
  pub last_bytes : ℕ
  pub last_at : ℕ

abbrev quantile_gauge : (fl : Float) → Snapshot → String → ℕ → ℕ → String × fl.F
quantile_gauge fl iv label n k = (label, seconds fl (signed_64 (percentile fl iv (fl.lit n k))))

-- Update
unfoldable pub update :
    (fl : Float) → Exporter fl → ℕ → Snapshot → Snapshot → fl.F → ℕ → Exporter fl
update fl e now total iv rps workers = record {
  rps = rps;
  requests = fl.of_ℕ total.requests;
  failures = fl.of_ℕ total.failures;
  err_ratio = error_rate fl total;
  workers = fl.of_ℕ workers;
  byte_rate =
      if not (e.last_at == 0) && (ltb e.last_at now && leb e.last_bytes total.bytes)
      then fl.div (fl.of_ℕ (total.bytes - e.last_bytes)) (seconds fl (pos (now - e.last_at)))
      else e.byte_rate;
  latency =
      quantile_gauge fl iv "0.5" 5 1
      ∷ quantile_gauge fl iv "0.9" 9 1
      ∷ quantile_gauge fl iv "0.95" 95 2
      ∷ quantile_gauge fl iv "0.99" 99 2
      ∷ quantile_gauge fl iv "0.999" 999 3
      ∷ [];
  last_bytes = total.bytes;
  last_at = now;
}

-- progress, of a duration or a number of requests: how many of the `w` cells are filled.
abbrev clamp_01 : (fl : Float) → fl.F → fl.F
clamp_01 fl x =
    let y = if fl.flt x (fl.lit 0 0) then fl.lit 0 0 else x in
    if fl.flt (fl.lit 1 0) y then fl.lit 1 0 else y

unfoldable pub progress : (fl : Float) → Snapshot → ℤ → ℕ → ℕ → ℕ × ℕ
progress fl total duration max_requests w =
    let frac =
      if ltb_ℤ (pos 0) duration
      then fl.div (seconds fl total.elapsed) (seconds fl duration)
      else if ltb 0 max_requests
      then fl.div (fl.of_ℕ total.requests) (fl.of_ℕ max_requests)
      else fl.lit 0 0 in
    let filled = fl.to_ℕ (fl.mul (clamp_01 fl frac) (fl.of_ℕ w)) in (filled, w - filled)

-- sparkline: the heights of the last `w` values, from 0 to 7.
abbrev highest : (fl : Float) → fl.F → List fl.F → fl.F
highest fl hi [] = hi
highest fl hi (v ∷ vs) = highest fl (max_F fl hi v) vs

abbrev heights : (fl : Float) → fl.F → List fl.F → List ℕ
heights fl hi [] = []
heights fl hi (v ∷ vs) =
    (if fl.flt (fl.lit 0 0) hi then fl.to_ℕ (fl.mul (fl.div v hi) (fl.lit 7 0)) else 0)
    ∷ heights fl hi vs

unfoldable pub sparkline : (fl : Float) → List fl.F → ℕ → List ℕ
sparkline fl vals w =
    let last = if ltb w (length vals) then drop (length vals - w) vals else vals in
    heights fl (highest fl (fl.lit 0 0) last) last

-- clock, after the duration is rounded to seconds: hours, minutes, seconds.
unfoldable pub clock : ℕ → ℕ × ℕ × ℕ
clock s = (s / 3600, s / 60 % 60, s % 60)

-- trunc, over the bytes of a text: the bytes, and whether the ellipsis is added.
unfoldable pub trunc : List ℕ → ℕ → List ℕ × Bool
trunc s n = if leb (length s) n then (s, false) else (take (n - 1) s, true)
