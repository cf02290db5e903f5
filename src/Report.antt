-- ===== src/Report.antt =====
-- internal/titanload/report/report.go: the SLO gates, the summary of a run, and how numbers are shown.
--
-- A message of Check is kept as its kind and its two numbers. Durations are signed nanoseconds; the
-- statistics give them as 64-bit patterns, which `signed_64` reads. A text is the list of its
-- characters' codes where its characters matter.
pub mod Gates
pub mod Grouping
pub mod Examples
use handling_50k_requestes_p.Prelude.{
  ℕ, ◌+◌, ◌-◌, ◌*◌, ◌/◌, ◌%◌, ◌^◌, String, Bool, true, false, ◌&&◌, ◌||◌, List, [], ◌∷◌, ◌++◌, ℤ,
  pos, negsuc, ltb_ℤ, max_ℤ, ltb, ◌==◌, if◌then◌else◌, length, get_or,
}
use handling_50k_requestes_p.Prelude.Counts.{Counts}
use handling_50k_requestes_p.Prelude.Float.{Float}
use handling_50k_requestes_p.Prelude.Duration.{of_ℤ, quotient, seconds}
use handling_50k_requestes_p.Stats.{
  Snapshot, percentile, error_rate, min_latency, max_latency, mean, class_other,
}

abbrev pub signed_64 : ℕ → ℤ
signed_64 n = if ltb n 9223372036854775808 then pos n else negsuc (18446744073709551615 - n)

-- Snapshot.RPS of the statistics.
unfoldable pub rps : (fl : Float) → Snapshot → fl.F
rps fl sn =
    if ltb_ℤ (pos 0) sn.elapsed
    then fl.div (fl.of_ℕ sn.requests) (seconds fl sn.elapsed)
    else fl.lit 0 0

pub record Slo (fl : Float) : Type 0 where
  pub p95 : ℤ
  pub p99 : ℤ
  pub error_rate : fl.F
  pub min_rps : fl.F

pub data Violation (fl : Float) : Type 0 where
  p95_over p99_over : ℤ → ℤ → Violation fl
  errors_over rps_under : fl.F → fl.F → Violation fl

abbrev pub when : {A : Type 0} → Bool → A → List A
when true a = a ∷ []
when false a = []

unfoldable pub latency_at : (fl : Float) → Snapshot → ℕ → ℕ → ℤ
latency_at fl sn n k = signed_64 (percentile fl sn (fl.lit n k))

-- SLO.Check
unfoldable pub check : {fl : Float} → Slo fl → Snapshot → List (Violation fl)
check {fl} s sn =
    when (ltb_ℤ (pos 0) s.p95 && ltb_ℤ s.p95 (latency_at fl sn 95 2))
      (p95_over (latency_at fl sn 95 2) s.p95)
    ++ (when (ltb_ℤ (pos 0) s.p99 && ltb_ℤ s.p99 (latency_at fl sn 99 2))
          (p99_over (latency_at fl sn 99 2) s.p99)
        ++ (when (fl.flt (fl.lit 0 0) s.error_rate && fl.flt s.error_rate (error_rate fl sn))
              (errors_over (error_rate fl sn) s.error_rate)
            ++ when (fl.flt (fl.lit 0 0) s.min_rps && fl.flt (rps fl sn) s.min_rps)
                (rps_under (rps fl sn) s.min_rps)))

-- SLO.Enabled
unfoldable pub enabled : {fl : Float} → Slo fl → Bool
enabled {fl} s =
    ltb_ℤ (pos 0) s.p95
    || ltb_ℤ (pos 0) s.p99
    || fl.flt (fl.lit 0 0) s.error_rate
    || fl.flt (fl.lit 0 0) s.min_rps

pub record Latency (fl : Float) : Type 0 where
  pub min_ms : fl.F
  pub mean_ms : fl.F
  pub p50_ms : fl.F
  pub p90_ms : fl.F
  pub p95_ms : fl.F
  pub p99_ms : fl.F
  pub p999_ms : fl.F
  pub max_ms : fl.F

pub record RunInfo (fl : Float) : Type 0 where
  pub target : String
  pub mode : String
  pub workers : ℤ
  pub concurrency : ℤ
  pub rate : fl.F

-- The summary, without the time at which it was made.
pub record Summary (fl : Float) : Type 0 where
  pub target : String
  pub mode : String
  pub workers : ℤ
  pub concurrency : ℤ
  pub target_rate : fl.F
  pub duration_sec : fl.F
  pub requests : ℕ
  pub failures : ℕ
  pub error_rate : fl.F
  pub rps : fl.F
  pub bytes_per_sec : fl.F
  pub latency : Latency fl
  pub status_classes : List (String × ℕ)
  pub errors : Counts
  pub slo_passed : Bool
  pub violations : List (Violation fl)

abbrev pub ms : (fl : Float) → ℤ → fl.F
ms fl d = fl.div (of_ℤ fl (quotient d 1000)) (fl.lit 1000 0)

abbrev pub is_empty : {A : Type 0} → List A → Bool
is_empty [] = true
is_empty (x ∷ xs) = false

unfoldable pub latencies : (fl : Float) → Snapshot → Latency fl
unfolding latency_at
latencies fl sn = record {
  min_ms = ms fl (signed_64 (min_latency sn));
  mean_ms = ms fl (signed_64 (mean sn));
  p50_ms = ms fl (latency_at fl sn 50 2);
  p90_ms = ms fl (latency_at fl sn 90 2);
  p95_ms = ms fl (latency_at fl sn 95 2);
  p99_ms = ms fl (latency_at fl sn 99 2);
  p999_ms = ms fl (latency_at fl sn 999 3);
  max_ms = ms fl (signed_64 (max_latency sn));
}

-- Build
unfoldable pub build : {fl : Float} → Snapshot → RunInfo fl → Slo fl → Summary fl
unfolding check latencies
build {fl} sn info slo = record {
  target = info.target;
  mode = info.mode;
  workers = max_ℤ info.workers (pos 1);
  concurrency = info.concurrency;
  target_rate = info.rate;
  duration_sec = seconds fl sn.elapsed;
  requests = sn.requests;
  failures = sn.failures;
  error_rate = error_rate fl sn;
  rps = rps fl sn;
  bytes_per_sec =
      if ltb_ℤ (pos 0) sn.elapsed
      then fl.div (fl.of_ℕ sn.bytes) (seconds fl sn.elapsed)
      else fl.lit 0 0;
  latency = latencies fl sn;
  status_classes =
      ("1xx", get_or sn.classes 0 0)
      ∷ ("2xx", get_or sn.classes 1 0)
      ∷ ("3xx", get_or sn.classes 2 0)
      ∷ ("4xx", get_or sn.classes 3 0)
      ∷ ("5xx", get_or sn.classes 4 0)
      ∷ ("transport_error", get_or sn.classes class_other 0)
      ∷ [];
  errors = sn.err_kinds;
  slo_passed = is_empty (check slo sn);
  violations = check slo sn;
}

-- The loop of Num over the digits, `len` of them; `i` is the index. 44 is the comma.
unfoldable pub separated : ℕ → ℕ → List ℕ → List ℕ
separated len i [] = []
separated len i (c ∷ cs) =
    let rest = separated len (i + 1) cs in
    if ltb 0 i && (len - i) % 3 == 0 then 44 ∷ c ∷ rest else c ∷ rest

-- The decimal format of the int64 -m, for m of at most 2^63: the least one is its own negation, so
-- that the text still has a sign. 45 is the minus sign.
abbrev pub negated_digits : (ℕ → List ℕ) → ℕ → List ℕ
negated_digits digits m = if m == 9223372036854775808 then 45 ∷ digits m else digits m

-- Num, after the conversion to an int64; `digits` is the decimal format of a natural number.
unfoldable pub num : (ℕ → List ℕ) → ℤ → List ℕ
unfolding separated
num digits (pos n) = separated (length (digits n)) 0 (digits n)
num digits (negsuc n) = let s = negated_digits digits (n + 1) in 45 ∷ separated (length s) 0 s

-- Num: `to_int64` is the conversion, whose result out of the range is that of the machine.
unfoldable pub num_of : (fl : Float) → (fl.F → ℤ) → (ℕ → List ℕ) → fl.F → List ℕ
num_of fl to_int64 digits f = num digits (to_int64 (fl.add f (fl.lit 5 1)))

-- The loop of Bytes: the value and the unit that it ends with.
unfoldable pub scaled : (fl : Float) → fl.F → String → List String → fl.F × String
scaled fl f unit [] = (f, unit)
scaled fl f unit (next ∷ units) =
    let rest = scaled fl (fl.div f (fl.lit 1024 0)) next units in
    if fl.flt f (fl.lit 1024 0) then (f, unit) else rest

unfoldable pub bytes : (fl : Float) → fl.F → fl.F × String
unfolding scaled
bytes fl f = scaled fl f "B" ("KB" ∷ "MB" ∷ "GB" ∷ "TB" ∷ [])

-- FmtDur: the number that is shown, before it is rounded, and its unit.
pub data Shown (fl : Float) : Type 0 where
  micros : ℤ → Shown fl
  millis secs : fl.F → Shown fl

unfoldable pub fmt_dur : (fl : Float) → ℤ → Shown fl
fmt_dur fl d =
    if ltb_ℤ d (pos 1000000)
    then micros (quotient d 1000)
    else if ltb_ℤ d (pos 1000000000)
    then millis (fl.div (of_ℤ fl (quotient d 1000)) (fl.lit 1000 0))
    else secs (seconds fl d)
