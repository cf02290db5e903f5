-- ===== src/Stats.antt =====
-- internal/titanload/stats/histogram.go: the latency histogram of one load goroutine (Shard) and
-- the serialisable Snapshot that workers send to the coordinator.
--
-- A shard has one writer, so each compare-and-swap loop of Record succeeds at once. Counters are
-- uint64 and wrap. Latencies are signed nanoseconds, statuses and byte counts are signed too. The
-- logarithm and the power of the bucket bounds are float64 operations, taken from the interface.
pub mod Observe
pub mod Samples
pub mod Combine
pub mod Delta
pub mod Quantile
pub mod Bounds
pub mod Kinds
pub mod Live
pub mod Counters
pub mod Torn
pub mod Atomic
pub mod Failing
pub mod LiveExamples
pub mod Examples
use text.Mathlib.Text.{◌==◌ as str_eq}
use handling_50k_requestes_p.Prelude.{
  ℕ, ◌+◌, ◌-◌, ◌*◌, ◌/◌, ◌%◌, ◌^◌, ◌≤◌, String, Bool, true, false, not, ◌&&◌, List, [], ◌∷◌, ◌++◌,
  Option, none, some, ℤ, pos, negsuc, ◌-ℤ◌, max_ℤ, ltb, leb, ◌==◌, if◌then◌else◌, length, get_or,
  replicate,
}
use handling_50k_requestes_p.Prelude.Words.{u64, sub64, max_u64, add_at, add_upto}
use handling_50k_requestes_p.Prelude.Counts.{Counts, count_of, bump, add_counts}
use handling_50k_requestes_p.Prelude.Float.{Float}

abbrev pub num_buckets : ℕ
num_buckets = 906

-- The classes Class1xx .. Class5xx are 0 .. 4.
abbrev pub class_other : ℕ
class_other = 5

abbrev pub num_classes : ℕ
num_classes = 6

-- `bucketFor`, over the integer part of math.Log(us)/logGrowth, which is not negative for 1 ≤ us.
unfoldable pub bucket_for : Float → ℕ → ℕ
bucket_for fl us =
    if ltb us 1
    then 0
    else let i = fl.to_ℕ (fl.div (fl.log (fl.of_ℕ us)) (fl.log (fl.lit 102 2))) + 1 in
      if leb num_buckets i then num_buckets - 1 else i

-- `BucketUpper`, in microseconds.
unfoldable pub bucket_upper : (fl : Float) → ℕ → fl.F
bucket_upper fl i = if leb i 0 then fl.lit 1 0 else fl.pow (fl.lit 102 2) (fl.of_ℕ i)

pub record Shard : Type 0 where
  pub hist : List ℕ
  pub requests : ℕ
  pub failures : ℕ
  pub bytes : ℕ
  pub sum_us : ℕ
  pub max_us : ℕ
  pub min_us : ℕ
  pub classes : List ℕ
  pub err_kinds : Counts

-- The arguments of one call of Record.
pub record Sample : Type 0 where
  pub latency : ℤ
  pub status : ℤ
  pub size : ℤ
  pub err_kind : String

unfoldable pub new_shard : Shard
new_shard = record {
  hist = replicate num_buckets 0;
  requests = 0;
  failures = 0;
  bytes = 0;
  sum_us = 0;
  max_us = 0;
  min_us = max_u64;
  classes = replicate num_classes 0;
  err_kinds = [];
}

-- `uint64(latency / time.Microsecond)`: the division drops the fraction, the conversion wraps.
unfoldable pub micros : ℤ → ℕ
micros (pos n) = u64 (n / 1000)
micros (negsuc n) = sub64 0 ((n + 1) / 1000)

unfoldable pub size_added : ℤ → ℕ
size_added (pos n) = u64 n
size_added (negsuc n) = 0

-- The class of a response, and whether it counts as a failure.
unfoldable pub class_of : ℤ → ℕ
class_of (pos n) = if leb 100 n && ltb n 600 then n / 100 - 1 else class_other
class_of (negsuc n) = class_other

unfoldable pub is_error_status : ℤ → Bool
is_error_status (pos n) = leb 400 n
is_error_status (negsuc n) = false

-- The part of Record after the bounds: the outcome of the request.
unfoldable pub record_outcome : Shard → ℤ → String → Shard
record_outcome s status kind =
    if not (str_eq kind "")
    then record s {
      failures = u64 (s.failures + 1);
      classes = add_at class_other 1 s.classes;
      err_kinds = bump kind 1 s.err_kinds;
    }
    else record s {
      classes = add_at (class_of status) 1 s.classes;
      failures = if is_error_status status then u64 (s.failures + 1) else s.failures;
    }

unfoldable pub record_sample : Float → Shard → Sample → Shard
unfolding record_outcome
record_sample fl s x =
    let us = micros x.latency in
    record_outcome
      (record s {
        hist = add_at (bucket_for fl us) 1 s.hist;
        requests = u64 (s.requests + 1);
        sum_us = u64 (s.sum_us + us);
        bytes = u64 (s.bytes + size_added x.size);
        max_us = if leb us s.max_us then s.max_us else us;
        min_us = if leb s.min_us us then s.min_us else us;
      })
      x.status x.err_kind

unfoldable pub record_all : Float → Shard → List Sample → Shard
record_all fl s [] = s
record_all fl s (x ∷ xs) = record_all fl (record_sample fl s x) xs

pub record Snapshot : Type 0 where
  pub requests : ℕ
  pub failures : ℕ
  pub bytes : ℕ
  pub sum_us : ℕ
  pub max_us : ℕ
  pub min_us : ℕ
  pub classes : List ℕ
  pub err_kinds : Counts
  pub hist : List ℕ
  pub elapsed : ℤ

unfoldable pub new_snapshot : Snapshot
new_snapshot = record {
  requests = 0;
  failures = 0;
  bytes = 0;
  sum_us = 0;
  max_us = 0;
  min_us = max_u64;
  classes = replicate num_classes 0;
  err_kinds = [];
  hist = replicate num_buckets 0;
  elapsed = pos 0;
}

-- The built-ins `max` and `min` on uint64.
abbrev pub max64 : ℕ → ℕ → ℕ
max64 a b = if leb a b then b else a

abbrev pub min64 : ℕ → ℕ → ℕ
min64 a b = if leb a b then a else b

unfoldable pub add_shard : Snapshot → Shard → Snapshot
add_shard sn s = record sn {
  hist = add_upto num_buckets sn.hist s.hist;
  requests = u64 (sn.requests + s.requests);
  failures = u64 (sn.failures + s.failures);
  bytes = u64 (sn.bytes + s.bytes);
  sum_us = u64 (sn.sum_us + s.sum_us);
  max_us = max64 sn.max_us s.max_us;
  min_us = min64 sn.min_us s.min_us;
  classes = add_upto num_classes sn.classes s.classes;
  err_kinds = add_counts sn.err_kinds s.err_kinds;
}

-- The loop of Engine.Snapshot over the shards of the goroutines.
unfoldable pub add_shards : Snapshot → List Shard → Snapshot
add_shards sn [] = sn
add_shards sn (s ∷ ss) = add_shards (add_shard sn s) ss

-- A histogram that came over the wire may be short.
unfoldable pub pad_hist : List ℕ → List ℕ
pad_hist h = if ltb (length h) num_buckets then h ++ replicate (num_buckets - length h) 0 else h

unfoldable pub merge : Snapshot → Option Snapshot → Snapshot
unfolding pad_hist
merge sn none = sn
merge sn (some o) = record sn {
  hist = add_upto num_buckets (pad_hist sn.hist) o.hist;
  requests = u64 (sn.requests + o.requests);
  failures = u64 (sn.failures + o.failures);
  bytes = u64 (sn.bytes + o.bytes);
  sum_us = u64 (sn.sum_us + o.sum_us);
  max_us = max64 sn.max_us o.max_us;
  min_us = if ltb 0 o.requests then min64 sn.min_us o.min_us else sn.min_us;
  classes = add_upto num_classes sn.classes o.classes;
  err_kinds = add_counts sn.err_kinds o.err_kinds;
  elapsed = max_ℤ sn.elapsed o.elapsed;
}

-- `d[i] = xs[i] - ys[i]`, and `xs[i]` where ys is shorter.
unfoldable pub sub_list : List ℕ → List ℕ → List ℕ
sub_list [] ys = []
sub_list (x ∷ xs) [] = x ∷ xs
sub_list (x ∷ xs) (y ∷ ys) = sub64 x y ∷ sub_list xs ys

-- `if dv := v - prev.ErrKinds[k]; dv > 0 { d.ErrKinds[k] = dv }`, in the order of the first map.
unfoldable pub sub_counts : Counts → Counts → Counts
sub_counts [] p = []
sub_counts ((k, v) ∷ m) p =
    let dv = sub64 v (count_of k p) in if ltb 0 dv then (k, dv) ∷ sub_counts m p else sub_counts m p

-- `none` stands for the panic of `d.Hist[i]`, when the histogram is longer than a fresh one.
unfoldable pub sub : Snapshot → Option Snapshot → Option Snapshot
sub sn none = some (merge new_snapshot (some sn))
sub sn (some prev) =
    if ltb num_buckets (length sn.hist)
    then none
    else some (record {
      hist = pad_hist (sub_list sn.hist prev.hist);
      requests = sub64 sn.requests prev.requests;
      failures = sub64 sn.failures prev.failures;
      bytes = sub64 sn.bytes prev.bytes;
      sum_us = sub64 sn.sum_us prev.sum_us;
      max_us = sn.max_us;
      min_us = sn.min_us;
      classes = sub_list sn.classes prev.classes;
      err_kinds = sub_counts sn.err_kinds prev.err_kinds;
      elapsed = sn.elapsed -ℤ prev.elapsed;
    })

-- The running total over the histogram, which wraps.
unfoldable pub total_of : ℕ → List ℕ → ℕ
total_of acc [] = acc
total_of acc (c ∷ cs) = total_of (u64 (acc + c)) cs

-- The first bucket at which the running total reaches the rank.
unfoldable pub find_rank : ℕ → ℕ → ℕ → List ℕ → Option ℕ
find_rank rank i seen [] = none
find_rank rank i seen (c ∷ cs) =
    let rest = find_rank rank (i + 1) (u64 (seen + c)) cs in
    if leb rank (u64 (seen + c)) then some i else rest

-- `rank := uint64(math.Ceil(q * float64(total)))`, at least 1.
unfoldable pub rank_of : (fl : Float) → fl.F → ℕ → ℕ
rank_of fl q total =
    let rank = u64 (fl.to_ℕ (fl.ceil (fl.mul q (fl.of_ℕ total)))) in if ltb rank 1 then 1 else rank

-- `time.Duration(us) * time.Microsecond`, as the 64-bit pattern of an int64.
abbrev pub duration_us : ℕ → ℕ
duration_us us = u64 (us * 1000)

-- The latency reported for a bucket, in nanoseconds, never above the observed maximum.
unfoldable pub bucket_latency : Float → ℕ → ℕ → ℕ
bucket_latency fl max_us i =
    let us = bucket_upper fl i in
    let capped = if ltb 0 max_us && fl.flt (fl.of_ℕ max_us) us then fl.of_ℕ max_us else us in
    fl.to_ℕ (fl.mul capped (fl.lit 1000 0))

unfoldable pub percentile : (fl : Float) → Snapshot → fl.F → ℕ
percentile fl sn q =
    let total = total_of 0 sn.hist in
    if total == 0 then 0 else elim (find_rank (rank_of fl q total) 0 0 sn.hist) [
      | some i ↦ bucket_latency fl sn.max_us i
      | none ↦ duration_us sn.max_us
    ]

unfoldable pub mean : Snapshot → ℕ
mean sn = if sn.requests == 0 then 0 else duration_us (sn.sum_us / sn.requests)

unfoldable pub min_latency : Snapshot → ℕ
min_latency sn =
    if sn.requests == 0 then 0 else if sn.min_us == max_u64 then 0 else duration_us sn.min_us

unfoldable pub max_latency : Snapshot → ℕ
max_latency sn = duration_us sn.max_us

unfoldable pub error_rate : (fl : Float) → Snapshot → fl.F
error_rate fl sn =
    if sn.requests == 0 then fl.lit 0 0 else fl.div (fl.of_ℕ sn.failures) (fl.of_ℕ sn.requests)
