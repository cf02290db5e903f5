-- ===== src/Stats/Samples.antt =====
-- What the counters of histogram.go are meant to say, as functions of the recorded samples.
use text.Mathlib.Text.{◌==◌ as str_eq}
use handling_50k_requestes_p.Prelude.{
  ℕ, ◌+◌, ◌≤◌, ◌<◌, ◌≡◌, String, Bool, not, ◌&&◌, ◌||◌, List, [], ◌∷◌, ◌++◌, arith, min, max, ◌==◌,
  if◌then◌else◌, length, count_by, get_or,
}
use handling_50k_requestes_p.Prelude.Words.{u64, max_u64}
use handling_50k_requestes_p.Prelude.Counts.{count_of, Distinct}
use handling_50k_requestes_p.Prelude.Float.{Float}
use handling_50k_requestes_p.Stats.{
  Sample, Shard, Snapshot, micros, size_added, class_of, class_other, is_error_status, bucket_for,
  num_buckets, num_classes,
}

abbrev pub has_error : Sample → Bool
has_error x = not (str_eq x.err_kind "")

-- A sample fails by a transport error or by a status from 400 on.
abbrev pub fails : Sample → Bool
fails x = has_error x || is_error_status x.status

abbrev pub in_class : ℕ → Sample → Bool
in_class c x = (if has_error x then class_other else class_of x.status) == c

abbrev pub in_bucket : Float → ℕ → Sample → Bool
in_bucket fl i x = bucket_for fl (micros x.latency) == i

abbrev pub has_kind : String → Sample → Bool
has_kind k x = has_error x && str_eq x.err_kind k

module _ {ℓ} {A : Type ℓ} where
  abbrev pub sum_by : (A → ℕ) → List A → ℕ
  sum_by f [] = 0
  sum_by f (x ∷ xs) = f x + sum_by f xs

  abbrev pub max_by : (A → ℕ) → List A → ℕ
  max_by f [] = 0
  max_by f (x ∷ xs) = max (f x) (max_by f xs)

  -- Over 64-bit values, so that the least of none is the largest.
  abbrev pub min_by : (A → ℕ) → List A → ℕ
  min_by f [] = max_u64
  min_by f (x ∷ xs) = min (f x) (min_by f xs)

module _ {ℓ} {A : Type ℓ} where
  pub sum_by-append : (f : A → ℕ) (xs ys : List A) → sum_by f (xs ++ ys) ≡ sum_by f xs + sum_by f ys
  sum_by-append f [] ys = omega arith
  sum_by-append f (x ∷ xs) ys = omega (arith, sum_by-append f xs ys)

  pub max_by-append :
      (f : A → ℕ) (xs ys : List A) → max_by f (xs ++ ys) ≡ max (max_by f xs) (max_by f ys)
  max_by-append f [] ys = omega arith
  max_by-append f (x ∷ xs) ys = omega (arith, max_by-append f xs ys)

  pub min_by-le : (f : A → ℕ) (xs : List A) → min_by f xs ≤ max_u64
  min_by-le f [] = omega arith
  min_by-le f (x ∷ xs) = omega (arith, min_by-le f xs)

  pub min_by-append :
      (f : A → ℕ) (xs ys : List A) → min_by f (xs ++ ys) ≡ min (min_by f xs) (min_by f ys)
  min_by-append f [] ys = omega (arith, min_by-le f ys)
  min_by-append f (x ∷ xs) ys = omega (arith, min_by-append f xs ys)

abbrev pub us_of : Sample → ℕ
us_of x = micros x.latency

abbrev pub size_of : Sample → ℕ
size_of x = size_added x.size

-- The counters of a shard say of the samples what they should, modulo 2^64.
pub record Describes (fl : Float) (s : Shard) (xs : List Sample) : Type 0 where
  pub width : length s.hist ≡ num_buckets
  pub bucket : (i : ℕ) → i < num_buckets → get_or s.hist i 0 ≡ u64 (count_by (in_bucket fl i) xs)
  pub requests_count : s.requests ≡ u64 (length xs)
  pub failures_count : s.failures ≡ u64 (count_by fails xs)
  pub bytes_sum : s.bytes ≡ u64 (sum_by size_of xs)
  pub us_sum : s.sum_us ≡ u64 (sum_by us_of xs)
  pub us_max : s.max_us ≡ max_by us_of xs
  pub us_min : s.min_us ≡ min_by us_of xs
  pub class_width : length s.classes ≡ num_classes
  pub class_count :
      (c : ℕ) → c < num_classes → get_or s.classes c 0 ≡ u64 (count_by (in_class c) xs)
  pub keys : Distinct s.err_kinds
  pub kind_count : (k : String) → count_of k s.err_kinds ≡ u64 (count_by (has_kind k) xs)

-- The counters of a snapshot are those of a shard.
abbrev pub counters : Snapshot → Shard
counters sn = record {
  hist = sn.hist;
  requests = sn.requests;
  failures = sn.failures;
  bytes = sn.bytes;
  sum_us = sn.sum_us;
  max_us = sn.max_us;
  min_us = sn.min_us;
  classes = sn.classes;
  err_kinds = sn.err_kinds;
}

abbrev pub Summarises : Float → Snapshot → List Sample → Type 0
Summarises fl sn xs = Describes fl (counters sn) xs
