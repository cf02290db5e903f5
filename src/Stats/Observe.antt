-- ===== src/Stats/Observe.antt =====
-- Record, one sample and many: the shard counts exactly what was recorded.
use mathlib.Core.List.{append-nil, append_assoc}
use handling_50k_requestes_p.Prelude.{
  ℕ, ◌≤◌, ◌<◌, ◌≡◌, refl, sym, String, List, [], ◌∷◌, ◌++◌, arith, length, length-append, count_by,
  count_by-append, get_or, ℤ, pos, negsuc, length-replicate, get_or-replicate,
}
use handling_50k_requestes_p.Prelude.Words.{u64, max_u64, length-add_at, get_or-add_at}
use handling_50k_requestes_p.Prelude.Counts.{
  count_of, count_of_empty, Distinct, count_of-bump, bump-Distinct,
}
use handling_50k_requestes_p.Prelude.Float.{Float}
use handling_50k_requestes_p.Stats.{
  Sample, Shard, micros, class_of, class_other, bucket_for, num_buckets, num_classes, new_shard,
  record_sample, record_all,
}
use handling_50k_requestes_p.Stats.Samples.{
  Describes, fails, in_class, in_bucket, has_kind, sum_by, max_by, min_by, sum_by-append,
  max_by-append, min_by-append, us_of, size_of,
}

-- Both indices that Record uses are in range.
pub bucket_for-lt : (fl : Float) (us : ℕ) → bucket_for fl us < num_buckets
unfolding bucket_for
bucket_for-lt fl us = ground arith

pub class_of-lt : (status : ℤ) → class_of status < num_classes
unfolding class_of
class_of-lt (pos n) = ground arith
class_of-lt (negsuc n) = omega arith

pub micros-lt : (latency : ℤ) → micros latency ≤ max_u64
unfolding micros
micros-lt (pos n) = omega arith
micros-lt (negsuc n) = omega arith

pub new_shard-Describes : (fl : Float) → Describes fl new_shard []
unfolding new_shard
new_shard-Describes fl = record {
  width = length-replicate num_buckets 0;
  bucket = λ i h. get_or-replicate num_buckets i 0;
  requests_count = refl;
  failures_count = refl;
  bytes_sum = refl;
  us_sum = refl;
  us_max = refl;
  us_min = refl;
  class_width = length-replicate num_classes 0;
  class_count = λ c h. get_or-replicate num_classes c 0;
  keys = tt;
  kind_count = count_of_empty;
}

module _ (fl : Float) (s : Shard) (xs : List Sample) (x : Sample) (d : Describes fl s xs) where
  record_bucket :
      (i : ℕ)
      → i < num_buckets
      → get_or (record_sample fl s x).hist i 0 ≡ u64 (count_by (in_bucket fl i) (xs ++ x ∷ []))
  unfolding record_sample
  record_bucket i h =
      let b = bucket_for fl (us_of x) in
      ground (
        arith,
        d.width,
        bucket_for-lt fl (us_of x),
        get_or-add_at b 1 i s.hist,
        d.bucket i h,
        count_by-append (in_bucket fl i) xs (x ∷ []),
      )

  record_class :
      (c : ℕ)
      → c < num_classes
      → get_or (record_sample fl s x).classes c 0 ≡ u64 (count_by (in_class c) (xs ++ x ∷ []))
  unfolding record_sample
  record_class c h = ground (
    arith,
    d.class_width,
    class_of-lt x.status,
    get_or-add_at class_other 1 c s.classes,
    get_or-add_at (class_of x.status) 1 c s.classes,
    d.class_count c h,
    count_by-append (in_class c) xs (x ∷ []),
  )

  record_kind :
      (k : String)
      → count_of k (record_sample fl s x).err_kinds ≡ u64 (count_by (has_kind k) (xs ++ x ∷ []))
  unfolding record_sample
  record_kind k = ground (
    arith,
    count_of-bump x.err_kind k 1 s.err_kinds,
    d.kind_count k,
    count_by-append (has_kind k) xs (x ∷ []),
  )

  record_keys : Distinct (record_sample fl s x).err_kinds
  unfolding record_sample
  record_keys = ground (arith, d.keys, bump-Distinct x.err_kind 1 s.err_kinds)

  record_width :
      (length (record_sample fl s x).hist ≡ num_buckets)
      × (length (record_sample fl s x).classes ≡ num_classes)
  unfolding record_sample
  record_width = ground (
    arith,
    d.width,
    d.class_width,
    length-add_at (bucket_for fl (us_of x)) 1 s.hist,
    length-add_at class_other 1 s.classes,
    length-add_at (class_of x.status) 1 s.classes,
  )

  record_failures : (record_sample fl s x).failures ≡ u64 (count_by fails (xs ++ x ∷ []))
  unfolding record_sample
  record_failures = ground (arith, d.failures_count, count_by-append fails xs (x ∷ []))

  record_sums :
      ((record_sample fl s x).requests ≡ u64 (length (xs ++ x ∷ [])))
      × ((record_sample fl s x).bytes ≡ u64 (sum_by size_of (xs ++ x ∷ [])))
      × ((record_sample fl s x).sum_us ≡ u64 (sum_by us_of (xs ++ x ∷ [])))
  unfolding record_sample
  record_sums = ground (
    arith,
    d.requests_count,
    d.bytes_sum,
    d.us_sum,
    length-append xs (x ∷ []),
    sum_by-append size_of xs (x ∷ []),
    sum_by-append us_of xs (x ∷ []),
  )

  record_range :
      ((record_sample fl s x).max_us ≡ max_by us_of (xs ++ x ∷ []))
      × ((record_sample fl s x).min_us ≡ min_by us_of (xs ++ x ∷ []))
  unfolding record_sample
  record_range = ground (
    arith,
    d.us_max,
    d.us_min,
    micros-lt x.latency,
    max_by-append us_of xs (x ∷ []),
    min_by-append us_of xs (x ∷ []),
  )

  -- One more sample, one more in every counter that it belongs to.
  pub record_sample-Describes : Describes fl (record_sample fl s x) (xs ++ x ∷ [])
  record_sample-Describes = record {
    width = record_width.0;
    bucket = record_bucket;
    requests_count = record_sums.0;
    failures_count = record_failures;
    bytes_sum = record_sums.1;
    us_sum = record_sums.2;
    us_max = record_range.0;
    us_min = record_range.1;
    class_width = record_width.1;
    class_count = record_class;
    keys = record_keys;
    kind_count = record_kind;
  }

record_all_from :
    (fl : Float) (s : Shard) (xs ys : List Sample)
    → Describes fl s xs
    → Describes fl (record_all fl s ys) (xs ++ ys)
unfolding record_all
record_all_from fl s xs [] d = rw append-nil d
record_all_from fl s xs (y ∷ ys) d = rw (sym (append_assoc xs (y ∷ []) ys)) (
    record_all_from fl (record_sample fl s y) (xs ++ y ∷ []) ys
      (record_sample-Describes fl s xs y d))

-- After any samples have been recorded in a new shard, its counters describe those samples: every
-- bucket, status class and error kind counts the samples that belong to it, requests, failures, bytes
-- and latencies are counted or added up, all modulo 2^64, and the maximum and minimum are exact.
pub record_all-Describes :
    (fl : Float) (xs : List Sample) → Describes fl (record_all fl new_shard xs) xs
record_all-Describes fl xs = record_all_from fl new_shard [] xs (new_shard-Describes fl)
