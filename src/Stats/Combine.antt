-- ===== src/Stats/Combine.antt =====
-- AddShard and Merge: aggregation is exact, the counters of the parts give those of the whole.
use mathlib.Core.List.{append-nil, append_assoc}
use handling_50k_requestes_p.Prelude.{
  ℕ, ◌^◌, ◌+◌, ◌<◌, ◌≡◌, sym, ◌∙◌, String, List, [], ◌∷◌, ◌++◌, arith, some, length, length-append,
  count_by, count_by-append, get_or,
}
use handling_50k_requestes_p.Prelude.Words.{u64, add_upto, length-add_upto, get_or-add_upto}
use handling_50k_requestes_p.Prelude.Counts.{
  count_of, add_counts, add_counts-Distinct, count_of-add_counts,
}
use handling_50k_requestes_p.Prelude.Float.{Float}
use handling_50k_requestes_p.Stats.{
  Sample, Shard, Snapshot, num_buckets, num_classes, new_snapshot, new_shard, add_shard, add_shards,
  merge, pad_hist, max64, min64, record_all,
}
use handling_50k_requestes_p.Stats.Samples.{
  Describes, Summarises, counters, fails, in_class, in_bucket, has_kind, max_by, min_by,
  sum_by-append, max_by-append, min_by-append, min_by-le, us_of, size_of,
}
use handling_50k_requestes_p.Stats.Observe.{new_shard-Describes, record_all-Describes}

-- The sum of two sets of counters, field by field.
plus : Shard → Shard → Shard
plus s t = record {
  hist = add_upto num_buckets s.hist t.hist;
  requests = u64 (s.requests + t.requests);
  failures = u64 (s.failures + t.failures);
  bytes = u64 (s.bytes + t.bytes);
  sum_us = u64 (s.sum_us + t.sum_us);
  max_us = max64 s.max_us t.max_us;
  min_us = min64 s.min_us t.min_us;
  classes = add_upto num_classes s.classes t.classes;
  err_kinds = add_counts s.err_kinds t.err_kinds;
}

module _ (fl : Float) (s t : Shard) (xs ys : List Sample) (d : Describes fl s xs)
    (e : Describes fl t ys) where
  plus_bucket :
      (i : ℕ)
      → i < num_buckets
      → get_or (plus s t).hist i 0 ≡ u64 (count_by (in_bucket fl i) (xs ++ ys))
  unfolding plus
  plus_bucket i h = omega (
    arith,
    d.width,
    e.width,
    get_or-add_upto num_buckets i s.hist t.hist,
    d.bucket i h,
    e.bucket i h,
    count_by-append (in_bucket fl i) xs ys,
  )

  plus_class :
      (c : ℕ)
      → c < num_classes
      → get_or (plus s t).classes c 0 ≡ u64 (count_by (in_class c) (xs ++ ys))
  unfolding plus
  plus_class c h = omega (
    arith,
    d.class_width,
    e.class_width,
    get_or-add_upto num_classes c s.classes t.classes,
    d.class_count c h,
    e.class_count c h,
    count_by-append (in_class c) xs ys,
  )

  plus_kind :
      (k : String) → count_of k (plus s t).err_kinds ≡ u64 (count_by (has_kind k) (xs ++ ys))
  unfolding plus
  plus_kind k = omega (
    arith,
    count_of-add_counts k (count_by (has_kind k) xs) s.err_kinds t.err_kinds e.keys
        (d.kind_count k),
    e.kind_count k,
    count_by-append (has_kind k) xs ys,
  )

  plus_range :
      ((plus s t).max_us ≡ max_by us_of (xs ++ ys)) × ((plus s t).min_us ≡ min_by us_of (xs ++ ys))
  unfolding plus
  plus_range = ground (
    arith,
    d.us_max,
    d.us_min,
    e.us_max,
    e.us_min,
    max_by-append us_of xs ys,
    min_by-append us_of xs ys,
  )

  plus-Describes : Describes fl (plus s t) (xs ++ ys)
  unfolding plus
  plus-Describes = record {
    width = length-add_upto num_buckets s.hist t.hist ∙ d.width;
    bucket = plus_bucket;
    requests_count = omega (arith, d.requests_count, e.requests_count, length-append xs ys);
    failures_count = omega (arith, d.failures_count, e.failures_count, count_by-append fails xs ys);
    bytes_sum = omega (arith, d.bytes_sum, e.bytes_sum, sum_by-append size_of xs ys);
    us_sum = omega (arith, d.us_sum, e.us_sum, sum_by-append us_of xs ys);
    us_max = plus_range.0;
    us_min = plus_range.1;
    class_width = length-add_upto num_classes s.classes t.classes ∙ d.class_width;
    class_count = plus_class;
    keys = add_counts-Distinct s.err_kinds t.err_kinds d.keys;
    kind_count = plus_kind;
  }

pub new_snapshot-Summarises : (fl : Float) → Summarises fl new_snapshot []
unfolding new_snapshot new_shard
new_snapshot-Summarises fl = new_shard-Describes fl

pub add_shard-Summarises :
    (fl : Float) (sn : Snapshot) (s : Shard) (xs ys : List Sample)
    → Summarises fl sn xs
    → Describes fl s ys
    → Summarises fl (add_shard sn s) (xs ++ ys)
unfolding add_shard plus
add_shard-Summarises fl sn s xs ys d e = plus-Describes fl (counters sn) s xs ys d e

pub pad_hist_full : (h : List ℕ) → length h ≡ num_buckets → pad_hist h ≡ h
unfolding pad_hist
pad_hist_full h e = ground arith

-- The guard on the minimum leaves it alone only where the other side has nothing to say.
merge-min :
    (fl : Float) (sn o : Snapshot) (xs ys : List Sample)
    → Summarises fl sn xs
    → Summarises fl o ys
    → length ys < 2 ^ 64
    → (merge sn (some o)).min_us ≡ min64 sn.min_us o.min_us
unfolding merge
merge-min fl sn o xs [] d e h =
    ground (arith, d.us_min, e.us_min, e.requests_count, min_by-le us_of xs)
merge-min fl sn o xs (y ∷ ys) d e h = ground (arith, e.requests_count)

merge-plus :
    (fl : Float) (sn o : Snapshot) (xs ys : List Sample)
    → Summarises fl sn xs
    → Summarises fl o ys
    → length ys < 2 ^ 64
    → counters (merge sn (some o)) ≡ plus (counters sn) (counters o)
unfolding merge plus
merge-plus fl sn o xs ys d e h = cc (pad_hist_full sn.hist d.width, merge-min fl sn o xs ys d e h)

-- If one snapshot summarises the samples xs and another the samples ys, and ys are fewer than 2^64,
-- then merging the second into the first summarises xs and ys together.
pub merge-Summarises :
    (fl : Float) (sn o : Snapshot) (xs ys : List Sample)
    → Summarises fl sn xs
    → Summarises fl o ys
    → length ys < 2 ^ 64
    → Summarises fl (merge sn (some o)) (xs ++ ys)
merge-Summarises fl sn o xs ys d e h =
    rw (merge-plus fl sn o xs ys d e h) (plus-Describes fl (counters sn) (counters o) xs ys d e)

abbrev pub record_each : Float → List (List Sample) → List Shard
record_each fl [] = []
record_each fl (xs ∷ xss) = record_all fl new_shard xs ∷ record_each fl xss

abbrev pub concat : List (List Sample) → List Sample
concat [] = []
concat (xs ∷ xss) = xs ++ concat xss

add_shards_from :
    (fl : Float) (sn : Snapshot) (xs : List Sample) (xss : List (List Sample))
    → Summarises fl sn xs
    → Summarises fl (add_shards sn (record_each fl xss)) (xs ++ concat xss)
unfolding add_shards
add_shards_from fl sn xs [] d = rw append-nil d
add_shards_from fl sn xs (ys ∷ xss) d = rw (sym (append_assoc xs ys (concat xss))) (
    add_shards_from fl (add_shard sn (record_all fl new_shard ys)) (xs ++ ys) xss
      (add_shard-Summarises fl sn _ xs ys d (record_all-Describes fl ys)))

-- The snapshot into which the shards of any number of goroutines are folded summarises all the
-- samples that they recorded, each in its own new shard.
pub add_shards-Summarises :
    (fl : Float) (xss : List (List Sample))
    → Summarises fl (add_shards new_snapshot (record_each fl xss)) (concat xss)
add_shards-Summarises fl xss = add_shards_from fl new_snapshot [] xss (new_snapshot-Summarises fl)
