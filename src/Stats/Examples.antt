-- ===== src/Stats/Examples.antt =====
-- Tests of the histogram, and the properties at concrete samples.
use handling_50k_requestes_p.Prelude.{
  ℕ, ◌+◌, ◌*◌, ◌/◌, ◌^◌, ◌≤◌, ◌<◌, ◌≡◌, refl, List, [], ◌∷◌, ◌++◌, arith, some, ltb, length, pos,
  count_by, ◌-ℤ◌, suc, ◌-◌,
}
use handling_50k_requestes_p.Prelude.Float.{Float}
use handling_50k_requestes_p.Stats.{
  Sample, Snapshot, num_buckets, new_shard, record_all, record_sample, new_snapshot, add_shard,
  add_shards, merge, sub, percentile, bucket_latency, is_error_status, rank_of,
}
use handling_50k_requestes_p.Prelude.{String, Bool, ◌&&◌, ◌==◌, if◌then◌else◌}
use handling_50k_requestes_p.Prelude.Counts.{Counts, count_of, has_key, Distinct}
use handling_50k_requestes_p.Stats.Kinds.{
  SortSlice, before, IsSorted, err_kinds_sorted, shown_kinds, same_entry, err_kinds_sorted_same,
}
use text.Mathlib.TextEquality.{eq_iff}
use handling_50k_requestes_p.Stats.Samples.{Describes, Summarises}
use handling_50k_requestes_p.Stats.Observe.{record_all-Describes}
use handling_50k_requestes_p.Stats.Combine.{
  record_each, concat, new_snapshot-Summarises, add_shard-Summarises, merge-Summarises,
  add_shards-Summarises,
}
use handling_50k_requestes_p.Stats.Delta.{TalliesOf, sub-TalliesOf}
use handling_50k_requestes_p.Stats.Quantile.{percentile-rank, below}

-- A fixed-point stand-in for float64, in thousandths.
abbrev pub fixed : Float
fixed = record {
  F = ℕ;
  of_ℕ = λ n. n * 1000;
  lit = λ n k. n * 1000 / 10 ^ k;
  add = λ a b. a + b;
  sub = λ a b. a - b;
  mul = λ a b. a * b / 1000;
  div = λ a b. a * 1000 / b;
  flt = ltb;
  ceil = λ a. (a + 999) / 1000 * 1000;
  sqrt = λ a. a;
  log = λ a. a;
  pow = λ a b. a + b;
  to_ℕ = λ a. a / 1000;
}

abbrev pub quick : Sample
quick = record { latency = pos 1500; status = pos 200; size = pos 10; err_kind = "" }

abbrev pub slow : Sample
slow = record { latency = pos 9000; status = pos 503; size = pos 0; err_kind = "" }

abbrev pub lost : Sample
lost = record { latency = pos 4000; status = pos 0; size = pos 0; err_kind = "timeout" }

abbrev pub first_run : List Sample
first_run = quick ∷ slow ∷ []

abbrev pub second_run : List Sample
second_run = lost ∷ quick ∷ []

abbrev pub snapshot_of : List Sample → Snapshot
snapshot_of xs = add_shard new_snapshot (record_all fixed new_shard xs)

pub snapshot_of-Summarises : (xs : List Sample) → Summarises fixed (snapshot_of xs) xs
snapshot_of-Summarises xs =
    add_shard-Summarises fixed new_snapshot (record_all fixed new_shard xs) [] xs
      (new_snapshot-Summarises fixed) (record_all-Describes fixed xs)

first_run_failures : (record_all fixed new_shard first_run).failures ≡ 1
unfolding record_all record_sample new_shard is_error_status
first_run_failures = refl

record_all-Describes_example : Describes fixed (record_all fixed new_shard first_run) first_run
record_all-Describes_example = record_all-Describes fixed first_run

add_shards-Summarises_example :
    Summarises fixed
      (add_shards new_snapshot (record_each fixed (first_run ∷ second_run ∷ [])))
      (concat (first_run ∷ second_run ∷ []))
add_shards-Summarises_example = add_shards-Summarises fixed (first_run ∷ second_run ∷ [])

merge-Summarises_example :
    Summarises fixed
      (merge (snapshot_of first_run) (some (snapshot_of second_run)))
      (first_run ++ second_run)
merge-Summarises_example =
    merge-Summarises fixed (snapshot_of first_run) (snapshot_of second_run) first_run second_run
      (snapshot_of-Summarises first_run) (snapshot_of-Summarises second_run) (omega arith)

sub-TalliesOf_example :
    (d : Snapshot) × (sub (snapshot_of (first_run ++ second_run)) (some (snapshot_of first_run))
      ≡ some d)
    × TalliesOf fixed d second_run
    × (d.max_us ≡ (snapshot_of (first_run ++ second_run)).max_us)
    × (d.min_us ≡ (snapshot_of (first_run ++ second_run)).min_us)
    × (d.elapsed
        ≡ (snapshot_of (first_run ++ second_run)).elapsed -ℤ (snapshot_of first_run).elapsed)
sub-TalliesOf_example =
    sub-TalliesOf fixed (snapshot_of (first_run ++ second_run)) (snapshot_of first_run) first_run
      second_run (snapshot_of-Summarises (first_run ++ second_run))
      (snapshot_of-Summarises first_run) (omega arith)

percentile-rank_example :
    (k : ℕ) × (percentile fixed (snapshot_of first_run) 500
      ≡ bucket_latency fixed (snapshot_of first_run).max_us k)
    × (k < num_buckets)
    × (count_by (below fixed k) first_run < rank_of fixed 500 (length first_run))
    × (rank_of fixed 500 (length first_run) ≤ count_by (below fixed (suc k)) first_run)
unfolding rank_of
percentile-rank_example =
    percentile-rank fixed (snapshot_of first_run) first_run (snapshot_of-Summarises first_run)
      (omega arith) 500 (omega arith) (omega arith)

-- Insertion, for sort.Slice.
put_in : (String × ℕ → String × ℕ → Bool) → String × ℕ → Counts → Counts
put_in less e [] = e ∷ []
put_in less e (f ∷ fs) = if less f e then f ∷ put_in less e fs else e ∷ f ∷ fs

insertion : SortSlice
insertion less [] = []
insertion less (e ∷ es) = put_in less e (insertion less es)

abbrev failing : Snapshot
failing = record new_snapshot { err_kinds = ("timeout", 2) ∷ ("eof", 5) ∷ ("refused", 2) ∷ [] }

abbrev failing_too : Snapshot
failing_too = record new_snapshot { err_kinds = ("refused", 2) ∷ ("timeout", 2) ∷ ("eof", 5) ∷ [] }

failing-IsSorted : IsSorted before failing.err_kinds (err_kinds_sorted insertion failing)
unfolding insertion put_in err_kinds_sorted
failing-IsSorted = record {
  kept = λ e. ground arith;
  ordered = ((refl, (refl, tt)), ((refl, tt), (tt, tt)));
}

failing_too-IsSorted :
    IsSorted before failing_too.err_kinds (err_kinds_sorted insertion failing_too)
unfolding insertion put_in err_kinds_sorted
failing_too-IsSorted = record {
  kept = λ e. ground arith;
  ordered = ((refl, (refl, tt)), ((refl, tt), (tt, tt)));
}

failing-Distinct : Distinct failing.err_kinds × Distinct failing_too.err_kinds
unfolding has_key
failing-Distinct = ((refl, (refl, (refl, tt))), (refl, (refl, (refl, tt))))

same_kinds :
    (k : String)
    → (has_key k failing.err_kinds ≡ has_key k failing_too.err_kinds)
      × (count_of k failing.err_kinds ≡ count_of k failing_too.err_kinds)
unfolding has_key count_of
same_kinds k = ground (
  arith,
  eq_iff "timeout" k,
  eq_iff "eof" k,
  eq_iff "refused" k,
  eq_iff "timeout" "eof",
  eq_iff "eof" "refused",
  eq_iff "timeout" "refused",
)

err_kinds_sorted_same_example :
    (err_kinds_sorted insertion failing ≡ err_kinds_sorted insertion failing_too)
    × (shown_kinds insertion failing ≡ shown_kinds insertion failing_too)
    × ((e : String × ℕ)
        → count_by (same_entry e) (err_kinds_sorted insertion failing) ≡ (
            if has_key e.0 failing.err_kinds && count_of e.0 failing.err_kinds == e.1
            then 1
            else 0))
err_kinds_sorted_same_example =
    err_kinds_sorted_same insertion failing failing_too failing-IsSorted failing_too-IsSorted
      failing-Distinct.0 failing-Distinct.1 (λ k. (same_kinds k).0) (λ k. (same_kinds k).1)
