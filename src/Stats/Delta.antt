-- ===== src/Stats/Delta.antt =====
-- Sub: the difference of two cumulative snapshots tallies what was recorded between them.
use text.Mathlib.TextEquality.{eq_iff}
use handling_50k_requestes_p.Prelude.{
  ℕ, ◌+◌, ◌<◌, ◌^◌, ◌≡◌, refl, ◌∙◌, zero, suc, String, true, false, List, [], ◌∷◌, ◌++◌, arith,
  some, length, length-append, count_by, count_by-append, count_by-le, get_or, inl, inr, Bool-cases,
  ◌-ℤ◌,
}
use handling_50k_requestes_p.Prelude.Words.{u64, sub64}
use handling_50k_requestes_p.Prelude.Counts.{
  Counts, count_of, Distinct, has_key, count_of_absent, count_of-cons, has_key-cons, has_key_empty,
}
use handling_50k_requestes_p.Prelude.Float.{Float}
use handling_50k_requestes_p.Stats.{
  Sample, Snapshot, num_buckets, num_classes, sub, sub_list, sub_counts, pad_hist,
}
use handling_50k_requestes_p.Stats.Samples.{
  Describes, Summarises, counters, fails, in_class, in_bucket, has_kind, max_by, min_by,
  sum_by-append, us_of, size_of,
}
use handling_50k_requestes_p.Stats.Combine.{pad_hist_full}

length-sub_list : (xs ys : List ℕ) → length (sub_list xs ys) ≡ length xs
unfolding sub_list
length-sub_list [] ys = refl
length-sub_list (x ∷ xs) [] = refl
length-sub_list (x ∷ xs) (y ∷ ys) = omega (arith, length-sub_list xs ys)

get_or-sub_list :
    (i : ℕ) (xs ys : List ℕ)
    → i < length xs
    → i < length ys
    → get_or (sub_list xs ys) i 0 ≡ sub64 (get_or xs i 0) (get_or ys i 0)
unfolding sub_list
get_or-sub_list i [] ys a b = absurd (omega arith)
get_or-sub_list i (x ∷ xs) [] a b = absurd (omega arith)
get_or-sub_list zero (x ∷ xs) (y ∷ ys) a b = refl
get_or-sub_list (suc i) (x ∷ xs) (y ∷ ys) a b = get_or-sub_list i xs ys (omega arith) (omega arith)

has_key-sub_counts :
    (k : String) (m p : Counts) → has_key k m ≡ false → has_key k (sub_counts m p) ≡ false
unfolding sub_counts
has_key-sub_counts k [] p h = h
has_key-sub_counts k ((j, v) ∷ m) p h = ground (
  arith,
  has_key-cons k j v m,
  has_key-cons k j (sub64 v (count_of j p)) (sub_counts m p),
  has_key-sub_counts k m p,
)

sub_counts-Distinct : (m p : Counts) → Distinct m → Distinct (sub_counts m p)
unfolding sub_counts
sub_counts-Distinct [] p d = tt
sub_counts-Distinct ((k, v) ∷ m) p d =
    ground (arith, has_key-sub_counts k m p d.0, sub_counts-Distinct m p d.1)

count_of-sub_counts :
    (k : String) (m p : Counts)
    → Distinct m
    → has_key k m ≡ true
    → count_of k (sub_counts m p) ≡ sub64 (count_of k m) (count_of k p)
unfolding sub_counts
count_of-sub_counts k [] p d h = cc (has_key_empty k)
count_of-sub_counts k ((j, v) ∷ m) p d h = ground (
  arith,
  eq_iff j k,
  has_key-cons k j v m,
  count_of-cons k j v m,
  count_of-cons k j (sub64 v (count_of j p)) (sub_counts m p),
  count_of_absent j (sub_counts m p) (has_key-sub_counts j m p d.0),
  count_of-sub_counts k m p d.1,
)

-- A key that the newer map lacks was never counted, so the older map lacks it too.
kind_delta :
    (k : String) (m p : Counts) (a b : ℕ)
    → Distinct m
    → a + b < 2 ^ 64
    → count_of k m ≡ u64 (a + b)
    → count_of k p ≡ u64 a
    → count_of k (sub_counts m p) ≡ u64 b
kind_delta k m p a b d h e f = elim (Bool-cases (has_key k m)) [
  | inl there ↦ omega (arith, count_of-sub_counts k m p d there)
  | inr gone ↦ omega (
    arith,
    count_of_absent k m gone,
    count_of_absent k (sub_counts m p) (has_key-sub_counts k m p gone),
  )
]

-- The tallies of a snapshot, with the range of the given samples in place of its own.
abbrev pub TalliesOf : Float → Snapshot → List Sample → Type 0
TalliesOf fl d ys =
    Describes fl (record (counters d) { max_us = max_by us_of ys; min_us = min_by us_of ys }) ys

abbrev delta : Snapshot → Snapshot → Snapshot
delta sn prev = record {
  hist = pad_hist (sub_list sn.hist prev.hist);
  requests = sub64 sn.requests prev.requests;
  failures = sub64 sn.failures prev.failures;
  bytes = sub64 sn.bytes prev.bytes;
  sum_us = sub64 sn.sum_us prev.sum_us;
  max_us = sn.max_us;
  min_us = sn.min_us;
  classes = sub_list sn.classes prev.classes;
  err_kinds = sub_counts sn.err_kinds prev.err_kinds;
  elapsed = sn.elapsed -ℤ prev.elapsed;
}

module _ (fl : Float) (sn prev : Snapshot) (xs ys : List Sample) (d : Summarises fl sn (xs ++ ys))
    (e : Summarises fl prev xs) (few : length xs + length ys < 2 ^ 64) where
  delta_hist : pad_hist (sub_list sn.hist prev.hist) ≡ sub_list sn.hist prev.hist
  delta_hist = pad_hist_full _ (length-sub_list sn.hist prev.hist ∙ d.width)

  delta_bucket :
      (i : ℕ)
      → i < num_buckets
      → get_or (sub_list sn.hist prev.hist) i 0 ≡ u64 (count_by (in_bucket fl i) ys)
  delta_bucket i h = omega (
    arith,
    d.width,
    e.width,
    get_or-sub_list i sn.hist prev.hist,
    d.bucket i h,
    e.bucket i h,
    count_by-append (in_bucket fl i) xs ys,
  )

  delta_class :
      (c : ℕ)
      → c < num_classes
      → get_or (sub_list sn.classes prev.classes) c 0 ≡ u64 (count_by (in_class c) ys)
  delta_class c h = omega (
    arith,
    d.class_width,
    e.class_width,
    get_or-sub_list c sn.classes prev.classes,
    d.class_count c h,
    e.class_count c h,
    count_by-append (in_class c) xs ys,
  )

  delta_kind :
      (k : String)
      → count_of k (sub_counts sn.err_kinds prev.err_kinds) ≡ u64 (count_by (has_kind k) ys)
  delta_kind k =
      let split = count_by-append (has_kind k) xs ys in
      let few_x = count_by-le (has_kind k) xs in
      let few_y = count_by-le (has_kind k) ys in
      kind_delta k sn.err_kinds prev.err_kinds (count_by (has_kind k) xs) (count_by (has_kind k) ys)
        d.keys (omega arith) (omega (arith, d.kind_count k)) (e.kind_count k)

  delta-TalliesOf : TalliesOf fl (delta sn prev) ys
  delta-TalliesOf = record {
    width = rw delta_hist (length-sub_list sn.hist prev.hist ∙ d.width);
    bucket = rw delta_hist delta_bucket;
    requests_count = omega (arith, d.requests_count, e.requests_count, length-append xs ys);
    failures_count = omega (arith, d.failures_count, e.failures_count, count_by-append fails xs ys);
    bytes_sum = omega (arith, d.bytes_sum, e.bytes_sum, sum_by-append size_of xs ys);
    us_sum = omega (arith, d.us_sum, e.us_sum, sum_by-append us_of xs ys);
    us_max = refl;
    us_min = refl;
    class_width = length-sub_list sn.classes prev.classes ∙ d.class_width;
    class_count = delta_class;
    keys = sub_counts-Distinct sn.err_kinds prev.err_kinds d.keys;
    kind_count = delta_kind;
  }

  -- If `sn` summarises the samples xs and then ys, and `prev` those of xs alone, and together they
  -- are fewer than 2^64, then Sub does not panic, and every tally of the difference (histogram,
  -- requests, failures, bytes, sum, classes, error kinds) is that of ys; the maximum and the minimum
  -- are still those of `sn`, and the elapsed time is the difference.
  pub sub-TalliesOf :
      (d : Snapshot) × (sub sn (some prev) ≡ some d)
      × TalliesOf fl d ys
      × (d.max_us ≡ sn.max_us)
      × (d.min_us ≡ sn.min_us)
      × (d.elapsed ≡ sn.elapsed -ℤ prev.elapsed)
  unfolding sub
  sub-TalliesOf = (delta sn prev, ground (arith, d.width), delta-TalliesOf, refl, refl, refl)
