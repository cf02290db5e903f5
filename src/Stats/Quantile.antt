-- ===== src/Stats/Quantile.antt =====
-- Percentile: the scan stops at the bucket that holds the sample of the wanted rank.
use handling_50k_requestes_p.Prelude.{
  ℕ, ◌+◌, ◌≤◌, ◌<◌, ◌^◌, ◌≡◌, refl, ◌∙◌, sym, ap, zero, suc, Bool, false, List, [], ◌∷◌, arith,
  some, ltb, leb, ◌==◌, length, count_by, count_by-le, get_or, inl, inr, Bool-cases,
}
use native.Mathlib.Decide.{dec_le}
use native.Mathlib.Numerals.{add-one}
use handling_50k_requestes_p.Prelude.Words.{u64}
use handling_50k_requestes_p.Prelude.Float.{Float}
use handling_50k_requestes_p.Stats.{
  Sample, Snapshot, num_buckets, bucket_for, total_of, find_rank, rank_of, bucket_latency,
  percentile,
}
use handling_50k_requestes_p.Stats.Observe.{bucket_for-lt}
use handling_50k_requestes_p.Stats.Samples.{Summarises, us_of, in_bucket}

-- The first n values of a sequence, added up.
sum_to : (ℕ → ℕ) → ℕ → ℕ
sum_to f zero = 0
sum_to f (suc n) = sum_to f n + f n

sum_to_shift : (f : ℕ → ℕ) (n : ℕ) → sum_to f (suc n) ≡ f 0 + sum_to (λ j. f (suc j)) n
unfolding sum_to
sum_to_shift f zero = omega arith
sum_to_shift f (suc n) = omega (arith, sum_to_shift f n)

sum_to_mono : (f : ℕ → ℕ) (m n : ℕ) → m ≤ n → sum_to f m ≤ sum_to f n
unfolding sum_to
sum_to_mono f m zero h = rw (let e : m ≡ 0 = omega arith in e) (omega arith)
sum_to_mono f m (suc n) h = elim (dec_le m n) [
  | yes le ↦ omega (arith, sum_to_mono f m n le)
  | no gt ↦ rw (let e : m ≡ suc n = omega arith in e) (omega arith)
]

abbrev nth : List ℕ → ℕ → ℕ
nth cs i = get_or cs i 0

total_of_sum :
    (acc : ℕ) (cs : List ℕ)
    → acc + sum_to (nth cs) (length cs) < 2 ^ 64
    → total_of acc cs ≡ acc + sum_to (nth cs) (length cs)
unfolding total_of
total_of_sum acc [] h = unfold sum_to in omega arith
total_of_sum acc (c ∷ cs) h =
    let shift = sum_to_shift (nth (c ∷ cs)) (length cs) in
    let e : u64 (acc + c) ≡ acc + c = omega arith in
    rw e (total_of_sum (acc + c) cs (omega arith) ∙ omega arith)

-- The scan finds the first index at which the running total reaches the rank.
find_rank_lem :
    (f : ℕ → ℕ) (rank i : ℕ) (cs : List ℕ)
    → ((j : ℕ) → nth cs j ≡ f (i + j))
    → sum_to f (i + length cs) < 2 ^ 64
    → sum_to f i < rank
    → rank ≤ sum_to f (i + length cs)
    → (k : ℕ) × (find_rank rank i (sum_to f i) cs ≡ some k)
      × (sum_to f k < rank)
      × (rank ≤ sum_to f (suc k))
unfolding find_rank
find_rank_lem f rank i [] same fits below above =
    let e : i + 0 ≡ i = omega arith in
    let above' : rank ≤ sum_to f i = rw e at above in absurd (omega arith)
find_rank_lem f rank i (c ∷ cs) same fits below above =
    let head : c ≡ f i = same 0 ∙ ap f (omega arith) in
    let next : sum_to f (i + 1) ≡ sum_to f i + c =
      ap (sum_to f) (add-one i) ∙ (unfold sum_to in omega arith) in
    let mono = sum_to_mono f (i + 1) (i + length (c ∷ cs)) (omega arith) in
    let wrap : u64 (sum_to f i + c) ≡ sum_to f (i + 1) = omega arith in
    elim (Bool-cases (leb rank (sum_to f (i + 1)))) [
      | inl hit ↦ (i, rw (wrap, find_rank) (rw hit), below, rw (← add-one i) (ground arith))
      | inr miss ↦
          let assoc : i + 1 + length cs ≡ i + length (c ∷ cs) = omega arith in
          let (k, found, lo, hi) =
            find_rank_lem f rank (i + 1) cs (λ j. same (suc j) ∙ ap f (omega arith)) (rw assoc fits)
              (ground arith) (rw assoc above) in
          (k, rw (wrap, find_rank) (rw miss found), lo, hi)
    ]

-- The samples whose bucket is below n.
abbrev pub below : Float → ℕ → Sample → Bool
below fl n x = ltb (bucket_for fl (us_of x)) n

below-zero : (fl : Float) (xs : List Sample) → count_by (below fl 0) xs ≡ 0
below-zero fl [] = refl
below-zero fl (x ∷ xs) = ground (arith, below-zero fl xs)

below-suc :
    (fl : Float) (n : ℕ) (xs : List Sample)
    → count_by (below fl (suc n)) xs ≡ count_by (below fl n) xs + count_by (in_bucket fl n) xs
below-suc fl n [] = omega arith
below-suc fl n (x ∷ xs) = ground (arith, below-suc fl n xs)

below-all : (fl : Float) (xs : List Sample) → count_by (below fl num_buckets) xs ≡ length xs
below-all fl [] = refl
below-all fl (x ∷ xs) = ground (arith, bucket_for-lt fl (us_of x), below-all fl xs)

module _ (fl : Float) (sn : Snapshot) (xs : List Sample) (d : Summarises fl sn xs)
    (few : length xs < 2 ^ 64) where
  sum_to-below : (n : ℕ) → n ≤ num_buckets → sum_to (nth sn.hist) n ≡ count_by (below fl n) xs
  unfolding sum_to
  sum_to-below zero h = sym (below-zero fl xs)
  sum_to-below (suc n) h = omega (
    arith,
    sum_to-below n (omega arith),
    below-suc fl n xs,
    d.bucket n h,
    count_by-le (in_bucket fl n) xs,
  )

  sum_to_hist : sum_to (nth sn.hist) (length sn.hist) ≡ length xs
  sum_to_hist =
      ap (sum_to (nth sn.hist)) d.width ∙ sum_to-below num_buckets (omega arith) ∙ below-all fl xs

  total_of_hist : total_of 0 sn.hist ≡ length xs
  total_of_hist = total_of_sum 0 sn.hist (omega (arith, sum_to_hist)) ∙ omega (arith, sum_to_hist)

  find_rank-below :
      (rank : ℕ)
      → 0 < rank
      → rank ≤ length xs
      → (k : ℕ) × (find_rank rank 0 0 sn.hist ≡ some k)
        × (k < num_buckets)
        × (count_by (below fl k) xs < rank)
        × (rank ≤ count_by (below fl (suc k)) xs)
  find_rank-below rank lo hi =
      let first : sum_to (nth sn.hist) 0 ≡ 0 = unfold sum_to in refl in
      let last : sum_to (nth sn.hist) (0 + length sn.hist) ≡ length xs =
        ap (sum_to (nth sn.hist)) (omega arith) ∙ sum_to_hist in
      let (k, found, less, more) =
        find_rank_lem (nth sn.hist) rank 0 sn.hist (λ j. ap (nth sn.hist) (omega arith))
          (rw last few) (rw first lo) (rw last hi) in
      let inside : k < num_buckets = in_hist rank k hi less in
      (
        k,
        rw first at found,
        inside,
        rw (sum_to-below k (omega arith)) at less,
        rw (sum_to-below (suc k) inside) at more,
      )
    where
      in_hist : (rank k : ℕ) → rank ≤ length xs → sum_to (nth sn.hist) k < rank → k < num_buckets
      in_hist rank k hi less = elim (dec_le num_buckets k) [
        | yes past ↦ absurd (
            omega (
              arith,
              sum_to_mono (nth sn.hist) num_buckets k past,
              sum_to-below num_buckets (omega arith),
              below-all fl xs,
            ))
        | no within ↦ omega arith
      ]

  percentile_empty : (q : fl.F) → length xs ≡ 0 → percentile fl sn q ≡ 0
  unfolding percentile
  percentile_empty q h = ground (arith, total_of_hist)

  rank_of-pos : (q : fl.F) (n : ℕ) → 0 < rank_of fl q n
  unfolding rank_of
  rank_of-pos q n = ground arith

  -- Of a snapshot of the samples xs, which are at least one and fewer than 2^64: if the rank that the
  -- quantile q asks for is at most the number of samples, then the percentile is the latency of the
  -- bucket k that holds the sample of that rank. Fewer samples than the rank lie in the buckets below
  -- k, and at least that many lie in the buckets up to k.
  pub percentile-rank :
      (q : fl.F)
      → 0 < length xs
      → rank_of fl q (length xs) ≤ length xs
      → (k : ℕ) × (percentile fl sn q ≡ bucket_latency fl sn.max_us k)
        × (k < num_buckets)
        × (count_by (below fl k) xs < rank_of fl q (length xs))
        × (rank_of fl q (length xs) ≤ count_by (below fl (suc k)) xs)
  unfolding percentile
  percentile-rank q some_sample h =
      let (k, found, inside, less, more) =
        find_rank-below (rank_of fl q (length xs)) (rank_of-pos q (length xs)) h in
      let nonzero : (length xs == 0) ≡ false = ground arith in
      (k, rw (total_of_hist, percentile) (rw nonzero (rw (found, percentile))), inside, less, more)
