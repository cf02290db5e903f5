-- ===== src/Dashboard/Rows.antt =====
-- The rows of the latency distribution: nothing of the histogram is left out.
use handling_50k_requestes_p.Prelude.{
  ℕ, zero, suc, ◌+◌, ◌^◌, ◌≤◌, ◌<◌, ◌≡◌, refl, ◌∙◌, false, List, [], ◌∷◌, some, arith, leb, ◌==◌,
  length, Bool-cases, inl, inr,
}
use handling_50k_requestes_p.Prelude.Float.{Float}
use handling_50k_requestes_p.Prelude.Words.{u64, add_at, length-add_at}
use handling_50k_requestes_p.Stats.{Snapshot, total_of}
use handling_50k_requestes_p.Dashboard.{
  edges, row_of, count_row, distribute, bucket_nanos, distribution, no_counts,
}

-- Every bucket of the histogram, from `i` on, that counted anything has a latency of at most 2^62 ns.
abbrev pub Within : (ℕ → ℕ) → ℕ → List ℕ → Type 0
Within upper i [] = Unit {0}
Within upper i (c ∷ cs) = (0 < c → upper i ≤ 4611686018427387904) × Within upper (i + 1) cs

abbrev pub sum_of : List ℕ → ℕ
sum_of [] = 0
sum_of (c ∷ cs) = c + sum_of cs

sum_of-add_at :
    (i v : ℕ) (xs : List ℕ) → i < length xs → u64 (sum_of (add_at i v xs)) ≡ u64 (sum_of xs + v)
unfolding add_at
sum_of-add_at i v [] h = absurd (omega arith)
sum_of-add_at zero v (x ∷ xs) h = omega arith
sum_of-add_at (suc i) v (x ∷ xs) h =
    let rest = sum_of-add_at i v xs (omega arith) in omega (arith, rest)

abbrev last_edge : List ℕ → ℕ
last_edge [] = 0
last_edge (e ∷ []) = e
last_edge (e ∷ f ∷ es) = last_edge (f ∷ es)

-- A latency that is not above the last edge has a row.
row_of-defined :
    (j e upper : ℕ) (es : List ℕ)
    → upper ≤ last_edge (e ∷ es)
    → (k : ℕ) × (row_of j (e ∷ es) upper ≡ some k) × (k < j + suc (length es))
unfolding row_of
row_of-defined j e upper [] h = (j, ground arith, omega arith)
row_of-defined j e upper (f ∷ es) h = elim (Bool-cases (leb upper e)) [
  | inl below ↦ (j, rw below refl, omega arith)
  | inr above ↦
      let (k, row, inside) = row_of-defined (j + 1) f upper es h in
      (k, rw above row, omega (arith, inside))
]

row_found :
    (upper : ℕ) → upper ≤ 4611686018427387904 → (k : ℕ) × (row_of 0 edges upper ≡ some k) × (k < 8)
row_found upper h = row_of-defined 0 1000000 upper _ h

-- The rows of the loop and its total, from any state of it whose rows add up to its total.
distribute_adds_up :
    (upper : ℕ → ℕ) (i : ℕ) (cs counts : List ℕ) (total : ℕ)
    → Within upper i cs
    → length counts ≡ 8
    → total < 2 ^ 64
    → u64 (sum_of counts) ≡ total
    → ((distribute upper i cs (counts, total)).1 ≡ total_of total cs)
      × (length (distribute upper i cs (counts, total)).0 ≡ 8)
      × (u64 (sum_of (distribute upper i cs (counts, total)).0) ≡ total_of total cs)
unfolding distribute total_of
distribute_adds_up upper i [] counts total w eight small adds = (refl, eight, adds)
distribute_adds_up upper i (zero ∷ cs) counts total (w, ws) eight small adds =
    let same : u64 (total + 0) ≡ total = omega arith in
    rw same (distribute_adds_up upper (i + 1) cs counts total ws eight small adds)
distribute_adds_up upper i (suc c ∷ cs) counts total (w, ws) eight small adds =
    let (j, row, inside) = row_found (upper i) (w (omega arith)) in
    let added = sum_of-add_at j (suc c) counts (omega arith) in
    let counted : suc c == 0 ≡ false = ground arith in
    rw (row, count_row, counted)
      (distribute_adds_up upper (i + 1) cs (add_at j (suc c) counts) (u64 (total + suc c)) ws
        (length-add_at j (suc c) counts ∙ eight) (omega arith) (omega (arith, added)))

-- If no bucket that counted anything has a latency above 2^62 ns, then each is counted in one of the
-- eight rows: the rows add up, modulo 2^64, to the total that the percentiles of the snapshot use, which
-- is also the total that the shares of the rows are taken of.
pub distribution_complete :
    (fl : Float) (sn : Snapshot)
    → Within (bucket_nanos fl) 0 sn.hist
    → ((distribution fl sn).1 ≡ total_of 0 sn.hist)
      × (length (distribution fl sn).0 ≡ 8)
      × (u64 (sum_of (distribution fl sn).0) ≡ total_of 0 sn.hist)
unfolding distribution
distribution_complete fl sn w =
    distribute_adds_up (bucket_nanos fl) 0 sn.hist (no_counts edges) 0 w refl (omega arith) refl
