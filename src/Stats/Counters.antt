-- ===== src/Stats/Counters.antt =====
-- What an operation of Record and a load of AddShard do to one counter.
use handling_50k_requestes_p.Prelude.{
  ℕ, zero, suc, ◌+◌, ◌^◌, ◌≤◌, ◌<◌, ◌≡◌, refl, ◌∙◌, ap, Bool, true, false, List, [], ◌∷◌, ◌++◌,
  arith, ◌==◌, if◌then◌else◌, count_by, count_by-append, length, get_or, get_or-replicate, leb, ltb,
  ◌&&◌,
}
use handling_50k_requestes_p.Prelude.Words.{u64, add_at, length-add_at}
use handling_50k_requestes_p.Stats.{Shard, Snapshot, new_snapshot, num_buckets, num_classes}
use handling_50k_requestes_p.Stats.Live.{
  Op, to_bucket, to_class, apply_op, Load, load_bucket, load_requests, load_failures, load_class,
  load_bytes, load_sum, load_max, load_min, load_kinds, apply_load, each_load, all_loads,
}

-- The counters that Record raises by one.
pub data Counter : Type 0 where
  requests failures : Counter
  bucket class : ℕ → Counter

abbrev pub value : Counter → Shard → ℕ
value requests s = s.requests
value failures s = s.failures
value (bucket i) s = get_or s.hist i 0
value (class c) s = get_or s.classes c 0

abbrev pub shown : Counter → Snapshot → ℕ
shown requests sn = sn.requests
shown failures sn = sn.failures
shown (bucket i) sn = get_or sn.hist i 0
shown (class c) sn = get_or sn.classes c 0

abbrev pub is_load : Counter → Load → Bool
is_load requests load_requests = true
is_load failures load_failures = true
is_load (bucket i) (load_bucket j) = j == i
is_load (class i) (load_class j) = j == i
is_load _ _ = false

abbrev pub Exists : Counter → Type 0
Exists (bucket i) = i < num_buckets
Exists (class c) = c < num_classes
Exists _ = Unit {0}

-- An operation raises a counter by one, or leaves it.
add_at_one :
    (i j : ℕ) (xs : List ℕ)
    → get_or xs j 0 + 1 < 2 ^ 64
    → (get_or xs j 0 ≤ get_or (add_at i 1 xs) j 0)
      × (get_or (add_at i 1 xs) j 0 ≤ get_or xs j 0 + 1)
unfolding add_at
add_at_one i j [] h = omega arith
add_at_one zero zero (x ∷ xs) h = omega (arith, h)
add_at_one zero (suc j) (x ∷ xs) h = omega arith
add_at_one (suc i) zero (x ∷ xs) h = omega arith
add_at_one (suc i) (suc j) (x ∷ xs) h = add_at_one i j xs h

pub raises :
    (c : Counter) (o : Op) (s : Shard)
    → value c s + 1 < 2 ^ 64
    → (value c s ≤ value c (apply_op o s)) × (value c (apply_op o s) ≤ value c s + 1)
unfolding apply_op
raises (bucket i) (to_bucket j) s h = add_at_one j i s.hist h
raises (class i) (to_class j) s h = add_at_one j i s.classes h
raises c o s h = ground arith

loads_at :
    (i j v : ℕ) (xs : List ℕ)
    → i < length xs
    → get_or (add_at j v xs) i 0 ≡ (if j == i then u64 (get_or xs i 0 + v) else get_or xs i 0)
unfolding add_at
loads_at i j v [] h = absurd (omega arith)
loads_at zero zero v (x ∷ xs) h = refl
loads_at zero (suc j) v (x ∷ xs) h = ground arith
loads_at (suc i) zero v (x ∷ xs) h = ground arith
loads_at (suc i) (suc j) v (x ∷ xs) h = ground (arith, loads_at i j v xs)

-- A load raises the counter that it loads, from 0 to the shard's; it leaves the others.
unfoldable pub Widths : Snapshot → Type 0
Widths sn = (length sn.hist ≡ num_buckets) × (length sn.classes ≡ num_classes)

pub loads :
    (c : Counter) (r : Load) (s : Shard) (sn : Snapshot)
    → Exists c
    → Widths sn
    → value c s < 2 ^ 64
    → shown c (apply_load r s sn)
      ≡ (if is_load c r then u64 (shown c sn + value c s) else shown c sn)
unfolding apply_load Widths
loads (bucket i) (load_bucket j) s sn e w h =
    ground (arith, loads_at i j (get_or s.hist j 0) sn.hist)
loads (class i) (load_class j) s sn e w h =
    ground (arith, loads_at i j (get_or s.classes j 0) sn.classes)
loads c r s sn e w h = ground arith

pub apply_load-Widths :
    (r : Load) (s : Shard) (sn : Snapshot) → Widths sn → Widths (apply_load r s sn)
unfolding apply_load Widths
apply_load-Widths (load_bucket j) s sn w = (length-add_at j _ sn.hist ∙ w.0, w.1)
apply_load-Widths (load_class j) s sn w = (w.0, length-add_at j _ sn.classes ∙ w.1)
apply_load-Widths r s sn w = w

count-each :
    (p : Load → Bool) (load : ℕ → Load) (k i n : ℕ)
    → ((j : ℕ) → p (load j) ≡ (j == k))
    → count_by p (each_load load i n) ≡ (if leb i k && ltb k (i + n) then 1 else 0)
unfolding each_load
count-each p load k i zero h = ground arith
count-each p load k i (suc n) h = ground (arith, h i, count-each p load k (i + 1) n h)

count-none :
    (p : Load → Bool) (load : ℕ → Load) (i n : ℕ)
    → ((j : ℕ) → p (load j) ≡ false)
    → count_by p (each_load load i n) ≡ 0
unfolding each_load
count-none p load i zero h = refl
count-none p load i (suc n) h = ground (arith, h i, count-none p load (i + 1) n h)

count-all_loads :
    (p : Load → Bool)
    → count_by p all_loads
      ≡ count_by p (each_load load_bucket 0 num_buckets)
        + (count_by p
              (load_requests ∷ load_failures ∷ load_bytes ∷ load_sum ∷ load_max ∷ load_min ∷ [])
            + (count_by p (each_load load_class 0 num_classes) + count_by p (load_kinds ∷ [])))
unfolding all_loads each_load
count-all_loads p =
    let scalars : List Load =
      load_requests ∷ load_failures ∷ load_bytes ∷ load_sum ∷ load_max ∷ load_min ∷ [] in
    let classes : List Load = each_load load_class 0 num_classes in
    count_by-append p (each_load load_bucket 0 num_buckets)
      (scalars ++ (classes ++ (load_kinds ∷ [])))
    ∙ ap (λ (n : ℕ). count_by p (each_load load_bucket 0 num_buckets) + n)
        (count_by-append p scalars (classes ++ (load_kinds ∷ []))
          ∙ ap (λ (n : ℕ). count_by p scalars + n) (count_by-append p classes (load_kinds ∷ [])))

-- AddShard loads each counter once.
pub loads_once : (c : Counter) → Exists c → count_by (is_load c) all_loads ≡ 1
loads_once requests e = omega (
  arith,
  count-all_loads (is_load requests),
  count-none (is_load requests) load_bucket 0 num_buckets (λ j. refl),
  count-none (is_load requests) load_class 0 num_classes (λ j. refl),
)
loads_once failures e = omega (
  arith,
  count-all_loads (is_load failures),
  count-none (is_load failures) load_bucket 0 num_buckets (λ j. refl),
  count-none (is_load failures) load_class 0 num_classes (λ j. refl),
)
loads_once (bucket i) e = ground (
  arith,
  count-all_loads (is_load (bucket i)),
  count-each (is_load (bucket i)) load_bucket i 0 num_buckets (λ j. refl),
  count-none (is_load (bucket i)) load_class 0 num_classes (λ j. refl),
)
loads_once (class i) e = ground (
  arith,
  count-all_loads (is_load (class i)),
  count-none (is_load (class i)) load_bucket 0 num_buckets (λ j. refl),
  count-each (is_load (class i)) load_class i 0 num_classes (λ j. refl),
)

pub new_snapshot_zero : (c : Counter) → shown c new_snapshot ≡ 0
unfolding new_snapshot
new_snapshot_zero requests = refl
new_snapshot_zero failures = refl
new_snapshot_zero (bucket i) = get_or-replicate num_buckets i 0
new_snapshot_zero (class i) = get_or-replicate num_classes i 0
