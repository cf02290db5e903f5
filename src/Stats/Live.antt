-- ===== src/Stats/Live.antt =====
-- histogram.go: AddShard of a reporter while the shard's goroutine is in Record.
--
-- An atomic operation of Record is one step, and so is a load of AddShard; the loads of the buckets
-- and classes are steps of their own. The shard has one writer, so a compare-and-swap loop is a step.
-- A schedule says who goes next: true for the goroutine that records, false for the reporter.
use handling_50k_requestes_p.Prelude.{
  ℕ, zero, suc, ◌+◌, String, Bool, true, false, not, List, [], ◌∷◌, ◌++◌, ℤ, pos, negsuc, ltb, leb,
  if◌then◌else◌, get_or,
}
use text.Mathlib.Text.{◌==◌ as str_eq}
use handling_50k_requestes_p.Prelude.Words.{u64, add_at}
use handling_50k_requestes_p.Prelude.Counts.{bump, add_counts}
use handling_50k_requestes_p.Prelude.Float.{Float}
use handling_50k_requestes_p.Stats.{
  Shard, Sample, Snapshot, new_snapshot, num_buckets, num_classes, class_other, bucket_for, micros,
  size_added, class_of, is_error_status, max64, min64,
}

-- What Record does to the shard, one atomic operation at a time.
pub data Op : Type 0 where
  to_bucket : (i : ℕ) → Op
  to_requests : Op
  to_sum : (us : ℕ) → Op
  to_bytes : (n : ℕ) → Op
  to_max : (us : ℕ) → Op
  to_min : (us : ℕ) → Op
  to_failures : Op
  to_class : (c : ℕ) → Op
  to_kind : (kind : String) → Op

unfoldable pub apply_op : Op → Shard → Shard
apply_op (to_bucket i) s = record s { hist = add_at i 1 s.hist }
apply_op to_requests s = record s { requests = u64 (s.requests + 1) }
apply_op (to_sum us) s = record s { sum_us = u64 (s.sum_us + us) }
apply_op (to_bytes n) s = record s { bytes = u64 (s.bytes + n) }
apply_op (to_max us) s = record s { max_us = if leb us s.max_us then s.max_us else us }
apply_op (to_min us) s = record s { min_us = if leb s.min_us us then s.min_us else us }
apply_op to_failures s = record s { failures = u64 (s.failures + 1) }
apply_op (to_class c) s = record s { classes = add_at c 1 s.classes }
apply_op (to_kind kind) s = record s { err_kinds = bump kind 1 s.err_kinds }

abbrev pub is_positive : ℤ → Bool
is_positive (pos n) = ltb 0 n
is_positive (negsuc n) = false

-- The operations after the bounds.
unfoldable pub outcome_ops : ℤ → String → List Op
outcome_ops status kind =
    if not (str_eq kind "")
    then to_failures ∷ to_class class_other ∷ to_kind kind ∷ []
    else to_class (class_of status) ∷ (if is_error_status status then to_failures ∷ [] else [])

-- Record, as its operations in program order.
unfoldable pub ops_of : Float → Sample → List Op
ops_of fl x =
    let us = micros x.latency in
    to_bucket (bucket_for fl us)
    ∷ to_requests
    ∷ to_sum us
    ∷ ((if is_positive x.size then to_bytes (size_added x.size) ∷ [] else [])
        ++ (to_max us ∷ to_min us ∷ outcome_ops x.status x.err_kind))

unfoldable pub apply_ops : List Op → Shard → Shard
apply_ops [] s = s
apply_ops (o ∷ os) s = apply_ops os (apply_op o s)

-- The goroutine records one sample after the other.
unfoldable pub all_ops : Float → List Sample → List Op
all_ops fl [] = []
all_ops fl (x ∷ xs) = ops_of fl x ++ all_ops fl xs

-- What AddShard does, one load at a time.
pub data Load : Type 0 where
  load_bucket : (i : ℕ) → Load
  load_requests load_failures load_bytes load_sum load_max load_min : Load
  load_class : (c : ℕ) → Load
  load_kinds : Load

unfoldable pub apply_load : Load → Shard → Snapshot → Snapshot
apply_load (load_bucket i) s sn = record sn { hist = add_at i (get_or s.hist i 0) sn.hist }
apply_load load_requests s sn = record sn { requests = u64 (sn.requests + s.requests) }
apply_load load_failures s sn = record sn { failures = u64 (sn.failures + s.failures) }
apply_load load_bytes s sn = record sn { bytes = u64 (sn.bytes + s.bytes) }
apply_load load_sum s sn = record sn { sum_us = u64 (sn.sum_us + s.sum_us) }
apply_load load_max s sn = record sn { max_us = max64 sn.max_us s.max_us }
apply_load load_min s sn = record sn { min_us = min64 sn.min_us s.min_us }
apply_load (load_class c) s sn = record sn { classes = add_at c (get_or s.classes c 0) sn.classes }
apply_load load_kinds s sn = record sn { err_kinds = add_counts sn.err_kinds s.err_kinds }

-- The loads of the members from `i` on, `n` of them.
unfoldable pub each_load : (ℕ → Load) → ℕ → ℕ → List Load
each_load load i zero = []
each_load load i (suc n) = load i ∷ each_load load (i + 1) n

-- AddShard, as its loads in program order.
unfoldable pub all_loads : List Load
all_loads =
    each_load load_bucket 0 num_buckets
    ++ (load_requests ∷ load_failures ∷ load_bytes ∷ load_sum ∷ load_max ∷ load_min ∷ [])
    ++ each_load load_class 0 num_classes
    ++ (load_kinds ∷ [])

-- The shard with what is still to be recorded, and the snapshot with what is still to be loaded.
pub record Live : Type 0 where
  pub ops : List Op
  pub shard : Shard
  pub loads : List Load
  pub snap : Snapshot

unfoldable pub write_next : List Op → Live → Live
write_next [] l = l
write_next (o ∷ os) l = record l { ops = os; shard = apply_op o l.shard }

unfoldable pub load_next : List Load → Live → Live
load_next [] l = l
load_next (r ∷ rs) l = record l { loads = rs; snap = apply_load r l.shard l.snap }

unfoldable pub turn : Bool → Live → Live
turn true l = write_next l.ops l
turn false l = load_next l.loads l

unfoldable pub turns : List Bool → Live → Live
turns [] l = l
turns (b ∷ bs) l = turns bs (turn b l)

-- A reporter begins AddShard on a new snapshot, while the goroutine is to record `xs`.
unfoldable pub reporting : List Op → Shard → Live
reporting ops s = record { ops = ops; shard = s; loads = all_loads; snap = new_snapshot }
