-- ===== src/Cache/Counting.antt =====
-- The counters in Redis: what IncrBy adds is what GetInt reads.
use text.Mathlib.Text.{◌==◌ as str_eq}
use handling_50k_requestes_p.Prelude.{
  ℕ, ◌+◌, ◌≡◌, ap, ◌∙◌, String, false, [], ◌∷◌, pos, arith, if◌then◌else◌,
}
use handling_50k_requestes_p.Prelude.Counts.{Counts}
use handling_50k_requestes_p.Cache.{Redis, get_int, incr_all}

-- What all entries of a key add to it.
abbrev pub total_for : String → Counts → ℕ
total_for key [] = 0
total_for key ((k, n) ∷ counts) = (if str_eq k key then n else 0) + total_for key counts

-- INCRBY as Redis documents it: where it succeeds, the counter is higher by the number, from 0 if the
-- key was absent, and every other counter is as it was.
pub record Increments (r : Redis) : Type 0 where
  pub adds :
      (s : r.State) (k key : String) (v n : ℕ)
      → (r.incr_by s k v).1 ≡ false
      → get_int r s key ≡ (pos n, false)
      → get_int r (r.incr_by s k v).0 key ≡ (pos (n + (if str_eq k key then v else 0)), false)

module _ (r : Redis) (laws : Increments r) where
  -- If the pipeline reports no error, a counter that read n reads n plus all that was added to its key.
  pub incr_all-get_int :
      (counts : Counts) (s : r.State) (key : String) (n : ℕ)
      → (incr_all r s counts).1 ≡ false
      → get_int r s key ≡ (pos n, false)
      → get_int r (incr_all r s counts).0 key ≡ (pos (n + total_for key counts), false)
  unfolding incr_all
  incr_all-get_int [] s key n good reads = reads ∙ ap (λ m. (pos m, false)) (omega arith)
  incr_all-get_int ((k, v) ∷ counts) s key n good reads =
      incr_all-get_int counts (r.incr_by s k v).0 key (n + (if str_eq k key then v else 0))
        (ground arith) (laws.adds s k key v n (ground arith) reads)
      ∙ ap (λ m. (pos m, false)) (omega arith)
