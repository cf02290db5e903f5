-- ===== src/Engine/Clock.antt =====
-- The times of a run of the engine: its elapsed time, and when its goroutines start in a ramp.
use handling_50k_requestes_p.Prelude.{
  List, ℕ, ◌-◌, ◌*◌, ◌/◌, ◌^◌, ◌≤◌, ◌<◌, ◌≡◌, Bool, false, not, ◌&&◌, ℤ, pos, pos_part, ltb_ℤ, ◌-ℤ◌,
  ◌==◌, if◌then◌else◌, arith,
}
use handling_50k_requestes_p.Prelude.Duration.{quotient}
use handling_50k_requestes_p.Prelude.Words.{u64}
use handling_50k_requestes_p.Stats.{Shard, Snapshot, add_shards, new_snapshot}
use handling_50k_requestes_p.Report.{signed_64}
use handling_50k_requestes_p.Engine.Connections.{mul_split}

-- Engine.Elapsed: the time since the start, or between the start and the end; 0 is a time not set.
unfoldable pub elapsed : ℕ → ℕ → ℕ → ℤ
elapsed start end now =
    if start == 0
    then pos 0
    else if not (end == 0)
    then pos end -ℤ pos start
    else pos now -ℤ pos start

-- Engine.Snapshot with its elapsed time.
abbrev pub engine_snapshot : ℕ → ℕ → ℕ → List Shard → Snapshot
engine_snapshot start end now shards = record (add_shards new_snapshot shards) {
  elapsed = elapsed start end now;
}

-- The delay of goroutine `i` of `n` in Engine.Run; `paced` says that there are tokens. The product of
-- the int64s wraps.
unfoldable pub start_delay : Bool → ℤ → ℕ → ℕ → ℤ
start_delay paced ramp i n =
    if not paced && ltb_ℤ (pos 0) ramp
    then quotient (signed_64 (u64 (pos_part ramp * i))) n
    else pos 0

product_below : (r i n : ℕ) → i < n → r * i ≤ r * n
product_below r i n h = let e = mul_split r i (n - i) n (omega arith) in omega (arith, e)

-- The goroutines start in the order of their numbers and within the ramp, where its product with their
-- number is below 2^63.
start_delay_spread :
    (r i n : ℕ)
    → 0 < r
    → i < n
    → r * n < 2 ^ 63
    → (start_delay false (pos r) i n ≡ pos (r * i / n)) × (r * i / n ≤ r)
unfolding start_delay
start_delay_spread r i n ramped h small =
    let b = product_below r i n h in (ground (arith, b), grind (arith, b))
