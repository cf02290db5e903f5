-- ===== src/Stats/Torn.antt =====
-- What a snapshot taken while a goroutine records may show.
use handling_50k_requestes_p.Prelude.{
  ℕ, suc, ◌+◌, ◌^◌, ◌≤◌, ◌<◌, ◌≡◌, refl, ap, Bool, true, false, List, [], ◌∷◌, arith, count_by,
  length, length-replicate,
}
use handling_50k_requestes_p.Stats.{Shard, new_snapshot, num_buckets, num_classes}
use handling_50k_requestes_p.Stats.Live.{
  Op, Load, Live, write_next, load_next, turn, turns, reporting,
}
use handling_50k_requestes_p.Stats.Counters.{
  Counter, value, shown, is_load, Exists, Widths, raises, loads, apply_load-Widths, loads_once,
  new_snapshot_zero,
}

-- For one counter, `base` at the beginning and with `total` operations to come: what is loaded lies
-- between the value at the beginning and the value now; it is 0 until then.
record Between (c : Counter) (base total : ℕ) (l : Live) : Type 0 where
  widths : Widths l.snap
  low : base ≤ value c l.shard
  high : value c l.shard + length l.ops ≤ base + total
  once : count_by (is_load c) l.loads ≤ 1
  ahead : count_by (is_load c) l.loads ≡ 1 → shown c l.snap ≡ 0
  behind :
      count_by (is_load c) l.loads ≡ 0
      → (base ≤ shown c l.snap) × (shown c l.snap ≤ value c l.shard)

module _ {c : Counter} {base total : ℕ} (known : Exists c) (room : base + total < 2 ^ 64) where
  write-Between :
      (os : List Op) (l : Live)
      → l.ops ≡ os
      → Between c base total l
      → Between c base total (write_next os l)
  unfolding write_next
  write-Between [] l e b = b
  write-Between (o ∷ os) l e b =
      let count : length l.ops ≡ suc (length os) = ap length e in
      let r = raises c o l.shard (omega (arith, room, b.high, count)) in
      record {
        widths = b.widths;
        low = omega (arith, b.low, r.0);
        high = omega (arith, b.high, r.1, count);
        once = b.once;
        ahead = b.ahead;
        behind = λ h. let (x, y) = b.behind h in (x, omega (arith, y, r.0));
      }

  load-Between :
      (rs : List Load) (l : Live)
      → l.loads ≡ rs
      → Between c base total l
      → Between c base total (load_next rs l)
  unfolding load_next
  load-Between [] l e b = b
  load-Between (r ∷ rs) l e b =
      let count : count_by (is_load c) l.loads ≡ count_by (is_load c) (r ∷ rs) =
        ap (count_by (is_load c)) e in
      let v = loads c r l.shard l.snap known b.widths (omega (arith, room, b.high)) in
      record {
        widths = apply_load-Widths r l.shard l.snap b.widths;
        low = b.low;
        high = b.high;
        once = ground (arith, b.once, count);
        ahead = λ h. ground (arith, b.once, b.ahead, count, v);
        behind = λ h. ground (arith, room, b.high, b.once, b.low, b.ahead, b.behind, count, v);
      }

  turns-Between :
      (bs : List Bool) (l : Live) → Between c base total l → Between c base total (turns bs l)
  unfolding turns turn
  turns-Between [] l b = b
  turns-Between (true ∷ bs) l b =
      turns-Between bs (write_next l.ops l) (write-Between l.ops l refl b)
  turns-Between (false ∷ bs) l b =
      turns-Between bs (load_next l.loads l) (load-Between l.loads l refl b)

reporting-Between :
    (c : Counter) (ops : List Op) (s : Shard)
    → Exists c
    → Between c (value c s) (length ops) (reporting ops s)
unfolding reporting Widths new_snapshot
reporting-Between c ops s known = record {
  widths = new_snapshot-Widths;
  low = omega arith;
  high = omega arith;
  once = omega (arith, loads_once c known);
  ahead = λ h. new_snapshot_zero c;
  behind = λ h. absurd (omega (arith, h, loads_once c known));
}
  where
    new_snapshot-Widths : Widths new_snapshot
    new_snapshot-Widths = (length-replicate num_buckets 0, length-replicate num_classes 0)

-- A snapshot of a live shard: whatever of its atomic operations the goroutine carries out between the
-- loads of AddShard, each bucket, each class, the requests and the failures of the complete snapshot
-- lie between the shard's counter when AddShard began and when it ended, if the counter has room for
-- one more per operation.
pub live_in_between :
    (ops : List Op) (s : Shard) (bs : List Bool) (c : Counter)
    → Exists c
    → value c s + length ops < 2 ^ 64
    → (turns bs (reporting ops s)).loads ≡ []
    → (value c s ≤ shown c (turns bs (reporting ops s)).snap)
      × (shown c (turns bs (reporting ops s)).snap ≤ value c (turns bs (reporting ops s)).shard)
live_in_between ops s bs c known room complete =
    (turns-Between known room bs (reporting ops s) (reporting-Between c ops s known)).behind
      (ap (count_by (is_load c)) complete)

-- The same reporter's next snapshot, of the same shard.
abbrev pub next_report : Live → Live
next_report l = reporting l.ops l.shard

-- Two live snapshots, one after the other: no bucket, class, count of requests or count of failures of
-- the second is below that of the first, so that Sub does not wrap, if the counter has room for one
-- more per operation.
pub live_grows :
    (ops : List Op) (s : Shard) (bs bs' : List Bool) (c : Counter)
    → Exists c
    → value c s + length ops < 2 ^ 64
    → (turns bs (reporting ops s)).loads ≡ []
    → (turns bs' (next_report (turns bs (reporting ops s)))).loads ≡ []
    → shown c (turns bs (reporting ops s)).snap
      ≤ shown c (turns bs' (next_report (turns bs (reporting ops s)))).snap
live_grows ops s bs bs' c known room complete complete' =
    let l : Live = turns bs (reporting ops s) in
    let b = turns-Between known room bs (reporting ops s) (reporting-Between c ops s known) in
    let first = live_in_between ops s bs c known room complete in
    let second =
      live_in_between l.ops l.shard bs' c known (omega (arith, room, b.high)) complete' in
    omega (arith, first.1, second.0)
