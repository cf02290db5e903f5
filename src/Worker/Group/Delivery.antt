-- ===== src/Worker/Group/Delivery.antt =====
-- At-least-once delivery of a group of workers, through rebalances, evictions and crashes.
use handling_50k_requestes_p.Prelude.{ℕ, ◌+◌, ◌≤◌, ◌≡◌, refl, String, true, List, Option, arith}
use handling_50k_requestes_p.Prelude.Sums.{sum, sum_le, sum_zero}
use handling_50k_requestes_p.Worker.{Event, Tables, Sink}
use handling_50k_requestes_p.Worker.Aggregate.{row_count, Stamped, new_aggregator-IsSound}
use handling_50k_requestes_p.Worker.Group.Shares.{
  logged_committed, logged_read, mine, Step-Sound, Sound,
}
use handling_50k_requestes_p.Worker.Group.{
  Group, idle_poll, Step, fetched, idled, flushed, rebalanced, calm, flushed_partly, evicted,
  crashed, Reach, start, later, fresh_group,
}
use handling_50k_requestes_p.Worker.Group.Writing.{
  Written, fetch-Written, flush-Written, assign-Written, evict-Written, crash-Written,
}

-- Each step leaves some count of written records.
Step-Written :
    {b : ℕ} {t : String} {base n : ℕ} {sink : Sink} {g h : Group} {written : ℕ → ℕ}
    → sink.has_store ≡ true
    → Sound g
    → Written b t base n g written
    → Step sink n g h
    → (after : ℕ → ℕ) × Written b t base n h after
unfolding idle_poll
Step-Written stored s w (calm (fetched m p k now below owned)) =
    (_, fetch-Written s w m p k now below owned)
Step-Written stored s w (calm (idled m)) =
    (_, record { covered = w.covered; behind = w.behind; stored = w.stored; pending = w.pending })
Step-Written {sink} stored s w (calm (flushed m o told)) =
    flush-Written s w sink m o (λ p. true) stored
Step-Written stored s w (calm (rebalanced p to free)) = (_, assign-Written s w p to)
Step-Written {sink} stored s w (flushed_partly m o ok) = flush-Written s w sink m o ok stored
Step-Written stored s w (evicted m) = (_, evict-Written s w m)
Step-Written stored s w (crashed m) = (_, crash-Written s w m)

-- After any history of a group that starts at the beginning of its logs.
Reach-Written :
    {sink : Sink} {n : ℕ} {logs : ℕ → List (Option Event)} {tables : Tables} {g : Group}
    → sink.has_store ≡ true
    → ((p : ℕ) → Stamped (logs p))
    → (b : ℕ) (t : String) → Reach sink n (fresh_group logs tables) g
    → Sound g × (after : ℕ → ℕ) × Written b t (row_count b t tables.event_rollups) n g after
Reach-Written {n} {logs} {tables} stored timed b t start = (
  record { timed = timed; sound = λ m. new_aggregator-IsSound },
  (λ p. 0),
  record {
    covered = λ p. omega arith;
    behind = λ p. omega arith;
    stored = omega (arith, sum_zero n (λ p. 0) (λ p. refl));
    pending = λ m. omega (
      arith,
      sum_zero n
          (mine m (fresh_group logs tables).parts (logged_read b t (fresh_group logs tables).parts))
          (λ p. refl),
    );
  },
)
Reach-Written stored timed b t (later r step) =
    let (s, written, w) = Reach-Written stored timed b t r in
    let (after, v) = Step-Written stored s w step in (Step-Sound s step, after, v)

-- At least once, for a group: with a database, and every event of the logs carrying its time, after
-- any history of any workers on n partitions (polls, flushes that succeed, or fail with or without
-- having written, commits that fail
-- for some partitions, rebalances, evictions and crashes), the row of each minute and type counts at
-- least what it counted at the start and the committed records of the n partitions that belong to it.
pub group_at_least_once :
    {sink : Sink} {n : ℕ} {logs : ℕ → List (Option Event)} {tables : Tables} {g : Group}
    → sink.has_store ≡ true
    → ((p : ℕ) → Stamped (logs p))
    → Reach sink n (fresh_group logs tables) g
    → (b : ℕ) (t : String)
    → row_count b t tables.event_rollups + sum n (logged_committed b t g.parts)
      ≤ row_count b t g.tables.event_rollups
group_at_least_once {n} {g} stored timed r b t =
    let (s, written, w) = Reach-Written stored timed b t r in
    omega (arith, w.stored, sum_le n (logged_committed b t g.parts) written w.covered)
