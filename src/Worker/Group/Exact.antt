-- ===== src/Worker/Group/Exact.antt =====
-- Without crashes, evictions, failed commits and writes whose answer is lost, a group counts each committed record once.
use handling_50k_requestes_p.Prelude.{
  ℕ, ◌+◌, ◌<◌, ◌≡◌, refl, String, true, false, List, Option, some, arith, update, sym, ◌∙◌,
  Bool-cases, inl, inr, ◌==◌,
}
use handling_50k_requestes_p.Prelude.Sums.{sum, sum_same, sum_zero, sum_exchange}
use handling_50k_requestes_p.Worker.{Event, Tables, Sink, Outcome, is_lost, flush, new_aggregator}
use handling_50k_requestes_p.Worker.Aggregate.{row_count, Stamped, new_aggregator-IsSound}
use handling_50k_requestes_p.Worker.Carry.{new_aggregator_empty, flush_adds, flush_failed}
use handling_50k_requestes_p.Worker.Group.Shares.{
  settled, sum-settled, mine-settled_self, mine-settled_other, logged_committed, logged_read, mine,
  committing, Step-Sound, mine-committing, mine_read-committing, Sound, aggs-fetch, mine_read-fetch,
  mine-fetch,
}
use handling_50k_requestes_p.Worker.Group.{
  Partition, Group, fetch, idle_poll, flush_group, assign, CalmStep, fetched, idled, flushed,
  rebalanced, calm, CalmReach, calm_start, calm_later, fresh_group,
}

record Synced (b : ℕ) (t : String) (base n : ℕ) (g : Group) : Type 0 where
  pub exact : base + sum n (logged_committed b t g.parts) ≡ row_count b t g.tables.event_rollups
  pub pending :
      (m : ℕ)
      → sum n (mine m g.parts (logged_read b t g.parts))
        ≡ row_count b t (g.aggs m).rollups + sum n (mine m g.parts (logged_committed b t g.parts))
  pub quiet :
      (p m : ℕ)
      → (g.parts p).owner ≡ some m
      → g.blocked m ≡ false
      → (g.parts p).position ≡ (g.parts p).committed

module _ {b : ℕ} {t : String} {base n : ℕ} {g : Group} (s : Sound g) (w : Synced b t base n g) where
  open s use {sound}
  open w use {exact, pending, quiet}

  abbrev committed_now : ℕ → ℕ
  committed_now = logged_committed b t g.parts

  abbrev read_now : ℕ → ℕ
  read_now = logged_read b t g.parts

  fetch-Synced :
      (m p k now : ℕ) → p < n → (g.parts p).owner ≡ some m → Synced b t base n (fetch m p k now g)
  unfolding fetch
  fetch-Synced m p k now below owned =
      let h : Group = fetch m p k now g in
      let same : (q : ℕ) → logged_committed b t h.parts q ≡ committed_now q = λ q. ground arith in
      record {
        exact = omega (arith, exact, sum_same n (logged_committed b t h.parts) committed_now same);
        pending = λ j. omega (
          arith,
          pending j,
          mine_read-fetch b t s n m p k now j below owned,
          mine-fetch b t s n m p k now j committed_now,
          sum_same n (mine j h.parts (logged_committed b t h.parts)) (mine j h.parts committed_now)
              (λ q. ground (arith, same q)),
          aggs-fetch b t s m p k now j,
        );
        quiet = λ q j o u. ground (arith, quiet q j);
      }

  flushed-Synced :
      (m : ℕ) (tables : Tables)
      → row_count b t tables.event_rollups
        ≡ row_count b t g.tables.event_rollups + row_count b t (g.aggs m).rollups
      → Synced b t base n (record {
        parts = committing n m (λ p. true) g.parts;
        aggs = update g.aggs m new_aggregator;
        blocked = update g.blocked m false;
        tables = tables;
      })
  flushed-Synced m tables added = record {
    exact = omega (
      arith,
      added,
      exact,
      pending m,
      sum-settled n m g.parts committed_now read_now,
      sum_same n (logged_committed b t h) (settled m g.parts committed_now read_now) same,
    );
    pending = λ j.
        let e =
          sum_same n (mine j h (logged_committed b t h))
            (mine j h (settled m g.parts committed_now read_now)) (λ q. ground (arith, same q)) in
        elim (Bool-cases (m == j)) [
          | inl self ↦ ground (
            arith,
            self,
            e,
            new_aggregator_empty b t,
            mine-committing n m (λ p. true) g.parts j (settled m g.parts committed_now read_now),
            mine_read-committing n m (λ p. true) g.parts b t j,
            mine-settled_self n m g.parts committed_now read_now,
          )
          | inr other ↦ ground (
            arith,
            other,
            e,
            pending j,
            mine-committing n m (λ p. true) g.parts j (settled m g.parts committed_now read_now),
            mine_read-committing n m (λ p. true) g.parts b t j,
            mine-settled_other n m g.parts committed_now read_now j other,
          )
        ];
    quiet = λ q j o u. ground (arith, quiet q j);
  }
    where
      h : ℕ → Partition
      h = committing n m (λ p. true) g.parts

      same : (q : ℕ) → logged_committed b t h q ≡ settled m g.parts committed_now read_now q
      same q = ground arith

  failed-Synced :
      (tables : Tables)
      → row_count b t tables.event_rollups ≡ row_count b t g.tables.event_rollups
      → Synced b t base n (record g { tables = tables })
  failed-Synced tables same = record { exact = exact ∙ sym same; pending = pending; quiet = quiet }

  flush-Synced :
      (sink : Sink) (m : ℕ) (o : Outcome)
      → sink.has_store ≡ true
      → is_lost o.store ≡ false
      → Synced b t base n (flush_group sink m o (λ p. true) g)
  unfolding flush_group
  flush-Synced sink m o stored told = elim (Bool-cases (flush sink o g.tables (g.aggs m)).1) [
    | inl done ↦
        rw (done, flush_group)
          (flushed-Synced m (flush sink o g.tables (g.aggs m)).0
            (flush_adds sink o g.tables (g.aggs m) (sound m) stored done b t))
    | inr failed ↦
        let same = (flush_failed sink o g.tables (g.aggs m) (sound m) failed b t).1 told in
        rw (failed, flush_group) (failed-Synced (flush sink o g.tables (g.aggs m)).0 same)
  ]

  assign-Synced :
      (p : ℕ) (to : Option ℕ)
      → ((m : ℕ) → (g.parts p).owner ≡ some m → g.blocked m ≡ false)
      → Synced b t base n (assign p to g)
  unfolding assign
  assign-Synced p to free =
      let h : Group = assign p to g in
      let same : (q : ℕ) → logged_committed b t h.parts q ≡ committed_now q = λ q. ground arith in
      record {
        exact = omega (arith, exact, sum_same n (logged_committed b t h.parts) committed_now same);
        pending = λ j. omega (
          arith,
          pending j,
          sum_exchange n (mine j h.parts (logged_read b t h.parts)) (mine j g.parts committed_now)
              (mine j g.parts read_now) (mine j h.parts (logged_committed b t h.parts))
              (λ q. ground (arith, free j, quiet p j)),
        );
        quiet = λ q j o u. ground (arith, quiet q j);
      }

Step-Synced :
    {b : ℕ} {t : String} {base n : ℕ} {sink : Sink} {g h : Group}
    → sink.has_store ≡ true
    → Sound g
    → Synced b t base n g
    → CalmStep sink n g h
    → Synced b t base n h
unfolding idle_poll
Step-Synced stored s w (fetched m p k now below owned) = fetch-Synced s w m p k now below owned
Step-Synced stored s w (idled m) = record {
  exact = w.exact;
  pending = w.pending;
  quiet = λ p j o u. ground (arith, w.quiet p j);
}
Step-Synced {sink} stored s w (flushed m o told) = flush-Synced s w sink m o stored told
Step-Synced stored s w (rebalanced p to free) = assign-Synced s w p to free

CalmReach-Synced :
    {sink : Sink} {n : ℕ} {logs : ℕ → List (Option Event)} {tables : Tables} {g : Group}
    → sink.has_store ≡ true
    → ((p : ℕ) → Stamped (logs p))
    → (b : ℕ) (t : String) → CalmReach sink n (fresh_group logs tables) g
    → Sound g × Synced b t (row_count b t tables.event_rollups) n g
CalmReach-Synced {n} {logs} {tables} stored timed b t calm_start =
    let first : Group = fresh_group logs tables in
    (
      record { timed = timed; sound = λ m. new_aggregator-IsSound },
      record {
        exact = omega (arith, sum_zero n (logged_committed b t first.parts) (λ p. refl));
        pending = λ m. omega (
          arith,
          new_aggregator_empty b t,
          sum_zero n (mine m first.parts (logged_read b t first.parts)) (λ p. refl),
          sum_zero n (mine m first.parts (logged_committed b t first.parts)) (λ p. refl),
        );
        quiet = λ p m o u. refl;
      },
    )
CalmReach-Synced stored timed b t (calm_later r step) =
    let (s, w) = CalmReach-Synced stored timed b t r in
    (Step-Sound s (calm step), Step-Synced stored s w step)

-- Exactly once, for a group: with a database, and every event of the logs carrying its time, after any
-- history of any workers on n partitions with polls, flushes that succeed, flushes that fail without
-- having written their rows, commits that
-- succeed, and rebalances that wait until the owner of the partition allows them, the row of each
-- minute and type counts what it counted at the start and, once each, the committed records of the n
-- partitions that belong to it.
pub group_exactly_once :
    {sink : Sink} {n : ℕ} {logs : ℕ → List (Option Event)} {tables : Tables} {g : Group}
    → sink.has_store ≡ true
    → ((p : ℕ) → Stamped (logs p))
    → CalmReach sink n (fresh_group logs tables) g
    → (b : ℕ) (t : String)
    → row_count b t g.tables.event_rollups
      ≡ row_count b t tables.event_rollups + sum n (logged_committed b t g.parts)
group_exactly_once stored timed r b t =
    let (s, w) = CalmReach-Synced stored timed b t r in sym w.exact
