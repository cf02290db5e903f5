-- ===== src/Worker/Group/Writing.antt =====
-- What the steps of a group write, at least.
use handling_50k_requestes_p.Prelude.{
  ℕ, ◌+◌, ◌≤◌, ◌<◌, ◌≡◌, refl, String, Bool, true, false, Option, some, arith, update, Bool-cases,
  inl, inr, ◌==◌,
}
use handling_50k_requestes_p.Prelude.Sums.{sum, sum_le, sum_zero, sum_exchange_le}
use handling_50k_requestes_p.Worker.{Tables, Sink, Outcome, flush, new_aggregator}
use handling_50k_requestes_p.Worker.Aggregate.{row_count}
use handling_50k_requestes_p.Worker.Carry.{flush_adds, flush_failed}
use handling_50k_requestes_p.Worker.Group.Shares.{
  settled, sum-settled, mine-settled_self, mine-settled_other, logged_committed, logged_read, mine,
  mine-committing, mine_read-committing, Sound, read-fetch, aggs-fetch, mine_read-fetch, mine-fetch,
}
use handling_50k_requestes_p.Worker.Group.{
  Group, fetch, flush_group, assign, evict, crash, commit_offset,
}

-- `written p` records of partition `p` are in the table that were not there before its owner got it:
-- at least the committed ones, and what the owner still holds makes up the rest of what it has read.
pub record Written (b : ℕ) (t : String) (base n : ℕ) (g : Group) (written : ℕ → ℕ) : Type 0 where
  pub covered : (p : ℕ) → logged_committed b t g.parts p ≤ written p
  pub behind : (p : ℕ) → written p ≤ logged_read b t g.parts p
  pub stored : base + sum n written ≤ row_count b t g.tables.event_rollups
  pub pending :
      (m : ℕ)
      → sum n (mine m g.parts (logged_read b t g.parts))
        ≤ row_count b t (g.aggs m).rollups + sum n (mine m g.parts written)

module _ {b : ℕ} {t : String} {base n : ℕ} {g : Group} {written : ℕ → ℕ} (s : Sound g)
    (w : Written b t base n g written) where
  open s use {timed, sound}
  open w use {covered, behind, stored, pending}

  pub fetch-Written :
      (m p k now : ℕ)
      → p < n
      → (g.parts p).owner ≡ some m
      → Written b t base n (fetch m p k now g) written
  unfolding fetch
  fetch-Written m p k now below owned = record {
    covered = λ q. ground (arith, covered q);
    behind = λ q. ground (arith, behind q, read-fetch b t s m p k now q);
    stored = stored;
    pending = λ j. omega (
      arith,
      pending j,
      mine_read-fetch b t s n m p k now j below owned,
      mine-fetch b t s n m p k now j written,
      aggs-fetch b t s m p k now j,
    );
  }

  flushed-Written :
      (m : ℕ) (ok : ℕ → Bool) (tables : Tables)
      → row_count b t tables.event_rollups
        ≡ row_count b t g.tables.event_rollups + row_count b t (g.aggs m).rollups
      → Written b t base n
          (record {
            parts = λ p. commit_offset m (ok p) (g.parts p);
            aggs = update g.aggs m new_aggregator;
            blocked = update g.blocked m false;
            tables = tables;
          })
          (settled m g.parts written (logged_read b t g.parts))
  flushed-Written m ok tables added = record {
    covered = λ q. ground (arith, covered q, behind q);
    behind = λ q. ground (arith, behind q);
    stored = omega (
      arith,
      added,
      stored,
      pending m,
      sum-settled n m g.parts written (logged_read b t g.parts),
    );
    pending = λ j. elim (Bool-cases (m == j)) [
      | inl same ↦ ground (
        arith,
        same,
        mine-committing n m ok g.parts j (settled m g.parts written (logged_read b t g.parts)),
        mine_read-committing n m ok g.parts b t j,
        mine-settled_self n m g.parts written (logged_read b t g.parts),
      )
      | inr other ↦ ground (
        arith,
        other,
        pending j,
        mine-committing n m ok g.parts j (settled m g.parts written (logged_read b t g.parts)),
        mine_read-committing n m ok g.parts b t j,
        mine-settled_other n m g.parts written (logged_read b t g.parts) j other,
      )
    ];
  }

  -- A flush that fails: the rows do not shrink.
  failed-Written :
      (tables : Tables)
      → row_count b t g.tables.event_rollups ≤ row_count b t tables.event_rollups
      → Written b t base n (record g { tables = tables }) written
  failed-Written tables more = record {
    covered = covered;
    behind = behind;
    stored = omega (arith, stored, more);
    pending = pending;
  }

  pub flush-Written :
      (sink : Sink) (m : ℕ) (o : Outcome) (ok : ℕ → Bool)
      → sink.has_store ≡ true
      → (after : ℕ → ℕ) × Written b t base n (flush_group sink m o ok g) after
  unfolding flush_group
  flush-Written sink m o ok stored = elim (Bool-cases (flush sink o g.tables (g.aggs m)).1) [
    | inl done ↦
        rw (done, flush_group)
          (
            _,
            flushed-Written m ok (flush sink o g.tables (g.aggs m)).0
                (flush_adds sink o g.tables (g.aggs m) (sound m) stored done b t),
          )
    | inr failed ↦
        rw (failed, flush_group)
          (
            written,
            failed-Written (flush sink o g.tables (g.aggs m)).0
                (flush_failed sink o g.tables (g.aggs m) (sound m) failed b t).0,
          )
  ]

  -- A step that takes partitions back to their committed offsets.
  set_back :
      (h : Group) (after : ℕ → ℕ)
      → ((q : ℕ) → logged_committed b t h.parts q ≤ after q)
      → ((q : ℕ) → after q ≤ logged_read b t h.parts q)
      → ((q : ℕ) → after q ≤ written q)
      → h.tables ≡ g.tables
      → ((j : ℕ)
          → sum n (mine j h.parts (logged_read b t h.parts))
            ≤ row_count b t (h.aggs j).rollups + sum n (mine j h.parts after))
      → Written b t base n h after
  set_back h after covers read fewer same kept = record {
    covered = covers;
    behind = read;
    stored = rw same (omega (arith, stored, sum_le n after written fewer));
    pending = kept;
  }

  pub assign-Written :
      (p : ℕ) (to : Option ℕ)
      → Written b t base n (assign p to g) (update written p (logged_committed b t g.parts p))
  unfolding assign
  assign-Written p to =
      set_back (assign p to g) (update written p (logged_committed b t g.parts p))
        (λ q. ground (arith, covered q)) (λ q. ground (arith, behind q))
        (λ q. ground (arith, covered q)) refl
        (λ j. omega (
          arith,
          pending j,
          sum_exchange_le n (mine j (assign p to g).parts (logged_read b t (assign p to g).parts))
              (mine j g.parts written) (mine j g.parts (logged_read b t g.parts))
              (mine j (assign p to g).parts (update written p (logged_committed b t g.parts p)))
              (λ q. ground (arith, behind q)),
        ))

  pub evict-Written :
      (m : ℕ)
      → Written b t base n (evict m g) (settled m g.parts written (logged_committed b t g.parts))
  unfolding evict
  evict-Written m =
      set_back (evict m g) (settled m g.parts written (logged_committed b t g.parts))
        (λ q. ground (arith, covered q)) (λ q. ground (arith, behind q))
        (λ q. ground (arith, covered q)) refl
        (λ j. omega (
          arith,
          pending j,
          sum_exchange_le n (mine j (evict m g).parts (logged_read b t (evict m g).parts))
              (mine j g.parts written) (mine j g.parts (logged_read b t g.parts))
              (mine j (evict m g).parts (settled m g.parts written (logged_committed b t g.parts)))
              (λ q. ground (arith, behind q)),
        ))

  pub crash-Written :
      (m : ℕ)
      → Written b t base n (crash m g) (settled m g.parts written (logged_committed b t g.parts))
  unfolding crash evict
  crash-Written m =
      let e = evict-Written m in
      record {
        covered = e.covered;
        behind = e.behind;
        stored = e.stored;
        pending = λ j. ground (
          arith,
          e.pending j,
          sum_zero n (mine m (evict m g).parts (logged_read b t (evict m g).parts)),
        );
      }
