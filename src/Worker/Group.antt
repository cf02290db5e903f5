-- ===== src/Worker/Group.antt =====
-- The consumer group of internal/worker/worker.go: several workers on a topic of several partitions.
--
-- A partition has the offset that the group committed and the position of the worker that owns it.
-- Kafka's broker moves partitions between workers. kgo.BlockRebalanceOnPoll keeps a worker from losing
-- one between PollRecords and AllowRebalance; a worker that blocks for too long is evicted all the
-- same, and does not know it. The batches that one PollRecords returns are a step per partition; when
-- a worker flushes is left open (Loop has the tests).
pub mod Shares
pub mod Writing
pub mod Delivery
pub mod Exact
use handling_50k_requestes_p.Prelude.{
  ℕ, ◌+◌, ◌<◌, ◌≡◌, Bool, true, false, not, ◌&&◌, List, Option, none, some, ◌==◌, if◌then◌else◌,
  length, drop, take, update,
}
use handling_50k_requestes_p.Worker.{
  Event, Aggregator, new_aggregator, Tables, Sink, Outcome, is_lost, flush,
}
use handling_50k_requestes_p.Worker.Loop.{consume_all}

pub record Partition : Type 0 where
  pub log : List (Option Event)
  pub committed : ℕ
  pub position : ℕ
  pub owner : Option ℕ

pub record Group : Type 0 where
  pub parts : ℕ → Partition
  pub aggs : ℕ → Aggregator
  pub blocked : ℕ → Bool
  pub tables : Tables

abbrev pub owned_by : ℕ → Option ℕ → Bool
owned_by m none = false
owned_by m (some k) = k == m

-- The next `k` records of partition `p`.
abbrev pub batch_of : Partition → ℕ → List (Option Event)
batch_of part k = take k (drop part.position part.log)

-- PollRecords of worker `m`, with records of partition `p`.
unfoldable pub fetch : (m p k now : ℕ) → Group → Group
fetch m p k now g = record g {
  parts =
      update g.parts p
        (record (g.parts p) { position = (g.parts p).position + length (batch_of (g.parts p) k) });
  aggs = update g.aggs m (consume_all now (g.aggs m) (batch_of (g.parts p) k));
  blocked = update g.blocked m true;
}

-- PollRecords that returns no record.
unfoldable pub idle_poll : ℕ → Group → Group
idle_poll m g = record g { blocked = update g.blocked m true }

-- CommitUncommittedOffsets, which may fail for some partitions.
abbrev pub commit_offset : ℕ → Bool → Partition → Partition
commit_offset m ok part =
    if owned_by m part.owner && ok then record part { committed = part.position } else part

-- flushAndCommit of worker `m`.
unfoldable pub flush_group : Sink → ℕ → Outcome → (ℕ → Bool) → Group → Group
flush_group sink m o ok g =
    let (tables, flushed) = flush sink o g.tables (g.aggs m) in
    if not flushed then record g { tables = tables } else record {
      parts = λ p. commit_offset m (ok p) (g.parts p);
      aggs = update g.aggs m new_aggregator;
      blocked = update g.blocked m false;
      tables = tables;
    }

-- The broker gives partition `p` to another worker, or to none: it goes on at the committed offset.
unfoldable pub assign : (p : ℕ) → Option ℕ → Group → Group
assign p to g = record g {
  parts = update g.parts p (record (g.parts p) { position = (g.parts p).committed; owner = to });
}

abbrev pub released : ℕ → Partition → Partition
released m part =
    if owned_by m part.owner then record part { position = part.committed; owner = none } else part

-- The broker takes every partition of worker `m`, which keeps what it has counted.
unfoldable pub evict : ℕ → Group → Group
evict m g = record g { parts = λ p. released m (g.parts p) }

-- The process of worker `m` ends without a shutdown.
unfoldable pub crash : ℕ → Group → Group
crash m g = record g {
  parts = λ p. released m (g.parts p);
  aggs = update g.aggs m new_aggregator;
  blocked = update g.blocked m false;
}

-- What happens to a group on `n` partitions when nothing crashes, no worker is evicted, every
-- commit arrives, and an AddRollups that returns an error has written nothing.
pub data CalmStep (sink : Sink) (n : ℕ) (g : Group) : Group → Type 0 where
  fetched :
      (m p k now : ℕ) → p < n → (g.parts p).owner ≡ some m → CalmStep sink n g (fetch m p k now g)
  idled : (m : ℕ) → CalmStep sink n g (idle_poll m g)
  flushed :
      (m : ℕ) (o : Outcome)
      → is_lost o.store ≡ false
      → CalmStep sink n g (flush_group sink m o (λ p. true) g)
  rebalanced :
      (p : ℕ) (to : Option ℕ)
      → ((m : ℕ) → (g.parts p).owner ≡ some m → g.blocked m ≡ false)
      → CalmStep sink n g (assign p to g)

-- What happens to a group.
pub data Step (sink : Sink) (n : ℕ) (g : Group) : Group → Type 0 where
  calm : {h : Group} → CalmStep sink n g h → Step sink n g h
  flushed_partly : (m : ℕ) (o : Outcome) (ok : ℕ → Bool) → Step sink n g (flush_group sink m o ok g)
  evicted : (m : ℕ) → Step sink n g (evict m g)
  crashed : (m : ℕ) → Step sink n g (crash m g)

-- No partition has an owner, and the tables may hold anything.
abbrev pub fresh_group : (ℕ → List (Option Event)) → Tables → Group
fresh_group logs tables = record {
  parts = λ p. record { log = logs p; committed = 0; position = 0; owner = none };
  aggs = λ m. new_aggregator;
  blocked = λ m. false;
  tables = tables;
}

module _ (sink : Sink) (n : ℕ) (first : Group) where
  pub data Reach : Group → Type 0 where
    start : Reach first
    later : {g h : Group} → Reach g → Step sink n g h → Reach h

  pub data CalmReach : Group → Type 0 where
    calm_start : CalmReach first
    calm_later : {g h : Group} → CalmReach g → CalmStep sink n g h → CalmReach h
