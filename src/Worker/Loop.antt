-- ===== src/Worker/Loop.antt =====
-- Consumer.Run of worker.go: the poll, aggregate, flush and commit loop.
--
-- The topic is one log of records. What PollRecords returns, whether the writes and the commit
-- succeed, and the clock are chosen by the environment, round by round; `restart` is the start of a
-- new process, which resumes at the committed offset with an empty aggregator.
use text.Mathlib.Text.{◌==◌ as str_eq}
use handling_50k_requestes_p.Prelude.{
  ℕ, ◌+◌, ◌-◌, Bool, true, false, not, ◌||◌, List, [], ◌∷◌, Option, none, some, leb, ◌==◌,
  if◌then◌else◌, length, drop, take, min,
}
use handling_50k_requestes_p.Worker.{
  Event, Aggregator, new_aggregator, add, Tables, Sink, Outcome, flush,
}

pub record Consumer : Type 0 where
  pub log : List (Option Event)
  pub position : ℕ
  pub committed : ℕ
  pub agg : Aggregator
  pub tables : Tables
  pub last_flush : ℕ
  pub rebalance_blocked : Bool

pub record Config : Type 0 where
  pub flush_size : ℕ
  pub flush_interval : ℕ
  pub sink : Sink

-- `flushAndCommit`. A flush that fails may have written. After a flush the aggregator is reset, whether or not the commit succeeds.
unfoldable pub flush_and_commit : Config → ℕ → Outcome → Bool → Consumer → Consumer
flush_and_commit cfg now o commit_ok c =
    let (tables, flushed) = flush cfg.sink o c.tables c.agg in
    if not flushed then record c { tables = tables } else record c {
      tables = tables;
      committed = if commit_ok then c.position else c.committed;
      agg = new_aggregator;
      last_flush = now;
      rebalance_blocked = false;
    }

-- The callback of EachRecord: a record that does not decode, or has no type, is counted and dropped.
unfoldable pub consume : ℕ → Aggregator → Option Event → Aggregator
consume now a none = a
consume now a (some ev) = if str_eq ev.type "" then a else add now a ev

unfoldable pub consume_all : ℕ → Aggregator → List (Option Event) → Aggregator
consume_all now a [] = a
consume_all now a (r ∷ rs) = consume_all now (consume now a r) rs

-- One round: how many records the poll returned, the times at which they are counted and at which
-- the flush is decided, and the outcome of the writes.
pub record Round : Type 0 where
  pub fetched : ℕ
  pub counted_at : ℕ
  pub now : ℕ
  pub writes : Outcome
  pub commit_ok : Bool

-- PollRecords returns at most `flush_size` of the records behind the position, any number if that is 0.
abbrev pub poll_limit : ℕ → ℕ → ℕ
poll_limit fetched size = if size == 0 then fetched else min fetched size

unfoldable pub poll : Config → Round → Consumer → Consumer
poll cfg r c =
    let batch = take (poll_limit r.fetched cfg.flush_size) (drop c.position c.log) in
    record c {
      position = c.position + length batch;
      agg = consume_all r.counted_at c.agg batch;
      rebalance_blocked = true;
    }

unfoldable pub round : Config → Round → Consumer → Consumer
unfolding poll
round cfg r c =
    let d = poll cfg r c in
    if leb cfg.flush_size d.agg.n || leb cfg.flush_interval (r.now - d.last_flush)
    then flush_and_commit cfg r.now r.writes r.commit_ok d
    else d

-- The end of Run, after the context is cancelled.
unfoldable pub shutdown : Config → Round → Consumer → Consumer
shutdown cfg r c = flush_and_commit cfg r.now r.writes r.commit_ok c

-- A new process: it resumes at the committed offset, with an empty aggregator.
unfoldable pub restart : ℕ → Consumer → Consumer
restart now c = record c {
  position = c.committed;
  agg = new_aggregator;
  last_flush = now;
  rebalance_blocked = false;
}

-- Consumer.Run to its end: the rounds until the context is cancelled, then the shutdown.
unfoldable pub session : Config → Consumer → List Round → Round → Consumer
session cfg c [] last = shutdown cfg last c
session cfg c (r ∷ rs) last = session cfg (round cfg r c) rs last

-- What happens to the consumer group: a round, a shutdown and the next start, a crash and the next
-- start.
pub data Step : Type 0 where
  rounds : Round → Step
  shuts_down : Round → ℕ → Step
  crashes : ℕ → Step

unfoldable pub step : Config → Consumer → Step → Consumer
step cfg c (rounds r) = round cfg r c
step cfg c (shuts_down r now) = restart now (shutdown cfg r c)
step cfg c (crashes now) = restart now c

unfoldable pub run : Config → Consumer → List Step → Consumer
run cfg c [] = c
run cfg c (s ∷ ss) = run cfg (step cfg c s) ss
