-- ===== src/Worker/Examples.antt =====
-- The consumer at concrete inputs.
use handling_50k_requestes_p.Prelude.{
  ℕ, ◌+◌, ◌≤◌, ◌≡◌, refl, Bool, true, false, List, [], ◌∷◌, Option, none, some, arith,
}
use handling_50k_requestes_p.Worker.{
  stored, refused, answer_lost, Stored, Event, Tables, add, new_aggregator, flush, upsert,
  add_rollup,
}
use handling_50k_requestes_p.Worker.Loop.{
  Config, Round, Step, rounds, crashes, session, run, step, round, consume_all, restart, consume,
  flush_and_commit,
}
use handling_50k_requestes_p.Worker.Aggregate.{Stamped, row_count}
use handling_50k_requestes_p.Worker.Carry.{logged}
use handling_50k_requestes_p.Worker.Delivery.{fresh, delivered_at_least_once}
use handling_50k_requestes_p.Prelude.{◌==◌, if◌then◌else◌, Bool-cases, inl, inr}
use handling_50k_requestes_p.Prelude.Sums.{sum}
use handling_50k_requestes_p.Worker.{Outcome}
use handling_50k_requestes_p.Worker.Group.{
  Group, fetch, assign, crash, flush_group, fetched, idled, flushed, rebalanced, calm,
  flushed_partly, crashed, fresh_group, Reach, start, later, CalmReach, calm_start, calm_later,
}
use handling_50k_requestes_p.Worker.Group.Shares.{logged_committed}
use handling_50k_requestes_p.Worker.Group.Delivery.{group_at_least_once}
use handling_50k_requestes_p.Worker.Group.Exact.{group_exactly_once}
use handling_50k_requestes_p.Worker.Exact.{counted_exactly_once}

abbrev signup : ℕ → Option Event
signup t = some (record { id = "1"; type = "signup"; source = "api"; time = t; body = "" })

-- Two events of the second minute, a record that does not decode, an event of the third minute.
abbrev topic : List (Option Event)
topic = signup 60000000001 ∷ none ∷ signup 60000000002 ∷ signup 120000000000 ∷ []

topic-Stamped : Stamped topic
topic-Stamped = (λ e. omega (arith, e), (λ e. omega (arith, e), (λ e. omega (arith, e), tt)))

abbrev with_store : Config
with_store = record {
  flush_size = 2;
  flush_interval = 1000;
  sink = record { has_store = true; has_cache = true };
}

abbrev no_tables : Tables
no_tables = record { event_rollups = []; redis = [] }

abbrev fetching : ℕ → Stored → Bool → Round
fetching n store commit_ok = record {
  fetched = n;
  counted_at = 7;
  now = 8;
  writes = record { store = store; cache_ok = true };
  commit_ok = commit_ok;
}

-- A flush fails, is retried and its commit fails; after a crash the records are delivered again.
abbrev troubles : List Step
troubles =
    rounds (fetching 2 stored true)
    ∷ rounds (fetching 2 answer_lost true)
    ∷ rounds (fetching 0 stored false)
    ∷ crashes 9
    ∷ rounds (fetching 2 stored true)
    ∷ rounds (fetching 2 stored true)
    ∷ []

redelivered :
    row_count 60000000000 "signup"
      (run with_store (fresh 0 topic no_tables) troubles).tables.event_rollups
    ≡ 6
unfolding run step round consume_all restart consume add new_aggregator flush_and_commit flush
    upsert add_rollup
redelivered = refl

delivered_at_least_once_example :
    logged 60000000000 "signup"
      (run with_store (fresh 0 topic no_tables) troubles)
      (run with_store (fresh 0 topic no_tables) troubles).committed
    ≤ row_count 60000000000 "signup"
        (run with_store (fresh 0 topic no_tables) troubles).tables.event_rollups
delivered_at_least_once_example =
    delivered_at_least_once with_store 0 topic no_tables troubles 60000000000 "signup" refl
      topic-Stamped

abbrev polls : List Round
polls = fetching 2 stored true ∷ fetching 2 refused true ∷ []

counted_exactly_once_example :
    let c = session with_store (fresh 0 topic no_tables) polls (fetching 0 stored false) in
    row_count 60000000000 "signup" c.tables.event_rollups
      + row_count 60000000000 "signup" c.agg.rollups
    ≡ 0 + logged 60000000000 "signup" (fresh 0 topic no_tables) c.position
counted_exactly_once_example =
    counted_exactly_once with_store 0 topic no_tables polls (fetching 0 stored false) 60000000000
      "signup" refl topic-Stamped (refl, (refl, tt)) refl

-- Two partitions: the topic, and one more event of the second minute.
abbrev two_logs : ℕ → List (Option Event)
two_logs p = if p == 0 then topic else signup 60000000003 ∷ []

two_logs-Stamped : (p : ℕ) → Stamped (two_logs p)
two_logs-Stamped p = elim (Bool-cases (p == 0)) [
  | inl first ↦ rw first topic-Stamped
  | inr second ↦ rw second ((λ e. omega (arith, e), tt))
]

abbrev all_ok : Outcome
all_ok = record { store = stored; cache_ok = true }

-- Worker 3 reads both partitions and writes them; then partition 1 goes to worker 5.
abbrev shared_work : (g : Group) × CalmReach with_store.sink 2 (fresh_group two_logs no_tables) g
unfolding assign fetch
shared_work =
    let a = calm_later calm_start (rebalanced 0 (some 3) (λ m e. refl)) in
    let b = calm_later a (rebalanced 1 (some 3) (λ m e. refl)) in
    let c = calm_later b (fetched 3 0 2 7 (omega arith) refl) in
    let d = calm_later c (fetched 3 1 2 7 (omega arith) refl) in
    let e = calm_later d (flushed 3 all_ok refl) in (_, calm_later e (idled 5))

group_exactly_once_example :
    row_count 60000000000 "signup" shared_work.0.tables.event_rollups
    ≡ row_count 60000000000 "signup" no_tables.event_rollups
      + sum 2 (logged_committed 60000000000 "signup" shared_work.0.parts)
unfolding assign fetch
group_exactly_once_example =
    group_exactly_once refl two_logs-Stamped shared_work.1 60000000000 "signup"

-- The commit of partition 0 fails, worker 3 crashes, and worker 5 reads it again.
abbrev troubled_work : (g : Group) × Reach with_store.sink 2 (fresh_group two_logs no_tables) g
unfolding assign fetch crash flush_group flush consume_all consume add new_aggregator
troubled_work =
    let a = later start (calm (rebalanced 0 (some 3) (λ m e. refl))) in
    let b = later a (calm (fetched 3 0 2 7 (omega arith) refl)) in
    let c = later b (flushed_partly 3 all_ok (λ p. false)) in
    let d = later c (crashed 3) in
    let e = later d (calm (rebalanced 0 (some 5) (λ m e. ground arith))) in
    let f = later e (calm (fetched 5 0 3 7 (omega arith) refl)) in
    (_, later f (calm (flushed 5 all_ok refl)))

group_at_least_once_example :
    row_count 60000000000 "signup" no_tables.event_rollups
      + sum 2 (logged_committed 60000000000 "signup" troubled_work.0.parts)
    ≤ row_count 60000000000 "signup" troubled_work.0.tables.event_rollups
group_at_least_once_example =
    group_at_least_once refl two_logs-Stamped troubled_work.1 60000000000 "signup"
