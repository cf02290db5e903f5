-- ===== src/Worker/Delivery.antt =====
-- At-least-once delivery: what is committed is in the table, through failures and crashes.
use handling_50k_requestes_p.Prelude.{
  ℕ, ◌≤◌, ◌≡◌, ap, String, Bool, true, false, List, [], ◌∷◌, Option, ◌⊎◌, inl, inr, arith,
  if◌then◌else◌, count_by, take,
}
use handling_50k_requestes_p.Worker.{Event, Tables, new_aggregator}
use handling_50k_requestes_p.Worker.Loop.{
  restart, Consumer, Config, Round, Step, rounds, shuts_down, crashes, poll, round, shutdown, step,
  run,
}
use handling_50k_requestes_p.Worker.Aggregate.{
  row_count, counts_for, Stamped, IsSound, new_aggregator-IsSound,
}
use handling_50k_requestes_p.Worker.Carry.{
  logged, held, Carries, new_aggregator_empty, poll-Carries, flush-Carries,
}

-- At-least-once, between two events: what is committed was polled; the table holds at least the
-- committed records of each row; the table and the aggregator hold at least the polled ones.
pub record Inv (c : Consumer) : Type 0 where
  pub sound : IsSound c.agg
  pub timed : Stamped c.log
  pub delivered :
      (b : ℕ) (t : String) → logged b t c c.committed ≤ row_count b t c.tables.event_rollups
  pub held_all : (b : ℕ) (t : String) → logged b t c c.position ≤ held b t c

pub Carries-Inv : {c d : Consumer} → Inv c → Carries c d → Inv d
Carries-Inv {c} {d} v k = record {
  sound = k.sound;
  timed = rw k.log_kept v.timed;
  delivered = λ b t. delivered b t k.commits;
  held_all = all;
}
  where
    same : (b : ℕ) (t : String) (n : ℕ) → logged b t d n ≡ logged b t c n
    same b t n = ap (λ l. count_by (counts_for b t) (take n l)) k.log_kept

    all : (b : ℕ) (t : String) → logged b t d d.position ≤ held b t d
    all b t = omega (arith, same b t d.position, k.kept b t, v.held_all b t)

    delivered :
        (b : ℕ) (t : String)
        → (d.committed ≡ c.committed)
          ⊎ (d.committed ≡ d.position) × ((b : ℕ) (t : String) → row_count b t d.agg.rollups ≡ 0)
        → logged b t d d.committed ≤ row_count b t d.tables.event_rollups
    delivered b t (inl e) = rw e (omega (arith, same b t c.committed, k.grows b t, v.delivered b t))
    delivered b t (inr (e, empty)) = rw e (omega (arith, all b t, empty b t))

if-Inv : (test : Bool) (c d : Consumer) → Inv c → Inv d → Inv (if test then c else d)
if-Inv true c d v w = v
if-Inv false c d v w = w

restart-Inv : (now : ℕ) (c : Consumer) → Inv c → Inv (restart now c)
unfolding restart
restart-Inv now c v = record {
  sound = new_aggregator-IsSound;
  timed = v.timed;
  delivered = v.delivered;
  held_all = λ b t. omega (arith, v.delivered b t, new_aggregator_empty b t);
}

module _ (cfg : Config) (stored : cfg.sink.has_store ≡ true) where
  pub round-Inv : (r : Round) (c : Consumer) → Inv c → Inv (round cfg r c)
  unfolding round
  round-Inv r c v =
      let polled = Carries-Inv v (poll-Carries cfg c v.timed v.sound r) in
      if-Inv _ _ _
        (Carries-Inv polled (
          flush-Carries cfg (poll cfg r c) polled.timed polled.sound stored r.now r.writes
            r.commit_ok))
        polled

  pub step-Inv : (c : Consumer) (s : Step) → Inv c → Inv (step cfg c s)
  unfolding step shutdown
  step-Inv c (rounds r) v = round-Inv r c v
  step-Inv c (shuts_down r now) v =
      restart-Inv now _
        (Carries-Inv v (flush-Carries cfg c v.timed v.sound stored r.now r.writes r.commit_ok))
  step-Inv c (crashes now) v = restart-Inv now c v

  pub run-Inv : (c : Consumer) (ss : List Step) → Inv c → Inv (run cfg c ss)
  unfolding run
  run-Inv c [] v = v
  run-Inv c (s ∷ ss) v = run-Inv (step cfg c s) ss (step-Inv c s v)

-- A consumer that starts at the beginning of a log, over tables that may hold anything.
abbrev pub fresh : ℕ → List (Option Event) → Tables → Consumer
fresh now log tables = record {
  log = log;
  position = 0;
  committed = 0;
  agg = new_aggregator;
  tables = tables;
  last_flush = now;
  rebalance_blocked = false;
}

pub fresh-Inv :
    (now : ℕ) (log : List (Option Event)) (tables : Tables)
    → Stamped log
    → Inv (fresh now log tables)
fresh-Inv now log tables h = record {
  sound = new_aggregator-IsSound;
  timed = h;
  delivered = λ b t. omega arith;
  held_all = λ b t. omega arith;
}

-- At least once: with a database, and every event of the log carrying its time, after any sequence of
-- rounds (with failed or successful flushes and commits), shutdowns and crashes, the row of each
-- minute and type counts at least the committed records that belong to it.
pub delivered_at_least_once :
    (cfg : Config) (now : ℕ) (log : List (Option Event)) (tables : Tables) (ss : List Step) (b : ℕ)
    (t : String)
    → cfg.sink.has_store ≡ true
    → Stamped log
    → let c = run cfg (fresh now log tables) ss in
      logged b t c c.committed ≤ row_count b t c.tables.event_rollups
delivered_at_least_once cfg now log tables ss b t stored h =
    (run-Inv cfg stored (fresh now log tables) ss (fresh-Inv now log tables h)).delivered b t
