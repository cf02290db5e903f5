-- ===== src/Worker/Exact.antt =====
-- Without a crash, and without a write whose answer is lost, every polled event is counted once.
use handling_50k_requestes_p.Prelude.{
  ℕ, ◌+◌, ◌≡◌, ap, ◌∙◌, String, Bool, true, false, List, [], ◌∷◌, Option, arith, if◌then◌else◌,
  count_by, take,
}
use handling_50k_requestes_p.Worker.{Event, Tables, is_lost}
use handling_50k_requestes_p.Worker.Loop.{
  session, Consumer, Config, Round, flush_and_commit, poll, round, shutdown,
}
use handling_50k_requestes_p.Worker.Aggregate.{row_count, counts_for, Stamped}
use handling_50k_requestes_p.Worker.Carry.{
  logged, held, new_aggregator_empty, poll-Carries, flush-Carries, poll-conserved, flush-conserved,
}
use handling_50k_requestes_p.Worker.Delivery.{Inv, Carries-Inv, round-Inv, fresh, fresh-Inv}

-- What a session keeps.
abbrev Conserves : Consumer → Consumer → Type 0
Conserves c d =
    (d.log ≡ c.log)
    × ((b : ℕ) (t : String)
        → held b t d + logged b t c c.position ≡ held b t c + logged b t c d.position)

Conserves-trans : (c d e : Consumer) → Conserves c d → Conserves d e → Conserves c e
Conserves-trans c d e (log, sums) (log', sums') = (log' ∙ log, λ b t. total b t)
  where
    same : (b : ℕ) (t : String) (n : ℕ) → logged b t d n ≡ logged b t c n
    same b t n = ap (λ l. count_by (counts_for b t) (take n l)) log

    total :
        (b : ℕ) (t : String)
        → held b t e + logged b t c c.position ≡ held b t c + logged b t c e.position
    total b t = omega (arith, sums b t, sums' b t, same b t d.position, same b t e.position)

if-Conserves :
    (test : Bool) (a c d : Consumer)
    → Conserves a c
    → Conserves a d
    → Conserves a (if test then c else d)
if-Conserves true a c d h k = h
if-Conserves false a c d h k = k

-- Every AddRollups that returns an error has written nothing.
abbrev pub Told : List Round → Type 0
Told [] = Unit {0}
Told (r ∷ rs) = (is_lost r.writes.store ≡ false) × Told rs

module _ (cfg : Config) (stored : cfg.sink.has_store ≡ true) where
  flush-Conserves :
      (r : Round) (c : Consumer)
      → Inv c
      → is_lost r.writes.store ≡ false
      → Conserves c (flush_and_commit cfg r.now r.writes r.commit_ok c)
  flush-Conserves r c v told = (
    (flush-Carries cfg c v.timed v.sound stored r.now r.writes r.commit_ok).log_kept,
    λ b t.
        let (same, here) =
          flush-conserved cfg c v.timed v.sound stored r.now r.writes r.commit_ok told b t in
        omega (arith, same, ap (logged b t c) here),
  )

  round-Conserves :
      (r : Round) (c : Consumer)
      → Inv c
      → is_lost r.writes.store ≡ false
      → Conserves c (round cfg r c)
  unfolding round
  round-Conserves r c v told =
      let polled = poll-Carries cfg c v.timed v.sound r in
      let w = Carries-Inv v polled in
      let first : Conserves c (poll cfg r c) =
        (polled.log_kept, poll-conserved cfg c v.timed v.sound r) in
      if-Conserves _ c _ _
        (Conserves-trans c (poll cfg r c)
          (flush_and_commit cfg r.now r.writes r.commit_ok (poll cfg r c)) first
          (flush-Conserves r (poll cfg r c) w told))
        first

  session-Conserves :
      (c : Consumer) (rs : List Round) (last : Round)
      → Inv c
      → Told rs
      → is_lost last.writes.store ≡ false
      → Conserves c (session cfg c rs last)
  unfolding session shutdown
  session-Conserves c [] last v told end = flush-Conserves last c v end
  session-Conserves c (r ∷ rs) last v told end =
      Conserves-trans c (round cfg r c) (session cfg (round cfg r c) rs last)
        (round-Conserves r c v told.0)
        (session-Conserves (round cfg r c) rs last (round-Inv cfg stored r c v) told.1 end)

-- Exactly once within a session: with a database, and every event of the log carrying its time, after
-- any rounds and the shutdown, whatever flushes and commits failed on the way, if no AddRollups that
-- returned an error had written its rows, then the row of each minute and type plus what the aggregator
-- still holds is what the row held at the start plus the number of polled records that belong to it.
pub counted_exactly_once :
    (cfg : Config) (now : ℕ) (log : List (Option Event)) (tables : Tables) (rs : List Round)
    (last : Round) (b : ℕ) (t : String)
    → cfg.sink.has_store ≡ true
    → Stamped log
    → Told rs
    → is_lost last.writes.store ≡ false
    → let c = session cfg (fresh now log tables) rs last in
      row_count b t c.tables.event_rollups + row_count b t c.agg.rollups
      ≡ row_count b t tables.event_rollups + logged b t (fresh now log tables) c.position
counted_exactly_once cfg now log tables rs last b t stored h told end =
    let k =
      session-Conserves cfg stored (fresh now log tables) rs last (fresh-Inv now log tables h) told
        end in
    omega (arith, k.1 b t, new_aggregator_empty b t)
