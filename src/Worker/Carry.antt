-- ===== src/Worker/Carry.antt =====
-- What a poll and a flush of the consumer carry over: no event is lost or made up.
use handling_50k_requestes_p.Prelude.{
  ℕ, zero, suc, ◌+◌, ◌≤◌, ◌≡◌, refl, sym, ap, ◌∙◌, String, Bool, true, false, List, [], ◌∷◌, ◌++◌,
  Option, none, some, ◌⊎◌, inl, inr, arith, if◌then◌else◌, Bool-cases, count_by, count_by-append,
  length, take, drop,
}
use handling_50k_requestes_p.Worker.{
  Event, Aggregator, Tables, Sink, Outcome, is_lost, new_aggregator, flush,
}
use handling_50k_requestes_p.Worker.Loop.{
  poll_limit, Consumer, Config, Round, flush_and_commit, poll,
}
use handling_50k_requestes_p.Worker.Aggregate.{
  row_count, row_count-upsert, counts_for, Stamped, IsSound, new_aggregator-IsSound,
  consume_all-IsSound, row_count-consume_all,
}

module _ {ℓ} {A : Type ℓ} where
  take_self : (m : ℕ) (xs : List A) → take (length (take m xs)) xs ≡ take m xs
  take_self zero xs = refl
  take_self (suc m) [] = refl
  take_self (suc m) (x ∷ xs) = rw (take_self m xs)

  take_nil : (n : ℕ) → take {A = A} n [] ≡ []
  take_nil zero = refl
  take_nil (suc n) = refl

  pub take_more :
      (p m : ℕ) (xs : List A)
      → take (p + length (take m (drop p xs))) xs ≡ take p xs ++ take m (drop p xs)
  take_more zero m xs = ap (λ (k : ℕ). take k xs) (omega arith) ∙ take_self m xs
  take_more (suc p) m [] = take_nil _ ∙ sym (take_nil m)
  take_more (suc p) m (x ∷ xs) =
      let k : ℕ = length (take m (drop p xs)) in
      let e : suc p + k ≡ suc (p + k) = omega arith in
      ap (λ (n : ℕ). take n (x ∷ xs)) e ∙ ap (λ ys. x ∷ ys) (take_more p m xs)

pub Stamped-take : (n : ℕ) (xs : List (Option Event)) → Stamped xs → Stamped (take n xs)
Stamped-take zero xs h = tt
Stamped-take (suc n) [] h = tt
Stamped-take (suc n) (none ∷ xs) h = Stamped-take n xs h
Stamped-take (suc n) (some ev ∷ xs) h = (h.0, Stamped-take n xs h.1)

pub Stamped-drop : (n : ℕ) (xs : List (Option Event)) → Stamped xs → Stamped (drop n xs)
Stamped-drop zero xs h = h
Stamped-drop (suc n) [] h = tt
Stamped-drop (suc n) (none ∷ xs) h = Stamped-drop n xs h
Stamped-drop (suc n) (some ev ∷ xs) h = Stamped-drop n xs h.1

-- How many of the first n records of the log belong to a row.
abbrev pub logged : ℕ → String → Consumer → ℕ → ℕ
logged b t c n = count_by (counts_for b t) (take n c.log)

-- The events of a row that are in the table or on their way to it.
abbrev pub held : ℕ → String → Consumer → ℕ
held b t c = row_count b t c.tables.event_rollups + row_count b t c.agg.rollups

-- From one state to another: no event is lost, those newly polled are held too, the table does not
-- shrink, and a commit covers only what the table holds.
pub record Carries (c d : Consumer) : Type 0 where
  pub log_kept : d.log ≡ c.log
  pub sound : IsSound d.agg
  pub kept :
      (b : ℕ) (t : String)
      → held b t c + logged b t c d.position ≤ held b t d + logged b t c c.position
  pub grows :
      (b : ℕ) (t : String)
      → row_count b t c.tables.event_rollups ≤ row_count b t d.tables.event_rollups
  pub commits :
      (d.committed ≡ c.committed)
      ⊎ (d.committed ≡ d.position) × ((b : ℕ) (t : String) → row_count b t d.agg.rollups ≡ 0)

pub Carries-refl : (c : Consumer) → IsSound c.agg → Carries c c
Carries-refl c s = record {
  log_kept = refl;
  sound = s;
  kept = λ b t. omega arith;
  grows = λ b t. omega arith;
  commits = inl refl;
}

-- A flush that returns nil has added every pending count to the table.
pub flush_adds :
    (sink : Sink) (o : Outcome) (t : Tables) (a : Aggregator)
    → IsSound a
    → sink.has_store ≡ true
    → (flush sink o t a).1 ≡ true
    → (b : ℕ) (k : String)
    → row_count b k (flush sink o t a).0.event_rollups
      ≡ row_count b k t.event_rollups + row_count b k a.rollups
unfolding flush
flush_adds sink o t a s stored done b k =
    ground (arith, s.capped b k, row_count-upsert b k t.event_rollups a.rollups s.distinct)

-- A flush that fails leaves the rows, or it has added every pending count to them: the latter only
-- where the answer of AddRollups is lost.
pub flush_failed :
    (sink : Sink) (o : Outcome) (t : Tables) (a : Aggregator)
    → IsSound a
    → (flush sink o t a).1 ≡ false
    → (b : ℕ) (k : String)
    → (row_count b k t.event_rollups ≤ row_count b k (flush sink o t a).0.event_rollups)
      × (is_lost o.store ≡ false
          → row_count b k (flush sink o t a).0.event_rollups ≡ row_count b k t.event_rollups)
unfolding flush
flush_failed sink o t a s failed b k = (
  ground (arith, row_count-upsert b k t.event_rollups a.rollups s.distinct),
  λ told. ground arith,
)

pub new_aggregator_empty : (b : ℕ) (t : String) → row_count b t new_aggregator.rollups ≡ 0
unfolding new_aggregator
new_aggregator_empty b t = refl

module _ (cfg : Config) (c : Consumer) (timed : Stamped c.log) (s : IsSound c.agg) where
  pub poll-conserved :
      (r : Round) (b : ℕ) (t : String)
      → held b t (poll cfg r c) + logged b t c c.position
        ≡ held b t c + logged b t c (poll cfg r c).position
  unfolding poll
  poll-conserved r b t =
      let n : ℕ = poll_limit r.fetched cfg.flush_size in
      let batch : List (Option Event) = take n (drop c.position c.log) in
      omega (
        arith,
        row_count-consume_all b t r.counted_at c.agg batch
            (Stamped-take n _ (Stamped-drop c.position c.log timed)),
        ap (count_by (counts_for b t)) (take_more c.position n c.log),
        count_by-append (counts_for b t) (take c.position c.log) batch,
      )

  pub poll-Carries : (r : Round) → Carries c (poll cfg r c)
  unfolding poll
  poll-Carries r = record {
    log_kept = refl;
    sound = consume_all-IsSound r.counted_at c.agg _ s;
    kept = λ b t. omega (arith, poll-conserved r b t);
    grows = λ b t. omega arith;
    commits = inl refl;
  }

  pub flush-Carries :
      cfg.sink.has_store ≡ true
      → (now : ℕ) (o : Outcome) (commit_ok : Bool)
      → Carries c (flush_and_commit cfg now o commit_ok c)
  unfolding flush_and_commit
  flush-Carries stored now o commit_ok = elim (Bool-cases (flush cfg.sink o c.tables c.agg).1) [
    | inl done ↦ rw (done, flush_and_commit) (after_flush done)
    | inr failed ↦ rw (failed, flush_and_commit) (after_failure failed)
  ]
    where
      after_failure :
          (flush cfg.sink o c.tables c.agg).1 ≡ false
          → Carries c (record c { tables = (flush cfg.sink o c.tables c.agg).0 })
      after_failure failed = record {
        log_kept = refl;
        sound = s;
        kept = λ b t. omega (arith, (flush_failed cfg.sink o c.tables c.agg s failed b t).0);
        grows = λ b t. (flush_failed cfg.sink o c.tables c.agg s failed b t).0;
        commits = inl refl;
      }

      after_flush :
          (flush cfg.sink o c.tables c.agg).1 ≡ true
          → Carries c (record c {
            tables = (flush cfg.sink o c.tables c.agg).0;
            committed = if commit_ok then c.position else c.committed;
            agg = new_aggregator;
            last_flush = now;
            rebalance_blocked = false;
          })
      after_flush done = record {
        log_kept = refl;
        sound = new_aggregator-IsSound;
        kept = λ b t. omega (
          arith,
          flush_adds cfg.sink o c.tables c.agg s stored done b t,
          new_aggregator_empty b t,
        );
        grows = λ b t. omega (arith, flush_adds cfg.sink o c.tables c.agg s stored done b t);
        commits = commit_cases commit_ok;
      }
        where
          commit_cases :
              (ok : Bool)
              → ((if ok then c.position else c.committed) ≡ c.committed)
                ⊎ ((if ok then c.position else c.committed) ≡ c.position)
                  × ((b : ℕ) (t : String) → row_count b t new_aggregator.rollups ≡ 0)
          commit_cases true = inr (refl, new_aggregator_empty)
          commit_cases false = inl refl

  -- A flush that does not lose its answer counts nothing twice.
  pub flush-conserved :
      cfg.sink.has_store ≡ true
      → (now : ℕ) (o : Outcome) (commit_ok : Bool) → is_lost o.store ≡ false
      → (b : ℕ) (t : String)
      → (held b t (flush_and_commit cfg now o commit_ok c) ≡ held b t c)
        × ((flush_and_commit cfg now o commit_ok c).position ≡ c.position)
  unfolding flush_and_commit
  flush-conserved stored now o commit_ok told b t =
      elim (Bool-cases (flush cfg.sink o c.tables c.agg).1) [
        | inl done ↦
            rw (done, flush_and_commit)
              (
                omega (
                  arith,
                  flush_adds cfg.sink o c.tables c.agg s stored done b t,
                  new_aggregator_empty b t,
                ),
                refl,
              )
        | inr failed ↦
            rw (failed, flush_and_commit)
              (omega (arith, (flush_failed cfg.sink o c.tables c.agg s failed b t).1 told), refl)
      ]
