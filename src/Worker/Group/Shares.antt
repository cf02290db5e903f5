-- ===== src/Worker/Group/Shares.antt =====
-- What the workers of a group have read and not written, as sums over their partitions.
use handling_50k_requestes_p.Prelude.{
  ℕ, ◌+◌, ◌<◌, ◌≡◌, count_by-append, String, Bool, true, false, some, arith, if◌then◌else◌,
  count_by, take, length, update, ap, Bool-cases, inl, inr, ◌==◌,
}
use handling_50k_requestes_p.Prelude.Sums.{sum, sum_same, sum_exchange, sum_raised}
use handling_50k_requestes_p.Worker.{Sink, Outcome, flush, new_aggregator}
use handling_50k_requestes_p.Worker.Aggregate.{
  row_count, counts_for, Stamped, IsSound, new_aggregator-IsSound, consume_all-IsSound,
  row_count-consume_all,
}
use handling_50k_requestes_p.Worker.Carry.{take_more, Stamped-take, Stamped-drop}
use handling_50k_requestes_p.Worker.Group.{
  Partition, Group, owned_by, batch_of, fetch, idle_poll, flush_group, assign, evict, crash, Step,
  fetched, idled, flushed, commit_offset, rebalanced, calm, flushed_partly, evicted, crashed,
}

-- How many of the first `k` records of a partition belong to a row.
abbrev pub logged : ℕ → String → Partition → ℕ → ℕ
logged b t part k = count_by (counts_for b t) (take k part.log)

-- The same, up to the committed offset and up to the position.
abbrev pub logged_committed : ℕ → String → (ℕ → Partition) → ℕ → ℕ
logged_committed b t parts p = logged b t (parts p) (parts p).committed

abbrev pub logged_read : ℕ → String → (ℕ → Partition) → ℕ → ℕ
logged_read b t parts p = logged b t (parts p) (parts p).position

-- A family, with 0 for the partitions of others.
abbrev pub mine : ℕ → (ℕ → Partition) → (ℕ → ℕ) → ℕ → ℕ
mine m parts f p = if owned_by m (parts p).owner then f p else 0

pub record Sound (g : Group) : Type 0 where
  pub timed : (p : ℕ) → Stamped (g.parts p).log
  pub sound : (m : ℕ) → IsSound (g.aggs m)

module _ (b : ℕ) (t : String) where
  pub logged-batch :
      (part : Partition) (k : ℕ)
      → logged b t part (part.position + length (batch_of part k))
        ≡ logged b t part part.position + count_by (counts_for b t) (batch_of part k)
  logged-batch part k = omega (
    arith,
    ap (count_by (counts_for b t)) (take_more part.position k part.log),
    count_by-append (counts_for b t) (take part.position part.log) (batch_of part k),
  )

  module _ {g : Group} (s : Sound g) where
    open s use {timed, sound}

    pub read-fetch :
        (m p k now q : ℕ)
        → logged_read b t (fetch m p k now g).parts q ≡ (
            if p == q
            then logged_read b t g.parts q + count_by (counts_for b t) (batch_of (g.parts p) k)
            else logged_read b t g.parts q)
    unfolding fetch
    read-fetch m p k now q = ground (arith, logged-batch (g.parts p) k)

    -- What a fetch adds to the rows that worker `j` has pending.
    abbrev gain : (m p k j : ℕ) → ℕ
    gain m p k j = if m == j then count_by (counts_for b t) (batch_of (g.parts p) k) else 0

    pub aggs-fetch :
        (m p k now j : ℕ)
        → row_count b t ((fetch m p k now g).aggs j).rollups
          ≡ row_count b t (g.aggs j).rollups + gain m p k j
    unfolding fetch
    aggs-fetch m p k now j = ground (
      arith,
      row_count-consume_all b t now (g.aggs m) (batch_of (g.parts p) k)
          (Stamped-take k _ (Stamped-drop (g.parts p).position _ (timed p))),
    )

    pub mine_read-fetch :
        (n m p k now j : ℕ)
        → p < n
        → (g.parts p).owner ≡ some m
        → sum n (mine j (fetch m p k now g).parts (logged_read b t (fetch m p k now g).parts))
          ≡ sum n (mine j g.parts (logged_read b t g.parts)) + gain m p k j
    unfolding fetch
    mine_read-fetch n m p k now j below owned =
        sum_raised n p (gain m p k j) _ _ below (λ q. ground (arith, read-fetch m p k now q))

    pub mine-fetch :
        (n m p k now j : ℕ) (f : ℕ → ℕ)
        → sum n (mine j (fetch m p k now g).parts f) ≡ sum n (mine j g.parts f)
    unfolding fetch
    mine-fetch n m p k now j f = sum_same n _ _ (λ q. ground arith)

-- `f`, with the value of `g` for the partitions of worker `m`.
abbrev pub settled : ℕ → (ℕ → Partition) → (ℕ → ℕ) → (ℕ → ℕ) → ℕ → ℕ
settled m parts f g p = if owned_by m (parts p).owner then g p else f p

module _ (n m : ℕ) (parts : ℕ → Partition) (f g : ℕ → ℕ) where
  pub sum-settled :
      sum n (settled m parts f g) + sum n (mine m parts f) ≡ sum n f + sum n (mine m parts g)
  sum-settled = sum_exchange n _ _ _ _ (λ q. ground arith)

  pub mine-settled_self : sum n (mine m parts (settled m parts f g)) ≡ sum n (mine m parts g)
  mine-settled_self = sum_same n _ _ (λ q. ground arith)

  pub mine-settled_other :
      (j : ℕ)
      → (m == j) ≡ false
      → sum n (mine j parts (settled m parts f g)) ≡ sum n (mine j parts f)
  mine-settled_other j other = sum_same n _ _ (λ q. ground arith)

module _ (n m : ℕ) (ok : ℕ → Bool) (parts : ℕ → Partition) where
  abbrev pub committing : ℕ → Partition
  committing p = commit_offset m (ok p) (parts p)

  pub mine-committing : (j : ℕ) (f : ℕ → ℕ) → sum n (mine j committing f) ≡ sum n (mine j parts f)
  mine-committing j f = sum_same n _ _ (λ q. ground arith)

  pub mine_read-committing :
      (b : ℕ) (t : String) (j : ℕ)
      → sum n (mine j committing (logged_read b t committing))
        ≡ sum n (mine j parts (logged_read b t parts))
  mine_read-committing b t j = sum_same n _ _ (λ q. ground arith)

module _ {g : Group} (s : Sound g) where
  fetch-Sound : (m p k now : ℕ) → Sound (fetch m p k now g)
  unfolding fetch
  fetch-Sound m p k now = record {
    timed = λ q. ground (arith, s.timed q);
    sound = λ j. elim (Bool-cases (m == j)) [
      | inl same ↦ rw same (consume_all-IsSound now (g.aggs m) (batch_of (g.parts p) k) (s.sound m))
      | inr other ↦ rw other (s.sound j)
    ];
  }

  reset-IsSound : (m j : ℕ) → IsSound (update g.aggs m new_aggregator j)
  reset-IsSound m j = elim (Bool-cases (m == j)) [
    | inl same ↦ rw same new_aggregator-IsSound
    | inr other ↦ rw other (s.sound j)
  ]

  flush-Sound :
      (sink : Sink) (m : ℕ) (o : Outcome) (ok : ℕ → Bool) → Sound (flush_group sink m o ok g)
  unfolding flush_group
  flush-Sound sink m o ok = elim (Bool-cases (flush sink o g.tables (g.aggs m)).1) [
    | inl done ↦
        rw (done, flush_group)
          (record { timed = λ q. ground (arith, s.timed q); sound = reset-IsSound m })
    | inr failed ↦ rw (failed, flush_group) (record { timed = s.timed; sound = s.sound })
  ]

  pub Step-Sound : {sink : Sink} {n : ℕ} {h : Group} → Step sink n g h → Sound h
  unfolding idle_poll assign evict crash
  Step-Sound (calm (fetched m p k now below owned)) = fetch-Sound m p k now
  Step-Sound (calm (idled m)) = record { timed = s.timed; sound = s.sound }
  Step-Sound {sink} (calm (flushed m o told)) = flush-Sound sink m o (λ p. true)
  Step-Sound (calm (rebalanced p to free)) = record {
    timed = λ q. ground (arith, s.timed q);
    sound = s.sound;
  }
  Step-Sound {sink} (flushed_partly m o ok) = flush-Sound sink m o ok
  Step-Sound (evicted m) = record { timed = λ q. ground (arith, s.timed q); sound = s.sound }
  Step-Sound (crashed m) = record {
    timed = λ q. ground (arith, s.timed q);
    sound = reset-IsSound m;
  }
