-- ===== src/Stats/LiveExamples.antt =====
-- A snapshot taken while a goroutine records, at concrete samples.
use handling_50k_requestes_p.Prelude.{
  ℕ, ◌+◌, ◌-◌, ◌^◌, ◌≤◌, ◌≡◌, refl, Bool, true, false, List, [], ◌∷◌, arith, pos, zero, suc,
}
use handling_50k_requestes_p.Prelude.Words.{sub64}
use handling_50k_requestes_p.Stats.{Sample, new_shard, is_error_status}
use handling_50k_requestes_p.Stats.Live.{
  all_ops, ops_of, outcome_ops, turns, turn, write_next, load_next, reporting, all_loads, each_load,
  apply_op, apply_load,
}
use handling_50k_requestes_p.Stats.{new_snapshot}
use handling_50k_requestes_p.Stats.Counters.{shown, requests}
use handling_50k_requestes_p.Stats.Torn.{live_grows, next_report}
use handling_50k_requestes_p.Stats.Failing.{failures_torn}
use handling_50k_requestes_p.Stats.Examples.{fixed}

-- A response of status 503, after 2 ms.
abbrev unavailable : Sample
unavailable = record { latency = pos 2000000; status = pos 503; size = pos 0; err_kind = "" }

-- The same turn, several times.
abbrev times : ℕ → Bool → List Bool → List Bool
times zero b rest = rest
times (suc n) b rest = b ∷ times n b rest

-- AddShard has loaded the buckets and the requests when the request is recorded.
abbrev torn : List Bool
torn = times 907 false (times 7 true (times 12 false []))

torn_complete : (turns torn (reporting (all_ops fixed (unavailable ∷ [])) new_shard)).loads ≡ []
unfolding turns turn write_next load_next reporting all_loads each_load all_ops ops_of outcome_ops
    is_error_status
torn_complete = refl

-- More failures than requests: their difference, the successes that the dashboard prints, wraps.
torn_wraps :
    let sn = (turns torn (reporting (all_ops fixed (unavailable ∷ [])) new_shard)).snap in
    (sn.requests ≡ 0) × (sn.failures ≡ 1) × (sub64 sn.requests sn.failures ≡ 2 ^ 64 - 1)
unfolding turns turn write_next load_next reporting all_loads each_load all_ops ops_of outcome_ops
    is_error_status apply_op apply_load new_shard new_snapshot
torn_wraps = (refl, refl, refl)

failures_torn_example :
    let l = turns torn (reporting (all_ops fixed (unavailable ∷ [])) new_shard) in
    (l.shard.failures ≤ l.shard.requests)
    × (l.snap.failures ≤ l.snap.requests + (l.shard.requests - new_shard.requests))
unfolding new_shard all_ops ops_of outcome_ops is_error_status
failures_torn_example =
    failures_torn fixed (unavailable ∷ []) new_shard torn (omega arith) (omega arith) torn_complete

-- The loads of the same reporter's next snapshot.
abbrev quiet : List Bool
quiet = times 919 false []

quiet_complete :
    (turns quiet
      (next_report (turns torn (reporting (all_ops fixed (unavailable ∷ [])) new_shard)))).loads
    ≡ []
unfolding turns turn write_next load_next reporting all_loads each_load all_ops ops_of outcome_ops
    is_error_status
quiet_complete = refl

live_grows_example :
    shown requests (turns torn (reporting (all_ops fixed (unavailable ∷ [])) new_shard)).snap
    ≤ shown requests
        (turns quiet
          (next_report (turns torn (reporting (all_ops fixed (unavailable ∷ [])) new_shard)))).snap
unfolding new_shard all_ops ops_of outcome_ops is_error_status
live_grows_example =
    live_grows (all_ops fixed (unavailable ∷ [])) new_shard torn quiet requests tt (omega arith)
      torn_complete quiet_complete
