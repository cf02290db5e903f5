-- ===== src/Stats/Failing.antt =====
-- A live snapshot may show more failures than requests, and by how many.
use handling_50k_requestes_p.Prelude.{
  ℕ, suc, zero, ◌+◌, ◌-◌, ◌^◌, ◌<◌, ◌≤◌, ◌≡◌, refl, Bool, true, false, List, [], ◌∷◌, ◌++◌, arith,
  Bool-cases, inl, inr, ℤ, length, String,
}
use mathlib.Core.Path.{subst}
use handling_50k_requestes_p.Prelude.Float.{Float}
use handling_50k_requestes_p.Stats.{Shard, Sample, is_error_status}
use text.Mathlib.Text.{◌==◌ as str_eq}
use handling_50k_requestes_p.Stats.Live.{
  Op, to_requests, to_failures, apply_op, ops_of, outcome_ops, all_ops, is_positive, Load, Live,
  write_next, load_next, turn, turns, reporting,
}
use handling_50k_requestes_p.Stats.Counters.{requests, failures}
use handling_50k_requestes_p.Stats.Torn.{live_in_between}

-- With `d` more requests than failures, each failure to come has its request before it.
abbrev Led : ℕ → List Op → Type 0
Led d [] = Unit {0}
Led d (to_requests ∷ os) = Led (suc d) os
Led zero (to_failures ∷ os) = ⊥
Led (suc d) (to_failures ∷ os) = Led d os
Led d (_ ∷ os) = Led d os

Led-more : (d : ℕ) (os : List Op) → Led d os → Led (suc d) os
Led-more d [] l = tt
Led-more d (to_requests ∷ os) l = Led-more (suc d) os l
Led-more zero (to_failures ∷ os) l = absurd l
Led-more (suc d) (to_failures ∷ os) l = Led-more d os l
Led-more zero (_ ∷ os) l = Led-more zero os l
Led-more (suc d) (_ ∷ os) l = Led-more (suc d) os l

outcome_ops-Led :
    (d : ℕ) (status : ℤ) (kind : String) (rest : List Op)
    → Led d rest
    → Led (suc d) (outcome_ops status kind ++ rest)
unfolding outcome_ops
outcome_ops-Led d status kind rest l = elim (Bool-cases (str_eq kind "")) [
  | inl none_given ↦ rw none_given (elim (Bool-cases (is_error_status status)) [
    | inl failed ↦ rw failed l
    | inr succeeded ↦ rw succeeded (Led-more d rest l)
  ])
  | inr given ↦ rw given l
]

ops_of-Led :
    (d : ℕ) (fl : Float) (x : Sample) (rest : List Op) → Led d rest → Led d (ops_of fl x ++ rest)
unfolding ops_of
ops_of-Led d fl x rest l = elim (Bool-cases (is_positive x.size)) [
  | inl sent ↦ rw sent (outcome_ops-Led d x.status x.err_kind rest l)
  | inr unsent ↦ rw unsent (outcome_ops-Led d x.status x.err_kind rest l)
]

all_ops-Led : (d : ℕ) (fl : Float) (xs : List Sample) → Led d (all_ops fl xs)
unfolding all_ops
all_ops-Led d fl [] = tt
all_ops-Led d fl (x ∷ xs) = ops_of-Led d fl x (all_ops fl xs) (all_ops-Led d fl xs)

-- The shard's requests lead its failures, and what is to come keeps it so.
record Leads (limit : ℕ) (ops : List Op) (s : Shard) : Type 0 where
  lead : ℕ
  apart : s.failures + lead ≡ s.requests
  led : Led lead ops
  high : s.requests + length ops ≤ limit

module _ {limit : ℕ} (room : limit < 2 ^ 64) where
  failure-Leads :
      (os : List Op) (s : Shard) (d : ℕ)
      → s.failures + d ≡ s.requests
      → Led d (to_failures ∷ os)
      → s.requests + suc (length os) ≤ limit
      → Leads limit os (apply_op to_failures s)
  unfolding apply_op
  failure-Leads os s zero e l h = absurd l
  failure-Leads os s (suc d) e l h = record {
    lead = d;
    apart = omega (arith, e, h, room);
    led = l;
    high = omega (arith, h);
  }

  op-Leads :
      (o : Op) (os : List Op) (s : Shard) → Leads limit (o ∷ os) s → Leads limit os (apply_op o s)
  unfolding apply_op
  op-Leads to_requests os s k = record {
    lead = suc k.lead;
    apart = omega (arith, k.apart, k.high, room);
    led = k.led;
    high = omega (arith, k.high, room);
  }
  op-Leads to_failures os s k = failure-Leads os s k.lead k.apart k.led k.high
  op-Leads o os s k = record {
    lead = k.lead;
    apart = k.apart;
    led = ground (arith, k.led);
    high = omega (arith, k.high);
  }

  write-Leads :
      (os : List Op) (l : Live)
      → l.ops ≡ os
      → Leads limit l.ops l.shard
      → Leads limit (write_next os l).ops (write_next os l).shard
  unfolding write_next
  write-Leads [] l e k = k
  write-Leads (o ∷ os) l e k = op-Leads o os l.shard (subst (λ ops. Leads limit ops l.shard) e k)

  load-Leads :
      (rs : List Load) (l : Live)
      → Leads limit l.ops l.shard
      → Leads limit (load_next rs l).ops (load_next rs l).shard
  unfolding load_next
  load-Leads [] l k = k
  load-Leads (r ∷ rs) l k = k

  turns-Leads :
      (bs : List Bool) (l : Live)
      → Leads limit l.ops l.shard
      → Leads limit (turns bs l).ops (turns bs l).shard
  unfolding turns turn
  turns-Leads [] l k = k
  turns-Leads (true ∷ bs) l k = turns-Leads bs (write_next l.ops l) (write-Leads l.ops l refl k)
  turns-Leads (false ∷ bs) l k = turns-Leads bs (load_next l.loads l) (load-Leads l.loads l k)

-- How far a live snapshot can be torn: if a shard shows no more failures than requests, its goroutine
-- records any samples, and the counters have room for one more per operation, then the failures of a
-- snapshot that AddShard completes meanwhile are at most its requests and those that were recorded
-- while it ran; and the shard itself never shows more failures than requests.
pub failures_torn :
    (fl : Float) (xs : List Sample) (s : Shard) (bs : List Bool)
    → s.failures ≤ s.requests
    → s.requests + length (all_ops fl xs) < 2 ^ 64
    → (turns bs (reporting (all_ops fl xs) s)).loads ≡ []
    → let l = turns bs (reporting (all_ops fl xs) s) in
      (l.shard.failures ≤ l.shard.requests)
      × (l.snap.failures ≤ l.snap.requests + (l.shard.requests - s.requests))
unfolding reporting
failures_torn fl xs s bs led room complete =
    let ops : List Op = all_ops fl xs in
    let k = turns-Leads room bs (reporting ops s) (record {
      lead = s.requests - s.failures;
      apart = omega (arith, led);
      led = all_ops-Led (s.requests - s.failures) fl xs;
      high = omega arith;
    }) in
    let r = live_in_between ops s bs requests tt room complete in
    let f = live_in_between ops s bs failures tt (omega (arith, led, room)) complete in
    (omega (arith, k.apart), omega (arith, k.apart, r.0, r.1, f.1))
