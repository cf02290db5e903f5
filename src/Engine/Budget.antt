-- ===== src/Engine/Budget.antt =====
-- The request budget, and that every request begun is recorded, in every interleaving.
use handling_50k_requestes_p.Prelude.{
  ℕ, zero, suc, ◌+◌, ◌≤◌, ◌<◌, ◌≡◌, refl, Bool, true, false, List, [], ◌∷◌, arith, inl, inr, ◌^◌,
}
use handling_50k_requestes_p.Engine.Run.{
  Phase, waiting, cleared, busy, finished, Goroutine, Shared, Plan, look, claim, complete, act,
  Event, looks, claims, completes, cancels, happen, happen_all, spawn, start,
}
use handling_50k_requestes_p.Engine.Actions.{
  ended, in_flight, samples, alive, total, Inv, Keeps, goroutine, look_at, complete_at, claim_at,
}

-- The invariant of a whole run.
abbrev pub RunInv : Plan → Bool → ℕ → Shared × List Goroutine → Type 0
RunInv plan q n s =
    Inv plan q n s.0 (total ended s.1) (total in_flight s.1) (total samples s.1) (total alive s.1)

-- The totals over a goroutine and others, with the totals over goroutines before them added.
abbrev Around : Plan → Bool → ℕ → Shared → List Goroutine → ℕ → ℕ → ℕ → ℕ → Type 0
Around plan q n sh gs a b c d =
    Inv plan q n sh (total ended gs + a) (total in_flight gs + b) (total samples gs + c)
      (total alive gs + d)

-- The totals may be written otherwise.
recount :
    (plan : Plan) (q : Bool) (n : ℕ) (sh : Shared) (a b c d a' b' c' d' : ℕ)
    → a ≡ a'
    → b ≡ b'
    → c ≡ c'
    → d ≡ d'
    → Inv plan q n sh a b c d
    → Inv plan q n sh a' b' c' d'
recount plan q n sh a b c d a' b' c' d' e f g h v = record {
  present = omega (arith, v.present);
  recorded = omega (arith, v.recorded);
  bounded = v.bounded;
  counted = v.counted;
  excess = omega (arith, v.excess);
  exact = v.exact;
  reason = ground (arith, v.reason);
}

act-Around :
    (plan : Plan) (q : Bool) (n w : ℕ) (f : Shared → Goroutine → Shared × Goroutine)
    → Keeps plan q n f
    → (sh : Shared) (gs : List Goroutine) (a b c d : ℕ) → Around plan q n sh gs a b c d
    → Around plan q n (act w f sh gs).0 (act w f sh gs).1 a b c d
unfolding act
act-Around plan q n w f keeps sh [] a b c d v = v
act-Around plan q n zero f keeps sh (g ∷ gs) a b c d v =
    recount plan q n _ _ _ _ _ _ _ _ _ (omega arith) (omega arith) (omega arith) (omega arith) (
      keeps sh g (total ended gs + a) (total in_flight gs + b) (total samples gs + c)
        (total alive gs + d)
        (recount plan q n _ _ _ _ _ _ _ _ _ (omega arith) (omega arith) (omega arith) (omega arith)
          v))
act-Around plan q n (suc w) f keeps sh (g ∷ gs) a b c d v =
    recount plan q n _ _ _ _ _ _ _ _ _ (omega arith) (omega arith) (omega arith) (omega arith) (
      act-Around plan q n w f keeps sh gs (ended g + a) (in_flight g + b) (samples g + c)
        (alive g + d)
        (recount plan q n _ _ _ _ _ _ _ _ _ (omega arith) (omega arith) (omega arith) (omega arith)
          v))

act-RunInv :
    (plan : Plan) (q : Bool) (n w : ℕ) (f : Shared → Goroutine → Shared × Goroutine)
    → Keeps plan q n f
    → (s : Shared × List Goroutine) → RunInv plan q n s
    → RunInv plan q n (act w f s.0 s.1)
act-RunInv plan q n w f keeps (sh, gs) v =
    recount plan q n _ _ _ _ _ _ _ _ _ (omega arith) (omega arith) (omega arith) (omega arith) (
      act-Around plan q n w f keeps sh gs 0 0 0 0 (
        recount plan q n _ _ _ _ _ _ _ _ _ (omega arith) (omega arith) (omega arith) (omega arith)
          v))

-- A run that may not be cancelled has no event that cancels it.
abbrev pub AllowedBy : Bool → List Event → Type 0
AllowedBy q [] = Unit {0}
AllowedBy q (looks w t ∷ es) = AllowedBy q es
AllowedBy q (claims w ∷ es) = AllowedBy q es
AllowedBy q (completes w ∷ es) = AllowedBy q es
AllowedBy q (cancels ∷ es) = (q ≡ true) × AllowedBy q es

module _ (plan : Plan) (q : Bool) (n : ℕ) (limited : 0 < plan.max_requests)
    (fits : plan.max_requests + n < 2 ^ 64) where
  happen_all-RunInv :
      (s : Shared × List Goroutine) (es : List Event)
      → AllowedBy q es
      → RunInv plan q n s
      → RunInv plan q n (happen_all plan s es)
  unfolding happen_all happen
  happen_all-RunInv s [] h v = v
  happen_all-RunInv (sh, gs) (looks w t ∷ es) h v =
      happen_all-RunInv (act w (look plan t) sh gs) es h (
        act-RunInv plan q n w (look plan t)
          (λ sh g a b c d. look_at plan q n t g.phase g.idx g.recorded sh a b c d) (sh, gs) v)
  happen_all-RunInv (sh, gs) (claims w ∷ es) h v =
      happen_all-RunInv (act w (claim plan) sh gs) es h (
        act-RunInv plan q n w (claim plan)
          (λ sh g a b c d. claim_at plan q n limited fits g.phase g.idx g.recorded sh a b c d)
          (sh, gs) v)
  happen_all-RunInv (sh, gs) (completes w ∷ es) h v =
      happen_all-RunInv (act w complete sh gs) es h (
        act-RunInv plan q n w complete
          (λ sh g a b c d. complete_at plan q n g.phase g.idx g.recorded sh a b c d) (sh, gs) v)
  happen_all-RunInv (sh, gs) (cancels ∷ es) (may, h) v =
      happen_all-RunInv (record sh { stopped = true }, gs) es h
        record {
          present = v.present;
          recorded = v.recorded;
          bounded = v.bounded;
          counted = v.counted;
          excess = v.excess;
          exact = v.exact;
          reason = inl may;
        }

  spawn_totals :
      (i m : ℕ)
      → (total ended (spawn plan i m) ≡ 0)
        × (total in_flight (spawn plan i m) ≡ 0)
        × (total samples (spawn plan i m) ≡ 0)
        × (total alive (spawn plan i m) ≡ m)
  unfolding spawn
  spawn_totals i zero = (refl, refl, refl, refl)
  spawn_totals i (suc m) =
      let (a, b, c, d) = spawn_totals (i + 1) m in
      (omega (arith, a), omega (arith, b), omega (arith, c), omega (arith, d))

  start-RunInv : RunInv plan q n (start plan n)
  unfolding start
  start-RunInv =
      let (a, b, c, d) = spawn_totals 0 n in
      record {
        present = omega (arith, a, d);
        recorded = omega (arith, b, c);
        bounded = omega arith;
        counted = omega arith;
        excess = omega arith;
        exact = inl refl;
        reason = inr (inl (refl, a));
      }

all_allowed : (es : List Event) → AllowedBy true es
all_allowed [] = tt
all_allowed (looks w t ∷ es) = all_allowed es
all_allowed (claims w ∷ es) = all_allowed es
all_allowed (completes w ∷ es) = all_allowed es
all_allowed (cancels ∷ es) = (refl, all_allowed es)

flying_lem : (p : Phase) (i r : ℕ) → in_flight (goroutine p i r) ≤ alive (goroutine p i r)
flying_lem waiting i r = omega arith
flying_lem cleared i r = omega arith
flying_lem busy i r = omega arith
flying_lem finished i r = omega arith

in_flight-alive : (gs : List Goroutine) → total in_flight gs ≤ total alive gs
in_flight-alive [] = omega arith
in_flight-alive (g ∷ gs) = omega (arith, flying_lem g.phase g.idx g.recorded, in_flight-alive gs)

-- Under every interleaving of `n` goroutines, with or without a rate, with ticks, cancellations and
-- completions in any order, and a positive request limit whose sum with `n` fits 64 bits: at most as many
-- requests as the limit are begun, and each is in flight or in the shard of its goroutine.
pub budget_kept :
    (plan : Plan) (n : ℕ) (es : List Event)
    → 0 < plan.max_requests
    → plan.max_requests + n < 2 ^ 64
    → let (sh, gs) = happen_all plan (start plan n) es in
      (sh.sent ≤ plan.max_requests) × (sh.sent ≡ total samples gs + total in_flight gs)
budget_kept plan n es limited fits =
    let v =
      happen_all-RunInv plan true n limited fits (start plan n) es (all_allowed es)
        (start-RunInv plan true n limited fits) in
    (v.bounded, v.recorded)

-- Under every interleaving of at least one goroutine, with or without a rate, without a cancellation
-- from outside, and with a positive request limit whose sum with the number of goroutines fits 64 bits:
-- once every goroutine has ended, the shards hold exactly as many samples as the request limit.
pub budget_used :
    (plan : Plan) (n : ℕ) (es : List Event)
    → 0 < plan.max_requests
    → plan.max_requests + n < 2 ^ 64
    → 0 < n
    → AllowedBy false es
    → total ended (happen_all plan (start plan n) es).1 ≡ n
    → total samples (happen_all plan (start plan n) es).1 ≡ plan.max_requests
budget_used plan n es limited fits some_run uncancelled all_ended =
    let v =
      happen_all-RunInv plan false n limited fits (start plan n) es uncancelled
        (start-RunInv plan false n limited fits) in
    let gs = (happen_all plan (start plan n) es).1 in
    ground (arith, v.reason, v.present, v.recorded, all_ended, some_run, in_flight-alive gs)
