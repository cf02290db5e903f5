-- ===== src/Engine/Actions.antt =====
-- What each action of a goroutine keeps of the request budget and of the recorded samples.
use handling_50k_requestes_p.Prelude.{
  ℕ, ◌+◌, ◌≤◌, ◌<◌, ◌≡◌, refl, Bool, true, false, List, [], ◌∷◌, ltb, if◌then◌else◌, arith, ◌⊎◌,
  ◌^◌,
}
use handling_50k_requestes_p.Prelude.Words.{u64}
use handling_50k_requestes_p.Engine.Run.{
  Phase, waiting, cleared, busy, finished, Goroutine, Shared, Plan, look, begin, claim, complete,
}

abbrev pub ended : Goroutine → ℕ
ended g = elim g.phase [ waiting ↦ 0 | cleared ↦ 0 | busy ↦ 0 | finished ↦ 1 ]

abbrev pub in_flight : Goroutine → ℕ
in_flight g = elim g.phase [ waiting ↦ 0 | cleared ↦ 0 | busy ↦ 1 | finished ↦ 0 ]

abbrev pub samples : Goroutine → ℕ
samples g = g.recorded

abbrev pub alive : Goroutine → ℕ
alive g = elim g.phase [ waiting ↦ 1 | cleared ↦ 1 | busy ↦ 1 | finished ↦ 0 ]

abbrev pub total : (Goroutine → ℕ) → List Goroutine → ℕ
total m [] = 0
total m (g ∷ gs) = m g + total m gs

-- What holds of a run of `n` goroutines, by the totals over them; `q` says whether the run may be
-- cancelled.
pub record Inv (plan : Plan) (q : Bool) (n : ℕ) (sh : Shared) (over flying taken live : ℕ)
    : Type 0 where
  pub present : over + live ≡ n
  pub recorded : sh.sent ≡ taken + flying
  pub bounded : sh.sent ≤ plan.max_requests
  pub counted : sh.sent ≤ sh.issued
  pub excess : sh.issued ≤ sh.sent + over
  pub exact : (sh.sent ≡ sh.issued) ⊎ (sh.sent ≡ plan.max_requests)
  pub reason : (q ≡ true) ⊎ (sh.stopped ≡ false) × (over ≡ 0) ⊎ (sh.sent ≡ plan.max_requests)

-- An action keeps the invariant, whatever the other goroutines' totals.
abbrev pub Keeps : Plan → Bool → ℕ → (Shared → Goroutine → Shared × Goroutine) → Type 0
Keeps plan q n f =
    (sh : Shared) (g : Goroutine) (a b c d : ℕ)
    → Inv plan q n sh (ended g + a) (in_flight g + b) (samples g + c) (alive g + d)
    → Inv plan q n (f sh g).0 (ended (f sh g).1 + a) (in_flight (f sh g).1 + b)
        (samples (f sh g).1 + c) (alive (f sh g).1 + d)

abbrev pub goroutine : Phase → ℕ → ℕ → Goroutine
goroutine p i r = record { phase = p; idx = i; recorded = r }

module _ (plan : Plan) (q : Bool) (n : ℕ) where
  if-Inv :
      (test : Bool) (x y : Shared × Goroutine) (a b c d : ℕ)
      → (test ≡ true
          → Inv plan q n x.0 (ended x.1 + a) (in_flight x.1 + b) (samples x.1 + c) (alive x.1 + d))
      → (test ≡ false
          → Inv plan q n y.0 (ended y.1 + a) (in_flight y.1 + b) (samples y.1 + c) (alive y.1 + d))
      → let z = if test then x else y in
        Inv plan q n z.0 (ended z.1 + a) (in_flight z.1 + b) (samples z.1 + c) (alive z.1 + d)
  if-Inv true x y a b c d h k = h refl
  if-Inv false x y a b c d h k = k refl

  pub look_at :
      (t : Bool) (p : Phase) (i r : ℕ) (sh : Shared) (a b c d : ℕ)
      → let g = goroutine p i r in
        Inv plan q n sh (ended g + a) (in_flight g + b) (samples g + c) (alive g + d)
        → let z = look plan t sh (goroutine p i r) in
          Inv plan q n z.0 (ended z.1 + a) (in_flight z.1 + b) (samples z.1 + c) (alive z.1 + d)
  unfolding look
  look_at t waiting i r sh a b c d v =
      if-Inv _ _ _ a b c d
        (λ e. record {
          present = omega (arith, v.present);
          recorded = v.recorded;
          bounded = v.bounded;
          counted = v.counted;
          excess = omega (arith, v.excess);
          exact = v.exact;
          reason = ground (arith, v.reason);
        })
        (λ e. record {
          present = v.present;
          recorded = v.recorded;
          bounded = v.bounded;
          counted = v.counted;
          excess = v.excess;
          exact = v.exact;
          reason = v.reason;
        })
  look_at t cleared i r sh a b c d v = v
  look_at t busy i r sh a b c d v = v
  look_at t finished i r sh a b c d v = v

  pub complete_at :
      (p : Phase) (i r : ℕ) (sh : Shared) (a b c d : ℕ)
      → let g = goroutine p i r in
        Inv plan q n sh (ended g + a) (in_flight g + b) (samples g + c) (alive g + d)
        → let z = complete sh (goroutine p i r) in
          Inv plan q n z.0 (ended z.1 + a) (in_flight z.1 + b) (samples z.1 + c) (alive z.1 + d)
  unfolding complete
  complete_at waiting i r sh a b c d v = v
  complete_at cleared i r sh a b c d v = v
  complete_at busy i r sh a b c d v = record {
    present = v.present;
    recorded = omega (arith, v.recorded);
    bounded = v.bounded;
    counted = v.counted;
    excess = v.excess;
    exact = v.exact;
    reason = v.reason;
  }
  complete_at finished i r sh a b c d v = v

module _ (plan : Plan) (q : Bool) (n : ℕ) (limited : 0 < plan.max_requests)
    (fits : plan.max_requests + n < 2 ^ 64) where
  pub claim_at :
      (p : Phase) (i r : ℕ) (sh : Shared) (a b c d : ℕ)
      → let g = goroutine p i r in
        Inv plan q n sh (ended g + a) (in_flight g + b) (samples g + c) (alive g + d)
        → let z = claim plan sh (goroutine p i r) in
          Inv plan q n z.0 (ended z.1 + a) (in_flight z.1 + b) (samples z.1 + c) (alive z.1 + d)
  unfolding claim
  claim_at waiting i r sh a b c d v = v
  claim_at cleared i r sh a b c d v =
      let on : ltb 0 plan.max_requests ≡ true = ground arith in
      rw on (
        if-Inv plan q n (ltb plan.max_requests (u64 (sh.issued + 1)))
          (record sh { issued = u64 (sh.issued + 1); stopped = true }, goroutine finished i r)
          (begin plan (record sh { issued = u64 (sh.issued + 1) }) (goroutine cleared i r)) a b c d
          (λ e. record {
            present = omega (arith, v.present);
            recorded = v.recorded;
            bounded = v.bounded;
            counted = ground (arith, v.counted, v.excess, v.present, v.bounded);
            excess = ground (arith, v.counted, v.excess, v.present, v.bounded);
            exact = ground (arith, v.counted, v.excess, v.present, v.bounded, v.exact);
            reason = ground (arith, v.counted, v.excess, v.present, v.bounded, v.exact, v.reason);
          })
          (λ e. record {
            present = v.present;
            recorded = omega (arith, v.recorded);
            bounded = ground (arith, v.counted, v.excess, v.present, v.bounded, v.exact);
            counted = ground (arith, v.counted, v.excess, v.present, v.bounded);
            excess = ground (arith, v.counted, v.excess, v.present, v.bounded);
            exact = ground (arith, v.counted, v.excess, v.present, v.bounded, v.exact);
            reason = ground (arith, v.counted, v.excess, v.present, v.bounded, v.exact, v.reason);
          }))
  claim_at busy i r sh a b c d v = v
  claim_at finished i r sh a b c d v = v
