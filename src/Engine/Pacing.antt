-- ===== src/Engine/Pacing.antt =====
-- Engine.pace of engine.go: the open-model schedule, with ExpectedRequests and ScheduleOffset.
--
-- A token is the offset from the start, in nanoseconds, at which its request is due. A send that
-- blocks only delays the tokens behind it, so that the channel shows in `taken` alone: how many tokens
-- of a tick are taken before the context ends, or none where it does not end in that tick.
use handling_50k_requestes_p.Prelude.{
  ℕ, zero, suc, ◌+◌, ◌-◌, ◌≤◌, ◌≡◌, refl, ap, ◌∙◌, List, [], ◌∷◌, ◌++◌, Option, none, some, ℤ, pos,
  ltb_ℤ, max, if◌then◌else◌, arith, min, length, get_or, ◌<◌, Option-cases, inl, inr,
}
use handling_50k_requestes_p.Prelude.Float.{Float}
use handling_50k_requestes_p.Prelude.Duration.{seconds}
use handling_50k_requestes_p.Prelude.Words.{u64}

-- ExpectedRequests: the integral of the arrival rate from 0 to t.
unfoldable pub expected_requests : (fl : Float) → fl.F → ℤ → ℤ → fl.F
expected_requests fl rate ramp t =
    let s = seconds fl t in
    let r = seconds fl ramp in
    if ltb_ℤ (pos 0) ramp
    then (if fl.flt s r
        then fl.div (fl.mul (fl.mul rate s) s) (fl.mul (fl.lit 2 0) r)
        else fl.add (fl.div (fl.mul rate r) (fl.lit 2 0)) (fl.mul rate (fl.sub s r)))
    else fl.mul rate s

-- ScheduleOffset: when request n is due.
unfoldable pub schedule_offset : (fl : Float) → fl.F → ℤ → ℕ → ℕ
schedule_offset fl rate ramp n =
    let x = fl.of_ℕ n in
    let r = seconds fl ramp in
    let second = fl.lit 1000000000 0 in
    let half = fl.div (fl.mul rate r) (fl.lit 2 0) in
    fl.to_ℕ (
      if ltb_ℤ (pos 0) ramp
      then (if fl.flt x half
          then fl.mul (fl.sqrt (fl.div (fl.mul (fl.mul (fl.lit 2 0) r) x) rate)) second
          else fl.mul (fl.add r (fl.div (fl.sub x half) rate)) second)
      else fl.mul (fl.div x rate) second)

pub record Tick : Type 0 where
  pub since_start : ℤ
  pub taken : Option ℕ

-- `for sent < want`: `left` tokens are still to be sent.
unfoldable pub send_due : (ℕ → ℕ) → ℕ → ℕ → List ℕ
send_due offset zero sent = []
send_due offset (suc left) sent = offset sent ∷ send_due offset left (sent + 1)

-- The tokens of the ticks, up to the end of the context; `want` says how many are due at a time.
unfoldable pub pace_from : (ℤ → ℕ) → (ℕ → ℕ) → ℕ → List Tick → List ℕ
unfolding send_due
pace_from want offset sent [] = []
pace_from want offset sent (t ∷ ts) = elim t.taken [
  | none ↦
      send_due offset (want t.since_start - sent) sent
      ++ pace_from want offset (max sent (want t.since_start)) ts
  | some n ↦ send_due offset (min n (want t.since_start - sent)) sent
]

abbrev pub wanted : (fl : Float) → fl.F → ℤ → ℤ → ℕ
wanted fl rate ramp t = u64 (fl.to_ℕ (expected_requests fl rate ramp t))

unfoldable pub pace : (fl : Float) → fl.F → ℤ → List Tick → List ℕ
unfolding pace_from
pace fl rate ramp ticks = pace_from (wanted fl rate ramp) (schedule_offset fl rate ramp) 0 ticks

-- The highest count that was due at a tick before the context ended.
abbrev pub most_wanted : (ℤ → ℕ) → List Tick → ℕ
most_wanted want [] = 0
most_wanted want (t ∷ ts) = max (want t.since_start) (most_wanted want ts)

-- The context ends between two ticks.
abbrev pub AllTaken : List Tick → Type 0
AllTaken [] = Unit {0}
AllTaken (t ∷ ts) = (t.taken ≡ none) × AllTaken ts

length-send_due : (offset : ℕ → ℕ) (n i : ℕ) → length (send_due offset n i) ≡ n
unfolding send_due
length-send_due offset zero i = refl
length-send_due offset (suc n) i = ap suc (length-send_due offset n (i + 1))

-- Two stretches of the schedule, one behind the other, are one.
send_due-append :
    (offset : ℕ → ℕ) (m n i j : ℕ)
    → i + m ≡ j
    → send_due offset m i ++ send_due offset n j ≡ send_due offset (m + n) i
unfolding send_due
send_due-append offset zero n i j e = ground arith
send_due-append offset (suc m) n i j e =
    let g : suc m + n ≡ suc (m + n) = omega arith in
    rw g (ap (λ ts. offset i ∷ ts) (send_due-append offset m n (i + 1) j (omega arith)))

-- The tokens are one stretch of the schedule, to at most the highest count that was due.
pace_from-send_due :
    (want : ℤ → ℕ) (offset : ℕ → ℕ) (sent : ℕ) (ts : List Tick)
    → (n : ℕ) × (pace_from want offset sent ts ≡ send_due offset n sent)
      × (n ≤ most_wanted want ts - sent)
      × (AllTaken ts → n ≡ most_wanted want ts - sent)
unfolding pace_from
pace_from-send_due want offset sent [] = (0, refl, omega arith, λ h. omega arith)
pace_from-send_due want offset sent (t ∷ ts) =
    let (m, e, le, exact) = pace_from-send_due want offset (max sent (want t.since_start)) ts in
    elim (Option-cases t.taken) [
      | inl whole ↦
          let d : ℕ = want t.since_start - sent in
          let there : sent + d ≡ max sent (want t.since_start) = omega arith in
          (
            d + m,
            rw (whole, pace_from, e) (send_due-append offset d m sent _ there),
            omega (arith, le),
            λ (h, hs). omega (arith, exact hs),
          )
      | inr (k, part) ↦ (
        min k (want t.since_start - sent),
        rw (part, pace_from) refl,
        omega arith,
        λ (h, hs). absurd (cut k part h),
      )
    ]
  where
    cut : (k : ℕ) → t.taken ≡ some k → t.taken ≡ none → ⊥
    cut k part h = cc

get_or-send_due :
    (offset : ℕ → ℕ) (n i k : ℕ) → k < n → get_or (send_due offset n i) k 0 ≡ offset (i + k)
unfolding send_due
get_or-send_due offset zero i k h = absurd (omega arith)
get_or-send_due offset (suc n) i zero h = ap offset (omega arith)
get_or-send_due offset (suc n) i (suc k) h =
    get_or-send_due offset n (i + 1) k (omega arith) ∙ ap offset (omega arith)

-- However the ticker delays or drops its ticks, and however long a send blocks: if the context ends
-- between two ticks, the pacer has sent one token for each request that was due at some tick, as many
-- as the highest count that was due, and token k carries the time at which request k is due.
pub pace_complete :
    (fl : Float) (rate : fl.F) (ramp : ℤ) (ticks : List Tick) (k : ℕ)
    → AllTaken ticks
    → k < most_wanted (wanted fl rate ramp) ticks
    → (length (pace fl rate ramp ticks) ≡ most_wanted (wanted fl rate ramp) ticks)
      × (get_or (pace fl rate ramp ticks) k 0 ≡ schedule_offset fl rate ramp k)
unfolding pace
pace_complete fl rate ramp ticks k whole due =
    let (n, e, le, exact) =
      pace_from-send_due (wanted fl rate ramp) (schedule_offset fl rate ramp) 0 ticks in
    let count = exact whole in
    rw e (
      length-send_due (schedule_offset fl rate ramp) n 0 ∙ omega (arith, count),
      get_or-send_due (schedule_offset fl rate ramp) n 0 k (omega (arith, count))
          ∙ ap (schedule_offset fl rate ramp) (omega arith),
    )
