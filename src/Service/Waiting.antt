-- ===== src/Service/Waiting.antt =====
-- waitForPostgres of cmd/api: attempts until the database answers or the context is over.
use handling_50k_requestes_p.Prelude.{
  ℕ, zero, suc, ◌+◌, ◌*◌, ◌≤◌, ◌<◌, ◌≡◌, refl, Bool, true, false, ◌&&◌, Option, none, some, ◌⊎◌,
  inl, inr, arith, min, if◌then◌else◌, Bool-cases, ltb,
}

-- One attempt: whether the pool can be made and the ping succeeds, and whether the context is over
-- by the end of the pause after it.
pub record Attempt : Type 0 where
  pub pool_ok : Bool
  pub ping_ok : Bool
  pub over : Bool

-- How the wait ends: at which attempt, and whether it has a database. `pools` counts the pools that
-- were opened, `closed` those that were closed again, `slept` the seconds of the pauses.
pub record Waited : Type 0 where
  pub attempt : ℕ
  pub connected : Bool
  pub pools : ℕ
  pub closed : ℕ
  pub slept : ℕ

abbrev one_if : Bool → ℕ
one_if true = 1
one_if false = 0

-- The loop, on fuel; `none` means that the fuel ran out. The pause after attempt n is n seconds, at
-- most 10; the pause in which the context ends counts whole.
unfoldable pub wait_for_postgres : (ℕ → Attempt) → ℕ → Waited → Option Waited
wait_for_postgres world zero w = none
wait_for_postgres world (suc fuel) w =
    let a = world w.attempt in
    let opened = record w { pools = w.pools + one_if a.pool_ok } in
    let paused = record opened {
      closed = w.closed + one_if a.pool_ok;
      slept = w.slept + min w.attempt 10;
    } in
    let rest = wait_for_postgres world fuel (record paused { attempt = w.attempt + 1 }) in
    if a.pool_ok && a.ping_ok
    then some (record opened { connected = true })
    else if a.over
    then some paused
    else rest

abbrev pub first_attempt : Waited
first_attempt = record { attempt = 1; connected = false; pools = 0; closed = 0; slept = 0 }

-- The attempt after which the loop stops.
abbrev pub Stops : Attempt → Type 0
Stops a = ((a.pool_ok && a.ping_ok) ≡ true) ⊎ (a.over ≡ true)

-- What a wait that began at a state ends with: it stops at an attempt that ends it, within the fuel,
-- it has the database exactly if the ping of that attempt succeeded, and every other pool is closed.
pub record Ends (world : ℕ → Attempt) (w r : Waited) : Type 0 where
  pub stops : Stops (world r.attempt)
  pub connects : r.connected ≡ ((world r.attempt).pool_ok && (world r.attempt).ping_ok)
  pub balanced : r.pools ≡ r.closed + one_if r.connected
  pub paced : r.slept + 10 * w.attempt ≤ w.slept + 10 * (r.attempt + 1)

not_last :
    (world : ℕ → Attempt) (n k : ℕ)
    → ((world n).pool_ok && (world n).ping_ok) ≡ false
    → (world n).over ≡ false
    → n ≤ k
    → Stops (world k)
    → n < k
not_last world n k down live lo s = elim (Bool-cases (ltb n k)) [
  | inl lt ↦ ground arith
  | inr ge ↦ let same : n ≡ k = ground arith in absurd (stopped (rw same s))
]
  where
    stopped : Stops (world n) → ⊥
    stopped (inl up) = cc
    stopped (inr over) = cc

wait_total :
    (world : ℕ → Attempt) (fuel k : ℕ) (w : Waited)
    → w.connected ≡ false
    → w.pools ≡ w.closed
    → w.attempt ≤ k
    → k < w.attempt + fuel
    → Stops (world k)
    → (r : Waited) × (wait_for_postgres world fuel w ≡ some r) × (r.attempt ≤ k) × Ends world w r
unfolding wait_for_postgres
wait_total world zero k w c b lo hi s = absurd (omega arith)
wait_total world (suc fuel) k w c b lo hi s =
    elim (Bool-cases ((world w.attempt).pool_ok && (world w.attempt).ping_ok)) [
      | inl up ↦ (
        record w { connected = true; pools = w.pools + one_if (world w.attempt).pool_ok },
        rw up refl,
        lo,
        record {
          stops = inl up;
          connects = ground arith;
          balanced = ground arith;
          paced = omega arith;
        },
      )
      | inr down ↦ elim (Bool-cases (world w.attempt).over) [
        | inl over ↦ (
          record w {
            pools = w.pools + one_if (world w.attempt).pool_ok;
            closed = w.closed + one_if (world w.attempt).pool_ok;
            slept = w.slept + min w.attempt 10;
          },
          rw (down, over) refl,
          lo,
          record {
            stops = inr over;
            connects = ground arith;
            balanced = ground arith;
            paced = omega arith;
          },
        )
        | inr live ↦
            let more = not_last world w.attempt k down live lo s in
            let next : Waited = record w {
              attempt = w.attempt + 1;
              pools = w.pools + one_if (world w.attempt).pool_ok;
              closed = w.closed + one_if (world w.attempt).pool_ok;
              slept = w.slept + min w.attempt 10;
            } in
            let (r, runs, within, ends) =
              wait_total world fuel k next c (omega (arith, b)) (omega arith) (omega arith) s in
            (
              r,
              rw (down, live) runs,
              within,
              record {
                stops = ends.stops;
                connects = ends.connects;
                balanced = ends.balanced;
                paced = omega (arith, ends.paced);
              },
            )
      ]
    ]

-- Termination: if some attempt k connects, or the context is over by the end of its pause (the callers
-- give the context a timeout), then fuel k is enough, and any more gives a result too. The wait ends
-- at an attempt up to k that connects or after which the context is over; it is connected exactly if
-- that attempt connects; every pool that it opened but the one it returns is closed; and the pauses
-- add up to at most ten seconds for each attempt.
pub wait_for_postgres-Ends :
    (world : ℕ → Attempt) (k fuel : ℕ)
    → 1 ≤ k
    → k ≤ fuel
    → Stops (world k)
    → (r : Waited) × (wait_for_postgres world fuel first_attempt ≡ some r)
      × (r.attempt ≤ k)
      × Ends world first_attempt r
wait_for_postgres-Ends world k fuel lo hi s =
    wait_total world fuel k first_attempt refl refl lo (omega arith) s
