-- ===== src/Remote/Reporting.antt =====
-- The final report is sent until it is accepted, at most five times.
use handling_50k_requestes_p.Prelude.{
  ℕ, zero, suc, ◌+◌, ◌≤◌, ◌<◌, ◌≡◌, Bool, true, false, not, List, [], ◌∷◌, Option, arith, leb, ◌==◌,
  if◌then◌else◌, Bool-cases, inl, inr,
}
use handling_50k_requestes_p.Remote.{
  Sent, register, poll_job, report_error, report_progress, report_final, Script, client_do,
  final_report, progress, execute, await_job, run_once,
}

abbrev pub finals_in : List Sent → ℕ
finals_in [] = 0
finals_in (register ∷ xs) = finals_in xs
finals_in (poll_job ∷ xs) = finals_in xs
finals_in (report_error ∷ xs) = finals_in xs
finals_in (report_progress ∷ xs) = finals_in xs
finals_in (report_final ∷ xs) = 1 + finals_in xs

-- Attempt `k` was accepted, and those from `i` to it were not.
pub record AcceptedAt {A : Type 0} (finals : ℕ → Option (ℕ × Option A)) (i k : ℕ) : Type 0 where
  pub later : i ≤ k
  pub accepted : (client_do false (finals k)).failed ≡ false
  pub refused : (j : ℕ) → i ≤ j → j < k → (client_do false (finals j)).failed ≡ true

-- A run that returns nil sent its final report until the first acceptance, within its five attempts.
abbrev pub Reported : {A : Type 0} → (ℕ → Option (ℕ × Option A)) → ℕ → ℕ → List Sent × Bool → Type 0
Reported finals i left p =
    p.1 ≡ true → (k : ℕ) × AcceptedAt finals i k × (k < i + left) × (finals_in p.0 + i ≡ k + 1)

first_accepted :
    {A : Type 0} (finals : ℕ → Option (ℕ × Option A)) (i : ℕ)
    → (client_do false (finals i)).failed ≡ false
    → AcceptedAt finals i i
first_accepted finals i fine = record {
  later = omega arith;
  accepted = fine;
  refused = λ j h k. absurd (omega (arith, h, k));
}

one_later :
    {A : Type 0} (finals : ℕ → Option (ℕ × Option A)) (i k : ℕ)
    → (client_do false (finals i)).failed ≡ true
    → AcceptedAt finals (i + 1) k
    → AcceptedAt finals i k
one_later finals i k failed at = record {
  later = omega (arith, at.later);
  accepted = at.accepted;
  refused = λ j h l. elim (Bool-cases (leb (i + 1) j)) [
    | inl more ↦ at.refused j (ground arith) l
    | inr less ↦ let e : j ≡ i = ground arith in rw e failed
  ];
}

final_report-Reported :
    {A : Type 0} (finals : ℕ → Option (ℕ × Option A)) (left i : ℕ)
    → Reported finals i left (final_report finals left i false)
unfolding final_report
final_report-Reported finals zero i = λ good. cc
final_report-Reported finals (suc left) i =
    let later = final_report-Reported finals left (i + 1) in
    elim (Bool-cases (client_do false (finals i)).failed) [
      | inr fine ↦ rw fine (λ good. (i, first_accepted finals i fine, omega arith, omega arith))
      | inl failed ↦ rw failed (λ good.
          let (k, at, within, sent) = later good in
          (k, one_later finals i k failed at, omega (arith, within), omega (arith, sent)))
    ]

module _ {A : Type 0} (finals : ℕ → Option (ℕ × Option A)) where
  if-Reported :
      (test : Bool) (p q : List Sent × Bool)
      → Reported finals 0 5 p
      → Reported finals 0 5 q
      → Reported finals 0 5 (if test then p else q)
  if-Reported true p q h k = h
  if-Reported false p q h k = k

  progress-Reported :
      (n : ℕ) (p : List Sent × Bool) → Reported finals 0 5 p → Reported finals 0 5 (progress n p)
  progress-Reported zero p h = h
  progress-Reported (suc n) p h = progress-Reported n p h

module _ {A : Type 0} (s : Script A) where
  five_attempts : Reported s.finals 0 5 (final_report s.finals 5 0 true)
  unfolding final_report
  five_attempts = final_report-Reported s.finals 5 0

  execute-Reported : Reported s.finals 0 5 (execute s)
  unfolding execute
  execute-Reported =
      if-Reported s.finals (not s.engine_starts) _ _ (λ e. cc)
        (if-Reported s.finals s.cancelled_in_delay _ _ (λ e. cc)
          (progress-Reported s.finals s.ticks _ five_attempts))

  await_job-Reported :
      (polls : List (Option (ℕ × Option A))) → Reported s.finals 0 5 (await_job s polls)
  unfolding await_job
  await_job-Reported [] = λ e. cc
  await_job-Reported (a ∷ more) =
      if-Reported s.finals (client_do true a).failed _ _ (λ e. cc)
        (if-Reported s.finals ((client_do true a).status == 200) _ _ execute-Reported
          (await_job-Reported more))

  run_once-Reported :
      (answers : List (Option (ℕ × Option A))) → Reported s.finals 0 5 (run_once s answers)
  unfolding run_once
  run_once-Reported [] = λ e. cc
  run_once-Reported (a ∷ more) =
      if-Reported s.finals (client_do true a).failed _ _ (run_once-Reported more)
        (await_job-Reported s.polls)

-- For every behaviour of the coordinator, the engine and the context: if runOnce returns nil, the
-- coordinator accepted one of the five attempts at the final report, every attempt before it failed,
-- and no attempt followed it.
pub run_once_reported :
    {A : Type 0} (s : Script A)
    → (run_once s s.registrations).1 ≡ true
    → (k : ℕ) × AcceptedAt s.finals 0 k
      × (k < 5)
      × (finals_in (run_once s s.registrations).0 ≡ k + 1)
run_once_reported s good =
    let (k, at, within, sent) = run_once-Reported s s.registrations good in
    (k, at, omega (arith, within), omega (arith, sent))
