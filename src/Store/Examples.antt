-- ===== src/Store/Examples.antt =====
-- The migrations at a concrete history.
use text.Mathlib.Text.{◌==◌ as str_eq}
use handling_50k_requestes_p.Prelude.{◌≡◌, refl, String, true, List, [], ◌∷◌, if◌then◌else◌}
use handling_50k_requestes_p.Store.{
  Fault, no_fault, script_fails, commit_lost, migrate, migrate_each, apply_once, apply,
}
use handling_50k_requestes_p.Prelude.{ℕ, ◌==◌, ◌≤◌}
use handling_50k_requestes_p.Store.Replicas.{
  Replicas, Reach, start, later, pick, ask, granted, created, exists, absent, begin, run_script,
  add_row, commit, answer_lost, finish, unlock, crash, session_ends, session_lost, Step, critical,
}
use handling_50k_requestes_p.Store.Exclusion.{Commits, replicas_exclude, returned_migrated}
use handling_50k_requestes_p.Store.Migrations.{times, migrate_exactly_once}

abbrev versions : List String
versions = "001_items" ∷ "002_rollups" ∷ []

-- The commit of the first loses its answer; then the script of the second fails.
abbrev failed_starts : List (String → Fault)
failed_starts =
    (λ v. commit_lost) ∷ (λ v. if str_eq v "002_rollups" then script_fails else no_fault) ∷ []

last_start :
    (migrate
      (λ v. no_fault)
      versions
      (migrate_each failed_starts versions (record { applied = []; executed = [] }))).1
    ≡ true
unfolding migrate migrate_each apply_once apply
last_start = refl

-- Two replicas embed the same two versions; the second one's binary has a third.
abbrev embedded : ℕ → List String
embedded i = if i == 0 then versions else "001_items" ∷ "002_rollups" ∷ "003_users" ∷ []

-- Replica 0 commits the first version without an answer and leaves, while replica 1 waits.
abbrev contended : (s : Replicas) × Reach embedded s
contended =
    let a = later start (pick 0 ask) in
    let b = later a (pick 0 (granted refl)) in
    let c = later b (pick 0 created) in
    let d = later c (pick 1 ask) in
    let e = later d (pick 0 (absent refl)) in
    let f = later e (pick 0 begin) in
    let g = later f (pick 0 run_script) in
    let h = later g (pick 0 add_row) in (_, later h (pick 0 answer_lost))

-- The server has ended the session of replica 0 inside the lock, and replica 1 has got it.
abbrev replaced : (s : Replicas) × Reach embedded s
replaced =
    let a = later start (pick 0 ask) in
    let b = later a (pick 0 (granted refl)) in
    let c = later b (pick 0 created) in
    let d = later c (pick 1 ask) in
    let e = later d (pick 0 (session_lost refl refl)) in (_, later e (pick 1 (granted refl)))

replicas_exclude_example :
    ((i j : ℕ) → critical (replaced.0.pc i) ≡ true → critical (replaced.0.pc j) ≡ true → i ≡ j)
    × ((t : Replicas) → Step embedded replaced.0 t → Commits replaced.0 t)
    × ((v : String) → times v replaced.0.db.executed ≤ 1)
replicas_exclude_example = replicas_exclude replaced.1

-- Replica 0 crashes before its unlock; the server ends its session, and replica 1 goes on.
abbrev taken_over : (s : Replicas) × Reach embedded s
taken_over =
    let a = later contended.1 (pick 0 crash) in
    let b = later a (pick 0 (session_ends refl refl)) in
    let c = later b (pick 1 (granted refl)) in
    let d = later c (pick 1 created) in
    let e = later d (pick 1 (exists refl)) in
    let f = later e (pick 1 (absent refl)) in
    let g = later f (pick 1 begin) in
    let h = later g (pick 1 run_script) in
    let i = later h (pick 1 add_row) in
    let j = later i (pick 1 commit) in
    let k = later j (pick 1 (absent refl)) in
    let l = later k (pick 1 begin) in
    let m = later l (pick 1 run_script) in
    let n = later m (pick 1 add_row) in
    let o = later n (pick 1 commit) in
    let p = later o (pick 1 finish) in (_, later p (pick 1 unlock))

returned_migrated_example : times "001_items" taken_over.0.db.executed ≡ 1
returned_migrated_example = returned_migrated taken_over.1 1 "001_items" refl refl

migrate_exactly_once_example :
    times "002_rollups"
      (migrate
        (λ v. no_fault)
        versions
        (migrate_each failed_starts versions (record { applied = []; executed = [] }))).0.executed
    ≡ 1
migrate_exactly_once_example =
    migrate_exactly_once failed_starts (λ v. no_fault) versions "002_rollups" last_start refl
