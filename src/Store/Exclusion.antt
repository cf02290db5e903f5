-- ===== src/Store/Exclusion.antt =====
-- Replicas that migrate at the same time: one at a time inside, and no script twice.
use handling_50k_requestes_p.Prelude.{
  ℕ, ◌≡◌, ◌≤◌, refl, String, true, false, ◌||◌, List, [], ◌∷◌, Option, none, some, arith, update,
}
use handling_50k_requestes_p.Store.{Schema, is_applied}
use handling_50k_requestes_p.Store.Migrations.{times, InStep, committed-InStep}
use text.Mathlib.TextEquality.{eq_iff}
use handling_50k_requestes_p.Prelude.{◌⊎◌, inl, inr}
use handling_50k_requestes_p.Store.{committed}
use handling_50k_requestes_p.Store.Replicas.{
  Step, Replicas, Reach, start, later, pick, returned, Pc, looking, missing, begun, ran, recorded,
  leaving, returned, critical, Move, granted, unlock, exists, absent, commit, answer_lost,
  session_ends, session_lost,
}

-- The version a replica is applying.
abbrev pub target : Pc → Option String
target (missing v _) = some v
target (begun v _) = some v
target (ran v _) = some v
target (recorded v _) = some v
target _ = none

-- What a replica that has listed its versions has still to see applied.
abbrev pub left : Pc → Option (List String)
left (looking todo) = some todo
left (missing v todo) = some (v ∷ todo)
left (begun v todo) = some (v ∷ todo)
left (ran v todo) = some (v ∷ todo)
left (recorded v todo) = some (v ∷ todo)
left (leaving true) = some []
left (returned true) = some []
left _ = none

pub record Inv (embedded : ℕ → List String) (db : Schema) (holder : Option ℕ) (pc : ℕ → Pc)
    : Type 0 where
  pub in_step : InStep db
  pub owner : (i : ℕ) → critical (pc i) ≡ true → holder ≡ some i
  pub new : (i : ℕ) (v : String) → target (pc i) ≡ some v → is_applied v db.applied ≡ false
  pub seen :
      (i : ℕ) (todo : List String) (w : String)
      → left (pc i) ≡ some todo
      → is_applied w (embedded i) ≡ true
      → (is_applied w db.applied || is_applied w todo) ≡ true

-- The premise of a move.
abbrev Guard :
    {i : ℕ} {names : List String} {db db' : Schema} {h h' : Option ℕ} {p p' : Pc}
    → Move i names db h p db' h' p'
    → Type 0
Guard {h} (granted _) = h ≡ none
Guard {db} (exists {v} _) = is_applied v db.applied ≡ true
Guard {db} (absent {v} _) = is_applied v db.applied ≡ false
Guard {i} {h} {p} (session_lost _ _) = (critical p ≡ true) × (h ≡ some i)
Guard {i} {h} {p} (session_ends _ _) = (critical p ≡ false) × (h ≡ some i)
Guard _ = Unit

guard :
    {i : ℕ} {names : List String} {db db' : Schema} {h h' : Option ℕ} {p p' : Pc}
    (mv : Move i names db h p db' h' p')
    → Guard mv
guard (granted g) = g
guard (exists g) = g
guard (absent g) = g
guard (session_lost g e) = (g, e)
guard (session_ends g e) = (g, e)
guard _ = tt

module _ {embedded : ℕ → List String} {db : Schema} {holder : Option ℕ} {pc : ℕ → Pc}
    (inv : Inv embedded db holder pc) (i : ℕ) where
  open inv use {in_step, owner, new, seen}

  Move-InStep :
      {p p' : Pc} {db' : Schema} {h' : Option ℕ}
      → Move i (embedded i) db holder p db' h' p'
      → pc i ≡ p
      → InStep db'
  Move-InStep (commit {v}) e = committed-InStep v db (ground (arith, new i v)) in_step
  Move-InStep (answer_lost {v}) e = committed-InStep v db (ground (arith, new i v)) in_step
  Move-InStep mv e = in_step

  Move-owner :
      {p p' : Pc} {db' : Schema} {h' : Option ℕ}
      → Move i (embedded i) db holder p db' h' p'
      → pc i ≡ p
      → (j : ℕ) → critical (update pc i p' j) ≡ true
      → h' ≡ some j
  Move-owner unlock e j c = ground (arith, owner i, owner j)
  Move-owner mv e j c = ground (arith, guard mv, owner i, owner j)

  Move-new :
      {p p' : Pc} {db' : Schema} {h' : Option ℕ}
      → Move i (embedded i) db holder p db' h' p'
      → pc i ≡ p
      → (j : ℕ) (v : String) → target (update pc i p' j) ≡ some v
      → is_applied v db'.applied ≡ false
  Move-new unlock e j v t = ground (arith, owner i, owner j, new i v, new j v)
  Move-new mv e j v t = ground (arith, guard mv, owner i, owner j, new i v, new j v)

  Move-seen :
      {p p' : Pc} {db' : Schema} {h' : Option ℕ}
      → Move i (embedded i) db holder p db' h' p'
      → pc i ≡ p
      → (j : ℕ) (todo : List String) (w : String) → left (update pc i p' j) ≡ some todo
      → is_applied w (embedded j) ≡ true
      → (is_applied w db'.applied || is_applied w todo) ≡ true
  Move-seen unlock e j todo w l m = ground (arith, seen i todo w, seen j todo w)
  Move-seen (exists {v} {vs} old) e j todo w l m =
      ground (arith, old, eq_iff v w, seen i (v ∷ vs) w, seen j todo w)
  Move-seen (absent {v} {vs} _) e j todo w l m = ground (arith, seen i (v ∷ vs) w, seen j todo w)
  Move-seen (commit {v} {vs}) e j todo w l m =
      ground (arith, eq_iff v w, seen i (v ∷ vs) w, seen j todo w)
  Move-seen mv e j todo w l m = ground (arith, guard mv, seen i todo w, seen j todo w)

  Move-Inv :
      {p p' : Pc} {db' : Schema} {h' : Option ℕ}
      → Move i (embedded i) db holder p db' h' p'
      → pc i ≡ p
      → Inv embedded db' h' (update pc i p')
  Move-Inv mv e = record {
    in_step = Move-InStep mv e;
    owner = Move-owner mv e;
    new = Move-new mv e;
    seen = Move-seen mv e;
  }

Reach-Inv :
    {embedded : ℕ → List String} {s : Replicas} → Reach embedded s → Inv embedded s.db s.holder s.pc
Reach-Inv start = record {
  in_step = λ v. refl;
  owner = λ i c. ground arith;
  new = λ i v t. ground arith;
  seen = λ i todo w l m. ground arith;
}
Reach-Inv (later r (pick i mv)) = Move-Inv (Reach-Inv r) i mv refl

times_le_one : (db : Schema) (v : String) → InStep db → times v db.executed ≤ 1
times_le_one db v k = ground (arith, k v)

-- What a step does to the database: nothing, or the holder of the lock commits a new version.
abbrev pub Commits : Replicas → Replicas → Type 0
Commits s t =
    (t.db ≡ s.db)
    ⊎ (i : ℕ) × (v : String) × (critical (s.pc i) ≡ true)
      × (s.holder ≡ some i)
      × (is_applied v s.db.applied ≡ false)
      × (t.db ≡ committed v s.db)

Move-Commits :
    {embedded : ℕ → List String} {db db' : Schema} {h h' : Option ℕ} {pc : ℕ → Pc} {p p' : Pc}
    → Inv embedded db h pc
    → (i : ℕ) → Move i (embedded i) db h p db' h' p'
    → pc i ≡ p
    → (db' ≡ db)
      ⊎ (i : ℕ) × (v : String) × (critical (pc i) ≡ true)
        × (h ≡ some i)
        × (is_applied v db.applied ≡ false)
        × (db' ≡ committed v db)
Move-Commits {pc = pc} inv i (commit {v}) e =
    let c : critical (pc i) ≡ true = ground arith in
    inr (i, v, c, inv.owner i c, inv.new i v (ground arith), refl)
Move-Commits {pc = pc} inv i (answer_lost {v}) e =
    let c : critical (pc i) ≡ true = ground arith in
    inr (i, v, c, inv.owner i c, inv.new i v (ground arith), refl)
Move-Commits inv i mv e = inl refl

Step-Commits :
    {embedded : ℕ → List String} {s t : Replicas}
    → Inv embedded s.db s.holder s.pc
    → Step embedded s t
    → Commits s t
Step-Commits inv (pick i mv) = Move-Commits inv i mv refl

-- Mutual exclusion: whatever replicas start at the same time on an empty database, with whatever
-- failures, crashes and sessions that end at any moment: no two replicas are ever between
-- pg_advisory_lock and pg_advisory_unlock with their sessions; a step changes the database only where
-- the one that holds the lock commits a version that was not applied, so that a replica whose session
-- has ended changes nothing; and no version's script has ever taken effect more than once.
pub replicas_exclude :
    {embedded : ℕ → List String} {s : Replicas}
    → Reach embedded s
    → ((i j : ℕ) → critical (s.pc i) ≡ true → critical (s.pc j) ≡ true → i ≡ j)
      × ((t : Replicas) → Step embedded s t → Commits s t)
      × ((v : String) → times v s.db.executed ≤ 1)
replicas_exclude {s} r = (
  λ i j a b. ground (arith, (Reach-Inv r).owner i a, (Reach-Inv r).owner j b),
  λ t step. Step-Commits (Reach-Inv r) step,
  λ v. times_le_one s.db v (Reach-Inv r).in_step,
)

-- A Migrate that returned nil: in every state that replicas can reach from an empty database, with
-- whatever failures and crashes, each version that such a replica embeds has taken effect once.
pub returned_migrated :
    {embedded : ℕ → List String} {s : Replicas}
    → Reach embedded s
    → (i : ℕ) (v : String) → s.pc i ≡ returned true
    → is_applied v (embedded i) ≡ true
    → times v s.db.executed ≡ 1
returned_migrated r i v e m = ground (arith, (Reach-Inv r).seen i [] v, (Reach-Inv r).in_step v)
