-- ===== src/Store/Replicas.antt =====
-- internal/store/store.go, Migrate: replicas that start at the same time on one database.
--
-- Each statement that a replica sends is a step. A crash stops a replica anywhere; the server ends
-- its session, and gives up the session's lock, at some later moment. The server may also end the
-- session of a replica that goes on: its transaction is rolled back, and its next statement fails. The version is a primary key
-- too, but no step here relies on that.
use handling_50k_requestes_p.Prelude.{
  ℕ, ◌≡◌, String, Bool, true, false, List, [], ◌∷◌, Option, none, some, update,
}
use handling_50k_requestes_p.Store.{Schema, is_applied, committed}

-- The next thing a replica does. `todo` are the versions its loop has not reached.
pub data Pc : Type 0 where
  outside : Pc
  waiting : Pc  -- in pg_advisory_lock
  creating : Pc  -- the lock is held; CREATE TABLE IF NOT EXISTS comes next
  looking : (todo : List String) → Pc  -- at the head of the loop
  missing : (version : String) (todo : List String) → Pc  -- EXISTS said no
  begun : (version : String) (todo : List String) → Pc
  ran : (version : String) (todo : List String) → Pc  -- the script, in the transaction
  recorded : (version : String) (todo : List String) → Pc  -- the row, in the transaction
  cut_off : Pc  -- inside, and the session with its lock has ended
  leaving : (ok : Bool) → Pc  -- before the deferred pg_advisory_unlock
  returned : (ok : Bool) → Pc

-- Between pg_advisory_lock and pg_advisory_unlock, with its session.
abbrev pub critical : Pc → Bool
critical outside = false
critical waiting = false
critical cut_off = false
critical (returned _) = false
critical _ = true

-- One statement of replica `me`, whose binary embeds `names`. A rollback changes nothing.
pub data Move (me : ℕ) (names : List String) (db : Schema) (holder : Option ℕ)
    : Pc → Schema → Option ℕ → Pc → Type 0 where
  not_acquired : Move me names db holder outside db holder (returned false)
  ask : Move me names db holder outside db holder waiting
  not_locked : Move me names db holder waiting db holder (returned false)
  granted : holder ≡ none → Move me names db holder waiting db (some me) creating
  not_created : Move me names db holder creating db holder (leaving false)
  created : Move me names db holder creating db holder (looking names)
  not_looked_up :
      {v : String} {vs : List String}
      → Move me names db holder (looking (v ∷ vs)) db holder (leaving false)
  exists :
      {v : String} {vs : List String}
      → is_applied v db.applied ≡ true
      → Move me names db holder (looking (v ∷ vs)) db holder (looking vs)
  absent :
      {v : String} {vs : List String}
      → is_applied v db.applied ≡ false
      → Move me names db holder (looking (v ∷ vs)) db holder (missing v vs)
  not_begun :
      {v : String} {vs : List String}
      → Move me names db holder (missing v vs) db holder (leaving false)
  begin :
      {v : String} {vs : List String}
      → Move me names db holder (missing v vs) db holder (begun v vs)
  script_failed :
      {v : String} {vs : List String}
      → Move me names db holder (begun v vs) db holder (leaving false)
  run_script :
      {v : String} {vs : List String} → Move me names db holder (begun v vs) db holder (ran v vs)
  row_failed :
      {v : String} {vs : List String} → Move me names db holder (ran v vs) db holder (leaving false)
  add_row :
      {v : String} {vs : List String} → Move me names db holder (ran v vs) db holder (recorded v vs)
  commit :
      {v : String} {vs : List String}
      → Move me names db holder (recorded v vs) (committed v db) holder (looking vs)
  answer_lost :
      {v : String} {vs : List String}
      → Move me names db holder (recorded v vs) (committed v db) holder (leaving false)
  not_committed :
      {v : String} {vs : List String}
      → Move me names db holder (recorded v vs) db holder (leaving false)
  finish : Move me names db holder (looking []) db holder (leaving true)
  unlock : {ok : Bool} → Move me names db holder (leaving ok) db none (returned ok)
  unlock_failed : {ok : Bool} → Move me names db holder (leaving ok) db holder (returned ok)
  crash : {p : Pc} → Move me names db holder p db holder outside
  session_lost :
      {p : Pc} → critical p ≡ true → holder ≡ some me → Move me names db holder p db none cut_off
  not_sent : Move me names db holder cut_off db holder (returned false)
  session_ends :
      {p : Pc} → critical p ≡ false → holder ≡ some me → Move me names db holder p db none p

-- The database, the session that has the advisory lock, and where each replica stands.
pub record Replicas : Type 0 where
  pub db : Schema
  pub holder : Option ℕ
  pub pc : ℕ → Pc

-- The binaries may embed different versions, as in a rolling update.
pub data Step (embedded : ℕ → List String) (s : Replicas) : Replicas → Type 0 where
  pick :
      (i : ℕ) {db : Schema} {holder : Option ℕ} {p : Pc}
      → Move i (embedded i) s.db s.holder (s.pc i) db holder p
      → Step embedded s (record { db = db; holder = holder; pc = update s.pc i p })

abbrev pub fresh_database : Replicas
fresh_database = record {
  db = record { applied = []; executed = [] };
  holder = none;
  pc = λ _. outside;
}

-- From an empty database, any number of replicas, in any order.
pub data Reach (embedded : ℕ → List String) : Replicas → Type 0 where
  start : Reach embedded fresh_database
  later : {s t : Replicas} → Reach embedded s → Step embedded s t → Reach embedded t
