-- ===== src/Store.antt =====
-- internal/store/store.go: the migrations.
--
-- The database is the set of versions in schema_migrations and the scripts whose effects were
-- committed, the newest first; the advisory lock makes one Migrate at a time. `names` is the sorted
-- list of versions that the binary embeds. Which statement fails for a version is chosen per attempt.
pub mod Migrations
pub mod Replicas
pub mod Exclusion
pub mod Queries
pub mod Examples
use text.Mathlib.Text.{◌==◌ as str_eq}
use handling_50k_requestes_p.Prelude.{String, Bool, true, false, ◌||◌, List, [], ◌∷◌, if◌then◌else◌}

-- `commit_lost`: the server committed, and the answer did not arrive.
pub data Fault : Type 0 where
  no_fault lookup_fails begin_fails script_fails record_fails commit_fails commit_lost : Fault

pub record Schema : Type 0 where
  pub applied : List String
  pub executed : List String

abbrev pub is_applied : String → List String → Bool
is_applied v [] = false
is_applied v (x ∷ xs) = str_eq x v || is_applied v xs

-- The script and the row of its version, in one transaction.
abbrev pub committed : String → Schema → Schema
committed v db = record { applied = v ∷ db.applied; executed = v ∷ db.executed }

-- The body of the loop for a version that is not there yet: the schema, and whether it went well.
unfoldable pub apply : Fault → String → Schema → Schema × Bool
apply no_fault v db = (committed v db, true)
apply commit_lost v db = (committed v db, false)
apply lookup_fails v db = (db, false)
apply begin_fails v db = (db, false)
apply script_fails v db = (db, false)
apply record_fails v db = (db, false)
apply commit_fails v db = (db, false)

-- The EXISTS query runs first: it may fail too.
unfoldable pub apply_once : Fault → String → Schema → Schema × Bool
unfolding apply
apply_once lookup_fails v db = (db, false)
apply_once f v db = if is_applied v db.applied then (db, true) else apply f v db

abbrev pub and_then : Schema × Bool → (Schema → Schema × Bool) → Schema × Bool
and_then (db, true) rest = rest db
and_then (db, false) rest = (db, false)

-- Migrate: the schema, and whether it returned nil. It stops at the first error.
unfoldable pub migrate : (String → Fault) → List String → Schema → Schema × Bool
unfolding apply_once
migrate faults [] db = (db, true)
migrate faults (v ∷ vs) db = and_then (apply_once (faults v) v db) (λ d. migrate faults vs d)

-- The starts of the replicas, one after the other.
unfoldable pub migrate_each : List (String → Fault) → List String → Schema → Schema
unfolding migrate
migrate_each [] names db = db
migrate_each (f ∷ fs) names db = migrate_each fs names (migrate f names db).0
