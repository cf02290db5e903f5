-- ===== src/Store/Migrations.antt =====
-- Every migration is applied exactly once, through failures.
use text.Mathlib.Text.{◌==◌ as str_eq}
use text.Mathlib.TextEquality.{eq_iff}
use handling_50k_requestes_p.Prelude.{
  ℕ, ◌+◌, ◌≡◌, refl, String, Bool, true, false, List, [], ◌∷◌, if◌then◌else◌, arith, Bool-cases,
  inl, inr, ◌∙◌,
}
use handling_50k_requestes_p.Store.{
  Fault, no_fault, lookup_fails, begin_fails, script_fails, record_fails, commit_fails, commit_lost,
  Schema, is_applied, committed, apply, apply_once, and_then, migrate, migrate_each,
}

-- How often the script of a version took effect.
abbrev pub times : String → List String → ℕ
times v [] = 0
times v (x ∷ xs) = (if str_eq x v then 1 else 0) + times v xs

-- A version's script took effect once if its row is there, and never otherwise.
abbrev pub InStep : Schema → Type 0
InStep db = (v : String) → times v db.executed ≡ (if is_applied v db.applied then 1 else 0)

pub committed-InStep :
    (v : String) (db : Schema)
    → is_applied v db.applied ≡ false
    → InStep db
    → InStep (committed v db)
committed-InStep v db new k w = ground (arith, eq_iff v w, k w)

-- What one version's turn and the turns of several versions keep: the rows stay, and what went well
-- is there.
pub record Advances (v : List String) (db : Schema) (p : Schema × Bool) : Type 0 where
  pub in_step : InStep p.0
  pub kept : (w : String) → is_applied w db.applied ≡ true → is_applied w p.0.applied ≡ true
  pub there : (w : String) → p.1 ≡ true → is_applied w v ≡ true → is_applied w p.0.applied ≡ true

unchanged : (vs : List String) (db : Schema) → InStep db → Advances vs db (db, false)
unchanged vs db k = record { in_step = k; kept = λ w h. h; there = λ w h m. cc }

committed-Advances :
    (v : String) (db : Schema) (done : Bool)
    → is_applied v db.applied ≡ false
    → InStep db
    → Advances (v ∷ []) db (committed v db, done)
committed-Advances v db done new k = record {
  in_step = committed-InStep v db new k;
  kept = λ w h. ground arith;
  there = λ w h m. ground arith;
}

apply-Advances :
    (f : Fault) (v : String) (db : Schema)
    → is_applied v db.applied ≡ false
    → InStep db
    → Advances (v ∷ []) db (apply f v db)
unfolding apply
apply-Advances no_fault v db new k = committed-Advances v db true new k
apply-Advances commit_lost v db new k = committed-Advances v db false new k
apply-Advances lookup_fails v db new k = unchanged _ db k
apply-Advances begin_fails v db new k = unchanged _ db k
apply-Advances script_fails v db new k = unchanged _ db k
apply-Advances record_fails v db new k = unchanged _ db k
apply-Advances commit_fails v db new k = unchanged _ db k

unless_applied :
    (f : Fault) (v : String) (db : Schema)
    → InStep db
    → Advances (v ∷ []) db (if is_applied v db.applied then (db, true) else apply f v db)
unless_applied f v db k = elim (Bool-cases (is_applied v db.applied)) [
  | inl old ↦
      rw old record { in_step = k; kept = λ w h. h; there = λ w h m. ground (arith, eq_iff v w) }
  | inr new ↦ rw new (apply-Advances f v db new k)
]

apply_once-Advances :
    (f : Fault) (v : String) (db : Schema) → InStep db → Advances (v ∷ []) db (apply_once f v db)
unfolding apply_once
apply_once-Advances no_fault v db k = unless_applied no_fault v db k
apply_once-Advances commit_lost v db k = unless_applied commit_lost v db k
apply_once-Advances lookup_fails v db k = unchanged _ db k
apply_once-Advances begin_fails v db k = unless_applied begin_fails v db k
apply_once-Advances script_fails v db k = unless_applied script_fails v db k
apply_once-Advances record_fails v db k = unless_applied record_fails v db k
apply_once-Advances commit_fails v db k = unless_applied commit_fails v db k

and_then-Advances :
    (v : String) (vs : List String) (db : Schema) (first : Schema × Bool)
    (rest : Schema → Schema × Bool)
    → Advances (v ∷ []) db first
    → ((d : Schema) → InStep d → Advances vs d (rest d))
    → Advances (v ∷ vs) db (and_then first rest)
and_then-Advances v vs db (d, false) rest a more = record {
  in_step = a.in_step;
  kept = a.kept;
  there = λ w h m. cc;
}
and_then-Advances v vs db (d, true) rest a more =
    let b = more d a.in_step in
    record {
      in_step = b.in_step;
      kept = λ w h. b.kept w (a.kept w h);
      there = λ w h m. elim (Bool-cases (str_eq v w)) [
        | inl this ↦ b.kept w (a.there w refl (ground arith))
        | inr other ↦ b.there w h (ground arith)
      ];
    }

migrate-Advances :
    (faults : String → Fault) (names : List String) (db : Schema)
    → InStep db
    → Advances names db (migrate faults names db)
unfolding migrate
migrate-Advances faults [] db k = record { in_step = k; kept = λ w h. h; there = λ w h m. cc }
migrate-Advances faults (v ∷ vs) db k =
    and_then-Advances v vs db (apply_once (faults v) v db) (λ d. migrate faults vs d)
      (apply_once-Advances (faults v) v db k) (λ d j. migrate-Advances faults vs d j)

migrate_each-InStep :
    (attempts : List (String → Fault)) (names : List String) (db : Schema)
    → InStep db
    → InStep (migrate_each attempts names db)
unfolding migrate_each
migrate_each-InStep [] names db k = k
migrate_each-InStep (f ∷ fs) names db k =
    migrate_each-InStep fs names (migrate f names db).0 (migrate-Advances f names db k).in_step

-- Exactly once: from an empty database, after any number of starts in which any statements failed or
-- any commits lost their answer, and then a start whose Migrate returns nil, the script of every
-- embedded version has taken effect once.
pub migrate_exactly_once :
    (attempts : List (String → Fault)) (faults : String → Fault) (names : List String) (v : String)
    → (migrate faults names
        (migrate_each attempts names (record { applied = []; executed = [] }))).1
      ≡ true
    → is_applied v names ≡ true
    → times v
        (migrate faults names
          (migrate_each attempts names (record { applied = []; executed = [] }))).0.executed
      ≡ 1
migrate_exactly_once attempts faults names v done embedded =
    let a =
      migrate-Advances faults names (migrate_each attempts names empty)
        (migrate_each-InStep attempts names empty (λ w. refl)) in
    a.in_step v ∙ (rw (a.there v done embedded) refl)
  where
    empty : Schema
    empty = record { applied = []; executed = [] }
