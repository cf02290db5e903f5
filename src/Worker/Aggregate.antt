-- ===== src/Worker/Aggregate.antt =====
-- The aggregator counts events by minute and type, and the upsert adds its counts to the table.
use text.Mathlib.Text.{◌==◌ as str_eq}
use text.Mathlib.TextEquality.{eq_iff}
use handling_50k_requestes_p.Prelude.{
  ℕ, ◌+◌, ◌≤◌, ◌≡◌, ◌≢◌, refl, String, Bool, false, not, ◌&&◌, ◌||◌, List, [], ◌∷◌, Option, none,
  some, inl, inr, arith, ◌==◌, if◌then◌else◌, Bool-cases, count_by,
}
use handling_50k_requestes_p.Worker.{
  Event, Rollup, Aggregator, new_aggregator, add, add_rollup, same_key, minute_of, stamp, upsert,
}
use handling_50k_requestes_p.Worker.Loop.{consume, consume_all}

-- The count of a row, 0 if there is none.
abbrev pub row_count : ℕ → String → List Rollup → ℕ
row_count b t [] = 0
row_count b t (r ∷ rs) = if same_key b t r then r.count else row_count b t rs

abbrev pub has_row : ℕ → String → List Rollup → Bool
has_row b t [] = false
has_row b t (r ∷ rs) = same_key b t r || has_row b t rs

-- No two rows of one key: one INSERT may not touch a row twice.
abbrev pub DistinctRows : List Rollup → Type 0
DistinctRows [] = Unit {0}
DistinctRows (r ∷ rs) = (has_row r.bucket r.type rs ≡ false) × DistinctRows rs

pub row_count-add_rollup :
    (b c : ℕ) (t u : String) (v : ℕ) (rs : List Rollup)
    → row_count c u (add_rollup b t v rs)
      ≡ (if b == c && str_eq t u then row_count c u rs + v else row_count c u rs)
unfolding add_rollup
row_count-add_rollup b c t u v [] = ground arith
row_count-add_rollup b c t u v (r ∷ rs) =
    ground (arith, eq_iff t u, eq_iff r.type t, eq_iff r.type u, row_count-add_rollup b c t u v rs)

has_row-add_rollup :
    (b c : ℕ) (t u : String) (v : ℕ) (rs : List Rollup)
    → has_row c u (add_rollup b t v rs) ≡ (b == c && str_eq t u || has_row c u rs)
unfolding add_rollup
has_row-add_rollup b c t u v [] = ground arith
has_row-add_rollup b c t u v (r ∷ rs) =
    ground (arith, eq_iff t u, eq_iff r.type t, eq_iff r.type u, has_row-add_rollup b c t u v rs)

pub add_rollup-DistinctRows :
    (b : ℕ) (t : String) (v : ℕ) (rs : List Rollup)
    → DistinctRows rs
    → DistinctRows (add_rollup b t v rs)
unfolding add_rollup
add_rollup-DistinctRows b t v [] d = (refl, tt)
add_rollup-DistinctRows b t v (r ∷ rs) d = ground (
  arith,
  eq_iff r.type t,
  eq_iff t r.type,
  has_row-add_rollup b r.bucket t r.type v rs,
  add_rollup-DistinctRows b t v rs,
)

row_count_absent :
    (b : ℕ) (t : String) (rs : List Rollup) → has_row b t rs ≡ false → row_count b t rs ≡ 0
row_count_absent b t [] h = refl
row_count_absent b t (r ∷ rs) h = ground (arith, row_count_absent b t rs)

-- The upsert adds the deltas, whose keys are distinct, to the rows.
pub row_count-upsert :
    (b : ℕ) (t : String) (table deltas : List Rollup)
    → DistinctRows deltas
    → row_count b t (upsert table deltas) ≡ row_count b t table + row_count b t deltas
unfolding upsert
row_count-upsert b t table [] d = omega arith
row_count-upsert b t table (r ∷ rs) d = ground (
  arith,
  eq_iff r.type t,
  row_count-upsert b t (add_rollup r.bucket r.type r.count table) rs d.1,
  row_count-add_rollup r.bucket b r.type t r.count table,
  row_count_absent r.bucket r.type rs d.0,
)

-- A record counts for a minute and a type if it decodes to an event of that type in that minute.
abbrev pub counts_for : ℕ → String → Option Event → Bool
counts_for b t none = false
counts_for b t (some ev) = not (str_eq ev.type "") && (minute_of ev.time == b && str_eq ev.type t)

-- Every event carries its time.
abbrev pub Stamped : List (Option Event) → Type 0
Stamped [] = Unit {0}
Stamped (none ∷ rs) = Stamped rs
Stamped (some ev ∷ rs) = (ev.time ≢ 0) × Stamped rs

pub record IsSound (a : Aggregator) : Type 0 where
  pub distinct : DistinctRows a.rollups
  pub capped : (b : ℕ) (t : String) → row_count b t a.rollups ≤ a.n

pub new_aggregator-IsSound : IsSound new_aggregator
unfolding new_aggregator
new_aggregator-IsSound = record { distinct = tt; capped = λ b t. omega arith }

add-IsSound : (now : ℕ) (a : Aggregator) (ev : Event) → IsSound a → IsSound (add now a ev)
unfolding add
add-IsSound now a ev s = record {
  distinct = add_rollup-DistinctRows (minute_of (stamp now ev)) ev.type 1 a.rollups s.distinct;
  capped = λ b t. ground (
    arith,
    s.capped b t,
    row_count-add_rollup (minute_of (stamp now ev)) b ev.type t 1 a.rollups,
  );
}

consume-IsSound :
    (now : ℕ) (a : Aggregator) (r : Option Event) → IsSound a → IsSound (consume now a r)
unfolding consume
consume-IsSound now a none s = s
consume-IsSound now a (some ev) s = elim (Bool-cases (str_eq ev.type "")) [
  | inl untyped ↦ rw untyped s
  | inr typed ↦ rw typed (add-IsSound now a ev s)
]

pub consume_all-IsSound :
    (now : ℕ) (a : Aggregator) (rs : List (Option Event))
    → IsSound a
    → IsSound (consume_all now a rs)
unfolding consume_all
consume_all-IsSound now a [] s = s
consume_all-IsSound now a (r ∷ rs) s =
    consume_all-IsSound now (consume now a r) rs (consume-IsSound now a r s)

-- Consuming stamped records raises the count of each row by the number of records that belong to it.
pub row_count-consume_all :
    (b : ℕ) (t : String) (now : ℕ) (a : Aggregator) (rs : List (Option Event))
    → Stamped rs
    → row_count b t (consume_all now a rs).rollups
      ≡ row_count b t a.rollups + count_by (counts_for b t) rs
unfolding consume_all consume add
row_count-consume_all b t now a [] h = omega arith
row_count-consume_all b t now a (none ∷ rs) h = omega (arith, row_count-consume_all b t now a rs h)
row_count-consume_all b t now a (some ev ∷ rs) (timed, h) = ground (
  arith,
  eq_iff ev.type t,
  row_count-add_rollup (minute_of (stamp now ev)) b ev.type t 1 a.rollups,
  row_count-consume_all b t now a rs h,
  row_count-consume_all b t now (add now a ev) rs h,
)
