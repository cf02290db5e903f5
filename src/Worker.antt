-- ===== src/Worker.antt =====
-- internal/worker/worker.go: the Kafka consumer that rolls events up into PostgreSQL and Redis.
--
-- Times are nanoseconds since Go's zero time, so that IsZero is a test for 0. Counters are left
-- unbounded: an int64 counts the events since the last flush, and PostgreSQL refuses a bigint that
-- would overflow. A record of the topic is an event, or `none` where its value does
-- not decode. The table event_rollups is the map that the upsert of store.AddRollups maintains.
pub mod Loop
pub mod Aggregate
pub mod Carry
pub mod Delivery
pub mod Exact
pub mod Group
pub mod Examples
use Prim.Native.String.{◌++◌ as str_append}
use text.Mathlib.Text.{◌==◌ as str_eq}
use handling_50k_requestes_p.Prelude.{
  ℕ, ◌+◌, ◌-◌, ◌%◌, ◌≤◌, ◌<◌, String, Bool, true, false, not, ◌&&◌, ◌||◌, List, [], ◌∷◌, Option,
  none, some, ltb, leb, ◌==◌, if◌then◌else◌,
}
use handling_50k_requestes_p.Prelude.Maps.{insert}
use handling_50k_requestes_p.Prelude.Counts.{Counts, bump, add_counts}

pub record Event : Type 0 where
  pub id : String
  pub type : String
  pub source : String
  pub time : ℕ
  pub body : String

pub record Rollup : Type 0 where
  pub bucket : ℕ
  pub type : String
  pub count : ℕ

abbrev pub same_key : ℕ → String → Rollup → Bool
same_key b t r = r.bucket == b && str_eq r.type t

-- `rollups[rollupKey{b, t}] += v`, on the map as a list of rollups.
unfoldable pub add_rollup : ℕ → String → ℕ → List Rollup → List Rollup
add_rollup b t v [] = record { bucket = b; type = t; count = v } ∷ []
add_rollup b t v (r ∷ rs) =
    if same_key b t r then record r { count = r.count + v } ∷ rs else r ∷ add_rollup b t v rs

pub record Aggregator : Type 0 where
  pub rollups : List Rollup
  pub types : Counts
  pub n : ℕ

unfoldable pub new_aggregator : Aggregator
new_aggregator = record { rollups = []; types = []; n = 0 }

-- `ts.UTC().Truncate(time.Minute)`
abbrev pub minute_of : ℕ → ℕ
minute_of t = t - t % 60000000000

abbrev pub stamp : ℕ → Event → ℕ
stamp now ev = if ev.time == 0 then now else ev.time

unfoldable pub add : ℕ → Aggregator → Event → Aggregator
add now a ev = record {
  rollups = add_rollup (minute_of (stamp now ev)) ev.type 1 a.rollups;
  types = bump ev.type 1 a.types;
  n = a.n + 1;
}

abbrev pub key_prefix : String
key_prefix = "titan:events:type:"

abbrev pub key_total : String
key_total = "titan:events:total"

-- Counters: the types' counts under the prefix, then the total, which overwrites that key.
unfoldable pub prefixed : Counts → Counts
prefixed [] = []
prefixed ((t, v) ∷ m) = (str_append key_prefix t, v) ∷ prefixed m

unfoldable pub counters : Aggregator → Counts
unfolding prefixed
counters a = insert key_total a.n (prefixed a.types)

-- The tables that a sink writes. Each of its two stores may be absent (nil).
pub record Tables : Type 0 where
  pub event_rollups : List Rollup
  pub redis : Counts

pub record Sink : Type 0 where
  pub has_store : Bool
  pub has_cache : Bool

-- What AddRollups comes to: the rows are written; nothing is; or the rows are written and the answer
-- does not arrive, or arrives after the context is cancelled, so that it returns an error.
pub data Stored : Type 0 where
  stored refused answer_lost : Stored

abbrev pub is_refused : Stored → Bool
is_refused refused = true
is_refused _ = false

abbrev pub is_lost : Stored → Bool
is_lost answer_lost = true
is_lost _ = false

-- How the two writes of a flush go.
pub record Outcome : Type 0 where
  pub store : Stored
  pub cache_ok : Bool

-- store.AddRollups: the upsert adds each delta to its row. It is one statement, so all or nothing.
unfoldable pub upsert : List Rollup → List Rollup → List Rollup
upsert table [] = table
upsert table (r ∷ rs) = upsert (add_rollup r.bucket r.type r.count table) rs

-- flush: the new tables, and whether it returned nil. A failure of the cache is only logged.
unfoldable pub flush : Sink → Outcome → Tables → Aggregator → Tables × Bool
flush sink o t a =
    if a.n == 0
    then (t, true)
    else if sink.has_store && is_refused o.store
    then (t, false)
    else if (sink.has_store && is_lost o.store)
    then (record t { event_rollups = upsert t.event_rollups a.rollups }, false)
    else (
      record {
        event_rollups =
            if sink.has_store then upsert t.event_rollups a.rollups else t.event_rollups;
        redis = if sink.has_cache && o.cache_ok then add_counts t.redis (counters a) else t.redis;
      },
      true,
    )
