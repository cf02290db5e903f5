-- ===== src/Cache.antt =====
-- internal/cache/cache.go: the lookups and counters over Redis.
--
-- Redis is a parameter: its state, and what each command answers. A reply that is nil is an absent key.
pub mod Counting
pub mod Examples
use handling_50k_requestes_p.Prelude.{
  ℕ, String, Bool, true, false, ◌||◌, List, [], ◌∷◌, Option, none, some, ℤ, pos, min, ltb_ℤ,
  if◌then◌else◌,
}
use handling_50k_requestes_p.Prelude.Counts.{Counts}

pub data Reply : Type 0 where
  absent failure : Reply
  value : String → Reply

-- The commands; the Boolean says that the command failed. `to_int` is the library's reading of a value.
pub record Redis : Type 1 where
  pub State : Type 0
  pub get : State → String → Reply
  pub set : State → String → String → State × Bool
  pub del : State → String → State × Bool
  pub incr_by : State → String → ℕ → State × Bool
  pub to_int : String → Option ℤ

-- The label of the lookup's metric.
pub data Looked : Type 0 where
  found missed lookup_failed : Looked

pub record Got : Type 0 where
  pub bytes : Option String
  pub failed : Bool
  pub counted : Looked

-- Get; `bytes` is none where the key is reported as not found.
abbrev pub got_from : Reply → Got
got_from absent = record { bytes = none; failed = false; counted = missed }
got_from failure = record { bytes = none; failed = true; counted = lookup_failed }
got_from (value b) = record { bytes = some b; failed = false; counted = found }

unfoldable pub get_bytes : (r : Redis) → r.State → String → Got
get_bytes r s key = got_from (r.get s key)

-- Set and Del pass the command on.
abbrev pub set_bytes : (r : Redis) → r.State → String → String → r.State × Bool
set_bytes r s key b = r.set s key b

abbrev pub delete : (r : Redis) → r.State → String → r.State × Bool
delete r s key = r.del s key

-- GetInt: the number, and whether there is an error.
abbrev read_int : Option ℤ → ℤ × Bool
read_int none = (pos 0, true)
read_int (some n) = (n, false)

abbrev pub int_from : (r : Redis) → Reply → ℤ × Bool
int_from r absent = (pos 0, false)
int_from r failure = (pos 0, true)
int_from r (value b) = read_int (r.to_int b)

unfoldable pub get_int : (r : Redis) → r.State → String → ℤ × Bool
get_int r s key = int_from r (r.get s key)

-- IncrBy: every command of the pipeline is sent, and the result is an error if one of them failed.
-- Without counters nothing is sent.
unfoldable pub incr_all : (r : Redis) → r.State → Counts → r.State × Bool
incr_all r s [] = (s, false)
incr_all r s ((key, n) ∷ counts) =
    let first = r.incr_by s key n in
    let rest = incr_all r first.0 counts in (rest.0, first.1 || rest.1)

-- The pool of NewRedis: its size, and its idle connections.
unfoldable pub pool_of : ℤ → ℤ × ℤ
pool_of size = (size, if ltb_ℤ size (pos 8) then size else pos 8)
