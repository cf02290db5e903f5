-- ===== src/Config/Loading.antt =====
-- A configuration that Load accepts is usable, and reads each number as it was written, up to a conversion.
use text.Mathlib.Text.{◌==◌ as str_eq}
use text.Mathlib.TextEquality.{eq_iff}
use handling_50k_requestes_p.Prelude.{
  ◌≡◌, ◌≢◌, refl, String, Bool, true, false, List, [], ◌∷◌, ◌++◌, ◌⊎◌, inl, inr, ℤ, pos, ltb_ℤ,
  if◌then◌else◌, Bool-cases, arith,
}
use handling_50k_requestes_p.Prelude.Float.{Float}
use handling_50k_requestes_p.Prelude.Results.{Result, ok, err}
use handling_50k_requestes_p.Config.{Host, Config, env, env_with, parsed, below_one, load, wrap_32}

append_nil : {A : Type 0} (xs ys : List A) → xs ++ ys ≡ [] → (xs ≡ []) × (ys ≡ [])
append_nil [] ys h = (refl, h)
append_nil (x ∷ xs) ys h = cc

-- The value of a variable as its reader sees it: the default where the variable is unset or blank.
abbrev pub Reads :
    {A : Type 0} {fl : Float} → Host fl → (String → Result String A) → String → A → A → Type 0
Reads h parse key def v =
    (env h key "" ≡ "") × (v ≡ def) ⊎ (env h key "" ≢ "") × (parse (env h key "") ≡ ok v)

parsed_ok :
    {A : Type 0} (key : String) (def : A) (r : Result String A)
    → (parsed key def r).1 ≡ []
    → r ≡ ok (parsed key def r).0
parsed_ok key def (ok v) good = refl
parsed_ok key def (err e) good = cc

read_value :
    {A : Type 0} (parse : String → Result String A) (key : String) (def : A) (v : String)
    (test : Bool)
    → (test ≡ true → v ≡ "")
    → (test ≡ false → v ≢ "")
    → (if test then (def, []) else parsed key def (parse v)).1 ≡ []
    → let r = (if test then (def, []) else parsed key def (parse v)).0 in
      (v ≡ "") × (r ≡ def) ⊎ (v ≢ "") × (parse v ≡ ok r)
read_value parse key def v true blank written good = inl (blank refl, refl)
read_value parse key def v false blank written good =
    inr (written refl, parsed_ok key def (parse v) good)

env_with-Reads :
    {A : Type 0} {fl : Float} (h : Host fl) (parse : String → Result String A) (key : String)
    (def : A)
    → (env_with h parse key def).1 ≡ []
    → Reads h parse key def (env_with h parse key def).0
unfolding env_with
env_with-Reads h parse key def good =
    read_value parse key def (env h key "") (str_eq (env h key "") "")
      (λ e. ground (arith, eq_iff (env h key "") ""))
      (λ e. ground (arith, eq_iff (env h key "") "")) good

-- What an accepted configuration promises.
pub record IsUsable {fl : Float} (h : Host fl) (c : Config fl) : Type 0 where
  pub admits_requests : ltb_ℤ c.max_inflight (pos 1) ≡ false
  pub has_partitions : ltb_ℤ c.kafka_partitions (pos 1) ≡ false
  pub reads_inflight : Reads h h.atoi "MAX_INFLIGHT" (pos 20000) c.max_inflight
  pub reads_partitions : Reads h h.atoi "KAFKA_PARTITIONS" (pos 12) c.kafka_partitions
  pub reads_connections :
      (n : ℤ) × Reads h h.atoi "DB_MAX_CONNS" (pos 10) n × (c.db_max_conns ≡ wrap_32 n)
  pub reads_pool : Reads h h.atoi "REDIS_POOL_SIZE" (pos 64) c.redis_pool_size
  pub reads_flush_size : Reads h h.atoi "WORKER_FLUSH_SIZE" (pos 5000) c.worker_flush_size
  pub reads_tls : Reads h h.parse_bool "REDIS_TLS" false c.redis_tls
  pub reads_migrate : Reads h h.parse_bool "MIGRATE_ON_START" false c.migrate_on_start
  pub reads_ttl : Reads h h.parse_duration "CACHE_TTL" (pos 60000000000) c.cache_ttl
  pub reads_interval :
      Reads h h.parse_duration "WORKER_FLUSH_INTERVAL" (pos 2000000000) c.worker_flush_interval
  pub reads_shutdown :
      Reads h h.parse_duration "SHUTDOWN_TIMEOUT" (pos 20000000000) c.shutdown_timeout
  pub reads_log_rate : Reads h h.parse_float "LOG_SAMPLE_RATE" (fl.lit 1 3) c.log_sample_rate
  pub reads_trace_rate :
      Reads h h.parse_float "TRACE_SAMPLE_RATIO" (fl.lit 1 2) c.trace_sample_ratio

below_one_nil : (n : ℤ) (m : String) → below_one n m ≡ [] → ltb_ℤ n (pos 1) ≡ false
below_one_nil n m good = elim (Bool-cases (ltb_ℤ n (pos 1))) [ inl below ↦ cc | inr fine ↦ fine ]

-- Load: where the errors are empty, the configuration admits at least one request at a time and at
-- least one partition, and each number, flag, duration and rate is its default where the variable is
-- unset or blank, and otherwise what the parser reads in the trimmed value; only the number of database
-- connections is cut to 32 bits of it.
pub load-IsUsable :
    {fl : Float} (h : Host fl) (name : String) → (load h name).1 ≡ [] → IsUsable h (load h name).0
unfolding load
load-IsUsable {fl} h name good =
    let (g1, r1) = append_nil _ _ good in
    let (g2, r2) = append_nil _ _ r1 in
    let (g3, r3) = append_nil _ _ r2 in
    let (g4, r4) = append_nil _ _ r3 in
    let (g5, r5) = append_nil _ _ r4 in
    let (g6, r6) = append_nil _ _ r5 in
    let (g7, r7) = append_nil _ _ r6 in
    let (g8, r8) = append_nil _ _ r7 in
    let (g9, r9) = append_nil _ _ r8 in
    let (g10, r10) = append_nil _ _ r9 in
    let (g11, r11) = append_nil _ _ r10 in
    let (g12, r12) = append_nil _ _ r11 in
    let (g13, g14) = append_nil _ _ r12 in
    record {
      admits_requests = below_one_nil (load h name).0.max_inflight _ g13;
      has_partitions = below_one_nil (load h name).0.kafka_partitions _ g14;
      reads_inflight = env_with-Reads h h.atoi "MAX_INFLIGHT" (pos 20000) g4;
      reads_partitions = env_with-Reads h h.atoi "KAFKA_PARTITIONS" (pos 12) g3;
      reads_connections = (_, env_with-Reads h h.atoi "DB_MAX_CONNS" (pos 10) g1, refl);
      reads_pool = env_with-Reads h h.atoi "REDIS_POOL_SIZE" (pos 64) g2;
      reads_flush_size = env_with-Reads h h.atoi "WORKER_FLUSH_SIZE" (pos 5000) g5;
      reads_tls = env_with-Reads h h.parse_bool "REDIS_TLS" false g7;
      reads_migrate = env_with-Reads h h.parse_bool "MIGRATE_ON_START" false g6;
      reads_ttl = env_with-Reads h h.parse_duration "CACHE_TTL" (pos 60000000000) g8;
      reads_interval =
          env_with-Reads h h.parse_duration "WORKER_FLUSH_INTERVAL" (pos 2000000000) g10;
      reads_shutdown = env_with-Reads h h.parse_duration "SHUTDOWN_TIMEOUT" (pos 20000000000) g9;
      reads_log_rate = env_with-Reads h h.parse_float "LOG_SAMPLE_RATE" (fl.lit 1 3) g11;
      reads_trace_rate = env_with-Reads h h.parse_float "TRACE_SAMPLE_RATIO" (fl.lit 1 2) g12;
    }
