-- ===== src/Config.antt =====
-- internal/config/config.go: the service configuration, loaded from environment variables.
--
-- The environment is a map from names to values. The parsers of strconv and time and the hostname are
-- parameters; a parser's `err` carries its message.
pub mod Loading
pub mod Examples
use Prim.Native.String.{◌++◌ as str_append}
use text.Mathlib.Text.{◌==◌ as str_eq}
use handling_50k_requestes_p.Prelude.{
  ℕ, ◌+◌, ◌-◌, ◌%◌, ltb, String, Bool, true, false, List, [], ◌∷◌, ◌++◌, Option, none, some, ℤ, pos,
  negsuc, ltb_ℤ, if◌then◌else◌,
}
use handling_50k_requestes_p.Prelude.Float.{Float}
use handling_50k_requestes_p.Prelude.Text.{Strings}
use handling_50k_requestes_p.Prelude.Maps.{lookup}
use handling_50k_requestes_p.Prelude.Results.{Result, ok, err}

-- What the loader calls outside the repository.
pub record Host (fl : Float) : Type 0 where
  pub strings : Strings
  pub atoi : String → Result String ℤ
  pub parse_float : String → Result String fl.F
  pub parse_bool : String → Result String Bool
  pub parse_duration : String → Result String ℤ
  pub hostname : Option String
  pub variables : List (String × String)

-- The fields that Load fills, durations in nanoseconds.
pub record Config (fl : Float) : Type 0 where
  pub service_name : String
  pub pod_name : String
  pub http_addr : String
  pub grpc_addr : String
  pub metrics_addr : String
  pub database_url : String
  pub db_max_conns : ℤ
  pub migrate_on_start : Bool
  pub redis_addr : String
  pub redis_password : String
  pub redis_tls : Bool
  pub redis_pool_size : ℤ
  pub cache_ttl : ℤ
  pub kafka_brokers : List String
  pub kafka_topic : String
  pub kafka_partitions : ℤ
  pub kafka_group_id : String
  pub max_inflight : ℤ
  pub max_body_bytes : ℕ
  pub shutdown_timeout : ℤ
  pub log_level : String
  pub log_sample_rate : fl.F
  pub otlp_endpoint : String
  pub trace_sample_ratio : fl.F
  pub worker_flush_interval : ℤ
  pub worker_flush_size : ℤ

-- `int32(n)`
abbrev signed_32 : ℕ → ℤ
signed_32 r = if ltb r 2147483648 then pos r else negsuc (4294967295 - r)

abbrev pub wrap_32 : ℤ → ℤ
wrap_32 (pos n) = signed_32 (n % 4294967296)
wrap_32 (negsuc n) = signed_32 (4294967295 - n % 4294967296)

-- `env`: the trimmed value, or the default where it is unset or blank.
unfoldable pub env : {fl : Float} → Host fl → String → String → String
env h key def = env_value (lookup key h.variables)
  where
    env_value : Option String → String
    env_value none = def
    env_value (some v) = if str_eq (h.strings.trim_space v) "" then def else h.strings.trim_space v

-- The value that a reader returns, and the errors so far with its own.
abbrev pub parsed : {A : Type 0} → String → A → Result String A → A × List String
parsed key def (ok v) = (v, [])
parsed key def (err e) = (def, str_append key (str_append ": " e) ∷ [])

-- envInt, envFloat, envBool and envDuration, which differ in the parser alone.
unfoldable pub env_with :
    {fl : Float} {A : Type 0} → Host fl → (String → Result String A) → String → A → A × List String
unfolding env
env_with h parse key def =
    let v = env h key "" in if str_eq v "" then (def, []) else parsed key def (parse v)

unfoldable pub split_list : {fl : Float} → Host fl → String → List String
split_list h s = keep (h.strings.split s ",")
  where
    keep : List String → List String
    keep [] = []
    keep (p ∷ ps) =
        let rest = keep ps in
        let q = h.strings.trim_space p in if str_eq q "" then rest else q ∷ rest

abbrev host_of : Option String → String
host_of none = "unknown"
host_of (some name) = name

abbrev pub below_one : ℤ → String → List String
below_one n message = if ltb_ℤ n (pos 1) then message ∷ [] else []

-- Load: the configuration and the errors, which the caller gets as one joined message.
unfoldable pub load : {fl : Float} → Host fl → String → Config fl × List String
unfolding env env_with split_list
load {fl} h name =
    let (db_max, e1) = env_with h h.atoi "DB_MAX_CONNS" (pos 10) in
    let (pool_size, e2) = env_with h h.atoi "REDIS_POOL_SIZE" (pos 64) in
    let (partitions, e3) = env_with h h.atoi "KAFKA_PARTITIONS" (pos 12) in
    let (inflight, e4) = env_with h h.atoi "MAX_INFLIGHT" (pos 20000) in
    let (flush_size, e5) = env_with h h.atoi "WORKER_FLUSH_SIZE" (pos 5000) in
    let (migrate, e6) = env_with h h.parse_bool "MIGRATE_ON_START" false in
    let (tls, e7) = env_with h h.parse_bool "REDIS_TLS" false in
    let (ttl, e8) = env_with h h.parse_duration "CACHE_TTL" (pos 60000000000) in
    let (shutdown, e9) = env_with h h.parse_duration "SHUTDOWN_TIMEOUT" (pos 20000000000) in
    let (interval, e10) = env_with h h.parse_duration "WORKER_FLUSH_INTERVAL" (pos 2000000000) in
    let (log_rate, e11) = env_with h h.parse_float "LOG_SAMPLE_RATE" (fl.lit 1 3) in
    let (trace_rate, e12) = env_with h h.parse_float "TRACE_SAMPLE_RATIO" (fl.lit 1 2) in
    (
      record {
        service_name = env h "OTEL_SERVICE_NAME" name;
        pod_name = env h "POD_NAME" (host_of h.hostname);
        http_addr = env h "HTTP_ADDR" ":8080";
        grpc_addr = env h "GRPC_ADDR" ":9090";
        metrics_addr = env h "METRICS_ADDR" ":9102";
        database_url = env h "DATABASE_URL" "";
        db_max_conns = wrap_32 db_max;
        migrate_on_start = migrate;
        redis_addr = env h "REDIS_ADDR" "";
        redis_password = env h "REDIS_PASSWORD" "";
        redis_tls = tls;
        redis_pool_size = pool_size;
        cache_ttl = ttl;
        kafka_brokers = split_list h (env h "KAFKA_BROKERS" "");
        kafka_topic = env h "KAFKA_TOPIC" "titan.events";
        kafka_partitions = partitions;
        kafka_group_id = env h "KAFKA_GROUP_ID" "titan-worker";
        max_inflight = inflight;
        max_body_bytes = 1048576;
        shutdown_timeout = shutdown;
        log_level = env h "LOG_LEVEL" "info";
        log_sample_rate = log_rate;
        otlp_endpoint = env h "OTEL_EXPORTER_OTLP_ENDPOINT" "";
        trace_sample_ratio = trace_rate;
        worker_flush_interval = interval;
        worker_flush_size = flush_size;
      },
      e1
          ++ (e2
              ++ (e3
                  ++ (e4
                      ++ (e5
                          ++ (e6
                              ++ (e7
                                  ++ (e8
                                      ++ (e9
                                          ++ (e10
                                              ++ (e11
                                                  ++ (e12
                                                      ++ (below_one inflight
                                                            "MAX_INFLIGHT must be >= 1"
                                                          ++ below_one partitions
                                                            "KAFKA_PARTITIONS must be >= 1")))))))))))),
    )
