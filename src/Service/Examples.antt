-- ===== src/Service/Examples.antt =====
-- The services at concrete hosts.
use handling_50k_requestes_p.Prelude.{
  ℕ, zero, suc, ◌≤◌, ◌≡◌, refl, true, false, [], ◌∷◌, some, inl, arith,
}
use handling_50k_requestes_p.Service.{
  Host, on_signal, serve, opens, closes, drains, ensures_topic, signals, tracing, postgres, redis,
  kafka, metrics_server, http_server, grpc_server,
}
use handling_50k_requestes_p.Service.Shutdown.{still_open}
use handling_50k_requestes_p.Service.Waiting.{
  Attempt, Waited, wait_for_postgres, first_attempt, Ends, wait_for_postgres-Ends,
}

abbrev good_host : Host
good_host = record {
  config_ok = true;
  tracing_ok = true;
  database_set = true;
  database_ok = true;
  migrate_on_start = false;
  migrate_ok = true;
  redis_set = true;
  kafka_set = true;
  kafka_ok = true;
  listen_ok = true;
  ending = on_signal;
  run_ok = true;
  http_stops = true;
  metrics_stops = true;
}

good_serve : serve good_host ≡ (
  opens signals
      ∷ opens tracing
      ∷ opens postgres
      ∷ opens redis
      ∷ ensures_topic
      ∷ opens kafka
      ∷ opens http_server
      ∷ opens metrics_server
      ∷ opens grpc_server
      ∷ drains
      ∷ closes http_server
      ∷ closes grpc_server
      ∷ closes metrics_server
      ∷ closes tracing
      ∷ closes kafka
      ∷ closes redis
      ∷ closes postgres
      ∷ closes signals
      ∷ [],
  0,
)
unfolding serve
good_serve = refl

-- The port is taken: the tracer is not shut down.
port_taken : still_open [] (serve (record good_host { listen_ok = false })).0 ≡ some (tracing ∷ [])
unfolding serve
port_taken = refl

-- Handlers do not end in time: the backends are closed behind the HTTP server that is given up.
abbrev busy_host : Host
busy_host = record good_host { http_stops = false }

-- The database comes up at the third attempt.
abbrev slow_database : ℕ → Attempt
slow_database zero = record { pool_ok = false; ping_ok = false; over = false }
slow_database (suc zero) = record { pool_ok = true; ping_ok = false; over = false }
slow_database (suc (suc zero)) = record { pool_ok = true; ping_ok = false; over = false }
slow_database (suc (suc (suc n))) = record { pool_ok = true; ping_ok = true; over = false }

slow_database_waited :
    wait_for_postgres slow_database 5 first_attempt
    ≡ some (record { attempt = 3; connected = true; pools = 3; closed = 2; slept = 3 })
unfolding wait_for_postgres
slow_database_waited = refl

wait_for_postgres-Ends_example :
    (r : Waited) × (wait_for_postgres slow_database 5 first_attempt ≡ some r)
    × (r.attempt ≤ 3)
    × Ends slow_database first_attempt r
wait_for_postgres-Ends_example =
    wait_for_postgres-Ends slow_database 3 5 (omega arith) (omega arith) (inl refl)
