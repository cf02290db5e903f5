-- ===== src/Service.antt =====
-- cmd/api/main.go and cmd/worker/main.go: the life of the two services.
--
-- A service is a trace of actions on its resources: it opens them in order, and a `defer` registers
-- what is done when the function returns, the last first. Whether each step succeeds is chosen by the
-- environment.
pub mod Waiting
pub mod Topic
pub mod Shutdown
pub mod Examples
use handling_50k_requestes_p.Prelude.Maps.{is_one_of}
use handling_50k_requestes_p.Prelude.{
  ℕ, zero, suc, ◌+◌, String, Bool, true, false, not, ◌&&◌, ◌||◌, List, [], ◌∷◌, ◌++◌, Option, none,
  some, if◌then◌else◌, min,
}

pub data Resource : Type 0 where
  signals tracing postgres redis kafka http_server metrics_server grpc_server consumer : Resource

pub data Action : Type 0 where
  opens closes : Resource → Action
  gives_up : Resource → Action  -- its Shutdown failed: handlers may still run
  migrates drains ensures_topic : Action

-- What a function has done, and what its deferred calls will close, the last registered first.
pub record Scope : Type 0 where
  pub done : List Action
  pub deferred : List Resource

abbrev pub fresh_scope : Scope
fresh_scope = record { done = []; deferred = [] }

abbrev pub act : Action → Scope → Scope
act a s = record s { done = s.done ++ (a ∷ []) }

abbrev pub opening : Resource → Scope → Scope
opening r s = record { done = s.done ++ (opens r ∷ []); deferred = r ∷ s.deferred }

unfoldable pub close_all : List Resource → List Action
close_all [] = []
close_all (r ∷ rs) = closes r ∷ close_all rs

-- `return code`: the deferred calls run.
unfoldable pub leave : ℕ → Scope → List Action × ℕ
unfolding close_all
leave code s = (s.done ++ close_all s.deferred, code)

pub data Ending : Type 0 where
  on_signal server_closed server_failed : Ending

-- How one run of a service goes.
pub record Host : Type 0 where
  pub config_ok : Bool
  pub tracing_ok : Bool
  pub database_set : Bool
  pub database_ok : Bool
  pub migrate_on_start : Bool
  pub migrate_ok : Bool
  pub redis_set : Bool
  pub kafka_set : Bool
  pub kafka_ok : Bool
  pub listen_ok : Bool
  pub ending : Ending
  pub http_stops : Bool  -- whether Shutdown returns nil in time, as the next
  pub metrics_stops : Bool
  pub run_ok : Bool

abbrev pub exit_of : Ending → ℕ
exit_of on_signal = 0
exit_of server_closed = 0
exit_of server_failed = 1

-- Shutdown of an HTTP server.
abbrev pub stops : Bool → Resource → Action
stops true r = closes r
stops false r = gives_up r

-- The end of serve: the health service says that the server drains, then each server is shut down,
-- the metrics server after the others, and the tracer last. The gRPC server is stopped at the latest
-- when the time is over; a Shutdown that fails is only logged.
unfoldable pub drain : Host → Scope → List Action × ℕ
unfolding leave
drain h s = leave (exit_of h.ending) (
    act (closes tracing) (
      act (stops h.metrics_stops metrics_server)
        (act (closes grpc_server) (act (stops h.http_stops http_server) (act drains s)))))

-- The servers: the gRPC port is opened first, and then all three serve until one ends.
unfoldable pub serve_until_end : Host → Scope → List Action × ℕ
unfolding drain
serve_until_end h s =
    if not h.listen_ok
    then leave 1 s
    else drain h (act (opens grpc_server) (act (opens metrics_server) (act (opens http_server) s)))

unfoldable pub with_kafka : Host → Scope → List Action × ℕ
unfolding serve_until_end
with_kafka h s =
    if not h.kafka_set
    then serve_until_end h s
    else if not h.kafka_ok
    then leave 1 (act ensures_topic s)
    else serve_until_end h (opening kafka (act ensures_topic s))

unfoldable pub with_redis : Host → Scope → List Action × ℕ
unfolding with_kafka
with_redis h s = if h.redis_set then with_kafka h (opening redis s) else with_kafka h s

unfoldable pub migrated : Host → Scope → List Action × ℕ
unfolding with_redis
migrated h s =
    if not h.migrate_on_start
    then with_redis h s
    else if not h.migrate_ok
    then leave 1 (act migrates s)
    else with_redis h (act migrates s)

-- serve of cmd/api. The tracer is no deferred call: only the end of serve shuts it down.
unfoldable pub serve : Host → List Action × ℕ
unfolding migrated
serve h =
    let s = opening signals fresh_scope in
    let t = act (opens tracing) s in
    if not h.config_ok
    then leave 1 fresh_scope
    else if not h.tracing_ok
    then leave 1 s
    else if not h.database_set
    then with_redis h t
    else if not h.database_ok
    then leave 1 t
    else migrated h (opening postgres t)

-- migrate of cmd/api.
unfoldable pub migrate : Host → List Action × ℕ
unfolding leave
migrate h =
    if not h.config_ok
    then leave 1 fresh_scope
    else if not h.database_set
    then leave 1 fresh_scope
    else if not h.database_ok
    then leave 1 fresh_scope
    else leave (if h.migrate_ok then 0 else 1) (act migrates (opening postgres fresh_scope))

unfoldable pub consume : Host → Scope → List Action × ℕ
unfolding leave
consume h s =
    if not h.kafka_ok
    then leave 1 s
    else let t = act (closes consumer) (act (opens metrics_server) (act (opens consumer) s)) in
      if not h.run_ok then leave 1 t else leave 0 (act (stops h.metrics_stops metrics_server) t)

unfoldable pub consume_with_redis : Host → Scope → List Action × ℕ
unfolding consume
consume_with_redis h s = if h.redis_set then consume h (opening redis s) else consume h s

-- run of cmd/worker. `consumer.Run` closes its client when it returns.
unfoldable pub run_worker : Host → List Action × ℕ
unfolding consume_with_redis
run_worker h =
    let s = opening tracing (opening signals fresh_scope) in
    if not h.config_ok
    then leave 1 fresh_scope
    else if not h.kafka_set
    then leave 1 fresh_scope
    else if not h.tracing_ok
    then leave 1 (opening signals fresh_scope)
    else if not h.database_set
    then consume_with_redis h s
    else if not h.database_ok
    then leave 1 s
    else consume_with_redis h (opening postgres s)

-- main of cmd/api and of cmd/worker, over the arguments: what is done, and the exit code.
unfoldable pub api_main : List String → Host → List Action × ℕ
api_main [] h = serve h
api_main (cmd ∷ args) h =
    if is_one_of cmd ("version" ∷ "--version" ∷ "-v" ∷ [])
    then ([], 0)
    else if is_one_of cmd ("migrate" ∷ [])
    then migrate h
    else if is_one_of cmd ("" ∷ "serve" ∷ [])
    then serve h
    else ([], 2)

unfoldable pub worker_main : List String → Host → List Action × ℕ
worker_main [] h = run_worker h
worker_main (cmd ∷ args) h =
    if is_one_of cmd ("version" ∷ "--version" ∷ []) then ([], 0) else run_worker h
