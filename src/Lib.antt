-- ===== src/Lib.antt =====
-- A verification of the TitanEdge load generator and its services.
--
-- titanload measures a server: goroutines of an engine issue requests and record each in a shard of
-- their own; a snapshot sums the shards. In distributed mode a coordinator registers remote workers,
-- splits the load, releases the job, and merges the snapshots that the workers report.
--
-- Modules
--   Prelude       shared names: tests, lists and words over the native numbers, maps, interfaces for
--                 float64 (Prelude.Float) and Go's strings package (Prelude.Text).
--   Stats         internal/titanload/stats/histogram.go. Shard and Snapshot are records with the
--                 source's fields; Record is record_sample, AddShard add_shard, Merge merge, Sub sub,
--                 Percentile percentile. Stats.Samples says what the counters mean; Stats.Live has
--                 Record and AddShard as the atomic steps of two goroutines.
--   Engine        internal/titanload/engine/engine.go: Config, Validate (validate), ParseMode;
--                 Engine.Run has the goroutines of worker as look, claim and complete;
--                 ParseTargetsFile is parse_lines of Engine.Targets, pace is Engine.Pacing, and
--                 Engine.Transport has internal/titanload/engine/transport.go, Engine.Clock the
--                 elapsed time and the ramp.
--   Coordinator   internal/titanload/distributed/distributed.go. handleRegister is register, handleJob
--                 poll, handleReport report; Coordinator.Watch is Run, as a step function over events.
--   Worker        internal/worker/worker.go and AddRollups of internal/store/store.go: Add is add, flush
--                 flush, Consumer.Run session; Worker.Loop.run adds restarts and crashes.
--                 Worker.Group has several workers on the partitions of the topic.
--   Config        internal/config/config.go: Load is load, the env readers are env and env_with.
--   Api           internal/api/server.go, middleware.go and handlers.go: shed is arrive and depart,
--                 instrument instrument, Ready ready; Api.Handlers has getItem, createItem, listItems,
--                 publishEvent (with Publish of internal/events/events.go) and itemCount;
--                 Api.Status has ping, healthz, stats and the recoverer.
--   Store         internal/store/store.go: Migrate is migrate, as one function; Store.Replicas has its
--                 statements as steps, with replicas that start together; Store.Queries has GetItem,
--                 ListItems and the labels of observe.
--   Remote        internal/titanload/distributed/worker.go: do is client_do, runOnce run_once,
--                 RunWorker run_worker; Remote.Arrival puts its final report and the handler together.
--   Cache         internal/cache/cache.go: Get is get_bytes, GetInt get_int, IncrBy incr_all.
--   Report        internal/titanload/report/report.go: SLO.Check is check, Build build, Num num.
--   Dashboard     internal/titanload/dashboard/dashboard.go and exporter.go: tick is tick, the loop of
--                 Run drawn, the rows of the workers worker_lines, Update of the exporter update;
--                 Dashboard.Panel has the numbers that render prints above them.
--   Titanload     cmd/titanload/main.go: config is config, cmdRun cmd_run, cmdCoordinator
--                 cmd_coordinator; the exit codes are their results. The command of the
--                 coordinator goes through the events of Coordinator.Watch and the ticks of
--                 Dashboard. Titanload.Distributed puts the command, the coordinator and the
--                 statistics together.
--   Service       cmd/api/main.go and cmd/worker/main.go: serve, migrate, run_worker as traces of
--                 actions; Service.Waiting has waitForPostgres, Service.Topic
--                 EnsureTopic of internal/events/events.go.
--   Observability internal/observability/observability.go: SetupTracing is setup_tracing.
--
-- The API publishes events that the worker consumes; the worker and the API share the database and
-- the cache. Each of these modules models the failures of what it calls as chosen by the caller.
-- A write to the database whose answer is lost is one of them: the worker sees an error, and the rows
-- are there. So is a session of a replica that PostgreSQL ends with its lock between two statements.
--
-- Numbers: uint64 counters wrap; durations are signed or natural nanoseconds, as the comments say.
-- Float operations, text functions and the format of ids are parameters; where a theorem needs
-- something of them, it is a named hypothesis. The loops are recursions on
-- lists, of events, attempts or records; the five attempts at the final report count down from 5.
-- Only the wait for the database is on fuel: it ends within the attempts up to the first that succeeds
-- or at which the context is over.
--
-- Not modelled: the network, JSON, signals, the layout of the terminal and the third-party libraries,
-- with the options they are given.
pub mod Prelude
pub mod Stats
pub mod Engine
pub mod Coordinator
pub mod Worker
pub mod Config
pub mod Api
pub mod Store
pub mod Remote
pub mod Cache
pub mod Report
pub mod Dashboard
pub mod Titanload
pub mod Service
pub mod Observability
