-- ===== src/Titanload.antt =====
-- cmd/titanload/main.go: the command line of the load generator, and its exit codes.
--
-- The flag package is a parameter: its result is the parsed flags and the positional arguments, or
-- none on an error. Whether a requester and the shards can be made, whether files can be read and
-- written, and the final snapshot of a local run are chosen by the environment. The exit code of a
-- local run is none where Go would panic. The coordinator's command goes through the events of its
-- coordinator, and judges the snapshot in which they leave it.
pub mod ExitCodes
pub mod Distributed
pub mod Examples
use Prim.Native.String.{◌++◌ as str_append}
use text.Mathlib.Text.{◌==◌ as str_eq}
use handling_50k_requestes_p.Prelude.{
  ℕ, ◌+◌, ◌-◌, String, Bool, true, false, not, ◌&&◌, ◌||◌, List, [], ◌∷◌, ◌++◌, Option, none, some,
  ℤ, pos, ltb, if◌then◌else◌, length,
}
use handling_50k_requestes_p.Prelude.Float.{Float}
use handling_50k_requestes_p.Prelude.Maps.{lookup, insert, is_one_of}
use handling_50k_requestes_p.Prelude.Results.{Result, ok, err, ◌>>=◌}
use handling_50k_requestes_p.Stats.{Snapshot}
use handling_50k_requestes_p.Engine.{
  Config, ConfigError, Mode, unset, http1, http2, grpc, other, Target, parse_mode, validate,
}
use handling_50k_requestes_p.Engine.Targets.{Lines, LineError, parse_lines}
use handling_50k_requestes_p.Coordinator.{Options, Coordinator, new_coordinator, snapshot}
use handling_50k_requestes_p.Coordinator.Watch.{
  Event, Phase, waiting, watching, returned, initial, run,
}
use handling_50k_requestes_p.Dashboard.{Observed, new_view, ticks}
use handling_50k_requestes_p.Report.{Slo, RunInfo, Summary, build}

-- What the command asks of the host: the text functions of the target file, the decimal format,
-- the lines of the target file, and the canonical form of a header's name.
pub record Host : Type 0 where
  pub lines : Lines
  pub decimal : ℕ → String
  pub contains : String → String → Bool
  pub cut : String → String → Option (String × String)
  pub canonical : String → String
  pub read_lines : String → Option (List String)

pub data Command : Type 0 where
  no_command version help unknown : Command
  run_args coordinator_args worker_args : List String → Command

-- The switch of realMain.
unfoldable pub command_of : Host → List String → Command
command_of h [] = no_command
command_of h (a ∷ rest) =
    if is_one_of a ("run" ∷ [])
    then run_args rest
    else if is_one_of a ("coordinator" ∷ "coord" ∷ [])
    then coordinator_args rest
    else if is_one_of a ("worker" ∷ [])
    then worker_args rest
    else if is_one_of a ("version" ∷ "--version" ∷ "-v" ∷ [])
    then version
    else if is_one_of a ("help" ∷ "-h" ∷ "--help" ∷ [])
    then help
    else if h.lines.strings.has_prefix a "-" || h.contains a "://"
    then run_args (a ∷ rest)
    else unknown

abbrev pub values_of : Option (List String) → List String
values_of none = []
values_of (some vs) = vs

-- headerFlag.Set; http.Header.Add appends to the values of the canonical key. `none` is the error.
unfoldable pub set_header :
    Host → List (String × List String) → String → Option (List (String × List String))
set_header h headers v = elim (h.cut v ":") [
  | none ↦ none
  | some (k, value) ↦
      let key = h.canonical (h.lines.strings.trim_space k) in
      some (
        insert key (values_of (lookup key headers) ++ (h.lines.strings.trim_space value ∷ []))
          headers)
]

pub record LoadFlags (fl : Float) : Type 0 where
  pub url : String
  pub targets : String
  pub mode : String
  pub method : String
  pub body : String
  pub body_file : String
  pub grpc_service : String
  pub concurrency : ℤ
  pub connections : ℤ
  pub rate : fl.F
  pub duration : ℤ
  pub timeout : ℤ
  pub ramp : ℤ
  pub requests : ℕ
  pub insecure : Bool
  pub no_keep_alive : Bool
  pub headers : List (String × List String)
  pub json_out : String
  pub slo_p95 : ℤ
  pub slo_p99 : ℤ
  pub slo_err_pct : fl.F
  pub slo_min_rps : fl.F

-- The defaults that bindLoadFlags gives.
unfoldable pub default_flags : (fl : Float) → LoadFlags fl
default_flags fl = record {
  url = "";
  targets = "";
  mode = "";
  method = "GET";
  body = "";
  body_file = "";
  grpc_service = "";
  concurrency = pos 64;
  connections = pos 0;
  rate = fl.lit 0 0;
  duration = pos 30000000000;
  timeout = pos 5000000000;
  ramp = pos 0;
  requests = 0;
  insecure = false;
  no_keep_alive = false;
  headers = [];
  json_out = "";
  slo_p95 = pos 0;
  slo_p99 = pos 0;
  slo_err_pct = fl.lit 0 0;
  slo_min_rps = fl.lit 0 0;
}

pub data CliError : Type 0 where
  bad_mode no_such_file no_target_given no_requester : CliError
  bad_line : LineError → CliError
  bad_config : ConfigError → CliError

abbrev pub or_error : {A E : Type 0} → Option A → E → Result E A
or_error none e = err e
or_error (some a) e = ok a

abbrev pub in_error : {A D E : Type 0} → (D → E) → Result D A → Result E A
in_error f (err e) = err (f e)
in_error f (ok a) = ok a

-- The URL of the flags, or the first positional argument.
abbrev pub url_of : {fl : Float} → LoadFlags fl → List String → String
url_of f [] = f.url
url_of f (a ∷ rest) = if str_eq f.url "" then a else f.url

unfoldable pub mode_of : Host → String → String → Result CliError Mode
mode_of h mode url = or_error (parse_mode h.lines.strings mode) bad_mode >>= λ m. ok (
    if str_eq mode ""
      && (h.lines.strings.has_prefix url "grpc://" || h.lines.strings.has_prefix url "grpcs://")
    then grpc
    else m)

abbrev pub body_of : Host → String → String → Result CliError String
body_of h body file =
    if str_eq file "" then ok body else or_error (h.lines.read_file file) no_such_file

unfoldable pub targets_of :
    {fl : Float} → Host → LoadFlags fl → String → String → Result CliError (List Target)
targets_of h f url body =
    if not (str_eq f.targets "")
    then (or_error (h.read_lines f.targets) no_such_file >>= λ ls.
        in_error bad_line (parse_lines h.lines f.headers 1 ls))
    else if not (str_eq url "")
    then ok (record { method = f.method; url = url; body = body; headers = f.headers } ∷ [])
    else err no_target_given

-- config; its result is the validated configuration.
unfoldable pub config :
    {fl : Float} → Host → LoadFlags fl → List String → Result CliError (Config fl)
unfolding mode_of targets_of
config h f args = do
  let url = url_of f args
  mode ← mode_of h f.mode url
  body ← body_of h f.body f.body_file
  targets ← targets_of h f url body
  in_error bad_config (
      validate h.lines.strings (record {
        targets = targets;
        mode = mode;
        concurrency = f.concurrency;
        connections = f.connections;
        rate = f.rate;
        duration = f.duration;
        max_requests = f.requests;
        timeout = f.timeout;
        ramp = f.ramp;
        insecure = f.insecure;
        disable_keepalive = f.no_keep_alive;
        grpc_service = f.grpc_service;
      }))

unfoldable pub slo : {fl : Float} → LoadFlags fl → Slo fl
slo {fl} f = record {
  p95 = f.slo_p95;
  p99 = f.slo_p99;
  error_rate = fl.div f.slo_err_pct (fl.lit 100 0);
  min_rps = f.slo_min_rps;
}

abbrev pub mode_text : Mode → String
mode_text unset = ""
mode_text http1 = "http1"
mode_text http2 = "http2"
mode_text grpc = "grpc"
mode_text (other m) = m

-- info; without a target it would panic.
unfoldable pub info_for : {fl : Float} → Host → Config fl → List Target → ℤ → Option (RunInfo fl)
info_for h cfg [] workers = none
info_for h cfg (t ∷ more) workers =
    let first = str_append t.method (str_append " " t.url) in
    some (record {
      target =
          if ltb 0 (length more)
          then str_append first (str_append " (+" (str_append (h.decimal (length more)) " more)"))
          else first;
      mode = mode_text cfg.mode;
      workers = workers;
      concurrency = cfg.concurrency;
      rate = cfg.rate;
    })

-- finish, after the summary is printed; `written` says whether the JSON file can be written.
unfoldable pub finish : {fl : Float} → LoadFlags fl → Summary fl → Bool → ℕ
finish f sum written =
    if not (str_eq f.json_out "") && not written then 1 else if sum.slo_passed then 0 else 2

-- engine.New: the configuration is validated again; `made` says whether the requester can be made.
unfoldable pub engine_new : {fl : Float} → Host → Bool → Config fl → Result CliError (Config fl)
engine_new h made cfg = in_error bad_config (validate h.lines.strings cfg) >>= λ c.
    if made then ok c else err no_requester

abbrev pub concluded :
    {fl : Float} → LoadFlags fl → Bool → Snapshot → Option (RunInfo fl) → Option ℕ
concluded f written sn none = none
concluded f written sn (some i) = some (finish f (build sn i (slo f)) written)

-- NewWithRequester makes a slice of one shard for each worker: `room` says for which numbers of them
-- make does not panic, and `exit` is that of the run with these shards.
abbrev pub with_shards : {fl : Float} → (ℤ → Bool) → Config fl → Option ℕ → Option ℕ
with_shards room cfg exit = if room cfg.concurrency then exit else none

abbrev pub run_with :
    {fl : Float}
    → Host
    → (ℤ → Bool)
    → LoadFlags fl
    → Bool
    → Snapshot
    → Result CliError (Config fl)
    → Option ℕ
run_with h room f written sn (err e) = some 1
run_with h room f written sn (ok cfg) =
    with_shards room cfg (concluded f written sn (info_for h cfg cfg.targets (pos 1)))

-- The configuration with which the engine runs.
unfoldable pub prepared :
    {fl : Float} → Host → Bool → LoadFlags fl → List String → Result CliError (Config fl)
unfolding config engine_new
prepared h made f args = config h f args >>= engine_new h made

-- cmdRun after the flags are parsed: the engine runs to its end, and `sn` is its last snapshot.
unfoldable pub cmd_run :
    {fl : Float}
    → Host
    → (ℤ → Bool)
    → Bool
    → Bool
    → Snapshot
    → LoadFlags fl
    → List String
    → Option ℕ
unfolding prepared
cmd_run h room made written sn f args = run_with h room f written sn (prepared h made f args)

-- How the coordinator's command stands: Run has not returned, a panic ended it, or it exits.
pub data Exit : Type 0 where
  still_running panicked : Exit
  exits : ℕ → Exit

-- Run returns nil, or the error of its context, which is context.Canceled; either way the snapshot
-- and the number of workers of that moment are judged.
abbrev pub after_run :
    {fl : Float} → Host → LoadFlags fl → Bool → Config fl → Coordinator fl → Phase → Exit
after_run h f written cfg c waiting = still_running
after_run h f written cfg c watching = still_running
after_run h f written cfg c (returned in_time) =
    elim (concluded f written (snapshot c) (info_for h cfg cfg.targets (pos (length c.order)))) [
      | none ↦ panicked
      | some code ↦ exits code
    ]

-- `seen` is what the dashboard reads from the coordinator at its ticks, and `es` the requests and
-- timer events that come until the snapshot is taken for the summary.
abbrev pub watch_run :
    {fl : Float}
    → Host
    → (ℕ → String)
    → Bool
    → ℕ
    → List Observed
    → List Event
    → Bool
    → LoadFlags fl
    → Config fl
    → Coordinator fl
    → Exit
watch_run {fl} h format interactive at seen es written f cfg c =
    elim (ticks fl interactive (new_view fl at) seen) [
      | none ↦ panicked
      | some shown ↦ let s = run format (initial c) es in after_run h f written cfg s.coord s.phase
    ]

abbrev pub coordinate_with :
    {fl : Float}
    → Host
    → (ℕ → String)
    → Options
    → Bool
    → Bool
    → ℕ
    → List Observed
    → List Event
    → Bool
    → LoadFlags fl
    → Result CliError (Config fl)
    → Exit
coordinate_with h format opts listens interactive at seen es written f (err e) = exits 1
coordinate_with h format opts listens interactive at seen es written f (ok cfg) =
    elim (new_coordinator h.lines.strings cfg opts) [
      | err e ↦ exits 1
      | ok c ↦
          if listens then watch_run h format interactive at seen es written f cfg c else exits 1
    ]

-- cmdCoordinator after the flags are parsed; `at` is the time at which the dashboard starts.
unfoldable pub cmd_coordinator :
    {fl : Float}
    → Host
    → (ℕ → String)
    → Options
    → Bool
    → Bool
    → ℕ
    → List Observed
    → List Event
    → Bool
    → LoadFlags fl
    → List String
    → Exit
unfolding config
cmd_coordinator h format opts listens interactive at seen es written f args =
    coordinate_with h format opts listens interactive at seen es written f (config h f args)

-- cmdWorker after the flags are parsed; `result` is whether RunWorker returned nil.
unfoldable pub cmd_worker : String → Bool → ℕ
cmd_worker coordinator result = if str_eq coordinator "" then 1 else if result then 0 else 1
