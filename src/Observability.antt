-- ===== src/Observability.antt =====
-- internal/observability/observability.go: the log level, tracing and the probes of the metrics port.
--
-- The handler of /metrics, the logger and the tracer are libraries; whether their constructors succeed
-- is chosen by the environment.
use text.Mathlib.Text.{◌==◌ as str_eq}
use handling_50k_requestes_p.Prelude.{
  ℕ, String, Bool, true, false, [], ◌∷◌, Option, none, some, if◌then◌else◌, not,
}
use handling_50k_requestes_p.Prelude.Text.{Strings}
use handling_50k_requestes_p.Prelude.Maps.{is_one_of}

pub data Level : Type 0 where
  debug info warn error : Level

-- The switch of NewLogger: whatever it does not know is info.
unfoldable pub log_level : Strings → String → Level
log_level strings level =
    let lower = strings.to_lower level in
    if str_eq lower "debug"
    then debug
    else if is_one_of lower ("warn" ∷ "warning" ∷ [])
    then warn
    else if str_eq lower "error"
    then error
    else info

-- What resource.New returns: a partial resource is used all the same.
pub data Detected : Type 0 where
  complete partial undetected : Detected

pub data Tracing : Type 0 where
  quiet exporting refused : Tracing

-- SetupTracing: without an endpoint its shutdown does nothing, and nothing is exported.
unfoldable pub setup_tracing : String → Bool → Detected → Tracing
setup_tracing endpoint exporter_ok detected =
    if str_eq endpoint ""
    then quiet
    else if not exporter_ok
    then refused
    else with_resource detected
  where
    with_resource : Detected → Tracing
    with_resource undetected = refused
    with_resource complete = exporting
    with_resource partial = exporting

pub data Probe : Type 0 where
  healthz readyz : Probe

-- The probes of NewMetricsServer; a nil `ready` is none.
unfoldable pub probe : Probe → Option Bool → ℕ × String
probe healthz ready = (200, "ok")
probe readyz (some false) = (503, "not ready")
probe readyz (some true) = (200, "ready")
probe readyz none = (200, "ready")
