-- ===== src/Engine.antt =====
-- internal/titanload/engine/engine.go: the configuration of a load test, and its validation.
pub mod Validation
pub mod Run
pub mod Transport
pub mod Connections
pub mod Clock
pub mod Pacing
pub mod Targets
pub mod Actions
pub mod Budget
pub mod Examples
use text.Mathlib.Text.{◌==◌ as str_eq}
use handling_50k_requestes_p.Prelude.{
  ℕ, ◌≤◌, String, Bool, true, false, not, ◌&&◌, ◌||◌, List, [], ◌∷◌, ◌++◌, Option, none, some, ℤ,
  pos, negsuc, ltb_ℤ, leb, ◌==◌, if◌then◌else◌,
}
use handling_50k_requestes_p.Prelude.Float.{Float}
use handling_50k_requestes_p.Prelude.Text.{Strings}
use handling_50k_requestes_p.Prelude.Results.{Result, ok, err, ◌>>=◌, ◌>>◌, refuse_if}

-- `unset` is the empty string; a configuration that came as JSON may hold any other.
pub data Mode : Type 0 where
  unset http1 http2 grpc : Mode
  other : String → Mode

abbrev in_list : String → List String → Bool
in_list s [] = false
in_list s (x ∷ xs) = str_eq s x || in_list s xs

-- `none` is the error for an unknown mode.
unfoldable pub parse_mode : Strings → String → Option Mode
parse_mode st s =
    let t = st.to_lower (st.trim_space s) in
    if in_list t ("" ∷ "http1" ∷ "http" ∷ "h1" ∷ "http/1.1" ∷ [])
    then some http1
    else if in_list t ("http2" ∷ "h2" ∷ "h2c" ∷ "http/2" ∷ [])
    then some http2
    else if in_list t ("grpc" ∷ [])
    then some grpc
    else none

pub record Target : Type 0 where
  pub method : String
  pub url : String
  pub body : String
  pub headers : List (String × List String)

-- Durations are signed nanoseconds.
pub record Config (fl : Float) : Type 0 where
  pub targets : List Target
  pub mode : Mode
  pub concurrency : ℤ
  pub connections : ℤ
  pub rate : fl.F
  pub duration : ℤ
  pub max_requests : ℕ
  pub timeout : ℤ
  pub ramp : ℤ
  pub insecure : Bool
  pub disable_keepalive : Bool
  pub grpc_service : String

pub data ConfigError : Type 0 where
  no_target bad_concurrency bad_rate no_bound : ConfigError
  bad_scheme : String → ConfigError

-- Without a mode, the first target's URL decides.
abbrev pub default_mode : Strings → Mode → String → Mode
default_mode st unset url = if st.has_prefix url "grpc" then grpc else http1
default_mode st http1 url = http1
default_mode st http2 url = http2
default_mode st grpc url = grpc
default_mode st (other m) url = other m

abbrev pub is_grpc : Mode → Bool
is_grpc grpc = true
is_grpc unset = false
is_grpc http1 = false
is_grpc http2 = false
is_grpc (other m) = false

abbrev pub has_scheme : Strings → String → Bool
has_scheme st url = st.has_prefix url "http://" || st.has_prefix url "https://"

abbrev pub effective_method : Strings → String → String
effective_method st m = st.to_upper (if str_eq m "" then "GET" else m)

unfoldable pub check_targets : Strings → Mode → List Target → Result ConfigError (List Target)
check_targets st mode [] = ok []
check_targets st mode (t ∷ ts) =
    let rest = check_targets st mode ts in
    if not (is_grpc mode) && not (has_scheme st t.url)
    then err (bad_scheme t.url)
    else (rest >>= λ us. ok (record t { method = effective_method st t.method } ∷ us))

abbrev pub default_timeout : ℤ → ℤ
default_timeout t = if ltb_ℤ (pos 0) t then t else pos 5000000000

-- The part of Validate after the targets.
unfoldable pub check_limits : {fl : Float} → Config fl → Result ConfigError (Config fl)
check_limits {fl} c = do
  refuse_if (ltb_ℤ c.concurrency (pos 1)) bad_concurrency
  refuse_if (fl.flt c.rate (fl.lit 0 0)) bad_rate
  refuse_if (not (ltb_ℤ (pos 0) c.duration) && c.max_requests == 0) no_bound
  ok (record c { timeout = default_timeout c.timeout })

-- Validate, with the updated configuration as its result.
validate_targets : {fl : Float} → Strings → Config fl → List Target → Result ConfigError (Config fl)
validate_targets st c [] = err no_target
validate_targets st c (t ∷ ts) =
    let mode = default_mode st c.mode t.url in
    check_targets st mode (t ∷ ts) >>= λ us. check_limits (record c { mode = mode; targets = us })

unfoldable pub validate : {fl : Float} → Strings → Config fl → Result ConfigError (Config fl)
unfolding validate_targets
validate st c = validate_targets st c c.targets
