-- ===== src/Api.antt =====
-- internal/api/server.go and middleware.go: responses, the status recorder, admission control, the
-- request id and the readiness cache.
--
-- What json.Marshal makes of a value is a parameter (`none` is its error). The underlying
-- ResponseWriter is the list of the calls made on it.
pub mod Admission
pub mod Recording
pub mod Handlers
pub mod Coherence
pub mod CacheAside
pub mod Publishing
pub mod Readiness
pub mod Status
pub mod Examples
use text.Mathlib.Text.{◌==◌ as str_eq}
use handling_50k_requestes_p.Prelude.{
  ℕ, ◌+◌, ◌-◌, String, Bool, true, false, ◌&&◌, ◌||◌, List, [], ◌∷◌, ◌++◌, Option, none, some, ltb,
  leb, ◌==◌, length, if◌then◌else◌,
}
use handling_50k_requestes_p.Prelude.Maps.{insert}

-- What a handler sends: the status, the headers that it sets, and the body.
pub record Response : Type 0 where
  pub code : ℕ
  pub headers : List (String × String)
  pub body : String

-- writeJSON
unfoldable pub write_json : List (String × String) → ℕ → Option String → Response
write_json headers code (some b) = record {
  code = code;
  headers = ("Content-Type", "application/json") ∷ headers;
  body = b;
}
write_json headers code none = record {
  code = 500;
  headers = ("Content-Type", "application/json") ∷ headers;
  body = "{\"error\":\"encoding failed\"}";
}

-- writeError; `encode` is the JSON object with the one key "error".
unfoldable pub write_error :
    (String → Option String) → List (String × String) → ℕ → String → Response
unfolding write_json
write_error encode headers code msg = write_json headers code (encode msg)

-- Calls on a ResponseWriter. A Write returns how many bytes it wrote.
pub data Call : Type 0 where
  write_header : ℕ → Call
  write : String → ℕ → Call

pub record Recorder : Type 0 where
  pub code : ℕ
  pub bytes : ℕ
  pub writer : List Call

abbrev pub new_recorder : Recorder
new_recorder = record { code = 0; bytes = 0; writer = [] }

-- statusRecorder.WriteHeader and statusRecorder.Write: the call is passed on.
unfoldable pub recorder_call : Recorder → Call → Recorder
recorder_call r (write_header code) = record {
  code = if r.code == 0 then code else r.code;
  bytes = r.bytes;
  writer = r.writer ++ (write_header code ∷ []);
}
recorder_call r (write b n) = record {
  code = if r.code == 0 then 200 else r.code;
  bytes = r.bytes + n;
  writer = r.writer ++ (write b n ∷ []);
}

unfoldable pub recorder_calls : Recorder → List Call → Recorder
recorder_calls r [] = r
recorder_calls r (c ∷ cs) = recorder_calls (recorder_call r c) cs

-- What `instrument` makes of the calls of a handler: the status for metrics and logs, none where it
-- records nothing, the number of requests, and whether a line is logged; `sampled` is the draw against
-- LOG_SAMPLE_RATE. Where the handler panics after its calls, the panic passes through: nothing behind
-- the call of the handler is done, since none of it is deferred.
pub record Instrumented : Type 0 where
  pub recorder : Recorder
  pub status : Option ℕ
  pub requests : ℕ
  pub logged : Bool
  pub warned : Bool

unfoldable pub instrument : ℕ → Bool → Bool → List Call → Instrumented
unfolding recorder_calls
instrument requests sampled true calls = record {
  recorder = recorder_calls new_recorder calls;
  status = none;
  requests = requests;
  logged = false;
  warned = false;
}
instrument requests sampled false calls =
    let rec = recorder_calls new_recorder calls in
    let status = if rec.code == 0 then 200 else rec.code in
    record {
      recorder = rec;
      status = some status;
      requests = requests + 1;
      logged = leb 500 status || sampled;
      warned = leb 500 status;
    }

-- The admission controller: the tokens in the channel, by request, and its metrics.
pub record Shedder : Type 0 where
  pub capacity : ℕ
  pub inflight : List ℕ
  pub gauge : ℕ
  pub shed : ℕ
  pub served : ℕ

-- A request takes a token, if there is room, or is refused with 503. `none`: the handler runs next.
unfoldable pub arrive : (String → Option String) → Shedder → ℕ → Shedder × Option Response
arrive encode s id =
    if ltb (length s.inflight) s.capacity
    then (record s { inflight = id ∷ s.inflight; gauge = s.gauge + 1 }, none)
    else (
      record s { shed = s.shed + 1 },
      some (write_error encode (("Retry-After", "1") ∷ []) 503 "overloaded"),
    )

abbrev pub remove_one : ℕ → List ℕ → List ℕ
remove_one id [] = []
remove_one id (x ∷ xs) = let rest = remove_one id xs in if x == id then xs else x ∷ rest

abbrev pub holds : ℕ → List ℕ → Bool
holds id [] = false
holds id (x ∷ xs) = x == id || holds id xs

-- The deferred release: it runs once for a request that was admitted, also after a panic.
unfoldable pub depart : Shedder → ℕ → Shedder
depart s id =
    if holds id s.inflight
    then record s {
      inflight = remove_one id s.inflight;
      gauge = s.gauge - 1;
      served = s.served + 1;
    }
    else s

-- The interleavings of requests: each arrives, and each that was admitted departs.
pub data Traffic : Type 0 where
  arrives departs : ℕ → Traffic

unfoldable pub traffic_step : (String → Option String) → Shedder → Traffic → Shedder
traffic_step encode s (arrives id) = (arrive encode s id).0
traffic_step encode s (departs id) = depart s id

unfoldable pub traffic : (String → Option String) → Shedder → List Traffic → Shedder
traffic encode s [] = s
traffic encode s (t ∷ ts) = traffic encode (traffic_step encode s t) ts

unfoldable pub new_shedder : ℕ → Shedder
new_shedder capacity = record {
  capacity = capacity;
  inflight = [];
  gauge = 0;
  shed = 0;
  served = 0;
}

-- requestID: a missing or long id is replaced by a new one. `size` is the length in bytes.
unfoldable pub request_id : (String → ℕ) → String → String → String
request_id size header fresh = if str_eq header "" || ltb 128 (size header) then fresh else header

-- The readiness cache; `details` is none before the first check.
pub record Ready : Type 0 where
  pub at : ℕ
  pub ok : Bool
  pub details : Option (List (String × String))

-- The checks, with the error message of each that fails.
unfoldable pub run_checks : List (String × Option String) → Bool × List (String × String)
run_checks [] = (true, [])
run_checks ((name, none) ∷ cs) =
    let (good, details) = run_checks cs in (good, insert name "ok" details)
run_checks ((name, some message) ∷ cs) =
    let (good, details) = run_checks cs in (false, insert name message details)

-- Ready: the answer, and the cache; `now` is the time of the call, `then_` the time after the checks.
unfoldable pub ready :
    Ready → ℕ → ℕ → List (String × Option String) → (Bool × List (String × String)) × Ready
unfolding run_checks
ready r now then_ checks = ready_from r.details
  where
    fresh : (Bool × List (String × String)) × Ready
    fresh =
        let (good, details) = run_checks checks in
        ((good, details), record { at = then_; ok = good; details = some details })

    ready_from : Option (List (String × String)) → (Bool × List (String × String)) × Ready
    ready_from none = fresh
    ready_from (some details) = if ltb (now - r.at) 1000000000 then ((r.ok, details), r) else fresh

-- readyz; `encode` is the JSON of the answer.
unfoldable pub readyz :
    (Bool → List (String × String) → Option String) → Bool × List (String × String) → Response
unfolding write_json
readyz encode (good, details) = write_json [] (if good then 200 else 503) (encode good details)
