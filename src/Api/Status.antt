-- ===== src/Api/Status.antt =====
-- The handlers that change nothing but the memo of the count: ping, healthz and stats; and the recoverer.
use handling_50k_requestes_p.Prelude.{
  ℕ, String, Bool, true, false, List, [], ◌∷◌, ◌++◌, Option, none, some, ℤ, ◌≡◌, ap, if◌then◌else◌,
}
use handling_50k_requestes_p.Api.{Response, Call, write_error, write_header, write}
use handling_50k_requestes_p.Api.Handlers.{Deps, Memo, item_count}

-- ping, with the body that New encodes once.
abbrev pub ping : String → Response
ping body = record {
  code = 200;
  headers = ("Content-Type", "application/json") ∷ ("Cache-Control", "no-store") ∷ [];
  body = body;
}

abbrev pub healthz : Response
healthz = record { code = 200; headers = ("Content-Type", "text/plain") ∷ []; body = "ok" }

-- What stats says of the server, without the pod's name, the version and the runtime's numbers.
pub record ServerStats : Type 0 where
  pub uptime_seconds : ℕ
  pub requests_local : ℕ
  pub inflight : ℕ
  pub max_inflight : ℕ
  pub postgres : Bool
  pub redis : Bool
  pub kafka : Bool
  pub events_processed : Option ℤ
  pub items : Option ℕ

-- The counter of the cache, left out where there is no cache or GetInt has an error.
abbrev pub events_shown : Bool → ℤ × Bool → Option ℤ
events_shown false read = none
events_shown true (n, false) = some n
events_shown true (n, true) = none

-- stats; `now` and `then_` are the times at which itemCount looks at its memo and fills it.
unfoldable pub stats :
    Deps → ℕ → ℕ → ℕ → ℕ → ℤ × Bool → Memo → ℕ → ℕ → Option ℕ → ServerStats × Memo
stats deps uptime requests inflight capacity read memo now then_ counted =
    let looked = if deps.has_store then item_count memo now then_ counted else (none, memo) in
    (
      record {
        uptime_seconds = uptime;
        requests_local = requests;
        inflight = inflight;
        max_inflight = capacity;
        postgres = deps.has_store;
        redis = deps.has_cache;
        kafka = deps.has_publisher;
        events_processed = events_shown deps.has_cache read;
        items = looked.0;
      },
      looked.1,
    )

-- How a handler ends: it returns, panics with http.ErrAbortHandler, or panics otherwise.
pub data Ended : Type 0 where
  returned aborted panicked : Ended

-- recoverer: the calls on the ResponseWriter, and how it ends itself; `length_of` counts bytes.
unfoldable pub recoverer :
    (String → Option String) → (String → ℕ) → List Call → Ended → List Call × Ended
recoverer encode length_of calls returned = (calls, returned)
recoverer encode length_of calls aborted = (calls, aborted)
recoverer encode length_of calls panicked =
    let r = write_error encode [] 500 "internal error" in
    (calls ++ (write_header r.code ∷ write r.body (length_of r.body) ∷ []), returned)

-- Without a store the memo is kept.
stats_without_store :
    (deps : Deps) (n : ℤ) (memo : Memo) (now then_ : ℕ) (counted : Option ℕ)
    → deps.has_store ≡ false
    → (stats deps 0 0 0 0 (n, false) memo now then_ counted).1 ≡ memo
unfolding stats
stats_without_store deps n memo now then_ counted e =
    ap (λ b. (if b then item_count memo now then_ counted else (none, memo)).1) e
