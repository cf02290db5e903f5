-- ===== src/Api/Handlers.antt =====
-- internal/api/handlers.go: the handlers, over the answers of their backends.
--
-- The database is the map of items, the cache the map from an item's id to the bytes stored under its
-- key (FormatInt writes different ids differently). Whether a call of a backend fails is chosen per
-- request. A nil backend is a flag. The JSON encoders, decoders and checks are parameters.
use handling_50k_requestes_p.Prelude.{
  ℕ, ◌+◌, ◌-◌, String, Bool, not, ◌&&◌, ◌||◌, List, [], ◌∷◌, Option, none, some, ℤ, pos, negsuc,
  ltb, leb, ◌==◌, if◌then◌else◌,
}
use handling_50k_requestes_p.Prelude.Results.{Result, ok, err, ◌>>=◌, ◌>>◌, refuse_if}
use handling_50k_requestes_p.Api.{Response, write_json, write_error}

pub record Item : Type 0 where
  pub id : ℕ
  pub name : String
  pub payload : String
  pub created_at : ℕ

-- What the handlers call of encoding/json, unicode and regexp.
pub record Json : Type 0 where
  pub error : String → Option String
  pub item : Item → Option String
  pub items : List Item → Option String
  pub queued : String → Option String
  pub runes : String → ℕ
  pub bytes : String → ℕ
  pub valid : String → Bool
  pub event_type : String → Bool

pub record Deps : Type 0 where
  pub has_store : Bool
  pub has_cache : Bool
  pub has_publisher : Bool

pub record Backends : Type 0 where
  pub items : ℕ → Option Item
  pub cached : ℕ → Option String

-- Which of the calls of one request fail.
pub record Faults : Type 0 where
  pub get_fails : Bool
  pub query_fails : Bool
  pub set_fails : Bool

abbrev pub raw : String → String → Response
raw cache body = record {
  code = 200;
  headers = ("Content-Type", "application/json") ∷ ("X-Cache", cache) ∷ [];
  body = body;
}

-- `b, _ := json.Marshal(item)`: nil on an error.
abbrev pub bytes_of : Option String → String
bytes_of none = ""
bytes_of (some b) = b

-- The cached bytes that the handler uses: none on a miss, and on an error.
abbrev pub hit : Deps → Faults → Option String → Option String
hit deps f found = if deps.has_cache && not f.get_fails then found else none

abbrev pub put : ℕ → String → (ℕ → Option String) → ℕ → Option String
put id b cached k = if k == id then some b else cached k

-- The read of the database, and the write to the cache after it.
unfoldable pub get_from_store :
    Json → Deps → Faults → Backends → ℕ → Option Item → Response × Backends
get_from_store json deps f s id found =
    if f.query_fails then (write_error json.error [] 500 "database error", s) else answer found
  where
    answer : Option Item → Response × Backends
    answer none = (write_error json.error [] 404 "item not found", s)
    answer (some item) =
        let b = bytes_of (json.item item) in
        (
          raw "MISS" b,
          if deps.has_cache && not f.set_fails then record s { cached = put id b s.cached } else s,
        )

-- The answer from the cached bytes, or else from the database.
unfoldable pub serve_item :
    Json → Deps → Faults → Backends → ℕ → Option String → Response × Backends
serve_item json deps f s id none = get_from_store json deps f s id (s.items id)
serve_item json deps f s id (some b) = (raw "HIT" b, s)

abbrev pub bad_id : Json → Backends → Response × Backends
bad_id json s = (write_error json.error [] 400 "id must be a positive integer", s)

unfoldable pub get_parsed : Json → Deps → Faults → Option ℤ → Backends → Response × Backends
get_parsed json deps f none s = bad_id json s
get_parsed json deps f (some (negsuc n)) s = bad_id json s
get_parsed json deps f (some (pos n)) s =
    if n == 0 then bad_id json s else serve_item json deps f s n (hit deps f (s.cached n))

-- getItem; `parsed` is the parse of its path value, none on an error.
unfoldable pub get_item : Json → Deps → Faults → Option ℤ → Backends → Response × Backends
get_item json deps f parsed s =
    if not deps.has_store
    then (write_error json.error [] 503 "database disabled", s)
    else get_parsed json deps f parsed s

-- What `decode` makes of the body.
pub data Decoded (A : Type 0) : Type 0 where
  too_large : Decoded A
  malformed : String → Decoded A
  decoded : A → Decoded A

unfoldable pub decode : {A : Type 0} → Json → (String → String) → Decoded A → Result Response A
decode json invalid too_large = err (write_error json.error [] 413 "body too large")
decode json invalid (malformed e) = err (write_error json.error [] 400 (invalid e))
decode json invalid (decoded v) = ok v

pub record CreateItemRequest : Type 0 where
  pub name : String
  pub payload : String

-- The row that the INSERT returns, none if it fails. The database gives it an unused id.
abbrev pub insert_item : Item → Backends → Backends
insert_item item s = record s { items = λ k. if k == item.id then some item else s.items k }

-- The checks of createItem before the INSERT.
unfoldable pub check_create :
    Json → (String → String) → Deps → Decoded CreateItemRequest → Result Response CreateItemRequest
unfolding decode
check_create json invalid deps body = do
  refuse_if (not deps.has_store) (write_error json.error [] 503 "database disabled")
  req ← decode json invalid body
  refuse_if (ltb (json.runes req.name) 1 || ltb 200 (json.runes req.name))
      (write_error json.error [] 400 "name must be 1-200 characters")
  refuse_if (ltb 0 (json.bytes req.payload) && not (json.valid req.payload))
      (write_error json.error [] 400 "payload must be valid JSON")
  ok req

abbrev pub answer_created : Json → Backends → Option Item → Response × Backends
answer_created json s none = (write_error json.error [] 500 "database error", s)
answer_created json s (some item) = (write_json [] 201 (json.item item), insert_item item s)

abbrev pub create_checked :
    Json
    → (CreateItemRequest → Option Item)
    → Backends
    → Result Response CreateItemRequest
    → Response × Backends
create_checked json insert s (err r) = (r, s)
create_checked json insert s (ok req) = answer_created json s (insert req)

-- createItem; the publication of item.created is best effort and changes neither.
unfoldable pub create_item :
    Json
    → (String → String)
    → Deps
    → Decoded CreateItemRequest
    → (CreateItemRequest → Option Item)
    → Backends
    → Response × Backends
create_item json invalid deps body insert s =
    create_checked json insert s (check_create json invalid deps body)

-- listItems; `limit` is none without the parameter, and then its parse, none on an error.
unfoldable pub list_items : Json → Deps → Option (Option ℤ) → (ℕ → Option (List Item)) → Response
list_items json deps limit query =
    if not deps.has_store
    then write_error json.error [] 503 "database disabled"
    else with_limit limit
  where
    bad : Response
    bad = write_error json.error [] 400 "limit must be between 1 and 100"

    listed : Option (List Item) → Response
    listed none = write_error json.error [] 500 "database error"
    listed (some items) = write_json [] 200 (json.items items)

    with_limit : Option (Option ℤ) → Response
    with_limit none = listed (query 20)
    with_limit (some none) = bad
    with_limit (some (some (negsuc n))) = bad
    with_limit (some (some (pos n))) = if ltb n 1 || ltb 100 n then bad else listed (query n)

pub record PublishEventRequest : Type 0 where
  pub type : String
  pub content : String

-- events.Kafka: the producer's buffer and its limit, and what the metric counts by result, "ok" aside.
pub record Kafka : Type 0 where
  pub buffered : ℕ
  pub max_buffered : ℕ
  pub backpressured : ℕ
  pub errors : ℕ

pub data PublishError : Type 0 where
  backpressure failed : PublishError

-- What TryProduce does with a record: it takes it into the buffer, or calls the callback with
-- ErrMaxBuffered or another error.
pub data Produced : Type 0 where
  taken full rejected : Produced

unfoldable pub produced : Produced → Kafka → Kafka
produced taken k = record k { buffered = k.buffered + 1 }
produced full k = record k { backpressured = k.backpressured + 1 }
produced rejected k = record k { errors = k.errors + 1 }

-- Kafka.Publish: it refuses a record if the buffer is full, and otherwise hands it to the client; what
-- becomes of it there is only counted.
unfoldable pub publish : Produced → Kafka → Result PublishError (Unit {0}) × Kafka
unfolding produced
publish client k =
    if leb k.max_buffered k.buffered
    then (err backpressure, record k { backpressured = k.backpressured + 1 })
    else (ok tt, produced client k)

-- publishEvent; `id` is the new event's id.
unfoldable pub publish_event :
    Json
    → (String → String)
    → Deps
    → Decoded PublishEventRequest
    → String
    → Produced
    → Kafka
    → Response × Kafka
unfolding decode publish
publish_event json invalid deps body id client k = respond checked
  where
    checked : Result Response PublishEventRequest
    checked = do
      refuse_if (not deps.has_publisher) (write_error json.error [] 503 "event bus disabled")
      req ← decode json invalid body
      refuse_if (not (json.event_type req.type))
          (write_error json.error [] 400 "type must match ^[a-z0-9][a-z0-9._-]{0,63}$")
      refuse_if (ltb 0 (json.bytes req.content) && not (json.valid req.content))
          (write_error json.error [] 400 "data must be valid JSON")
      ok req

    answer : Result PublishError (Unit {0}) × Kafka → Response × Kafka
    answer (err backpressure, k') =
        (write_error json.error (("Retry-After", "1") ∷ []) 503 "event bus saturated", k')
    answer (err failed, k') = (write_error json.error [] 502 "publish failed", k')
    answer (ok _, k') = (write_json [] 202 (json.queued id), k')

    respond : Result Response PublishEventRequest → Response × Kafka
    respond (err r) = (r, k)
    respond (ok req) = answer (publish client k)

-- itemCount: the memo, and CountItems as the planner's estimate and then the exact count if it is 0.
pub record Memo : Type 0 where
  pub count_at : ℕ
  pub count : ℕ

unfoldable pub count_items : Option ℕ → Option ℕ → Option ℕ
count_items none exact = none
count_items (some n) exact = if n == 0 then exact else some n

unfoldable pub item_count : Memo → ℕ → ℕ → Option ℕ → Option ℕ × Memo
item_count m now then_ counted =
    if ltb (now - m.count_at) 5000000000 then (some m.count, m) else store counted
  where
    store : Option ℕ → Option ℕ × Memo
    store none = (none, m)
    store (some n) = (some n, record { count_at = then_; count = n })
