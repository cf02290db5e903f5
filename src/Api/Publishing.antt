-- ===== src/Api/Publishing.antt =====
-- publishEvent and the producer's buffer.
use handling_50k_requestes_p.Prelude.{
  ℕ, ◌+◌, ◌≤◌, ◌<◌, ◌≡◌, ◌≢◌, String, List, [], ◌∷◌, Option, none, some, arith, ◌⊎◌,
}
use handling_50k_requestes_p.Api.{write_json, write_error}
use handling_50k_requestes_p.Api.Handlers.{
  Json, Deps, Decoded, too_large, malformed, decoded, decode, PublishEventRequest, Kafka, Produced,
  taken, full, rejected, produced, publish, publish_event,
}

write_error_refuses :
    (encode : String → Option String) (hs : List (String × String)) (code : ℕ) (m : String)
    → code ≢ 202
    → (write_error encode hs code m).code ≢ 202
unfolding write_error write_json
write_error_refuses encode hs code m h = refused (encode m)
  where
    refused : (b : Option String) → (write_json hs code b).code ≢ 202
    refused none e = omega (arith, e)
    refused (some b) e = h e

-- What an accepted event became in the client: it is buffered, or one of the two counters has it.
abbrev pub Handed : Produced → Kafka → Kafka → Type 0
Handed taken k k' =
    (k'.buffered ≡ k.buffered + 1) × (k'.backpressured ≡ k.backpressured) × (k'.errors ≡ k.errors)
Handed full k k' =
    (k'.buffered ≡ k.buffered) × (k'.backpressured ≡ k.backpressured + 1) × (k'.errors ≡ k.errors)
Handed rejected k k' =
    (k'.buffered ≡ k.buffered) × (k'.backpressured ≡ k.backpressured) × (k'.errors ≡ k.errors + 1)

-- Back-pressure: for every request, whatever the Kafka client does with a record, with a buffer within
-- its limit and an encoder that does not fail: an answer of 202 means that the buffer had room and that
-- the event was handed to the client, which then holds it or counted its failure; an answer of 202 does
-- not tell these apart. With any other answer nothing was handed over: the buffer and the count of
-- errors are as before. If the buffer is full there is no 202. The buffer stays within its limit.
pub publish_event_accepted :
    (json : Json) (invalid : String → String) (deps : Deps) (body : Decoded PublishEventRequest)
    (id b : String) (client : Produced) (k : Kafka)
    → json.queued id ≡ some b
    → k.buffered ≤ k.max_buffered
    → let (r, k') = publish_event json invalid deps body id client k in
      ((r.code ≡ 202) × (k.buffered < k.max_buffered) × Handed client k k'
        ⊎ (r.code ≢ 202) × (k'.buffered ≡ k.buffered) × (k'.errors ≡ k.errors))
      × (k'.buffered ≤ k.max_buffered)
unfolding publish_event decode publish produced write_json
publish_event_accepted json invalid deps too_large id b client k enc small = ground (
  arith,
  write_error_refuses json.error [] 503 "event bus disabled",
  write_error_refuses json.error [] 413 "body too large",
)
publish_event_accepted json invalid deps (malformed e) id b client k enc small = ground (
  arith,
  write_error_refuses json.error [] 503 "event bus disabled",
  write_error_refuses json.error [] 400 (invalid e),
)
publish_event_accepted json invalid deps (decoded req) id b client k enc small = ground (
  arith,
  write_error_refuses json.error [] 503 "event bus disabled",
  write_error_refuses json.error [] 400 "type must match ^[a-z0-9][a-z0-9._-]{0,63}$",
  write_error_refuses json.error [] 400 "data must be valid JSON",
  write_error_refuses json.error (("Retry-After", "1") ∷ []) 503 "event bus saturated",
)
