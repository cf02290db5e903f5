-- ===== src/Api/Examples.antt =====
-- The API server at concrete inputs.
use handling_50k_requestes_p.Prelude.{none, ◌<◌}
use handling_50k_requestes_p.Prelude.{
  ◌≤◌, ◌≡◌, ◌≢◌, refl, true, false, ◌||◌, List, [], ◌∷◌, some, pos, arith, leb, ◌⊎◌,
}
use handling_50k_requestes_p.Api.{
  Call, write_header, write, instrument, Traffic, arrives, departs, traffic, new_shedder,
  traffic_step, arrive, depart,
}
use handling_50k_requestes_p.Api.Handlers.{
  Item, Json, Deps, Faults, decoded, rejected, Kafka, get_item, publish_event,
}
use handling_50k_requestes_p.Api.Admission.{Inv, traffic-Inv}
use handling_50k_requestes_p.Api.Recording.{instrument_status}
use handling_50k_requestes_p.Api.Coherence.{Request, gets, creates, expires, handle_all}
use handling_50k_requestes_p.Api.CacheAside.{Same, uncached, no_backends, get_item_transparent}
use handling_50k_requestes_p.Api.Publishing.{Handed, publish_event_accepted}

-- An encoder that writes fixed texts, and checks that accept everything.
abbrev texts : Json
texts = record {
  error = λ m. some m;
  item = λ i. some i.name;
  items = λ is. some "[]";
  queued = λ id. some id;
  runes = λ s. 4;
  bytes = λ s. 2;
  valid = λ s. true;
  event_type = λ s. true;
}

abbrev all_deps : Deps
all_deps = record { has_store = true; has_cache = true; has_publisher = true }

abbrev no_faults : Faults
no_faults = record { get_fails = false; query_fails = false; set_fails = false }

-- Three requests at two tokens: the third is shed, and after a departure a fourth is admitted.
abbrev busy : List Traffic
busy = arrives 1 ∷ arrives 2 ∷ arrives 3 ∷ departs 1 ∷ arrives 4 ∷ []

busy_sheds : (traffic (λ m. some m) (new_shedder 2) busy).shed ≡ 1
unfolding traffic traffic_step arrive depart new_shedder
busy_sheds = refl

traffic-Inv_example : Inv (traffic (λ m. some m) (new_shedder 2) busy) 4
traffic-Inv_example = traffic-Inv (λ m. some m) 2 busy

abbrev calls : List Call
calls = write_header 503 ∷ write "overloaded" 10 ∷ write_header 200 ∷ []

instrument_status_example :
    let i = instrument 41 false false calls in
    let p = instrument 41 false true calls in
    (i.status ≡ some 503)
    × (i.recorder.writer ≡ calls)
    × (i.recorder.bytes ≡ 10)
    × (i.requests ≡ 42)
    × (i.logged ≡ (leb 500 503 || false))
    × (i.warned ≡ leb 500 503)
    × (p.recorder.writer ≡ calls)
    × (p.status ≡ none)
    × (p.requests ≡ 41)
    × (p.logged ≡ false)
instrument_status_example = instrument_status 41 false calls (omega arith, (omega arith, tt))

abbrev lamp : Item
lamp = record { id = 1; name = "lamp"; payload = "{}"; created_at = 5 }

-- A lamp is created, read twice, and its cache entry expires.
abbrev history : List Request
history =
    creates all_deps (decoded (record { name = "lamp"; payload = "{}" })) (λ req. some lamp)
    ∷ gets all_deps no_faults (some (pos 1))
    ∷ expires 1
    ∷ gets all_deps no_faults (some (pos 1))
    ∷ []

get_item_transparent_example :
    let s = handle_all texts (λ e. e) no_backends history in
    Same
      (get_item texts all_deps no_faults (some (pos 1)) s).0
      (get_item texts (uncached all_deps) no_faults (some (pos 1)) s).0
get_item_transparent_example =
    get_item_transparent texts (λ e. e) history all_deps no_faults (some (pos 1)) refl

abbrev buffer : Kafka
buffer = record { buffered = 3; max_buffered = 4; backpressured = 0; errors = 0 }

publish_event_accepted_example :
    let (r, k') =
      publish_event texts
        (λ e. e)
        all_deps
        (decoded (record { type = "signup"; content = "{}" }))
        "id-1"
        rejected
        buffer in
    ((r.code ≡ 202) × (buffer.buffered < buffer.max_buffered) × Handed rejected buffer k'
      ⊎ (r.code ≢ 202) × (k'.buffered ≡ buffer.buffered) × (k'.errors ≡ buffer.errors))
    × (k'.buffered ≤ buffer.max_buffered)
publish_event_accepted_example =
    publish_event_accepted texts (λ e. e) all_deps
      (decoded (record { type = "signup"; content = "{}" })) "id-1" "id-1" rejected buffer refl
      (omega arith)
