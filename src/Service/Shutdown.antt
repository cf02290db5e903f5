-- ===== src/Service/Shutdown.antt =====
-- Every resource that a service opens is closed once, and the servers stop before their backends.
use handling_50k_requestes_p.Prelude.{
  ℕ, Bool, false, not, ◌&&◌, ◌||◌, List, [], ◌∷◌, ◌++◌, Option, none, some, ◌==◌, if◌then◌else◌,
}
use handling_50k_requestes_p.Service.{
  Resource, signals, tracing, postgres, redis, kafka, http_server, metrics_server, grpc_server,
  consumer, Action, opens, closes, gives_up, migrates, drains, ensures_topic, Host,
}

abbrev number : Resource → ℕ
number signals = 0
number tracing = 1
number postgres = 2
number redis = 3
number kafka = 4
number http_server = 5
number metrics_server = 6
number grpc_server = 7
number consumer = 8

abbrev pub is_open : Resource → List Resource → Bool
is_open r [] = false
is_open r (x ∷ xs) = number r == number x || is_open r xs

abbrev pub without : Resource → List Resource → List Resource
without r [] = []
without r (x ∷ xs) = if number r == number x then xs else x ∷ without r xs

-- The database, the cache and the producer are used by requests in service.
abbrev pub is_backend : Resource → Bool
is_backend r = number r == 2 || number r == 3 || number r == 4

abbrev pub serving : List Resource → Bool
serving held = is_open http_server held || is_open grpc_server held || is_open consumer held

-- What is still open after a trace; none if it opens a resource twice, closes one that is not open, or
-- closes a backend while a server or the consumer may use it. A server that is given up is not open:
-- it takes no new requests, but those in service may go on.
abbrev pub still_open : List Resource → List Action → Option (List Resource)
still_open held [] = some held
still_open held (opens r ∷ more) =
    let rest = still_open (r ∷ held) more in if is_open r held then none else rest
still_open held (closes r ∷ more) =
    let rest = still_open (without r held) more in
    if not (is_open r held) || is_backend r && serving held then none else rest
still_open held (gives_up r ∷ more) =
    let rest = still_open (without r held) more in if not (is_open r held) then none else rest
still_open held (migrates ∷ more) = still_open held more
still_open held (drains ∷ more) = still_open held more
still_open held (ensures_topic ∷ more) = still_open held more

-- Which servers a trace gives up.
abbrev pub given_up : List Action → List Resource
given_up [] = []
given_up (gives_up r ∷ more) = r ∷ given_up more
given_up (_ ∷ more) = given_up more

-- With which of the two HTTP servers Shutdown failed.
abbrev pub not_stopped : Host → List Resource
not_stopped h =
    (if h.http_stops then [] else http_server ∷ [])
    ++ (if h.metrics_stops then [] else metrics_server ∷ [])
