-- ===== src/Config/Examples.antt =====
-- The loader at a concrete environment.
use handling_50k_requestes_p.Prelude.{◌≡◌, refl, true, [], ◌∷◌, none, pos}
use handling_50k_requestes_p.Prelude.Maps.{lookup}
use handling_50k_requestes_p.Prelude.Results.{ok}
use handling_50k_requestes_p.Stats.Examples.{fixed}
use handling_50k_requestes_p.Engine.Examples.{plain}
use handling_50k_requestes_p.Config.{Host, load, env, env_with, split_list}
use handling_50k_requestes_p.Config.Loading.{IsUsable, load-IsUsable}

-- A host whose parsers read one value each.
abbrev small_host : Host fixed
small_host = record {
  strings = plain;
  atoi = λ s. ok (pos 8);
  parse_float = λ s. ok 5;
  parse_bool = λ s. ok true;
  parse_duration = λ s. ok (pos 1000);
  hostname = none;
  variables = ("MAX_INFLIGHT", "8") ∷ ("KAFKA_BROKERS", "kafka:9092") ∷ ("REDIS_TLS", "true") ∷ [];
}

small_host_brokers : (load small_host "titan-api").0.kafka_brokers ≡ "kafka:9092" ∷ []
unfolding load env split_list lookup
small_host_brokers = refl

small_host_accepted : (load small_host "titan-api").1 ≡ []
unfolding load env env_with lookup
small_host_accepted = refl

load-IsUsable_example : IsUsable small_host (load small_host "titan-api").0
load-IsUsable_example = load-IsUsable small_host "titan-api" small_host_accepted
