-- ===== src/Service/Topic.antt =====
-- EnsureTopic of internal/events/events.go, which the API calls before it opens its producer.
use handling_50k_requestes_p.Prelude.{
  ℕ, ◌≤◌, ◌≡◌, refl, Bool, true, false, List, [], ◌∷◌, Option, none, some, min, ltb, if◌then◌else◌,
  arith,
}

-- What the cluster says of one topic of the request.
pub data TopicReply : Type 0 where
  created exists refused : TopicReply

-- The replication factor for a number of brokers, which is far below 2^15.
unfoldable pub replication : ℕ → ℕ
replication brokers = let rf = min 3 brokers in if ltb rf 1 then 1 else rf

unfoldable pub all_there : List TopicReply → Bool
all_there [] = true
all_there (created ∷ rs) = all_there rs
all_there (exists ∷ rs) = all_there rs
all_there (refused ∷ rs) = false

-- EnsureTopic: whether it returns nil. `brokers` is none where the metadata cannot be read, and
-- `create` is the request for a replication factor, none where it fails.
abbrev created_all : Option (List TopicReply) → Bool
created_all none = false
created_all (some rs) = all_there rs

abbrev create_on : (ℕ → Option (List TopicReply)) → Option ℕ → Bool
create_on create none = false
create_on create (some brokers) = created_all (create (replication brokers))

unfoldable pub ensure_topic : Bool → Option ℕ → (ℕ → Option (List TopicReply)) → Bool
unfolding all_there replication
ensure_topic connects brokers create = if connects then create_on create brokers else false

replication_bounds : (brokers : ℕ) → (1 ≤ replication brokers) × (replication brokers ≤ 3)
unfolding replication
replication_bounds brokers = ground arith

-- A topic that exists already is no error.
ensure_topic_again :
    (brokers : ℕ) → ensure_topic true (some brokers) (λ rf. some (exists ∷ [])) ≡ true
unfolding ensure_topic
ensure_topic_again brokers = refl
