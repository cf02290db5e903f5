-- ===== src/Engine/Examples.antt =====
-- Tests of the configuration, and its properties at a concrete one.
use text.Mathlib.Text.{starts_with}
use text.Mathlib.TextEquality.{eq_iff}
use handling_50k_requestes_p.Prelude.{
  String, none, ◌+◌, ◌≤◌, ◌<◌, length, get_or, List, ◌≡◌, refl, false, [], ◌∷◌, arith, some, pos,
}
use handling_50k_requestes_p.Prelude.Text.{Strings}
use handling_50k_requestes_p.Prelude.Results.{ok}
use handling_50k_requestes_p.Stats.Examples.{fixed}
use handling_50k_requestes_p.Engine.{
  Config, Target, unset, http1, http2, parse_mode, validate, check_targets, check_limits,
}
use handling_50k_requestes_p.Engine.Targets.{Lines}
use handling_50k_requestes_p.Engine.Run.{
  Plan, Event, looks, claims, completes, cancels, happen_all, happen, act, look, claim, complete,
  start, spawn,
}
use handling_50k_requestes_p.Engine.Actions.{total, ended, samples, in_flight}
use handling_50k_requestes_p.Engine.Budget.{budget_used, budget_kept}
use handling_50k_requestes_p.Prelude.Duration.{seconds}
use handling_50k_requestes_p.Prelude.{true}
use handling_50k_requestes_p.Engine.Transport.{
  Checked, answered, GrpcRequester, new_grpc_requester, connection_count,
}
use handling_50k_requestes_p.Engine.Pacing.{
  Tick, pace, pace_complete, wanted, most_wanted, expected_requests, schedule_offset,
}
use handling_50k_requestes_p.Engine.Validation.{IsRunnable, IsUpper, validate-IsRunnable}

-- A text library for texts that are upper case and trimmed already.
abbrev pub plain : Strings
plain = record {
  to_upper = λ s. s;
  to_lower = λ s. s;
  trim_space = λ s. s;
  has_prefix = starts_with;
  split = λ s sep. s ∷ [];
}

plain-IsUpper : IsUpper plain
plain-IsUpper = record { twice = λ s. refl; nonempty = λ s. ground (arith, eq_iff s "") }

abbrev pub ping : Target
ping = record { method = "GET"; url = "http://localhost/ping"; body = ""; headers = [] }

abbrev pub ping_config : Config fixed
ping_config = record {
  targets = ping ∷ [];
  mode = unset;
  concurrency = pos 8;
  connections = pos 0;
  rate = 0;
  duration = pos 30000000000;
  max_requests = 100;
  timeout = pos 0;
  ramp = pos 0;
  insecure = false;
  disable_keepalive = false;
  grpc_service = "";
}

abbrev pub valid_config : Config fixed
valid_config = record ping_config { mode = http1; timeout = pos 5000000000 }

ping_config_valid : validate plain ping_config ≡ ok valid_config
unfolding validate check_targets check_limits
ping_config_valid = refl

h2c_is_http2 : parse_mode plain "h2c" ≡ some http2
unfolding parse_mode
h2c_is_http2 = refl

validate-IsRunnable_example : IsRunnable plain valid_config
validate-IsRunnable_example = validate-IsRunnable plain ping_config valid_config ping_config_valid

-- Two goroutines and a limit of two requests: the third claim ends the run.
abbrev two_requests : Plan
two_requests = record { max_requests = 2; targets = 1; paced = false }

abbrev interleaving : List Event
interleaving =
    looks 0 false
    ∷ looks 1 false
    ∷ claims 1
    ∷ claims 0
    ∷ completes 0
    ∷ looks 0 false
    ∷ claims 0
    ∷ completes 1
    ∷ looks 1 false
    ∷ []

interleaving_ends : total ended (happen_all two_requests (start two_requests 2) interleaving).1 ≡ 2
unfolding happen_all happen act look claim complete start spawn
interleaving_ends = refl

budget_used_example :
    total samples (happen_all two_requests (start two_requests 2) interleaving).1 ≡ 2
budget_used_example =
    budget_used two_requests 2 interleaving (omega arith) (omega arith) (omega arith) tt
      interleaving_ends

budget_kept_example :
    let (sh, gs) = happen_all two_requests (start two_requests 2) (cancels ∷ interleaving) in
    (sh.sent ≤ 2) × (sh.sent ≡ total samples gs + total in_flight gs)
budget_kept_example =
    budget_kept two_requests 2 (cancels ∷ interleaving) (omega arith) (omega arith)

-- A file with a comment, a blank line and one target; the fields of the one line are given.
abbrev pub one_line : Lines
one_line = record {
  strings = plain;
  fields = λ s. "GET" ∷ "http://localhost/ping" ∷ [];
  behind = λ s f. "";
  tail = λ s. s;
  read_file = λ s. none;
}

abbrev targets_file : List String
targets_file = "# targets" ∷ "" ∷ "GET http://localhost/ping" ∷ []

-- The context ends behind the tick at two seconds; the rate is two per second.
abbrev two_ticks : List Tick
two_ticks =
    record { since_start = pos 1000000000; taken = none }
    ∷ record { since_start = pos 2000000000; taken = none }
    ∷ []

due_3 : 3 < most_wanted (wanted fixed 2000 (pos 0)) two_ticks
unfolding expected_requests seconds
due_3 = due_four
  where
    due_four : 3 < 4
    due_four = omega arith

pace_complete_example :
    (length (pace fixed 2000 (pos 0) two_ticks) ≡ most_wanted (wanted fixed 2000 (pos 0)) two_ticks)
    × (get_or (pace fixed 2000 (pos 0) two_ticks) 3 0 ≡ schedule_offset fixed 2000 (pos 0) 3)
pace_complete_example = pace_complete fixed 2000 (pos 0) two_ticks 3 (refl, (refl, tt)) due_3

-- Three calls over the four connections that eight goroutines get.
abbrev three_calls : List Checked
three_calls = answered true 2 ∷ answered true 2 ∷ answered true 2 ∷ []

abbrev four_channels : GrpcRequester
four_channels = record { clients = 4; next = 0 }

four_made : new_grpc_requester (pos 0) (pos 8) true ≡ some four_channels
unfolding new_grpc_requester connection_count
four_made = refl
