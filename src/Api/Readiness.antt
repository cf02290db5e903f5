-- ===== src/Api/Readiness.antt =====
-- The readiness answer: what it says of the checks, and how long it is reused.
use handling_50k_requestes_p.Prelude.{
  ℕ, ◌-◌, ◌≡◌, refl, String, Bool, true, false, List, [], ◌∷◌, Option, none, some, ltb,
}
use handling_50k_requestes_p.Api.{run_checks, ready}

abbrev pub all_pass : List (String × Option String) → Bool
all_pass [] = true
all_pass ((name, none) ∷ cs) = all_pass cs
all_pass ((name, some message) ∷ cs) = false

run_checks_verdict : (cs : List (String × Option String)) → (run_checks cs).0 ≡ all_pass cs
unfolding run_checks
run_checks_verdict [] = refl
run_checks_verdict ((name, none) ∷ cs) = run_checks_verdict cs
run_checks_verdict ((name, some message) ∷ cs) = refl

-- From a server that has made no check: the first answer is ready exactly if every check passed; every
-- call that starts within the second after those checks repeats it, whatever the checks would say, and
-- leaves the cache as it is; /readyz answers 200 for it if its body can be encoded and every check
-- passed.
ready_again :
    (at now then_ now2 then2 : ℕ) (good : Bool) (cs ds : List (String × Option String))
    → ltb (now2 - then_) 1000000000 ≡ true
    → let first = ready record { at = at; ok = good; details = none } now then_ cs in
      (first.0.0 ≡ all_pass cs) × (ready first.1 now2 then2 ds ≡ first)
unfolding ready
ready_again at now then_ now2 then2 good cs ds soon = (run_checks_verdict cs, rw soon refl)
