-- ===== src/Titanload/ExitCodes.antt =====
-- What the exit code of a run says.
use text.Mathlib.Text.{◌==◌ as str_eq}
use text.Mathlib.TextEquality.{eq_iff}
use handling_50k_requestes_p.Prelude.{
  ℕ, ◌≤◌, ◌≡◌, ◌≢◌, refl, String, Bool, true, false, not, ◌&&◌, List, [], ◌∷◌, Option, some, ℤ, pos,
  ◌⊎◌, ◌↔◌, inl, inr, arith, if◌then◌else◌, none, Bool-cases,
}
use handling_50k_requestes_p.Prelude.Float.{Float}
use handling_50k_requestes_p.Prelude.Results.{Result, ok, err, bind-ok}
use handling_50k_requestes_p.Stats.{Snapshot}
use handling_50k_requestes_p.Engine.{Config, validate, Target}
use handling_50k_requestes_p.Engine.Validation.{validate-IsRunnable}
use handling_50k_requestes_p.Report.{RunInfo, build, check, is_empty}
use handling_50k_requestes_p.Report.Gates.{Meets, check-Meets}
use handling_50k_requestes_p.Titanload.{
  Host, LoadFlags, CliError, in_error, config, slo, info_for, finish, engine_new, concluded,
  run_with, prepared, cmd_run,
}

-- The summary is printed, and the JSON file written where one is asked for.
abbrev pub Written : {fl : Float} → LoadFlags fl → Bool → Type 0
Written f written = (f.json_out ≡ "") ⊎ (written ≡ true)

-- A run that came to its end exits with 0 if its snapshot meets the gates, with 2 if not, and with 1
-- if the JSON file cannot be written.
pub record Judges {fl : Float} (f : LoadFlags fl) (written : Bool) (sn : Snapshot) (code : ℕ)
    : Type 0 where
  pub passes : (code ≡ 0) ↔ Written f written × Meets (slo f) sn
  pub fails : (code ≡ 2) ↔ Written f written × ¬ Meets (slo f) sn
  pub small : code ≤ 2

-- The exit code as a function of three answers.
abbrev code_for : Bool → Bool → Bool → ℕ
code_for blank written passed = if not blank && not written then 1 else if passed then 0 else 2

abbrev Verdict : Type 0 → Type 0 → ℕ → Type 0
Verdict W M code = ((code ≡ 0) ↔ W × M) × ((code ≡ 2) ↔ W × ¬ M) × (code ≤ 2)

with_file :
    (W M : Type 0) (passed : Bool)
    → W
    → ((passed ≡ true) ↔ M)
    → Verdict W M (if passed then 0 else 2)
with_file W M true w m = (
  (λ e. (w, m.0 refl), λ h. refl),
  (λ e. absurd (omega (arith, e)), λ (_, no_m). absurd (no_m (m.0 refl))),
  omega arith,
)
with_file W M false w m = (
  (λ e. absurd (omega (arith, e)), λ (_, met). let e : false ≡ true = m.1 met in cc),
  (λ e. (w, λ met. let e : false ≡ true = m.1 met in cc), λ h. refl),
  omega arith,
)

verdict :
    (W M : Type 0) (blank written passed : Bool)
    → W ↔ ((blank ≡ true) ⊎ (written ≡ true))
    → ((passed ≡ true) ↔ M)
    → Verdict W M (code_for blank written passed)
verdict W M true written passed w m = with_file W M passed (w.1 (inl refl)) m
verdict W M false true passed w m = with_file W M passed (w.1 (inr refl)) m
verdict W M false false passed w m = (
  (λ e. absurd (omega (arith, e)), λ (h, met). absurd (unwritten (w.0 h))),
  (λ e. absurd (omega (arith, e)), λ (h, met). absurd (unwritten (w.0 h))),
  omega arith,
)
  where
    unwritten : (false ≡ true) ⊎ (false ≡ true) → ⊥
    unwritten (inl e) = cc
    unwritten (inr e) = cc

finish-Judges :
    {fl : Float} (f : LoadFlags fl) (written : Bool) (sn : Snapshot) (i : RunInfo fl)
    → Judges f written sn (finish f (build sn i (slo f)) written)
unfolding finish build
finish-Judges f written sn i =
    let (a, b, c) =
      verdict (Written f written) (Meets (slo f) sn) (str_eq f.json_out "") written
        (is_empty (check (slo f) sn)) (blank, blank_back) (check-Meets (slo f) sn) in
    record { passes = a; fails = b; small = c }
  where
    blank : Written f written → (str_eq f.json_out "" ≡ true) ⊎ (written ≡ true)
    blank (inl e) = inl ((eq_iff f.json_out "").1 e)
    blank (inr e) = inr e

    blank_back : (str_eq f.json_out "" ≡ true) ⊎ (written ≡ true) → Written f written
    blank_back (inl e) = inl ((eq_iff f.json_out "").0 e)
    blank_back (inr e) = inr e

-- The first target of a configuration that validate accepts gives the run its description.
info_exists :
    {fl : Float} (h : Host) (cfg : Config fl) (ts : List Target) (workers : ℤ)
    → ts ≢ []
    → (i : RunInfo fl) × (info_for h cfg ts workers ≡ some i)
unfolding info_for
info_exists h cfg [] workers some_target = absurd (some_target refl)
info_exists h cfg (t ∷ ts) workers some_target = (_, refl)

pub concluded-Judges :
    {fl : Float} (h : Host) (f : LoadFlags fl) (written : Bool) (sn : Snapshot) (cfg : Config fl)
    (workers : ℤ)
    → cfg.targets ≢ []
    → (code : ℕ) × (concluded f written sn (info_for h cfg cfg.targets workers) ≡ some code)
      × Judges f written sn code
concluded-Judges h f written sn cfg workers some_target =
    let (i, e) = info_exists h cfg cfg.targets workers some_target in
    (finish f (build sn i (slo f)) written, rw e refl, finish-Judges f written sn i)

pub in_error_ok :
    {A D E : Type 0} (g : D → E) (r : Result D A) (a : A) → in_error g r ≡ ok a → r ≡ ok a
in_error_ok g (err e) a h = cc
in_error_ok g (ok b) a h = cc

-- A validated configuration has a target.
engine_new_targets :
    {fl : Float} (h : Host) (made : Bool) (cfg c : Config fl)
    → engine_new h made cfg ≡ ok c
    → c.targets ≢ []
unfolding engine_new
engine_new_targets h made cfg c e =
    let (d, made_it, valid) =
      bind-ok (in_error CliError.bad_config (validate h.lines.strings cfg)) _ e in
    let same : d ≡ c = ground arith in
    rw (← same)
      (validate-IsRunnable h.lines.strings cfg d
        (in_error_ok CliError.bad_config (validate h.lines.strings cfg) d valid)).some_target

-- Without a configuration the exit code is 1; otherwise the run is judged, or there is no room for
-- its shards and it panics.
abbrev pub Decided :
    {fl : Float}
    → (ℤ → Bool)
    → LoadFlags fl
    → Bool
    → Snapshot
    → Result CliError (Config fl)
    → Option ℕ
    → Type 0
Decided room f written sn (err e) exit = exit ≡ some 1
Decided room f written sn (ok cfg) exit =
    ((room cfg.concurrency ≡ true) × ((code : ℕ) × (exit ≡ some code) × Judges f written sn code))
    ⊎ ((room cfg.concurrency ≡ false) × (exit ≡ none))

run_with-Decided :
    {fl : Float} (h : Host) (room : ℤ → Bool) (written : Bool) (sn : Snapshot) (f : LoadFlags fl)
    (r : Result CliError (Config fl))
    → ((c : Config fl) → r ≡ ok c → c.targets ≢ [])
    → Decided room f written sn r (run_with h room f written sn r)
run_with-Decided h room written sn f (err e) some_target = refl
run_with-Decided h room written sn f (ok cfg) some_target =
    elim (Bool-cases (room cfg.concurrency)) [
      | inl fits ↦
          let (code, exit, judged) =
            concluded-Judges h f written sn cfg (pos 1) (some_target cfg refl) in
          inl (fits, (code, rw fits exit, judged))
      | inr huge ↦ inr (huge, rw huge refl)
    ]

prepared_targets :
    {fl : Float} (h : Host) (made : Bool) (f : LoadFlags fl) (args : List String) (c : Config fl)
    → prepared h made f args ≡ ok c
    → c.targets ≢ []
unfolding prepared
prepared_targets h made f args c e =
    let (cfg, accepted, _) = bind-ok (config h f args) (engine_new h made) e in
    engine_new_targets h made cfg c accepted

-- cmdRun with parsed flags, whatever the files, the requester and the run itself do: if the flags
-- give no configuration that the engine accepts, the exit code is 1. Otherwise it panics exactly when
-- there is no room for a slice of as many shards as the concurrency says; and where there is room, the
-- exit code is 0 exactly when the JSON file, if one is asked for, is written and the last snapshot
-- meets every gate that is set, 2 exactly when the file is written and some gate is not met, and at
-- most 2.
pub cmd_run-Decided :
    {fl : Float} (h : Host) (room : ℤ → Bool) (made written : Bool) (sn : Snapshot)
    (f : LoadFlags fl) (args : List String)
    → Decided room f written sn (prepared h made f args) (cmd_run h room made written sn f args)
unfolding cmd_run
cmd_run-Decided h room made written sn f args =
    run_with-Decided h room written sn f (prepared h made f args)
      (λ c e. prepared_targets h made f args c e)
