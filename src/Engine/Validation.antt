-- ===== src/Engine/Validation.antt =====
-- Validate: what an accepted configuration satisfies, and that validating it again changes nothing
-- (each remote worker validates once more the configuration that the coordinator validated).
use text.Mathlib.Text.{◌==◌ as str_eq}
use text.Mathlib.TextEquality.{eq_iff}
use handling_50k_requestes_p.Prelude.{
  ◌<◌, ◌≡◌, ◌≢◌, String, true, false, ◌||◌, ◌⊎◌, List, [], ◌∷◌, arith, pos, ltb_ℤ,
}
use handling_50k_requestes_p.Prelude.Float.{Float}
use handling_50k_requestes_p.Prelude.Text.{Strings}
use handling_50k_requestes_p.Prelude.Results.{ok, bind-ok}
use handling_50k_requestes_p.Engine.{
  Mode, unset, Target, Config, default_mode, is_grpc, has_scheme, effective_method, check_targets,
  check_limits, default_timeout, validate, validate_targets,
}

-- Every target has an http or https URL, or the mode is gRPC.
abbrev pub HasSchemes : Strings → Mode → List Target → Type 0
HasSchemes st mode [] = Unit {0}
HasSchemes st mode (t ∷ ts) = ((is_grpc mode || has_scheme st t.url) ≡ true) × HasSchemes st mode ts

pub record IsRunnable {fl : Float} (st : Strings) (c : Config fl) : Type 0 where
  pub some_target : c.targets ≢ []
  pub schemes : HasSchemes st c.mode c.targets
  pub mode_set : c.mode ≢ unset
  pub parallel : ltb_ℤ c.concurrency (pos 1) ≡ false
  pub rate_sign : fl.flt c.rate (fl.lit 0 0) ≡ false
  pub bounded : (ltb_ℤ (pos 0) c.duration ≡ true) ⊎ (0 < c.max_requests)
  pub patient : ltb_ℤ (pos 0) c.timeout ≡ true

-- What the code does to an accepted target.
abbrev effective : Strings → Target → Target
effective st t = record t { method = effective_method st t.method }

module _ (st : Strings) (mode : Mode) where
  check_targets-cons :
      (t : Target) (ts us : List Target)
      → check_targets st mode (t ∷ ts) ≡ ok us
      → (vs : List Target) × (check_targets st mode ts ≡ ok vs)
        × (us ≡ effective st t ∷ vs)
        × ((is_grpc mode || has_scheme st t.url) ≡ true)
  unfolding check_targets
  check_targets-cons t ts us h = ground arith

  check_targets-HasSchemes :
      (ts us : List Target) → check_targets st mode ts ≡ ok us → HasSchemes st mode us
  unfolding check_targets
  check_targets-HasSchemes [] us h = let e : us ≡ [] = cc in rw e tt
  check_targets-HasSchemes (t ∷ ts) us h =
      let (vs, rest, e, fits) = check_targets-cons t ts us h in
      rw e (fits, check_targets-HasSchemes ts vs rest)

-- What the development assumes of strings.ToUpper: it is idempotent, and no text becomes empty.
pub record IsUpper (st : Strings) : Type 0 where
  pub twice : (s : String) → st.to_upper (st.to_upper s) ≡ st.to_upper s
  pub nonempty : (s : String) → (s ≡ "") ⊎ (str_eq (st.to_upper s) "" ≡ false)

module _ (st : Strings) (u : IsUpper st) where
  effective_method_twice :
      (m : String) → effective_method st (effective_method st m) ≡ effective_method st m
  effective_method_twice m = ground (
    arith,
    eq_iff m "",
    u.twice m,
    u.twice "GET",
    u.nonempty m,
    u.nonempty "GET",
    eq_iff "GET" "",
  )

  check_targets_again :
      (mode : Mode) (ts us : List Target)
      → check_targets st mode ts ≡ ok us
      → check_targets st mode us ≡ ok us
  unfolding check_targets
  check_targets_again mode [] us h = let e : us ≡ [] = cc in rw e
  check_targets_again mode (t ∷ ts) us h =
      let (vs, rest, e, fits) = check_targets-cons st mode t ts us h in
      rw e
        (ground (arith, fits, check_targets_again mode ts vs rest, effective_method_twice t.method))

check_limits-eq :
    {fl : Float} (c c' : Config fl)
    → check_limits c ≡ ok c'
    → (c' ≡ record c { timeout = default_timeout c.timeout })
      × (ltb_ℤ c.concurrency (pos 1) ≡ false)
      × (fl.flt c.rate (fl.lit 0 0) ≡ false)
      × ((ltb_ℤ (pos 0) c.duration ≡ true) ⊎ (0 < c.max_requests))
unfolding check_limits
check_limits-eq c c' h = ground arith

check_limits_again :
    {fl : Float} (c c' : Config fl) → check_limits c ≡ ok c' → check_limits c' ≡ ok c'
unfolding check_limits
check_limits_again c c' h = ground (arith, check_limits-eq c c' h)

abbrev moded : {fl : Float} → Strings → Config fl → String → List Target → Config fl
moded st c url us = record c { mode = default_mode st c.mode url; targets = us }

-- The parts of an accepted configuration.
validate_targets-eq :
    {fl : Float} (st : Strings) (c c' : Config fl) (ts : List Target)
    → validate_targets st c ts ≡ ok c'
    → (t : Target) × (vs : List Target) × (check_targets st (default_mode st c.mode t.url) ts
        ≡ ok (effective st t ∷ vs))
      × (check_limits (moded st c t.url (effective st t ∷ vs)) ≡ ok c')
unfolding validate
validate_targets-eq st c c' [] h = cc
validate_targets-eq st c c' (t ∷ ts) h =
    let (us, limits, checked) = bind-ok (check_targets st _ (t ∷ ts)) _ h in
    let (vs, rest, e, fits) = check_targets-cons st _ t ts us checked in
    (t, vs, rw e at checked, rw e at limits)

default_mode_set : (st : Strings) (m : Mode) (url : String) → default_mode st m url ≢ unset
default_mode_set st m url = ground arith

default_mode_twice :
    (st : Strings) (m : Mode) (url url' : String)
    → default_mode st (default_mode st m url) url' ≡ default_mode st m url
default_mode_twice st m url url' = ground arith

-- An accepted configuration is runnable: it has a target, every URL has a scheme unless the mode is
-- gRPC, the mode is set, the concurrency is at least 1, the rate is not negative, the run is bounded
-- by a duration or a number of requests, and requests time out.
pub validate-IsRunnable :
    {fl : Float} (st : Strings) (c c' : Config fl) → validate st c ≡ ok c' → IsRunnable st c'
unfolding validate
validate-IsRunnable st c c' h =
    let (t, vs, checked, limits) = validate_targets-eq st c c' c.targets h in
    let (e, parallel, rate, bound) = check_limits-eq _ c' limits in
    let mode = default_mode st c.mode t.url in
    rw e (record {
      some_target = λ none_left. cc;
      schemes = check_targets-HasSchemes st mode c.targets _ checked;
      mode_set = default_mode_set st c.mode t.url;
      parallel = parallel;
      rate_sign = rate;
      bounded = bound;
      patient = ground arith;
    })

-- Validating an accepted configuration again accepts it, and changes nothing.
validate_again :
    {fl : Float} (st : Strings)
    → IsUpper st
    → (c c' : Config fl) → validate st c ≡ ok c'
    → validate st c' ≡ ok c'
unfolding validate
validate_again st u c c' h =
    let (t, vs, checked, limits) = validate_targets-eq st c c' c.targets h in
    let (e, parallel, rate, bound) = check_limits-eq _ c' limits in
    let again = check_limits_again _ c' limits in
    let same = check_targets_again st u (default_mode st c.mode t.url) c.targets _ checked in
    rw e (rw (default_mode_twice, validate_targets) (rw (same, validate_targets) (rw e at again)))
