-- ===== src/Report/Gates.antt =====
-- What an empty list of violations says.
use handling_50k_requestes_p.Prelude.{
  ◌≡◌, refl, Bool, true, false, ◌&&◌, List, [], ◌∷◌, ◌++◌, pos, ltb_ℤ, arith, ◌↔◌,
}
use handling_50k_requestes_p.Prelude.Float.{Float}
use handling_50k_requestes_p.Stats.{Snapshot, error_rate}
use handling_50k_requestes_p.Report.{Slo, when, check, latency_at, rps, is_empty}

-- Every gate that is set is met by the snapshot.
pub record Meets {fl : Float} (s : Slo fl) (sn : Snapshot) : Type 0 where
  pub p95_met : ltb_ℤ (pos 0) s.p95 ≡ true → ltb_ℤ s.p95 (latency_at fl sn 95 2) ≡ false
  pub p99_met : ltb_ℤ (pos 0) s.p99 ≡ true → ltb_ℤ s.p99 (latency_at fl sn 99 2) ≡ false
  pub errors_met :
      fl.flt (fl.lit 0 0) s.error_rate ≡ true → fl.flt s.error_rate (error_rate fl sn) ≡ false
  pub rps_met : fl.flt (fl.lit 0 0) s.min_rps ≡ true → fl.flt (rps fl sn) s.min_rps ≡ false

when_empty :
    {A : Type 0} (set broken : Bool) (a : A)
    → (is_empty (when (set && broken) a) ≡ true) ↔ (set ≡ true → broken ≡ false)
when_empty true true a = (λ h s. cc, λ h. absurd (ground (arith, h refl)))
when_empty true false a = (λ h s. refl, λ h. refl)
when_empty false broken a = (λ h s. cc, λ h. refl)

append_empty :
    {A : Type 0} (xs ys : List A)
    → (is_empty (xs ++ ys) ≡ true) ↔ ((is_empty xs ≡ true) × (is_empty ys ≡ true))
append_empty [] ys = (λ h. (refl, h), λ h. h.1)
append_empty (x ∷ xs) ys = (λ h. cc, λ h. h.0)

four_empty :
    {A : Type 0} (ws bs cs ds : List A)
    → (is_empty (ws ++ (bs ++ (cs ++ ds))) ≡ true)
      ↔ ((is_empty ws ≡ true) × (is_empty bs ≡ true) × (is_empty cs ≡ true) × (is_empty ds ≡ true))
four_empty ws bs cs ds = (
  λ h.
      let (a, r) = (append_empty ws (bs ++ (cs ++ ds))).0 h in
      let (b, q) = (append_empty bs (cs ++ ds)).0 r in
      let (c, d) = (append_empty cs ds).0 q in (a, b, c, d),
  λ (a, b, c, d).
      (append_empty ws (bs ++ (cs ++ ds))).1
        (a, (append_empty bs (cs ++ ds)).1 (b, (append_empty cs ds).1 (c, d))),
)

module _ {fl : Float} (s : Slo fl) (sn : Snapshot) where
  pub check-Meets : (is_empty (check s sn) ≡ true) ↔ Meets s sn
  unfolding check
  check-Meets = (
    λ h.
        let (a, b, c, d) = (four_empty _ _ _ _).0 h in
        record {
          p95_met = (when_empty (ltb_ℤ (pos 0) s.p95) (ltb_ℤ s.p95 (latency_at fl sn 95 2)) _).0 a;
          p99_met = (when_empty (ltb_ℤ (pos 0) s.p99) (ltb_ℤ s.p99 (latency_at fl sn 99 2)) _).0 b;
          errors_met =
              (when_empty (fl.flt (fl.lit 0 0) s.error_rate)
                  (fl.flt s.error_rate (error_rate fl sn)) _).0
                c;
          rps_met =
              (when_empty (fl.flt (fl.lit 0 0) s.min_rps) (fl.flt (rps fl sn) s.min_rps) _).0 d;
        },
    λ m. (four_empty _ _ _ _).1 (
      (when_empty (ltb_ℤ (pos 0) s.p95) (ltb_ℤ s.p95 (latency_at fl sn 95 2)) _).1 m.p95_met,
      (when_empty (ltb_ℤ (pos 0) s.p99) (ltb_ℤ s.p99 (latency_at fl sn 99 2)) _).1 m.p99_met,
      (when_empty (fl.flt (fl.lit 0 0) s.error_rate) (fl.flt s.error_rate (error_rate fl sn)) _).1
          m.errors_met,
      (when_empty (fl.flt (fl.lit 0 0) s.min_rps) (fl.flt (rps fl sn) s.min_rps) _).1 m.rps_met,
    ),
  )
