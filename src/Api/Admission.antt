-- ===== src/Api/Admission.antt =====
-- Admission control under every interleaving of arrivals and departures.
use handling_50k_requestes_p.Prelude.{
  ℕ, ◌+◌, ◌≤◌, ◌≡◌, refl, String, true, List, [], ◌∷◌, Option, arith, length,
}
use handling_50k_requestes_p.Api.{
  Shedder, Traffic, arrives, departs, arrive, depart, traffic_step, traffic, new_shedder,
  remove_one, holds,
}

abbrev pub arrivals : List Traffic → ℕ
arrivals [] = 0
arrivals (arrives id ∷ ts) = 1 + arrivals ts
arrivals (departs id ∷ ts) = arrivals ts

length-remove_one :
    (id : ℕ) (xs : List ℕ) → holds id xs ≡ true → length (remove_one id xs) + 1 ≡ length xs
length-remove_one id [] h = cc
length-remove_one id (x ∷ xs) h = ground (arith, length-remove_one id xs)

-- Never more requests than tokens; the gauge counts the tokens taken; and each of `n` requests that
-- arrived was shed, was served, or holds a token.
pub record Inv (s : Shedder) (n : ℕ) : Type 0 where
  pub bounded : length s.inflight ≤ s.capacity
  pub measured : s.gauge ≡ length s.inflight
  pub accounted : s.shed + s.served + length s.inflight ≡ n

module _ (encode : String → Option String) where
  arrive-Inv : (s : Shedder) (n id : ℕ) → Inv s n → Inv (arrive encode s id).0 (n + 1)
  unfolding arrive
  arrive-Inv s n id v = record {
    bounded = ground (arith, v.bounded);
    measured = ground (arith, v.measured);
    accounted = ground (arith, v.accounted);
  }

  depart-Inv : (s : Shedder) (n id : ℕ) → Inv s n → Inv (depart s id) n
  unfolding depart
  depart-Inv s n id v = record {
    bounded = ground (arith, v.bounded, length-remove_one id s.inflight);
    measured = ground (arith, v.measured, length-remove_one id s.inflight);
    accounted = ground (arith, v.accounted, length-remove_one id s.inflight);
  }

  traffic_from :
      (s : Shedder) (n : ℕ) (ts : List Traffic)
      → Inv s n
      → Inv (traffic encode s ts) (n + arrivals ts)
  unfolding traffic traffic_step
  traffic_from s n [] v = record {
    bounded = v.bounded;
    measured = v.measured;
    accounted = omega (arith, v.accounted);
  }
  traffic_from s n (arrives id ∷ ts) v =
      let w = traffic_from (arrive encode s id).0 (n + 1) ts (arrive-Inv s n id v) in
      record { bounded = w.bounded; measured = w.measured; accounted = omega (arith, w.accounted) }
  traffic_from s n (departs id ∷ ts) v = traffic_from (depart s id) n ts (depart-Inv s n id v)

-- From an empty channel, after any interleaving of arrivals and departures: the requests in service
-- are at most MAX_INFLIGHT, the gauge is their number, and the shed, the served and those in service
-- add up to the arrivals.
pub traffic-Inv :
    (encode : String → Option String) (capacity : ℕ) (ts : List Traffic)
    → Inv (traffic encode (new_shedder capacity) ts) (arrivals ts)
unfolding new_shedder
traffic-Inv encode capacity ts =
    let v = traffic_from encode (new_shedder capacity) 0 ts empty in
    record { bounded = v.bounded; measured = v.measured; accounted = omega (arith, v.accounted) }
  where
    empty : Inv (new_shedder capacity) 0
    empty = record { bounded = omega arith; measured = refl; accounted = refl }
