-- ===== src/Coordinator/Ids.antt =====
-- A registration takes an id that no worker has.
use text.Mathlib.Text.{◌==◌ as str_eq}
use text.Mathlib.TextEquality.{eq_iff}
use handling_50k_requestes_p.Prelude.{
  ℕ, zero, suc, ◌+◌, ◌<◌, ◌≡◌, refl, String, false, [], ◌∷◌, ◌++◌, none, some, arith, if◌then◌else◌,
  length,
}
use handling_50k_requestes_p.Prelude.Float.{Float}
use handling_50k_requestes_p.Prelude.Maps.{lookup, lookup-insert}
use handling_50k_requestes_p.Coordinator.{
  Coordinator, RegisterRequest, registered, register, new_worker,
}
use handling_50k_requestes_p.Coordinator.Registry.{Inv, mem, mem-append, id_list, IsInjective}

not-mem-id_list :
    (format : ℕ → String) (m n : ℕ)
    → IsInjective format
    → n < m
    → mem (format m) (id_list format n) ≡ false
not-mem-id_list format m zero inj h = refl
not-mem-id_list format m (suc n) inj h = ground (
  arith,
  mem-append (format m) (id_list format n) (format (suc n) ∷ []),
  not-mem-id_list format m n inj (omega arith),
  eq_iff (format (suc n)) (format m),
  inj (suc n) m,
)

module _ {fl : Float} (format : ℕ → String) (c : Coordinator fl) (v : Inv format c) where
  fresh_id : IsInjective format → lookup (format (length c.order + 1)) c.workers ≡ none
  fresh_id inj =
      let k = v.keys (format (length c.order + 1)) in
      let gone = not-mem-id_list format (length c.order + 1) (length c.order) inj (omega arith) in
      ground (arith, k, gone, v.ids)

  -- Before the release a decoded registration succeeds: its id was unknown, the new worker is stored
  -- under it in state ready, every other worker is as before, and the order list grows by that id.
  register_fresh :
      IsInjective format
      → c.job ≡ none
      → (now : ℕ) (req : RegisterRequest)
      → let id = format (length c.order + 1) in
        let (d, reply) = register format c now (some req) in
        (lookup id c.workers ≡ none)
        × (reply ≡ registered id)
        × (d.order ≡ c.order ++ id ∷ [])
        × ((j : String)
            → lookup j d.workers
              ≡ (if str_eq id j then some (new_worker id now req) else lookup j c.workers))
  unfolding register
  register_fresh inj waiting now req =
      let id = format (length c.order + 1) in
      (
        fresh_id inj,
        ground arith,
        ground arith,
        λ j. ground (arith, lookup-insert id j (new_worker id now req) c.workers),
      )
