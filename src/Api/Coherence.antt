-- ===== src/Api/Coherence.antt =====
-- The cache never changes what getItem answers.
use handling_50k_requestes_p.Prelude.{
  ℕ, ◌≡◌, refl, sym, ap, ◌∙◌, String, Bool, true, false, not, ◌&&◌, List, [], ◌∷◌, Option, none,
  some, ℤ, pos, negsuc, arith, ◌==◌, if◌then◌else◌,
}
use handling_50k_requestes_p.Prelude.Results.{Result, ok, err}
use handling_50k_requestes_p.Api.{Response}
use handling_50k_requestes_p.Api.Handlers.{
  Item, Json, Deps, Backends, Faults, bytes_of, hit, put, get_from_store, get_item, Decoded,
  CreateItemRequest, serve_item, get_parsed, answer_created, create_checked, check_create,
  create_item,
}

-- Every cached value is the encoding of the item that the database holds under its id.
abbrev pub Coherent : Json → Backends → Type 0
Coherent json s =
    (id : ℕ) (b : String)
    → s.cached id ≡ some b
    → (item : Item) × (s.items id ≡ some item) × (b ≡ bytes_of (json.item item))

-- What happens to the backends: requests, and entries that leave the cache by their TTL or by
-- eviction. The INSERT fails if its id, the primary key, is taken.
pub data Request : Type 0 where
  gets : Deps → Faults → Option ℤ → Request
  creates : Deps → Decoded CreateItemRequest → (CreateItemRequest → Option Item) → Request
  expires : ℕ → Request

abbrev unless_taken : Item → Option Item → Option Item
unless_taken item none = some item
unless_taken item (some other) = none

abbrev pub unused : (ℕ → Option Item) → Option Item → Option Item
unused items none = none
unused items (some item) = unless_taken item (items item.id)

unfoldable pub handle : Json → (String → String) → Backends → Request → Backends
handle json invalid s (gets deps f parsed) = (get_item json deps f parsed s).1
handle json invalid s (creates deps body insert) =
    (create_item json invalid deps body (λ req. unused s.items (insert req)) s).1
handle json invalid s (expires id) = record s { cached = λ k. if k == id then none else s.cached k }

unfoldable pub handle_all : Json → (String → String) → Backends → List Request → Backends
handle_all json invalid s [] = s
handle_all json invalid s (r ∷ rs) = handle_all json invalid (handle json invalid s r) rs

module _ (json : Json) where
  if-Coherent :
      (test : Bool) (p q : Response × Backends)
      → Coherent json p.1
      → Coherent json q.1
      → Coherent json (if test then p else q).1
  if-Coherent true p q v w = v
  if-Coherent false p q v w = w

  cached_if :
      (test : Bool) (s t : Backends)
      → Coherent json s
      → Coherent json t
      → Coherent json (if test then s else t)
  cached_if true s t v w = v
  cached_if false s t v w = w

  put-Coherent :
      (s : Backends) (id : ℕ) (item : Item)
      → Coherent json s
      → s.items id ≡ some item
      → Coherent json (record s { cached = put id (bytes_of (json.item item)) s.cached })
  put-Coherent s id item v e k b h = written (k == id) (λ t. ground arith) h
    where
      written :
          (test : Bool)
          → (test ≡ true → k ≡ id)
          → (if test then some (bytes_of (json.item item)) else s.cached k) ≡ some b
          → (x : Item) × (s.items k ≡ some x) × (b ≡ bytes_of (json.item x))
      written true same h = (item, ap s.items (same refl) ∙ e, cc)
      written false same h = v k b h

  get_from_store-Coherent :
      (deps : Deps) (f : Faults) (s : Backends) (id : ℕ) (found : Option Item)
      → s.items id ≡ found
      → Coherent json s
      → Coherent json (get_from_store json deps f s id found).1
  unfolding get_from_store
  get_from_store-Coherent deps f s id none e v = if-Coherent f.query_fails _ _ v v
  get_from_store-Coherent deps f s id (some item) e v =
      if-Coherent f.query_fails _ _ v
        (cached_if (deps.has_cache && not f.set_fails) _ _ (put-Coherent s id item v e) v)

  serve_item-Coherent :
      (deps : Deps) (f : Faults) (s : Backends) (id : ℕ) (found : Option String)
      → Coherent json s
      → Coherent json (serve_item json deps f s id found).1
  unfolding serve_item
  serve_item-Coherent deps f s id none v = get_from_store-Coherent deps f s id (s.items id) refl v
  serve_item-Coherent deps f s id (some b) v = v

  get_parsed-Coherent :
      (deps : Deps) (f : Faults) (parsed : Option ℤ) (s : Backends)
      → Coherent json s
      → Coherent json (get_parsed json deps f parsed s).1
  unfolding get_parsed
  get_parsed-Coherent deps f none s v = v
  get_parsed-Coherent deps f (some (negsuc n)) s v = v
  get_parsed-Coherent deps f (some (pos n)) s v =
      if-Coherent (n == 0) _ _ v (serve_item-Coherent deps f s n (hit deps f (s.cached n)) v)

  pub get_item-Coherent :
      (deps : Deps) (f : Faults) (parsed : Option ℤ) (s : Backends)
      → Coherent json s
      → Coherent json (get_item json deps f parsed s).1
  unfolding get_item
  get_item-Coherent deps f parsed s v =
      if-Coherent (not deps.has_store) _ _ v (get_parsed-Coherent deps f parsed s v)

  -- A new item has a new id, so that no cached value is its.
  insert_item-Coherent :
      (s : Backends) (item : Item) (found : Option Item)
      → s.items item.id ≡ found
      → Coherent json s
      → Coherent json (answer_created json s (unless_taken item found)).1
  insert_item-Coherent s item none e v = λ k b h.
      let (old, there, same) = v k b h in
      (old, kept k (k == item.id) (λ t. ground arith) old there, same)
    where
      kept :
          (k : ℕ) (test : Bool)
          → (test ≡ true → k ≡ item.id)
          → (old : Item) → s.items k ≡ some old
          → (if test then some item else s.items k) ≡ some old
      kept k true taken old there =
          let clash : s.items item.id ≡ some old = sym (ap s.items (taken refl)) ∙ there in cc
      kept k false taken old there = there
  insert_item-Coherent s item (some other) e v = v

  create_checked-Coherent :
      (insert : CreateItemRequest → Option Item) (s : Backends)
      (checked : Result Response CreateItemRequest)
      → Coherent json s
      → Coherent json (create_checked json (λ req. unused s.items (insert req)) s checked).1
  create_checked-Coherent insert s (err r) v = v
  create_checked-Coherent insert s (ok req) v = created (insert req)
    where
      created : (row : Option Item) → Coherent json (answer_created json s (unused s.items row)).1
      created none = v
      created (some item) = insert_item-Coherent s item (s.items item.id) refl v

  handle-Coherent :
      (invalid : String → String) (s : Backends) (r : Request)
      → Coherent json s
      → Coherent json (handle json invalid s r)
  unfolding handle create_item
  handle-Coherent invalid s (gets deps f parsed) v = get_item-Coherent deps f parsed s v
  handle-Coherent invalid s (creates deps body insert) v =
      create_checked-Coherent insert s (check_create json invalid deps body) v
  handle-Coherent invalid s (expires id) v = λ k b h. kept k b (k == id) h
    where
      kept :
          (k : ℕ) (b : String) (test : Bool)
          → (if test then none else s.cached k) ≡ some b
          → (x : Item) × (s.items k ≡ some x) × (b ≡ bytes_of (json.item x))
      kept k b true h = cc
      kept k b false h = v k b h

  pub handle_all-Coherent :
      (invalid : String → String) (s : Backends) (rs : List Request)
      → Coherent json s
      → Coherent json (handle_all json invalid s rs)
  unfolding handle_all
  handle_all-Coherent invalid s [] v = v
  handle_all-Coherent invalid s (r ∷ rs) v =
      handle_all-Coherent invalid (handle json invalid s r) rs (handle-Coherent invalid s r v)
