-- ===== src/Api/CacheAside.antt =====
-- getItem and createItem, with and without the cache.
use handling_50k_requestes_p.Prelude.{
  ℕ, ◌≤◌, ◌≡◌, refl, sym, ap, ◌∙◌, String, Bool, true, false, not, ◌&&◌, ◌||◌, List, Option, none,
  some, ℤ, pos, negsuc, arith, ltb, ◌==◌, if◌then◌else◌, Bool-cases, inl, inr,
}
use handling_50k_requestes_p.Api.{Response}
use handling_50k_requestes_p.Api.Handlers.{
  Item, Json, Deps, Backends, Faults, bytes_of, hit, get_from_store, get_item, serve_item,
  get_parsed, list_items,
}
use handling_50k_requestes_p.Api.Coherence.{Coherent, Request, handle_all, handle_all-Coherent}

-- The client sees the same, but for the header X-Cache.
abbrev pub Same : Response → Response → Type 0
Same r q = (r.code ≡ q.code) × (r.body ≡ q.body)

abbrev pub uncached : Deps → Deps
uncached deps = record deps { has_cache = false }

-- A database without items, and an empty cache.
abbrev pub no_backends : Backends
no_backends = record { items = λ k. none; cached = λ k. none }

module _ (json : Json) (deps : Deps) (f : Faults) (answers : f.query_fails ≡ false)
    (s : Backends) where
  store_Same :
      (d : Deps) (id : ℕ) (found : Option Item)
      → Same (get_from_store json deps f s id found).0 (get_from_store json d f s id found).0
  unfolding get_from_store
  store_Same d id none = rw answers (refl, refl)
  store_Same d id (some item) = rw answers (refl, refl)

  stored_body :
      (id : ℕ) (item : Item) (found : Option Item)
      → found ≡ some item
      → ((get_from_store json deps f s id found).0.code ≡ 200)
        × ((get_from_store json deps f s id found).0.body ≡ bytes_of (json.item item))
  unfolding get_from_store
  stored_body id item none e = cc
  stored_body id item (some other) e =
      let same : other ≡ item = cc in rw answers (refl, ap (λ i. bytes_of (json.item i)) same)

-- The value that the handler found in the cache was in the cache.
hit_cached :
    (deps : Deps) (f : Faults) (found : Option String) (b : String)
    → hit deps f found ≡ some b
    → found ≡ some b
hit_cached deps f found b h = from (deps.has_cache && not f.get_fails) h
  where
    from : (test : Bool) → (if test then found else none) ≡ some b → found ≡ some b
    from true h = h
    from false h = cc

module _ (json : Json) (deps : Deps) (f : Faults) (answers : f.query_fails ≡ false) (s : Backends)
    (v : Coherent json s) where
  serve_Same :
      (id : ℕ) (found : Option String)
      → ((b : String) → found ≡ some b → s.cached id ≡ some b)
      → Same (serve_item json deps f s id found).0 (serve_item json (uncached deps) f s id none).0
  unfolding serve_item
  serve_Same id none h = store_Same json deps f answers s (uncached deps) id (s.items id)
  serve_Same id (some b) h =
      let (item, there, same) = v id b (h b refl) in
      let (code, body) = stored_body json (uncached deps) f answers s id item (s.items id) there in
      (sym code, same ∙ sym body)

  if-Same :
      (test : Bool) (p p' q q' : Response × Backends)
      → Same p.0 p'.0
      → Same q.0 q'.0
      → Same (if test then p else q).0 (if test then p' else q').0
  if-Same true p p' q q' h k = h
  if-Same false p p' q q' h k = k

  get_Same :
      (parsed : Option ℤ)
      → Same (get_item json deps f parsed s).0 (get_item json (uncached deps) f parsed s).0
  unfolding get_item get_parsed
  get_Same none = if-Same (not deps.has_store) _ _ _ _ (refl, refl) (refl, refl)
  get_Same (some (negsuc n)) = if-Same (not deps.has_store) _ _ _ _ (refl, refl) (refl, refl)
  get_Same (some (pos n)) =
      if-Same (not deps.has_store) _ _ _ _ (refl, refl)
        (if-Same (n == 0) _ _ _ _ (refl, refl)
          (serve_Same n (hit deps f (s.cached n)) (hit_cached deps f (s.cached n))))

-- After any sequence of reads, creations and expiries from an empty database and cache, and whether
-- or not calls of the cache fail: as long as the database answers, getItem has the status and the
-- body that it would have without a cache.
pub get_item_transparent :
    (json : Json) (invalid : String → String) (rs : List Request) (deps : Deps) (f : Faults)
    (parsed : Option ℤ)
    → f.query_fails ≡ false
    → let s = handle_all json invalid no_backends rs in
      Same (get_item json deps f parsed s).0 (get_item json (uncached deps) f parsed s).0
get_item_transparent json invalid rs deps f parsed answers =
    get_Same json deps f answers (handle_all json invalid no_backends rs)
      (handle_all-Coherent json invalid no_backends rs (λ k b h. cc)) parsed

-- listItems asks the database only for limits from 1 to 100: two databases that answer those alike
-- give the same response.
list_items_limits :
    (json : Json) (deps : Deps) (limit : Option (Option ℤ)) (query other : ℕ → Option (List Item))
    → ((n : ℕ) → 1 ≤ n → n ≤ 100 → query n ≡ other n)
    → list_items json deps limit query ≡ list_items json deps limit other
unfolding list_items
list_items_limits json deps none query other same = rw (same 20 (omega arith) (omega arith)) refl
list_items_limits json deps (some none) query other same = refl
list_items_limits json deps (some (some (negsuc n))) query other same = refl
list_items_limits json deps (some (some (pos n))) query other same =
    elim (Bool-cases (ltb n 1 || ltb 100 n)) [
      | inl outside ↦ rw outside refl
      | inr inside ↦ rw (same n (ground arith) (ground arith)) refl
    ]
