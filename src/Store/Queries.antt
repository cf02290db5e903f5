-- ===== src/Store/Queries.antt =====
-- internal/store/store.go: the pool, the metric labels and the queries on the table items.
--
-- What PostgreSQL and pgx answer is an argument: whether a statement fails, and the rows.
use handling_50k_requestes_p.Prelude.{
  ℕ, ◌≡◌, ap, String, Bool, true, Bool-cases, List, [], ◌∷◌, Option, none, some, ℤ, pos, ltb_ℤ,
  if◌then◌else◌, map, arith, Option-cases, inl, inr, ◌∙◌,
}
use handling_50k_requestes_p.Prelude.Results.{Result, ok, err}
use handling_50k_requestes_p.Api.Handlers.{Item}

pub record Pool : Type 0 where
  pub max_conns : ℤ
  pub min_conns : ℤ
  pub max_idle : ℕ  -- seconds, as the next two
  pub max_lifetime : ℕ
  pub health_check : ℕ

-- NewPostgres, for a URL that parses.
unfoldable pub pool_config : ℤ → Pool
pool_config max_conns = record {
  max_conns = max_conns;
  min_conns = if ltb_ℤ max_conns (pos 2) then max_conns else pos 2;
  max_idle = 300;
  max_lifetime = 1800;
  health_check = 30;
}

pub data StoreError : Type 0 where
  not_found failed : StoreError

-- The label "result" that `observe` counts a call under: ErrNotFound is no error.
unfoldable pub observed {ℓ} : {A : Type ℓ} → Result StoreError A → String
observed (ok a) = "ok"
observed (err not_found) = "ok"
observed (err failed) = "error"

-- What the Scan of the one row says.
pub data Row : Type 0 where
  row : Item → Row
  no_rows broken : Row

unfoldable pub select_item : Row → Result StoreError Item
select_item (row item) = ok item
select_item no_rows = err not_found
select_item broken = err failed

abbrev prepend : Item → Option (List Item) → Option (List Item)
prepend item none = none
prepend item (some items) = some (item ∷ items)

-- The loop over the rows; none is a row whose Scan fails.
unfoldable pub scan_rows : List (Option Item) → Option (List Item)
scan_rows [] = some []
scan_rows (none ∷ rest) = none
scan_rows (some item ∷ rest) = prepend item (scan_rows rest)

-- ListItems: `rows` is what the query returns, none if it fails; `ended` is whether rows.Err is nil.
unfoldable pub select_items : Option (List (Option Item)) → Bool → Result StoreError (List Item)
select_items none ended = err failed
select_items (some rows) ended = elim (scan_rows rows) [
  | none ↦ err failed
  | some items ↦ if ended then ok items else err failed
]

scan_rows-all :
    (rows : List (Option Item)) (items : List Item)
    → scan_rows rows ≡ some items
    → rows ≡ map some items
unfolding scan_rows
scan_rows-all [] items h = let p : [] ≡ items = cc in ap (map some) p
scan_rows-all (none ∷ rows) items h = ground arith
scan_rows-all (some item ∷ rows) items h = elim (Option-cases (scan_rows rows)) [
  | inl e ↦ cc
  | inr (rest, e) ↦
      let p : item ∷ rest ≡ items = cc in
      ap (λ others. some item ∷ others) (scan_rows-all rows rest e) ∙ ap (map some) p
]

-- ListItems returns a list only if the query, every Scan and rows.Err succeed, and then every row of
-- it in its order.
select_items-all :
    (rows : Option (List (Option Item))) (ended : Bool) (items : List Item)
    → select_items rows ended ≡ ok items
    → (rows ≡ some (map some items)) × (ended ≡ true)
unfolding select_items
select_items-all none ended items h = absurd cc
select_items-all (some rows) ended items h = elim (Option-cases (scan_rows rows)) [
  | inl e ↦ absurd cc
  | inr (found, e) ↦ elim (Bool-cases ended) [
    | inl good ↦
        let p : found ≡ items = cc in (ap some (scan_rows-all rows found e ∙ ap (map some) p), good)
    | inr bad ↦ absurd cc
  ]
]
