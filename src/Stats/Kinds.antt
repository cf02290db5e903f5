-- ===== src/Stats/Kinds.antt =====
-- ErrKindsSorted of histogram.go, and the line of dashboard.go that shows its first five.
--
-- The map is ranged over in some order, that of the list here. sort.Slice is a parameter.
use text.Mathlib.Text.{◌==◌ as str_eq}
use text.Mathlib.TextEquality.{eq_iff}
use mathlib.Core.Path.{ap₂}
use handling_50k_requestes_p.Prelude.{
  ℕ, ◌≤◌, ◌≡◌, refl, sym, ◌∙◌, ap, String, Bool, true, false, ◌&&◌, [], ◌∷◌, arith, ltb, ◌==◌,
  if◌then◌else◌, inl, inr, Bool-cases, count_by, take,
}
use handling_50k_requestes_p.Prelude.Order.{str_less, str_less_total}
use handling_50k_requestes_p.Prelude.Counts.{
  Counts, count_of, has_key, Distinct, has_key_empty, has_key-cons, count_of-cons,
}
use handling_50k_requestes_p.Stats.{Snapshot}

-- The function that sort.Slice gets: by count, the largest first, then by name.
abbrev pub before : String × ℕ → String × ℕ → Bool
before e f = if e.1 == f.1 then str_less e.0 f.0 else ltb f.1 e.1

abbrev pub SortSlice : Type 0
SortSlice = (String × ℕ → String × ℕ → Bool) → Counts → Counts

unfoldable pub err_kinds_sorted : SortSlice → Snapshot → Counts
err_kinds_sorted sort_slice sn = sort_slice before sn.err_kinds

-- At most five kinds are shown.
unfoldable pub shown_kinds : SortSlice → Snapshot → Counts
unfolding err_kinds_sorted
shown_kinds sort_slice total = take 5 (err_kinds_sorted sort_slice total)

abbrev pub same_entry : String × ℕ → String × ℕ → Bool
same_entry e f = str_eq f.0 e.0 && f.1 == e.1

abbrev pub NoneBefore : (String × ℕ → String × ℕ → Bool) → String × ℕ → Counts → Type 0
NoneBefore less e [] = Unit {0}
NoneBefore less e (f ∷ fs) = (less f e ≡ false) × NoneBefore less e fs

abbrev pub Ordered : (String × ℕ → String × ℕ → Bool) → Counts → Type 0
Ordered less [] = Unit {0}
Ordered less (e ∷ es) = NoneBefore less e es × Ordered less es

-- What sort.Slice promises of a slice: the same elements, each as often as before, and none that is
-- less than one in front of it.
pub record IsSorted (less : String × ℕ → String × ℕ → Bool) (input output : Counts) : Type 0 where
  pub kept : (e : String × ℕ) → count_by (same_entry e) output ≡ count_by (same_entry e) input
  pub ordered : Ordered less output

same_entry_path : (e f : String × ℕ) → same_entry e f ≡ true → f ≡ e
same_entry_path (k, v) (j, w) h = ground (arith, eq_iff j k)

before_total : (e f : String × ℕ) → before e f ≡ false → before f e ≡ false → e ≡ f
before_total (k, v) (j, w) h g = ground (arith, str_less_total k j)

-- An entry that stands in a list is not before its first.
not_before_first :
    (e x : String × ℕ) (xs : Counts)
    → NoneBefore before x xs
    → 1 ≤ count_by (same_entry e) xs
    → before e x ≡ false
not_before_first e x [] n h = absurd (omega (arith, h))
not_before_first e x (f ∷ fs) (n, ns) h =
    ground (arith, same_entry_path e f, not_before_first e x fs ns)

count_rest :
    (e x : String × ℕ) (xs : Counts)
    → same_entry e x ≡ false
    → 1 ≤ count_by (same_entry e) (x ∷ xs)
    → 1 ≤ count_by (same_entry e) xs
count_rest e x xs other h = ground arith

count_first : (x : String × ℕ) (xs : Counts) → 1 ≤ count_by (same_entry x) (x ∷ xs)
count_first x xs = ground (arith, eq_iff x.0 x.0)

same_first :
    (x y : String × ℕ) (xs ys : Counts)
    → NoneBefore before x xs
    → NoneBefore before y ys
    → ((e : String × ℕ) → count_by (same_entry e) (x ∷ xs) ≡ count_by (same_entry e) (y ∷ ys))
    → x ≡ y
same_first x y xs ys a b h = elim (Bool-cases (same_entry x y)) [
  | inl same ↦ sym (same_entry_path x y same)
  | inr other ↦ elim (Bool-cases (same_entry y x)) [
    | inl same ↦ same_entry_path y x same
    | inr other' ↦
        before_total x y
          (not_before_first x y ys b
            (count_rest x y ys other (omega (arith, h x, count_first x xs))))
          (not_before_first y x xs a
            (count_rest y x xs other' (omega (arith, h y, count_first y ys))))
  ]
]

-- Sorted lists with the same elements are equal.
same_elements :
    (xs ys : Counts)
    → Ordered before xs
    → Ordered before ys
    → ((e : String × ℕ) → count_by (same_entry e) xs ≡ count_by (same_entry e) ys)
    → xs ≡ ys
same_elements [] [] o q h = refl
same_elements [] (y ∷ ys) o q h = ground (arith, h y, eq_iff y.0 y.0)
same_elements (x ∷ xs) [] o q h = ground (arith, h x, eq_iff x.0 x.0)
same_elements (x ∷ xs) (y ∷ ys) (a, o) (b, q) h =
    let p : x ≡ y = same_first x y xs ys a b h in
    let tails : (e : String × ℕ) → count_by (same_entry e) xs ≡ count_by (same_entry e) ys =
      λ e. omega (arith, h e, ap {B = ℕ} (λ z. if same_entry e z then 1 else 0) p) in
    ap₂ ◌∷◌ p (same_elements xs ys o q tails)

-- How often an entry stands in a map: once if it is the key's, and never otherwise.
count-entry :
    (e : String × ℕ) (m : Counts)
    → Distinct m
    → count_by (same_entry e) m ≡ (if has_key e.0 m && count_of e.0 m == e.1 then 1 else 0)
count-entry e [] d = ground (arith, has_key_empty e.0)
count-entry e ((k, v) ∷ m) d =
    ground (arith, eq_iff k e.0, has_key-cons e.0 k v m, count_of-cons e.0 k v m, count-entry e m)

-- The order in which Go ranges over the map does not matter: if two snapshots have the same error
-- kinds with the same counts, each kind once, and sort.Slice keeps its promise on both maps, then
-- ErrKindsSorted returns the same list for both, and the dashboard shows the same five; an entry stands in it once if the map has its kind
-- with its count, and never otherwise.
pub err_kinds_sorted_same :
    (sort_slice : SortSlice) (sn sn' : Snapshot)
    → IsSorted before sn.err_kinds (err_kinds_sorted sort_slice sn)
    → IsSorted before sn'.err_kinds (err_kinds_sorted sort_slice sn')
    → Distinct sn.err_kinds
    → Distinct sn'.err_kinds
    → ((k : String) → has_key k sn.err_kinds ≡ has_key k sn'.err_kinds)
    → ((k : String) → count_of k sn.err_kinds ≡ count_of k sn'.err_kinds)
    → (err_kinds_sorted sort_slice sn ≡ err_kinds_sorted sort_slice sn')
      × (shown_kinds sort_slice sn ≡ shown_kinds sort_slice sn')
      × ((e : String × ℕ)
          → count_by (same_entry e) (err_kinds_sorted sort_slice sn)
            ≡ (if has_key e.0 sn.err_kinds && count_of e.0 sn.err_kinds == e.1 then 1 else 0))
unfolding shown_kinds
err_kinds_sorted_same sort_slice sn sn' s s' d d' keys counts =
    (same, ap (take 5) same, λ e. s.kept e ∙ count-entry e sn.err_kinds d)
  where
    same : err_kinds_sorted sort_slice sn ≡ err_kinds_sorted sort_slice sn'
    same = same_elements _ _ s.ordered s'.ordered (λ e. omega (
      arith,
      s.kept e,
      s'.kept e,
      count-entry e sn.err_kinds d,
      count-entry e sn'.err_kinds d',
      ap₂ {C = ℕ} (λ h (c : ℕ). if h && c == e.1 then 1 else 0) (keys e.0) (counts e.0),
    ))
