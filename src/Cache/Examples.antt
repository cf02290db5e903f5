-- ===== src/Cache/Examples.antt =====
-- Counters in a map of numbers, which are read and written as tally marks.
use text.Mathlib.TextEquality.{eq_iff}
use handling_50k_requestes_p.Prelude.{
  ℕ, ◌+◌, ◌≡◌, refl, ap, ◌∙◌, String, false, true, List, [], ◌∷◌, Option, none, some, ℤ, pos,
  pos_part, sym, Bool, arith,
}
use handling_50k_requestes_p.Prelude.Maps.{lookup, insert, lookup-insert}
use handling_50k_requestes_p.Coordinator.Examples.{tally, marks, marks-tally}
use handling_50k_requestes_p.Cache.{
  Reply, absent, value, Redis, get_int, incr_all, int_from, get_bytes, missed,
}
use handling_50k_requestes_p.Cache.Counting.{Increments, total_for, incr_all-get_int}

abbrev reply_of : Option ℕ → Reply
reply_of none = absent
reply_of (some n) = value (tally n)

abbrev number_of : Option ℕ → ℕ
number_of none = 0
number_of (some n) = n

abbrev counters : Redis
counters = record {
  State = List (String × ℕ);
  get = λ s key. reply_of (lookup key s);
  set = λ s key b. (insert key (marks b) s, false);
  del = λ s key. (s, true);
  incr_by = λ s key v. (insert key (number_of (lookup key s) + v) s, false);
  to_int = λ b. some (pos (marks b));
}

reads_number :
    (s : List (String × ℕ)) (key : String)
    → get_int counters s key ≡ (pos (number_of (lookup key s)), false)
unfolding get_int
reads_number s key = from (lookup key s)
  where
    from : (o : Option ℕ) → int_from counters (reply_of o) ≡ (pos (number_of o), false)
    from none = refl
    from (some n) = ap (λ m. (pos m, false)) (marks-tally n)

read_back : (n m : ℕ) → ◌≡◌ {A = ℤ × Bool} (pos n, false) (pos m, false) → n ≡ m
read_back n m e = ap (λ p. pos_part p.0) e

counters-Increments : Increments counters
counters-Increments = record {
  adds = λ s k key v n good reads.
      let old : number_of (lookup key s) ≡ n =
        read_back (number_of (lookup key s)) n (sym (reads_number s key) ∙ reads) in
      reads_number (insert k (number_of (lookup k s) + v) s) key
      ∙ ap (λ m. (pos m, false))
          (ground (arith, old, eq_iff k key, lookup-insert k key (number_of (lookup k s) + v) s));
}

nothing_stored :
    get_bytes counters [] "titan:item:1" ≡ record { bytes = none; failed = false; counted = missed }
unfolding get_bytes lookup
nothing_stored = refl

abbrev two_counts : List (String × ℕ)
two_counts = ("a", 2) ∷ ("b", 1) ∷ ("a", 3) ∷ []

two_counts_added : (incr_all counters (("a", 1) ∷ []) two_counts).1 ≡ false
unfolding incr_all
two_counts_added = refl

incr_all-get_int_example :
    get_int counters (incr_all counters (("a", 1) ∷ []) two_counts).0 "a"
    ≡ (pos (1 + total_for "a" two_counts), false)
unfolding get_int lookup
incr_all-get_int_example =
    incr_all-get_int counters counters-Increments two_counts (("a", 1) ∷ []) "a" 1 two_counts_added
      refl
