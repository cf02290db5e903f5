-- ===== src/Report/Grouping.antt =====
-- Num writes its digits in groups of three.
use handling_50k_requestes_p.Prelude.{
  ℕ, zero, suc, ◌/◌, pos, ◌+◌, ◌-◌, ◌*◌, ◌%◌, ◌≡◌, ◌≢◌, refl, false, List, [], ◌∷◌, arith, ◌==◌,
  if◌then◌else◌, length, ◌<◌, ◌⊎◌, inl, inr,
}
use handling_50k_requestes_p.Report.{separated, num}

-- Groups of three digits, each behind a comma.
pub data Triples : List ℕ → Type 0 where
  none_left : Triples []
  triple : (a b c : ℕ) (xs : List ℕ) → Triples xs → Triples (44 ∷ a ∷ b ∷ c ∷ xs)

-- One, two or three digits, and then triples.
pub data Grouped : List ℕ → Type 0 where
  lead_one : (a : ℕ) (xs : List ℕ) → Triples xs → Grouped (a ∷ xs)
  lead_two : (a b : ℕ) (xs : List ℕ) → Triples xs → Grouped (a ∷ b ∷ xs)
  lead_three : (a b c : ℕ) (xs : List ℕ) → Triples xs → Grouped (a ∷ b ∷ c ∷ xs)

abbrev pub without_commas : List ℕ → List ℕ
without_commas [] = []
without_commas (c ∷ cs) = if c == 44 then without_commas cs else c ∷ without_commas cs

abbrev pub NoCommas : List ℕ → Type 0
NoCommas [] = Unit {0}
NoCommas (c ∷ cs) = ((c == 44) ≡ false) × NoCommas cs

-- Behind the first digit, a comma stands where the number of digits left is a multiple of three.
comma_here :
    (len i : ℕ) (c : ℕ) (cs : List ℕ)
    → 0 < i
    → (len - i) % 3 ≡ 0
    → separated len i (c ∷ cs) ≡ 44 ∷ c ∷ separated len (i + 1) cs
unfolding separated
comma_here len i c cs h e = ground arith

no_comma_here :
    (len i : ℕ) (c : ℕ) (cs : List ℕ)
    → (i ≡ 0) ⊎ ((len - i) % 3 ≢ 0)
    → separated len i (c ∷ cs) ≡ c ∷ separated len (i + 1) cs
unfolding separated
no_comma_here len i c cs h = ground arith

separated-Triples :
    (len i k : ℕ) (cs : List ℕ)
    → 0 < i
    → i + length cs ≡ len
    → length cs ≡ k * 3
    → Triples (separated len i cs)
unfolding separated
separated-Triples len i k [] h e d = none_left
separated-Triples len i k (a ∷ []) h e d = absurd (omega arith)
separated-Triples len i k (a ∷ (b ∷ [])) h e d = absurd (omega arith)
separated-Triples len i zero (a ∷ (b ∷ (c ∷ cs))) h e d = absurd (omega arith)
separated-Triples len i (suc k) (a ∷ (b ∷ (c ∷ cs))) h e d =
    rw (comma_here len i a (b ∷ (c ∷ cs)) h (omega arith)) (
      rw (no_comma_here len (i + 1) b (c ∷ cs) (inr (omega arith))) (
        rw (no_comma_here len (i + 1 + 1) c cs (inr (omega arith))) (
          triple a b c _ (
            separated-Triples len (i + 1 + 1 + 1) k cs (omega arith) (omega arith) (omega arith)))))

without_commas-separated :
    (len i : ℕ) (cs : List ℕ) → NoCommas cs → without_commas (separated len i cs) ≡ cs
unfolding separated
without_commas-separated len i [] h = refl
without_commas-separated len i (c ∷ cs) (h, hs) =
    ground (arith, without_commas-separated len (i + 1) cs hs)

-- Digits behind the first: their count mod three says how many stand before the next comma.
lead :
    (len k : ℕ) (ds : List ℕ)
    → length ds ≡ len
    → 0 < len
    → (len ≡ k * 3 + 1) ⊎ (len ≡ k * 3 + 2) ⊎ (len ≡ k * 3 + 3)
    → Grouped (separated len 0 ds)
lead len k [] e h c = absurd (omega arith)
lead len k (a ∷ cs) e h (inl one) =
    rw (no_comma_here len 0 a cs (inl refl))
      (lead_one a _ (separated-Triples len (0 + 1) k cs (omega arith) (omega arith) (omega arith)))
lead len k (a ∷ []) e h (inr (inl two)) = absurd (omega arith)
lead len k (a ∷ (b ∷ cs)) e h (inr (inl two)) = rw (no_comma_here len 0 a (b ∷ cs) (inl refl)) (
    rw (no_comma_here len (0 + 1) b cs (inr (omega arith))) (
      lead_two a b _
        (separated-Triples len (0 + 1 + 1) k cs (omega arith) (omega arith) (omega arith))))
lead len k (a ∷ []) e h (inr (inr three)) = absurd (omega arith)
lead len k (a ∷ (b ∷ [])) e h (inr (inr three)) = absurd (omega arith)
lead len k (a ∷ (b ∷ (c ∷ cs))) e h (inr (inr three)) =
    rw (no_comma_here len 0 a (b ∷ (c ∷ cs)) (inl refl)) (
      rw (no_comma_here len (0 + 1) b (c ∷ cs) (inr (omega arith))) (
        rw (no_comma_here len (0 + 1 + 1) c cs (inr (omega arith))) (
          lead_three a b c _ (
            separated-Triples len (0 + 1 + 1 + 1) k cs (omega arith) (omega arith) (omega arith)))))

-- Num on a number that is not negative, whose decimal digits are some digits and no comma: the text
-- is one to three digits followed by groups of a comma and three digits, and without its commas it is
-- the digits again, so that numbers that are shown alike have the same digits.
pub num-Grouped :
    (digits : ℕ → List ℕ) (n : ℕ)
    → 0 < length (digits n)
    → NoCommas (digits n)
    → Grouped (num digits (pos n)) × (without_commas (num digits (pos n)) ≡ digits n)
unfolding num
num-Grouped digits n some_digits clean = (
  lead (length (digits n)) ((length (digits n) - 1) / 3) (digits n) refl some_digits
      (thirds (length (digits n)) some_digits),
  without_commas-separated (length (digits n)) 0 (digits n) clean,
)
  where
    thirds :
        (len : ℕ)
        → 0 < len
        → (len ≡ (len - 1) / 3 * 3 + 1)
          ⊎ (len ≡ (len - 1) / 3 * 3 + 2)
          ⊎ (len ≡ (len - 1) / 3 * 3 + 3)
    thirds len h = ground arith
