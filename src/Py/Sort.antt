-- ===== src/Py/Sort.antt =====
-- `sorted(pairs, key=first)`: a stable sort of numbered values.
use auto_test_poc.Base.{◌≡◌, refl, Option, none, some, List, [], ◌∷◌, if◌then◌else◌, arith}
use auto_test_poc.Base.Int.{ℤ, leb_ℤ, eq_ℤ}

module _ {V : Type 0} where
  unfoldable pub place : ℤ → V → List (ℤ × V) → List (ℤ × V)
  place k v [] = (k, v) ∷ []
  place k v ((j, w) ∷ l) = if leb_ℤ k j then (k, v) ∷ (j, w) ∷ l else (j, w) ∷ place k v l

  unfoldable pub sort : List (ℤ × V) → List (ℤ × V)
  sort [] = []
  sort ((k, v) ∷ l) = place k v (sort l)

  -- The first value under a number.
  abbrev pub first : ℤ → List (ℤ × V) → Option V
  first k [] = none
  first k ((j, v) ∷ l) = if eq_ℤ k j then some v else first k l

  pub first-place :
      (j k : ℤ) (v : V) (l : List (ℤ × V))
      → first j (place k v l) ≡ (if eq_ℤ j k then some v else first j l)
  unfolding place
  first-place j k v [] = refl
  first-place j k v ((i, w) ∷ l) = ground (arith, first-place j k v l)

  -- Sorting keeps the first value under every number.
  pub first-sort : (j : ℤ) (l : List (ℤ × V)) → first j (sort l) ≡ first j l
  unfolding sort
  first-sort j [] = refl
  first-sort j ((k, v) ∷ l) = ground (arith, first-place j k v (sort l), first-sort j l)
