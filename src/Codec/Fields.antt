-- ===== src/Codec/Fields.antt =====
-- Fields in the text: the loop of `fix_to_dict` over printed fields, and the sorted pairs.
use auto_test_poc.Base.{
  ℕ, ◌≡◌, ◌≢◌, refl, true, false, none, some, List, [], ◌∷◌, ◌++◌, map, arith, or_else, All,
  All-append, ◌⊎◌, inl, inr, if◌then◌else◌, ap, ◌∙◌, append_assoc,
}
use auto_test_poc.Base.Int.{ℤ, pos, negsuc}
use auto_test_poc.Py.Text.{
  Text, Lacks, text_eq, text_eq_iff, text_eq_refl, split, join, split-append, partition,
  partition-append,
}
use auto_test_poc.Py.Decimal.{print_ℕ, print_ℤ, print_ℕ-Lacks, print_ℕ-injective}
use auto_test_poc.Py.Dict.{Dict, lookup, insert, lookup-insert}
use auto_test_poc.Py.Sort.{sort, place, first, first-place, first-sort}
use auto_test_poc.Codec.{soh, field, read_field, read_fields}

-- A tag number with a value that does not hold the delimiter.
abbrev pub IsField : ℤ × Text → Type 0
IsField (pos n, v) = Lacks soh v
IsField (negsuc n, v) = ⊥

-- No number comes twice.
abbrev pub Distinct : List (ℤ × Text) → Type 0
Distinct [] = Unit
Distinct ((k, v) ∷ ps) = (first k ps ≡ none) × Distinct ps

place-IsField :
    (k : ℤ) (v : Text) (ps : List (ℤ × Text))
    → IsField (k, v)
    → All IsField ps
    → All IsField (place k v ps)
unfolding place
place-IsField k v [] h hs = (h, tt)
place-IsField k v ((j, w) ∷ ps) h hs = ground (arith, place-IsField k v ps h hs.1)

pub sort-IsField : (ps : List (ℤ × Text)) → All IsField ps → All IsField (sort ps)
unfolding sort
sort-IsField [] h = tt
sort-IsField ((k, v) ∷ ps) h = place-IsField k v (sort ps) h.0 (sort-IsField ps h.1)

place-Distinct :
    (k : ℤ) (v : Text) (ps : List (ℤ × Text))
    → first k ps ≡ none
    → Distinct ps
    → Distinct (place k v ps)
unfolding place
place-Distinct k v [] h d = (refl, tt)
place-Distinct k v ((j, w) ∷ ps) h d = ground (arith, place-Distinct k v ps, first-place j k v ps)

pub sort-Distinct : (ps : List (ℤ × Text)) → Distinct ps → Distinct (sort ps)
unfolding sort
sort-Distinct [] d = tt
sort-Distinct ((k, v) ∷ ps) d =
    place-Distinct k v (sort ps) (first-sort k ps ∙ d.0) (sort-Distinct ps d.1)

-- The text of a field is read back as an entry.
pub read_field-print :
    (d : Dict Text) (n : ℕ) (v : Text)
    → read_field d (print_ℕ n ++ b'=' ∷ v) ≡ insert (print_ℕ n) v d
unfolding read_field
read_field-print d n v =
    rw (read_field, partition-append b'=' (print_ℕ n) v (print_ℕ-Lacks b'=' n (omega arith)))

pub print-Lacks-soh : (n : ℕ) (v : Text) → Lacks soh v → Lacks soh (print_ℕ n ++ b'=' ∷ v)
print-Lacks-soh n v h =
    All-append _ (print_ℕ n) _ (print_ℕ-Lacks soh n (omega arith)) (omega arith, h)

pub map-field-Lacks : (ps : List (ℤ × Text)) → All IsField ps → All (Lacks soh) (map field ps)
unfolding print_ℤ
map-field-Lacks [] h = tt
map-field-Lacks ((pos n, v) ∷ ps) h = (print-Lacks-soh n v h.0, map-field-Lacks ps h.1)
map-field-Lacks ((negsuc n, v) ∷ ps) h = absurd h.0

-- Two printed numbers are the same text exactly when the numbers are equal.
pub text_eq-print :
    (n m : ℕ)
    → ((text_eq (print_ℕ n) (print_ℕ m) ≡ true) × (n ≡ m))
      ⊎ ((text_eq (print_ℕ n) (print_ℕ m) ≡ false) × (n ≢ m))
text_eq-print n m =
    ground
      (arith, text_eq_iff (print_ℕ n) (print_ℕ m), print_ℕ-injective n m, text_eq_refl (print_ℕ n))

-- What the loop has under a tag: the field's value, or what was there before.
pub lookup-read_fields :
    (n : ℕ) (d : Dict Text) (ps : List (ℤ × Text))
    → All IsField ps
    → Distinct ps
    → lookup (print_ℕ n) (read_fields d (map field ps))
      ≡ or_else (first (pos n) ps) (lookup (print_ℕ n) d)
unfolding print_ℤ
lookup-read_fields n d [] h u = refl
lookup-read_fields n d ((pos j, v) ∷ ps) h u =
    ap (λ d'. lookup (print_ℕ n) (read_fields d' (map field ps))) (read_field-print d j v)
    ∙ lookup-read_fields n (insert (print_ℕ j) v d) ps h.1 u.1
    ∙ ap (or_else (first (pos n) ps)) (lookup-insert (print_ℕ n) (print_ℕ j) v d)
    ∙ choose
  where
    choose :
        or_else
          (first (pos n) ps)
          (if text_eq (print_ℕ n) (print_ℕ j) then some v else lookup (print_ℕ n) d)
        ≡ or_else (first (pos n) ((pos j, v) ∷ ps)) (lookup (print_ℕ n) d)
    choose = elim (text_eq-print n j) [
      | inl (e, same) ↦ rw (e, same, u.0) (ground arith)
      | inr (e, other) ↦ rw e (ground arith)
    ]
lookup-read_fields n d ((negsuc j, v) ∷ ps) h u = absurd h.0

-- The joined fields in front of a text are read before the rest of it.
pub read_fields-join :
    (d : Dict Text) (parts : List Text) (t : Text)
    → All (Lacks soh) parts
    → read_fields d (split soh (join soh parts ++ soh ∷ t))
      ≡ read_fields (read_fields d parts) (split soh t)
unfolding join
read_fields-join d [] t h = unfold split read_field partition in refl
read_fields-join d (p ∷ []) t h = rw (split-append soh p t h.0)
read_fields-join d (p ∷ q ∷ ps) t h =
    rw
      (
        append_assoc p (soh ∷ join soh (q ∷ ps)) (soh ∷ t),
        split-append soh p (join soh (q ∷ ps) ++ soh ∷ t) h.0,
      )
      (read_fields-join (read_field d p) (q ∷ ps) t h.1)
