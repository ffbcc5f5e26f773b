-- ===== src/Codec/RoundTrip.antt =====
-- `fix_to_dict` undoes `dict_to_fix`, and what the framing fields of the text hold.
use auto_test_poc.Base.{
  ℕ, ◌+◌, ◌≡◌, ◌≢◌, refl, sym, ap, ◌∙◌, Option, none, some, List, [], ◌∷◌, ◌++◌, map, arith,
  or_else, All, inl, inr, if◌then◌else◌, append_assoc, length, ◌==◌, if-true, if-false, ==-ne,
  ==_iff, length-append, ◌%◌, Bool-cases,
}
use mathlib.Core.Path.{subst}
use auto_test_poc.Base.Int.{ℤ, pos}
use auto_test_poc.Py.Exceptions.{ok}
use auto_test_poc.Py.Text.{Text, codes, text_eq, text_eq_iff, text_eq_refl, join}
use auto_test_poc.Py.Decimal.{print_ℕ, print_ℕ-Lacks, parse_int, parse_int-rjust}
use auto_test_poc.Py.Dict.{Dict, lookup, insert, lookup-insert, lookup-remove_ne}
use auto_test_poc.Py.Sort.{sort, first, first-sort}
use auto_test_poc.Codec.{
  soh, popped, field, sum, checksum, header, sealed, dict_to_fix, read_fields, fix_to_dict,
}
use auto_test_poc.Codec.Fields.{
  IsField, Distinct, sort-IsField, sort-Distinct, map-field-Lacks, text_eq-print,
  lookup-read_fields,
}
use auto_test_poc.Codec.Messages.{IsMessage, Tagged}
use auto_test_poc.Codec.Shape.{
  checksum-Lacks, length-checksum, fix_to_dict-shape, lookup-IsMessage, dict_to_fix-sealed,
}

or_else-none {ℓ} : {A : Type ℓ} (o : Option A) → or_else o none ≡ o
or_else-none none = refl
or_else-none (some a) = refl

text_eq-tag : (n m : ℕ) (k : Text) → print_ℕ m ≡ k → text_eq (print_ℕ n) k ≡ (n == m)
text_eq-tag n m k e =
    subst (λ k. text_eq (print_ℕ n) k ≡ (n == m)) e
      (elim (text_eq-print n m) [
        | inl (same, eq) ↦ rw same (ground arith)
        | inr (other, ne) ↦ rw other (ground arith)
      ])

tag_eight : (n : ℕ) → text_eq (print_ℕ n) (codes "8") ≡ (n == 8)
tag_eight n = text_eq-tag n 8 _ (unfold print_ℕ in refl)

tag_nine : (n : ℕ) → text_eq (print_ℕ n) (codes "9") ≡ (n == 9)
tag_nine n = text_eq-tag n 9 _ (unfold print_ℕ in refl)

tag_ten : (n : ℕ) → text_eq (print_ℕ n) (codes "10") ≡ (n == 10)
tag_ten n = text_eq-tag n 10 _ (unfold print_ℕ in refl)

print_eight : print_ℕ 8 ≡ codes "8"
unfolding print_ℕ
print_eight = refl

lookup-popped :
    (n : ℕ) (d : Dict Text) → n ≢ 9 → n ≢ 10 → lookup (print_ℕ n) (popped d) ≡ lookup (print_ℕ n) d
lookup-popped n d h9 h10 =
    lookup-remove_ne (print_ℕ n) (codes "10") _
      (λ e. ground (arith, tag_ten n, (text_eq_iff (print_ℕ n) (codes "10")).1 e))
    ∙ lookup-remove_ne (print_ℕ n) (codes "9") d
        (λ e. ground (arith, tag_nine n, (text_eq_iff (print_ℕ n) (codes "9")).1 e))

-- What is found under a tag that is not BodyLength or CheckSum.
lookup-shape :
    (n : ℕ) (begin len check : Text) (ps : List (ℤ × Text))
    → n ≢ 9
    → n ≢ 10
    → All IsField ps
    → Distinct ps
    → lookup (print_ℕ n) (
        insert
          (codes "10")
          check
          (read_fields (insert (codes "9") len (insert (codes "8") begin [])) (map field ps)))
      ≡ or_else (first (pos n) ps) (if n == 8 then some begin else none)
unfolding lookup
lookup-shape n begin len check ps h9 h10 hf hd =
    lookup-insert (print_ℕ n) (codes "10") check _
    ∙ if-false _ _ _ (tag_ten n ∙ ==-ne n 10 h10)
    ∙ lookup-read_fields n _ ps hf hd
    ∙ ap (or_else (first (pos n) ps)) (
        lookup-insert (print_ℕ n) (codes "9") len _
        ∙ if-false _ _ _ (tag_nine n ∙ ==-ne n 9 h9)
        ∙ lookup-insert (print_ℕ n) (codes "8") begin []
        ∙ rw (tag_eight n))

-- The fields and the BeginString together hold what the dict held.
first-Tagged :
    (n : ℕ) (d : Dict Text) (begin : Text) (ps : List (ℤ × Text))
    → n ≢ 9
    → n ≢ 10
    → Tagged (popped d) ps
    → lookup (codes "8") d ≡ some begin
    → or_else (first (pos n) (sort ps)) (if n == 8 then some begin else none) ≡ lookup (print_ℕ n) d
first-Tagged n d begin ps h9 h10 t e =
    ap (λ o. or_else o (if n == 8 then some begin else none)) (first-sort (pos n) ps ∙ t.values n)
    ∙ rw (tag_eight n, tag_nine n, tag_ten n, ==-ne n 9 h9, ==-ne n 10 h10)
        (elim (Bool-cases (n == 8)) [
          | inl eight ↦ rw (eight) (
              sym e
              ∙ ap (λ k. lookup k d) (sym print_eight ∙ ap print_ℕ (sym ((==_iff n 8).0 eight))))
          | inr other ↦
              rw other (ap (λ o. or_else o none) (lookup-popped n d h9 h10) ∙ or_else-none _)
        ])

-- Reading the text of a message gives every field back, under each tag but those of BodyLength and
-- CheckSum; the text is produced for every message that has a BeginString.
pub fix_to_dict-dict_to_fix :
    (d : Dict Text) {begin : Text}
    → IsMessage d
    → lookup (codes "8") d ≡ some begin
    → (s : Text) × (dict_to_fix d ≡ ok s)
      × ((n : ℕ) → n ≢ 9 → n ≢ 10 → lookup (print_ℕ n) (fix_to_dict s) ≡ lookup (print_ℕ n) d)
fix_to_dict-dict_to_fix d {begin} h e = (sealed (header begin parts), made.2, found)
  where
    made :
        (ps : List (ℤ × Text)) × Tagged (popped d) ps
        × (dict_to_fix d ≡ ok (sealed (header begin (map field (sort ps)))))
    made = dict_to_fix-sealed d h e

    parts : List Text
    parts = map field (sort made.0)

    found :
        (n : ℕ)
        → n ≢ 9
        → n ≢ 10
        → lookup (print_ℕ n) (fix_to_dict (sealed (header begin parts))) ≡ lookup (print_ℕ n) d
    found n h9 h10 =
        ap (lookup (print_ℕ n)) (
          fix_to_dict-shape begin _ (checksum (header begin parts)) parts
            (lookup-IsMessage _ d h e).0 (print_ℕ-Lacks soh _ (omega arith))
            (checksum-Lacks (header begin parts))
            (map-field-Lacks (sort made.0) (sort-IsField made.0 made.1.fields)))
        ∙ lookup-shape n begin _ _ (sort made.0) h9 h10 (sort-IsField made.0 made.1.fields)
            (sort-Distinct made.0 made.1.distinct)
        ∙ first-Tagged n d begin made.0 h9 h10 made.1 e

lookup-insert_self : (k v : Text) (d : Dict Text) → lookup k (insert k v d) ≡ some v
lookup-insert_self k v d = lookup-insert k k v d ∙ if-true _ _ _ (text_eq_refl k)

-- The text of a message ends in a CheckSum field of three digits, which read as the sum of all the
-- bytes before that field modulo 256, and the reader finds it under tag 10.
pub dict_to_fix-checksum :
    (d : Dict Text) {begin : Text}
    → IsMessage d
    → lookup (codes "8") d ≡ some begin
    → (h : Text) × (check : Text) × (dict_to_fix d ≡ ok (h ++ (codes "10=" ++ check) ++ soh ∷ []))
      × (lookup (codes "10") (fix_to_dict (h ++ (codes "10=" ++ check) ++ soh ∷ [])) ≡ some check)
      × (length check ≡ 3)
      × (parse_int check ≡ some (pos (sum h % 256)))
dict_to_fix-checksum d {begin} h e =
    let (ps, t, made) = dict_to_fix-sealed d h e in
    let parts = map field (sort ps) in
    let front = header begin parts in
    (
      front,
      checksum front,
      made,
      ap (lookup (codes "10")) (
            fix_to_dict-shape begin _ (checksum front) parts (lookup-IsMessage _ d h e).0
              (print_ℕ-Lacks soh _ (omega arith)) (checksum-Lacks front)
              (map-field-Lacks (sort ps) (sort-IsField ps t.fields)))
          ∙ lookup-insert_self (codes "10") (checksum front) _,
      length-checksum front,
      parse_int-rjust 3 (sum front % 256),
    )

first-ne-nil : (n : ℕ) (ps : List (ℤ × Text)) {v : Text} → first (pos n) ps ≡ some v → ps ≢ []
first-ne-nil n [] e = cc
first-ne-nil n (p ∷ ps) e = cc

length-body :
    (begin : Text) (ps : List (ℤ × Text))
    → ps ≢ []
    → length (join soh ((codes "8=" ++ begin) ∷ map field ps) ++ soh ∷ [])
      ≡ length (join soh (map field ps) ++ soh ∷ []) + length (codes "8=" ++ begin) + 1
unfolding join
length-body begin [] h = absurd (h refl)
length-body begin (p ∷ ps) h =
    let inner = join soh (map field (p ∷ ps)) in
    omega (
      arith,
      length-append ((codes "8=" ++ begin) ++ soh ∷ inner) (soh ∷ []),
      length-append (codes "8=" ++ begin) (soh ∷ inner),
      length-append inner (soh ∷ []),
    )

-- The BodyLength field of a message counts the whole BeginString field, its delimiter included,
-- beside the bytes between BodyLength and CheckSum, if there is any field between these two.
pub dict_to_fix-body_length :
    (d : Dict Text) {begin v : Text} (n : ℕ)
    → IsMessage d
    → lookup (codes "8") d ≡ some begin
    → n ≢ 8
    → n ≢ 9
    → n ≢ 10
    → lookup (print_ℕ n) d ≡ some v
    → (len : ℕ) × (between : Text) × (check : Text) × (dict_to_fix d
        ≡ ok (
            ((codes "8=" ++ begin) ++ soh ∷ (codes "9=" ++ print_ℕ len) ++ soh ∷ between)
            ++ (codes "10=" ++ check)
            ++ soh ∷ []))
      × (len ≡ length between + length (codes "8=" ++ begin) + 1)
dict_to_fix-body_length d {begin} {v} n h e h8 h9 h10 found =
    let (ps, t, made) = dict_to_fix-sealed d h e in
    let parts = map field (sort ps) in
    (
      length (join soh ((codes "8=" ++ begin) ∷ parts) ++ soh ∷ []),
      join soh parts ++ soh ∷ [],
      checksum (header begin parts),
      made
          ∙ ap (λ s. ok (s ++ (codes "10=" ++ checksum (header begin parts)) ++ soh ∷ []))
              (append_assoc
                ((codes "8=" ++ begin)
                  ++ soh
                    ∷ (codes "9="
                        ++ print_ℕ (length (join soh ((codes "8=" ++ begin) ∷ parts) ++ soh ∷ []))))
                (soh ∷ join soh parts) (soh ∷ [])),
      length-body begin (sort ps) (
          first-ne-nil n (sort ps) {v = v} (
            first-sort (pos n) ps
            ∙ t.values n
            ∙ rw (tag_eight n, tag_nine n, tag_ten n, ==-ne n 8 h8, ==-ne n 9 h9, ==-ne n 10 h10)
                (lookup-popped n d h9 h10 ∙ found))),
    )
