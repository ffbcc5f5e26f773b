-- ===== src/Messages/Reading.antt =====
-- Reading the fields of a text one by one.
use auto_test_poc.Base.{
  ℕ, ◌≡◌, refl, ap, ◌∙◌, false, List, [], ◌∷◌, ◌++◌, map, none, some, or_else, if◌then◌else◌, arith,
  All, Bool-cases, inl, inr,
}
use auto_test_poc.Base.Int.{ℤ, pos, negsuc, eq_ℤ, leb_ℤ, eq_of_parts}
use auto_test_poc.Py.Text.{Text, Lacks, partition-append}
use auto_test_poc.Py.Decimal.{print_ℕ, print_ℤ, parse_int-print_ℕ, print_ℕ-Lacks}
use auto_test_poc.Py.Sort.{first, sort, place, first-sort}
use auto_test_poc.Codec.{field}
use auto_test_poc.Codec.Fields.{Distinct, sort-Distinct}
use auto_test_poc.Codec.Messages.{IsAscii}
use auto_test_poc.Messages.Message.{Fields, put, take_out, bar, read_part, read_parts, sent_fields}

-- A field that can be written and read: a tag that is not negative, and an ASCII value without a bar.
abbrev pub IsEntry : ℤ × Text → Type 0
IsEntry (pos n, v) = Lacks bar v × IsAscii v
IsEntry (negsuc n, v) = ⊥

pub first-put :
    (k j : ℤ) (v : Text) (d : Fields)
    → first k (put j v d) ≡ (if eq_ℤ k j then some v else first k d)
unfolding put
first-put k j v [] = refl
first-put k j v ((i, w) ∷ d) = ground (arith, first-put k j v d)

pub first-take_out : (k j : ℤ) (d : Fields) → eq_ℤ k j ≡ false → first k (take_out j d) ≡ first k d
unfolding take_out
first-take_out k j [] h = refl
first-take_out k j ((i, w) ∷ d) h = ground (arith, first-take_out k j d h)

take_out-none : (k j : ℤ) (d : Fields) → first k d ≡ none → first k (take_out j d) ≡ none
unfolding take_out
take_out-none k j [] h = refl
take_out-none k j ((i, w) ∷ d) h = ground (arith, take_out-none k j d)

take_out-Distinct : (j : ℤ) (d : Fields) → Distinct d → Distinct (take_out j d)
unfolding take_out
take_out-Distinct j [] h = tt
take_out-Distinct j ((i, w) ∷ d) h = elim (Bool-cases (eq_ℤ j i)) [
  | inl same ↦ rw same h.1
  | inr other ↦ rw other (take_out-none i j d h.0, take_out-Distinct j d h.1)
]

module _ (P : ℤ × Text → Type 0) where
  take_out-All : (j : ℤ) (d : Fields) → All P d → All P (take_out j d)
  unfolding take_out
  take_out-All j [] h = tt
  take_out-All j ((i, w) ∷ d) h = elim (Bool-cases (eq_ℤ j i)) [
    | inl same ↦ rw same h.1
    | inr other ↦ rw other (h.0, take_out-All j d h.1)
  ]

  place-All : (k : ℤ) (v : Text) (d : Fields) → P (k, v) → All P d → All P (place k v d)
  unfolding place
  place-All k v [] h hs = (h, tt)
  place-All k v ((j, w) ∷ d) h hs = elim (Bool-cases (leb_ℤ k j)) [
    | inl before ↦ rw before (h, hs)
    | inr behind ↦ rw behind (hs.0, place-All k v d h hs.1)
  ]

  sort-All : (d : Fields) → All P d → All P (sort d)
  unfolding sort
  sort-All [] h = tt
  sort-All ((k, v) ∷ d) h = place-All k v (sort d) h.0 (sort-All d h.1)

  pub sent_fields-All : (d : Fields) → All P d → All P (sent_fields d)
  sent_fields-All d h = sort-All _ (take_out-All (pos 10) _ (take_out-All (pos 9) d h))

pub sent_fields-Distinct : (d : Fields) → Distinct d → Distinct (sent_fields d)
sent_fields-Distinct d h =
    sort-Distinct _ (take_out-Distinct (pos 10) _ (take_out-Distinct (pos 9) d h))

pub first-sent_fields :
    (k : ℤ) (d : Fields)
    → eq_ℤ k (pos 9) ≡ false
    → eq_ℤ k (pos 10) ≡ false
    → first k (sent_fields d) ≡ first k d
first-sent_fields k d h9 h10 =
    first-sort k (take_out (pos 10) (take_out (pos 9) d))
    ∙ first-take_out k (pos 10) (take_out (pos 9) d) h10
    ∙ first-take_out k (pos 9) d h9

-- A text `tag=value` is read as an entry.
pub read_part-field :
    (d : Fields) (n : ℕ) (v : Text) → read_part d (print_ℕ n ++ b'=' ∷ v) ≡ put (pos n) v d
unfolding read_part
read_part-field d n v = rw (
  read_part,
  partition-append b'=' (print_ℕ n) v (print_ℕ-Lacks b'=' n (omega arith)),
  parse_int-print_ℕ n,
)

pub read_parts-append :
    (d : Fields) (xs ys : List Text) → read_parts d (xs ++ ys) ≡ read_parts (read_parts d xs) ys
read_parts-append d [] ys = refl
read_parts-append d (x ∷ xs) ys = read_parts-append (read_part d x) xs ys

pub first-read_parts :
    (k : ℤ) (d ps : Fields)
    → All IsEntry ps
    → Distinct ps
    → first k (read_parts d (map field ps)) ≡ or_else (first k ps) (first k d)
unfolding print_ℤ
first-read_parts k d [] h u = refl
first-read_parts k d ((pos j, v) ∷ ps) h u =
    ap (λ d'. first k (read_parts d' (map field ps))) (read_part-field d j v)
    ∙ first-read_parts k (put (pos j) v d) ps h.1 u.1
    ∙ ap (or_else (first k ps)) (first-put k (pos j) v d)
    ∙ elim (Bool-cases (eq_ℤ k (pos j))) [
      | inl same ↦
          let here : k ≡ pos j = eq_of_parts k (pos j) (ground (arith, same)) in
          rw (same, ap (λ i. first i ps) here ∙ u.0) refl
      | inr other ↦ rw other refl
    ]
first-read_parts k d ((negsuc j, v) ∷ ps) h u = absurd h.0
