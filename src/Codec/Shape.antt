-- ===== src/Codec/Shape.antt =====
-- The text of a message, and the dict that is read from it, field by field.
use auto_test_poc.Base.{
  ℕ, ◌≡◌, refl, ap, ◌∙◌, true, some, List, [], ◌∷◌, ◌++◌, map, arith, All, All-append, inl, inr,
  append_assoc, length, replicate, ◌-◌, zero, suc, ◌%◌, Bool-cases,
}
use mathlib.Core.Path.{subst}
use auto_test_poc.Base.Int.{ℤ, pos, negsuc}
use auto_test_poc.Py.Exceptions.{ok}
use auto_test_poc.Py.Text.{
  Text, codes, Lacks, text_eq, split, join, split-append, split-Lacks, drop_last-snoc,
  ends_with-snoc,
}
use auto_test_poc.Py.Decimal.{
  print_ℕ, print_ℤ, print_ℕ-IsDigit, print_ℕ-Lacks, IsDigit, length-rjust, length-print_ℕ_three,
}
use auto_test_poc.Py.Dict.{Dict, lookup, insert, lookup-remove_ne}
use auto_test_poc.Py.Sort.{sort, place}
use auto_test_poc.Codec.{
  soh, popped, field, sum, is_ascii, checksum, header, sealed, dict_to_fix, read_field, read_fields,
  chomp, fix_to_dict,
}
use auto_test_poc.Codec.Fields.{IsField, sort-IsField, read_field-print, read_fields-join}
use auto_test_poc.Codec.Messages.{IsAscii, IsMessage, popped-IsMessage, Tagged, pairs-Tagged}

pub is_ascii-IsAscii : (s : Text) → IsAscii s → is_ascii s ≡ true
is_ascii-IsAscii [] h = refl
is_ascii-IsAscii (c ∷ s) h = ground (arith, is_ascii-IsAscii s h.1)

IsDigit-IsAscii : (s : Text) → All IsDigit s → IsAscii s
IsDigit-IsAscii [] h = tt
IsDigit-IsAscii (c ∷ s) h = (omega arith, IsDigit-IsAscii s h.1)

pub print_ℕ-IsAscii : (n : ℕ) → IsAscii (print_ℕ n)
print_ℕ-IsAscii n = IsDigit-IsAscii (print_ℕ n) (print_ℕ-IsDigit n)

join-IsAscii : (parts : List Text) → All IsAscii parts → IsAscii (join soh parts)
unfolding join
join-IsAscii [] h = tt
join-IsAscii (p ∷ []) h = h.0
join-IsAscii (p ∷ q ∷ ps) h = All-append _ p _ h.0 (omega arith, join-IsAscii (q ∷ ps) h.1)

-- The values of the sorted fields are those of the fields.
abbrev IsPlain : ℤ × Text → Type 0
IsPlain p = IsAscii p.1

place-IsPlain :
    (k : ℤ) (v : Text) (ps : List (ℤ × Text))
    → IsAscii v
    → All IsPlain ps
    → All IsPlain (place k v ps)
unfolding place
place-IsPlain k v [] h hs = (h, tt)
place-IsPlain k v ((j, w) ∷ ps) h hs = ground (arith, place-IsPlain k v ps h hs.1)

sort-IsPlain : (ps : List (ℤ × Text)) → All IsPlain ps → All IsPlain (sort ps)
unfolding sort
sort-IsPlain [] h = tt
sort-IsPlain ((k, v) ∷ ps) h = place-IsPlain k v (sort ps) h.0 (sort-IsPlain ps h.1)

map-field-IsAscii :
    (ps : List (ℤ × Text)) → All IsField ps → All IsPlain ps → All IsAscii (map field ps)
unfolding print_ℤ
map-field-IsAscii [] h k = tt
map-field-IsAscii ((pos n, v) ∷ ps) h k = (
  All-append _ (print_ℕ n) _ (print_ℕ-IsAscii n) (omega arith, k.0),
  map-field-IsAscii ps h.1 k.1,
)
map-field-IsAscii ((negsuc n, v) ∷ ps) h k = absurd h.0

header-IsAscii :
    (begin : Text) (parts : List Text)
    → IsAscii begin
    → All IsAscii parts
    → IsAscii (header begin parts)
header-IsAscii begin parts hb hp =
    let body = join soh ((codes "8=" ++ begin) ∷ parts) ++ soh ∷ [] in
    let nine = print_ℕ-IsAscii (length body) in
    All-append _
      ((codes "8=" ++ begin) ++ soh ∷ (codes "9=" ++ print_ℕ (length body)) ++ soh ∷ join soh parts)
      (soh ∷ [])
      (All-append _ ((codes "8=" ++ begin) ++ soh ∷ (codes "9=" ++ print_ℕ (length body)))
        (soh ∷ join soh parts)
        (All-append _ (codes "8=" ++ begin) _ (omega arith, (omega arith, hb))
          (omega arith, (omega arith, (omega arith, nine))))
        (omega arith, join-IsAscii parts hp))
      (omega arith, tt)

-- The text with its delimiters in sight.
regroup :
    (a b c x : Text)
    → ((a ++ soh ∷ b) ++ soh ∷ c ++ soh ∷ []) ++ x ≡ a ++ soh ∷ (b ++ soh ∷ (c ++ soh ∷ x))
regroup a b c x = simp append_assoc

pub checksum-Lacks : (s : Text) → Lacks soh (checksum s)
checksum-Lacks s =
    All-append _ (replicate (3 - length (print_ℕ (sum s % 256))) b'0') _
      (zeros (3 - length (print_ℕ (sum s % 256)))) (print_ℕ-Lacks soh (sum s % 256) (omega arith))
  where
    zeros : (n : ℕ) → Lacks soh (replicate n b'0')
    zeros zero = tt
    zeros (suc n) = (omega arith, zeros n)

chomp-snoc : (s : Text) → chomp (s ++ soh ∷ []) ≡ s
chomp-snoc s = rw (ends_with-snoc s soh) (drop_last-snoc s soh)

read_field-eight :
    (d : Dict Text) (v : Text) → read_field d (codes "8=" ++ v) ≡ insert (codes "8") v d
unfolding print_ℕ
read_field-eight d v = read_field-print d 8 v

read_field-nine :
    (d : Dict Text) (v : Text) → read_field d (codes "9=" ++ v) ≡ insert (codes "9") v d
unfolding print_ℕ
read_field-nine d v = read_field-print d 9 v

read_field-ten :
    (d : Dict Text) (v : Text) → read_field d (codes "10=" ++ v) ≡ insert (codes "10") v d
unfolding print_ℕ
read_field-ten d v = read_field-print d 10 v

read_fields-cut :
    (d : Dict Text) (p t : Text)
    → Lacks soh p
    → read_fields d (split soh (p ++ soh ∷ t)) ≡ read_fields (read_field d p) (split soh t)
read_fields-cut d p t h = ap (read_fields d) (split-append soh p t h)

-- The framing fields are read first and last, the others in between.
pub fix_to_dict-shape :
    (begin len check : Text) (parts : List Text)
    → Lacks soh begin
    → Lacks soh len
    → Lacks soh check
    → All (Lacks soh) parts
    → let head = codes "8=" ++ begin in
      let nine = codes "9=" ++ len in
      let ten = codes "10=" ++ check in
      fix_to_dict ((head ++ soh ∷ nine ++ soh ∷ join soh parts ++ soh ∷ []) ++ ten ++ soh ∷ [])
      ≡ insert
          (codes "10")
          check
          (read_fields (insert (codes "9") len (insert (codes "8") begin [])) parts)
unfolding fix_to_dict
fix_to_dict-shape begin len check parts hb hl hc hp =
    let head = codes "8=" ++ begin in
    let nine = codes "9=" ++ len in
    let ten = codes "10=" ++ check in
    ap (λ s. read_fields [] (split soh s))
      (chomp-snoc ((head ++ soh ∷ nine ++ soh ∷ join soh parts ++ soh ∷ []) ++ ten)
        ∙ regroup head nine (join soh parts) ten)
    ∙ read_fields-cut [] head _ (omega arith, (omega arith, hb))
    ∙ read_fields-cut (read_field [] head) nine _ (omega arith, (omega arith, hl))
    ∙ read_fields-join (read_field (read_field [] head) nine) parts ten hp
    ∙ ap (read_fields (read_fields (read_field (read_field [] head) nine) parts))
        (split-Lacks soh ten (omega arith, (omega arith, (omega arith, hc))))
    ∙ read_field-ten (read_fields (read_field (read_field [] head) nine) parts) check
    ∙ ap (λ d. insert (codes "10") check (read_fields d parts))
        (read_field-nine (read_field [] head) len
          ∙ ap (insert (codes "9") len) (read_field-eight [] begin))

pub lookup-IsMessage :
    (k : Text) (d : Dict Text) {v : Text}
    → IsMessage d
    → lookup k d ≡ some v
    → Lacks soh v × IsAscii v
unfolding lookup
lookup-IsMessage k [] h e = cc
lookup-IsMessage k ((j, w) ∷ d) {v} h e = elim (Bool-cases (text_eq k j)) [
  | inl same ↦
      let value : w ≡ v = ground arith in (subst (Lacks soh) value h.1, subst IsAscii value h.2)
  | inr other ↦ lookup-IsMessage k d h.4 (rw other at e)
]

pub lookup_eight : (d : Dict Text) → lookup (codes "8") (popped d) ≡ lookup (codes "8") d
lookup_eight d =
    lookup-remove_ne (codes "8") (codes "10") _ (λ e. ground arith)
    ∙ lookup-remove_ne (codes "8") (codes "9") d (λ e. ground arith)

-- `dict_to_fix` succeeds on a message with a BeginString; the fields stand in sorted order.
pub dict_to_fix-sealed :
    (d : Dict Text) {begin : Text}
    → IsMessage d
    → lookup (codes "8") d ≡ some begin
    → (ps : List (ℤ × Text)) × Tagged (popped d) ps
      × (dict_to_fix d ≡ ok (sealed (header begin (map field (sort ps)))))
unfolding dict_to_fix
dict_to_fix-sealed d {begin} h e =
    let (ps, t) = pairs-Tagged (popped d) (popped-IsMessage d h) in
    let plain = (lookup-IsMessage (codes "8") d h e).1 in
    let fields = map-field-IsAscii (sort ps) (sort-IsField ps t.fields) (sort-IsPlain ps t.ascii) in
    (
      ps,
      t,
      rw (t.computed, lookup_eight d, e, is_ascii-IsAscii _ (header-IsAscii begin _ plain fields)),
    )

pub length-checksum : (s : Text) → length (checksum s) ≡ 3
length-checksum s =
    length-rjust 3 b'0' (print_ℕ (sum s % 256)) (length-print_ℕ_three _ (omega arith))

replicate-IsAscii : (n : ℕ) → IsAscii (replicate n b'0')
replicate-IsAscii zero = tt
replicate-IsAscii (suc n) = (omega arith, replicate-IsAscii n)

sealed-IsAscii :
    (begin : Text) (parts : List Text)
    → IsAscii begin
    → All IsAscii parts
    → IsAscii (sealed (header begin parts))
sealed-IsAscii begin parts hb hp =
    let h = header begin parts in
    let digits = print_ℕ-IsAscii (sum h % 256) in
    All-append _ (h ++ (codes "10=" ++ checksum h)) (soh ∷ [])
      (All-append _ h _ (header-IsAscii begin parts hb hp) (
        omega arith,
        (
          omega arith,
          (
            omega arith,
            All-append _ (replicate (3 - length (print_ℕ (sum h % 256))) b'0') _
                (replicate-IsAscii _) digits,
          ),
        ),
      ))
      (omega arith, tt)

-- The text of a message is ASCII.
pub message-IsAscii :
    (d : Dict Text) {begin : Text} (ps : List (ℤ × Text))
    → IsMessage d
    → lookup (codes "8") d ≡ some begin
    → Tagged (popped d) ps
    → IsAscii (sealed (header begin (map field (sort ps))))
message-IsAscii d {begin} ps h e t =
    sealed-IsAscii begin _ (lookup-IsMessage (codes "8") d h e).1
      (map-field-IsAscii (sort ps) (sort-IsField ps t.fields) (sort-IsPlain ps t.ascii))
