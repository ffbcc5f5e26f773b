-- ===== src/Messages/Shape.antt =====
-- The text of a message, part by part.
use mathlib.Core.Path.{subst}
use auto_test_poc.Base.{
  ℕ, zero, suc, ◌%◌, ◌≡◌, refl, sym, ap, ◌∙◌, false, List, [], ◌∷◌, ◌++◌, map, none, some, or_else,
  if◌then◌else◌, arith, All, All-append, append_assoc, length, replicate, ◌-◌,
}
use auto_test_poc.Base.Int.{ℤ, pos, negsuc, eq_ℤ}
use auto_test_poc.Py.Text.{Text, codes, Lacks, split, join, partition, split-append}
use auto_test_poc.Py.Decimal.{print_ℕ, print_ℤ, print_ℕ-Lacks}
use auto_test_poc.Py.Sort.{first}
use auto_test_poc.Codec.{field, checksum, sum}
use auto_test_poc.Codec.Fields.{Distinct}
use auto_test_poc.Codec.Messages.{IsAscii}
use auto_test_poc.Codec.Shape.{print_ℕ-IsAscii}
use auto_test_poc.Messages.Enums.FixVersion.{FixVersion, fix_version_value}
use auto_test_poc.Messages.Message.{Fields, put, bar, front_text, read_part, read_parts}
use auto_test_poc.Messages.Reading.{
  IsEntry, first-put, read_part-field, read_parts-append, first-read_parts,
}

field-Lacks : (p : ℤ × Text) → IsEntry p → Lacks bar (field p)
unfolding print_ℤ
field-Lacks (pos n, v) h =
    All-append _ (print_ℕ n) _ (print_ℕ-Lacks bar n (omega arith)) (omega arith, h.0)
field-Lacks (negsuc n, v) h = absurd h

field-IsAscii : (p : ℤ × Text) → IsEntry p → IsAscii (field p)
unfolding print_ℤ
field-IsAscii (pos n, v) h = All-append _ (print_ℕ n) _ (print_ℕ-IsAscii n) (omega arith, h.1)
field-IsAscii (negsuc n, v) h = absurd h

-- Every part ends in a bar.
abbrev closed : List Text → Text
closed [] = []
closed (p ∷ ps) = p ++ bar ∷ closed ps

join-closed : (p : Text) (ps : List Text) → join bar (p ∷ ps) ++ bar ∷ [] ≡ closed (p ∷ ps)
unfolding join
join-closed p [] = refl
join-closed p (q ∷ ps) =
    append_assoc p (bar ∷ join bar (q ∷ ps)) (bar ∷ []) ∙ ap (λ t. p ++ bar ∷ t) (join-closed q ps)

closed-IsAscii : (ps : Fields) → All IsEntry ps → IsAscii (closed (map field ps))
closed-IsAscii [] h = tt
closed-IsAscii (p ∷ ps) h =
    All-append _ (field p) _ (field-IsAscii p h.0) (omega arith, closed-IsAscii ps h.1)

split-closed :
    (ps : Fields) (t : Text)
    → All IsEntry ps
    → split bar (closed (map field ps) ++ t) ≡ map field ps ++ split bar t
split-closed [] t h = refl
split-closed (p ∷ ps) t h =
    ap (split bar) (append_assoc (field p) (bar ∷ closed (map field ps)) t)
    ∙ split-append bar (field p) _ (field-Lacks p h.0)
    ∙ ap (λ xs. field p ∷ xs) (split-closed ps t h.1)

closed-append : (xs ys : List Text) → closed (xs ++ ys) ≡ closed xs ++ closed ys
closed-append [] ys = refl
closed-append (x ∷ xs) ys =
    ap (λ t. x ++ bar ∷ t) (closed-append xs ys)
    ∙ sym (append_assoc x (bar ∷ closed xs) (closed ys))

checksum-Lacks-bar : (s : Text) → Lacks bar (checksum s)
checksum-Lacks-bar s =
    All-append _ (replicate (3 - length (print_ℕ (sum s % 256))) b'0') _
      (zeros (3 - length (print_ℕ (sum s % 256)))) (print_ℕ-Lacks bar (sum s % 256) (omega arith))
  where
    zeros : (n : ℕ) → Lacks bar (replicate n b'0')
    zeros zero = tt
    zeros (suc n) = (omega arith, zeros n)

version-IsEntry : (version : FixVersion) → IsEntry (pos 8, fix_version_value version)
version-IsEntry version = ground arith

module _ (version : FixVersion) (p : ℤ × Text) (ps : Fields) (hp : IsEntry p)
    (hs : All IsEntry ps) where
  abbrev pub body : Text
  body = join bar (map field (p ∷ ps)) ++ bar ∷ []

  abbrev pub front : Text
  front = front_text version (map field (p ∷ ps))

  -- The two fields in front of the body, and the body.
  abbrev pub opening : Fields
  opening = (pos 8, fix_version_value version) ∷ (pos 9, print_ℕ (length body)) ∷ p ∷ ps

  pub opening-IsEntry : All IsEntry opening
  opening-IsEntry = (
    version-IsEntry version,
    ((print_ℕ-Lacks bar (length body) (omega arith), print_ℕ-IsAscii (length body)), (hp, hs)),
  )

  front-closed : front ≡ closed (map field opening)
  unfolding print_ℤ print_ℕ
  front-closed =
      ap
        (λ t.
          ((codes "8=" ++ fix_version_value version) ++ bar ∷ (codes "9=" ++ print_ℕ (length body)))
          ++ bar ∷ t)
        (join-closed (field p) (map field ps))
      ∙ append_assoc (codes "8=" ++ fix_version_value version)
          (bar ∷ (codes "9=" ++ print_ℕ (length body))) (bar ∷ closed (map field (p ∷ ps)))

  pub front-IsAscii : IsAscii front
  front-IsAscii = subst IsAscii (sym front-closed) (closed-IsAscii opening opening-IsEntry)

  abbrev pub message_text : Text
  message_text = front ++ (codes "10=" ++ checksum front) ++ bar ∷ []

  pub message_text-split :
      split bar message_text ≡ map field opening ++ (codes "10=" ++ checksum front) ∷ [] ∷ []
  unfolding split
  message_text-split =
      ap (λ t. split bar (t ++ (codes "10=" ++ checksum front) ++ bar ∷ [])) front-closed
      ∙ ap (split bar)
          (append_assoc (closed (map field opening)) (codes "10=" ++ checksum front) (bar ∷ []))
      ∙ split-closed opening ((codes "10=" ++ checksum front) ++ bar ∷ []) opening-IsEntry
      ∙ ap (λ xs. map field opening ++ xs)
          (split-append bar (codes "10=" ++ checksum front) []
            (All-append _ (codes "10=") _ (omega arith) (checksum-Lacks-bar front)))

  read_opening :
      read_parts [] (map field opening)
      ≡ read_parts
          (put (pos 9) (print_ℕ (length body)) (put (pos 8) (fix_version_value version) []))
          (map field (p ∷ ps))
  unfolding print_ℤ
  read_opening =
      ap (λ d. read_parts (read_part d (field (pos 9, print_ℕ (length body)))) (map field (p ∷ ps)))
        (read_part-field [] 8 (fix_version_value version))
      ∙ ap (λ d. read_parts d (map field (p ∷ ps)))
          (read_part-field (put (pos 8) (fix_version_value version) []) 9 (print_ℕ (length body)))

  read_ten :
      (d : Fields)
      → read_parts d ((codes "10=" ++ checksum front) ∷ [] ∷ []) ≡ put (pos 10) (checksum front) d
  unfolding print_ℕ read_part partition
  read_ten d = ap (λ e. read_part e []) (read_part-field d 10 (checksum front))

  pub first-message_text :
      (k : ℤ)
      → Distinct (p ∷ ps)
      → eq_ℤ k (pos 9) ≡ false
      → eq_ℤ k (pos 10) ≡ false
      → first k (read_parts [] (split bar message_text))
        ≡ or_else
            (first k (p ∷ ps))
            (if eq_ℤ k (pos 8) then some (fix_version_value version) else none)
  unfolding put
  first-message_text k u h9 h10 =
      let rest = put (pos 9) (print_ℕ (length body)) (put (pos 8) (fix_version_value version) []) in
      ap (λ xs. first k (read_parts [] xs)) message_text-split
      ∙ ap (first k)
          (read_parts-append [] (map field opening) ((codes "10=" ++ checksum front) ∷ [] ∷ []))
      ∙ ap (first k) (read_ten (read_parts [] (map field opening)))
      ∙ first-put k (pos 10) (checksum front) (read_parts [] (map field opening))
      ∙ ap (λ b. if b then some (checksum front) else first k (read_parts [] (map field opening)))
          h10
      ∙ ap (first k) read_opening
      ∙ first-read_parts k rest (p ∷ ps) (hp, hs) u
      ∙ ap (or_else (first k (p ∷ ps)))
          (first-put k (pos 9) _ (put (pos 8) (fix_version_value version) []))
      ∙ ap
          (λ b. or_else (first k (p ∷ ps)) (
            if b
            then some (print_ℕ (length body))
            else first k (put (pos 8) (fix_version_value version) [])))
          h9
