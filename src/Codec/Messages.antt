-- ===== src/Codec/Messages.antt =====
-- The dicts that stand for messages, and what `pairs` makes of them.
use auto_test_poc.Base.{
  ℕ, ◌<◌, ◌≡◌, ◌≢◌, refl, ◌∙◌, true, false, none, List, [], ◌∷◌, arith, All, inl, inr, ◌⊎◌,
  if◌then◌else◌, Bool-cases,
}
use mathlib.Core.Path.{subst}
use auto_test_poc.Base.Int.{ℤ, pos, eq_ℤ}
use auto_test_poc.Py.Exceptions.{ok}
use auto_test_poc.Py.Text.{Text, Lacks, text_eq, text_eq_refl}
use auto_test_poc.Py.Decimal.{print_ℕ, parse_int-print_ℕ}
use auto_test_poc.Py.Dict.{Dict, lookup, remove}
use auto_test_poc.Py.Sort.{first}
use auto_test_poc.Codec.{soh, is_framing, pairs, popped}
use auto_test_poc.Codec.Fields.{IsField, Distinct, text_eq-print}

abbrev pub IsAscii : Text → Type 0
IsAscii = All (λ c. c < 128)

-- A dict as the program builds them: every key is a tag number, no key comes twice, and every value
-- is ASCII without the delimiter.
abbrev pub IsMessage : Dict Text → Type 0
IsMessage [] = Unit
IsMessage ((k, v) ∷ d) =
    ((n : ℕ) × (k ≡ print_ℕ n)) × Lacks soh v × IsAscii v × (lookup k d ≡ none) × IsMessage d

lookup-remove-none : (j k : Text) (d : Dict Text) → lookup j d ≡ none → lookup j (remove k d) ≡ none
unfolding lookup remove
lookup-remove-none j k [] h = refl
lookup-remove-none j k ((i, w) ∷ d) h = ground (arith, lookup-remove-none j k d)

remove-IsMessage : (k : Text) (d : Dict Text) → IsMessage d → IsMessage (remove k d)
unfolding remove
remove-IsMessage k [] h = tt
remove-IsMessage k ((j, v) ∷ d) h = elim (Bool-cases (text_eq k j)) [
  | inl same ↦ rw same h.4
  | inr other ↦ rw other (h.0, h.1, h.2, lookup-remove-none j k d h.3, remove-IsMessage k d h.4)
]

pub popped-IsMessage : (d : Dict Text) → IsMessage d → IsMessage (popped d)
popped-IsMessage d h = remove-IsMessage _ _ (remove-IsMessage _ d h)

-- The value of a field in the sorted list is that of the dict, unless the tag is one of framing.
pub record Tagged (d : Dict Text) (ps : List (ℤ × Text)) : Type 0 where
  pub computed : pairs d ≡ ok ps
  pub fields : All IsField ps
  pub ascii : All (λ (p : ℤ × Text). IsAscii p.1) ps
  pub distinct : Distinct ps
  pub values :
      (n : ℕ) → first (pos n) ps ≡ (if is_framing (print_ℕ n) then none else lookup (print_ℕ n) d)

eq_ℤ-ne : (n j : ℕ) → n ≢ j → eq_ℤ (pos n) (pos j) ≡ false
eq_ℤ-ne n j h = ground arith

module _ (j : ℕ) (v : Text) (d : Dict Text) (ps : List (ℤ × Text)) (t : Tagged d ps) where
  Tagged-framing : is_framing (print_ℕ j) ≡ true → Tagged ((print_ℕ j, v) ∷ d) ps
  unfolding pairs lookup
  Tagged-framing e = record {
    computed = rw e t.computed;
    fields = t.fields;
    ascii = t.ascii;
    distinct = t.distinct;
    values = λ n.
        t.values n
        ∙ elim (text_eq-print n j) [ inl (same, eq) ↦ rw (eq, e) | inr (other, ne) ↦ rw other ];
  }

  Tagged-field :
      is_framing (print_ℕ j) ≡ false
      → Lacks soh v
      → IsAscii v
      → lookup (print_ℕ j) d ≡ none
      → Tagged ((print_ℕ j, v) ∷ d) ((pos j, v) ∷ ps)
  unfolding pairs lookup
  Tagged-field e lacks plain fresh = record {
    computed = rw (e, parse_int-print_ℕ j, t.computed);
    fields = (lacks, t.fields);
    ascii = (plain, t.ascii);
    distinct = (t.values j ∙ rw (e, fresh), t.distinct);
    values = λ n. elim (text_eq-print n j) [
      | inl (same, eq) ↦ rw (eq, e, text_eq_refl (print_ℕ j)) (ground arith)
      | inr (other, ne) ↦ rw (other, t.values n, eq_ℤ-ne n j ne)
    ];
  }

pub pairs-Tagged : (d : Dict Text) → IsMessage d → (ps : List (ℤ × Text)) × Tagged d ps
unfolding pairs lookup
pairs-Tagged [] h = (
  [],
  record { computed = refl; fields = tt; ascii = tt; distinct = tt; values = λ n. ground arith },
)
pairs-Tagged ((k, v) ∷ d) h = go (pairs-Tagged d h.4) (Bool-cases (is_framing (print_ℕ h.0.0)))
  where
    go :
        (ps : List (ℤ × Text)) × Tagged d ps
        → (is_framing (print_ℕ h.0.0) ≡ true) ⊎ (is_framing (print_ℕ h.0.0) ≡ false)
        → (ps : List (ℤ × Text)) × Tagged ((k, v) ∷ d) ps
    go (ps, t) (inl e) = (ps, rw h.0.1 (Tagged-framing h.0.0 v d ps t e))
    go (ps, t) (inr e) = (
      (pos h.0.0, v) ∷ ps,
      rw h.0.1 (Tagged-field h.0.0 v d ps t e h.1 h.2 (subst (λ x. lookup x d ≡ none) h.0.1 h.3)),
    )
