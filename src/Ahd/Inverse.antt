-- ===== src/Ahd/Inverse.antt =====
-- The two dicts of each enumeration: from a name to its value, and back.
use auto_test_poc.Base.{
  ◌≡◌, refl, sym, ap, ◌∙◌, true, List, [], ◌∷◌, Option, none, some, or_else, if◌then◌else◌, arith,
  Bool-cases, inl, inr,
}
use auto_test_poc.Py.Text.{Text, text_eq, text_eq-eq, text_eq_refl}
use auto_test_poc.Py.Dict.{Dict, lookup, insert, lookup-insert}
use auto_test_poc.Ahd.Enums.{
  is_seen, canonical, reversed, reversed_onto, wenums, reverse_all, renums,
}
use auto_test_poc.Ahd.OrderCodes.{
  side_members, exec_cond_members, prop_brokerage_class_members, cash_margin_code_members,
  short_sell_flag_members, stab_arb_code_members, order_attr_code_members,
  supp_member_class_members, data_class_code_members, exch_class_code_members,
  market_class_code_members,
}
use auto_test_poc.Ahd.MessageCodes.{
  esp_msg_type_up_members, msg_type_members, esp_msg_type_down_members, reject_reason_members,
  logout_reason_members,
}

-- The name of the first entry with a value.
abbrev pub name_of : Text → Dict Text → Option Text
name_of v [] = none
name_of v ((k, w) ∷ d) = let rest = name_of v d in if text_eq v w then some k else rest

abbrev DistinctValues : Dict Text → Type 0
DistinctValues [] = Unit
DistinctValues ((k, v) ∷ d) = (name_of v d ≡ none) × DistinctValues d

name_of-canonical :
    (v : Text) (seen : List Text) (t : List (Text × Text))
    → is_seen v seen ≡ true
    → name_of v (canonical seen t) ≡ none
name_of-canonical v seen [] h = refl
name_of-canonical v seen ((k, w) ∷ t) h = elim (Bool-cases (is_seen w seen)) [
  | inl old ↦ rw old (name_of-canonical v seen t h)
  | inr new ↦ rw new (elim (Bool-cases (text_eq v w)) [
    | inl same ↦
        let clash : is_seen w seen ≡ true =
          ap (λ x. is_seen x seen) (sym (text_eq-eq v w same)) ∙ h in
        absurd (ground (arith, clash, new))
    | inr other ↦ rw other (name_of-canonical v (w ∷ seen) t (ground (arith, other, h)))
  ])
]

canonical-DistinctValues :
    (seen : List Text) (t : List (Text × Text)) → DistinctValues (canonical seen t)
canonical-DistinctValues seen [] = tt
canonical-DistinctValues seen ((k, v) ∷ t) = elim (Bool-cases (is_seen v seen)) [
  | inl old ↦ rw old (canonical-DistinctValues seen t)
  | inr new ↦ rw new (
    name_of-canonical v (v ∷ seen) t (rw (text_eq_refl v) refl),
    canonical-DistinctValues (v ∷ seen) t,
  )
]

lookup-reversed_onto :
    (v : Text) (acc d : Dict Text)
    → DistinctValues d
    → lookup v (reversed_onto acc d) ≡ or_else (name_of v d) (lookup v acc)
lookup-reversed_onto v acc [] u = refl
lookup-reversed_onto v acc ((k, w) ∷ d) u =
    lookup-reversed_onto v (insert w k acc) d u.1
    ∙ ap (or_else (name_of v d)) (lookup-insert v w k acc)
    ∙ elim (Bool-cases (text_eq v w)) [
      | inl same ↦ rw (same, ap (λ x. name_of x d) (text_eq-eq v w same) ∙ u.0) refl
      | inr other ↦ rw other refl
    ]

name_of-lookup :
    (n v : Text) (d : Dict Text) → DistinctValues d → lookup n d ≡ some v → name_of v d ≡ some n
unfolding lookup
name_of-lookup n v [] u e = ground arith
name_of-lookup n v ((k, w) ∷ d) u e = elim (Bool-cases (text_eq n k)) [
  | inl same ↦
      let value : w ≡ v = ground (arith, same, e) in
      rw (value, text_eq_refl v) (ap some (sym (text_eq-eq n k same)))
  | inr other ↦
      let found = name_of-lookup n v d u.1 (ground (arith, other, e)) in
      elim (Bool-cases (text_eq v w)) [
        | inl same ↦
            let missing : name_of v d ≡ none = ap (λ x. name_of x d) (text_eq-eq v w same) ∙ u.0 in
            absurd (ground (arith, found, missing))
        | inr new ↦ rw new found
      ]
]

reversed-names :
    (vals : Dict Text) (name value : Text)
    → DistinctValues vals
    → lookup name vals ≡ some value
    → lookup value (reversed vals) ≡ some name
unfolding lookup
reversed-names vals name value distinct e =
    lookup-reversed_onto value [] vals distinct
    ∙ rw (name_of-lookup name value vals distinct e) refl

AllDistinct : Dict (Dict Text) → Type 0
AllDistinct [] = Unit {0}
AllDistinct ((tag, vals) ∷ enums) = DistinctValues vals × AllDistinct enums

wenums-AllDistinct : AllDistinct wenums
unfolding AllDistinct
wenums-AllDistinct = (
  canonical-DistinctValues [] side_members,
  (
    canonical-DistinctValues [] exec_cond_members,
    (
      canonical-DistinctValues [] prop_brokerage_class_members,
      (
        canonical-DistinctValues [] cash_margin_code_members,
        (
          canonical-DistinctValues [] short_sell_flag_members,
          (
            canonical-DistinctValues [] stab_arb_code_members,
            (
              canonical-DistinctValues [] order_attr_code_members,
              (
                canonical-DistinctValues [] supp_member_class_members,
                (
                  canonical-DistinctValues [] data_class_code_members,
                  (
                    canonical-DistinctValues [] exch_class_code_members,
                    (
                      canonical-DistinctValues [] market_class_code_members,
                      (
                        canonical-DistinctValues [] esp_msg_type_up_members,
                        (
                          canonical-DistinctValues [] msg_type_members,
                          (
                            canonical-DistinctValues [] esp_msg_type_down_members,
                            (
                              canonical-DistinctValues [] reject_reason_members,
                              (canonical-DistinctValues [] logout_reason_members, tt),
                            ),
                          ),
                        ),
                      ),
                    ),
                  ),
                ),
              ),
            ),
          ),
        ),
      ),
    ),
  ),
)

reverse_all-lookup :
    (enums : Dict (Dict Text)) (tag name value : Text) (vals : Dict Text)
    → AllDistinct enums
    → lookup tag enums ≡ some vals
    → lookup name vals ≡ some value
    → (back : Dict Text) × (lookup tag (reverse_all enums) ≡ some back)
      × (lookup value back ≡ some name)
unfolding AllDistinct lookup
reverse_all-lookup [] tag name value vals distinct known e = ground arith
reverse_all-lookup ((t, ws) ∷ enums) tag name value vals distinct known e =
    elim (Bool-cases (text_eq tag t)) [
      | inl here ↦
          let same : ws ≡ vals = ground (arith, here, known) in
          (
            reversed ws,
            rw here refl,
            reversed-names ws name value distinct.0 (ap (lookup name) same ∙ e),
          )
      | inr there ↦
          let (back, found, inverse) =
            reverse_all-lookup enums tag name value vals distinct.1 (ground (arith, there, known))
              e in
          (back, rw there found, inverse)
    ]

-- Where WENUMS has a value under the name of a member, in the dict of an enumeration, RENUMS has a dict
-- for the same enumeration, and that has the name under the value.
pub renums-wenums :
    (tag name value : Text) (vals : Dict Text)
    → lookup tag wenums ≡ some vals
    → lookup name vals ≡ some value
    → (back : Dict Text) × (lookup tag renums ≡ some back) × (lookup value back ≡ some name)
renums-wenums tag name value vals = reverse_all-lookup wenums tag name value vals wenums-AllDistinct
