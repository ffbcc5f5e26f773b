-- ===== src/FixChecker/Reports.antt =====
-- A report that does not agree with the order raises, and leaves the order as it was.
use auto_test_poc.Base.{
  ◌≡◌, refl, ap, List, [], ◌∷◌, ◌++◌, if◌then◌else◌, All, Bool-cases, inl, inr,
}
use auto_test_poc.Py.Text.{Text, codes, text_eq}
use auto_test_poc.Py.Decimal.{print_ℕ}
use auto_test_poc.Py.Dict.{Dict, lookup}
use auto_test_poc.Messages.Enums.Field.{Field}
use auto_test_poc.Orders.Value.{Floats, Value, null, flag, int, float, text, is_null, truthy}
use auto_test_poc.Orders.Kwargs.{get}
use auto_test_poc.Orders.State.{Order, given_or}
use auto_test_poc.Orders.Events as Events
use auto_test_poc.FixChecker.{
  side_mapping, map_key, str, expected_acceptance, expected_rejection, expected_fill,
}
use auto_test_poc.FixChecker.Agreement.{Fits}
use auto_test_poc.FixChecker.Errors.{IsExpected}

-- The message has each of these values under its tag; a value that is None may be anything.
abbrev pub Shows : {F : Type 0} → Dict Text → List (Text × Value F) → Type 0
Shows msg = All (λ p. Fits p.1 (lookup p.0 msg))

-- The code of a side in FIX; no code for anything else.
abbrev pub side_code : {F : Type 0} → Value F → Value F
side_code null = null
side_code (flag b) = null
side_code (int n) = null
side_code (float x) = null
side_code (text s) =
    if text_eq s (codes "B")
    then text (codes "1")
    else if text_eq s (codes "S")
    then text (codes "2")
    else if text_eq s (codes "SS")
    then text (codes "5")
    else if text_eq s (codes "SSE")
    then text (codes "6")
    else null

map_key-side_code : {F : Type 0} (v : Value F) → map_key side_mapping v ≡ side_code v
unfolding lookup
map_key-side_code null = refl
map_key-side_code (flag b) = refl
map_key-side_code (int n) = refl
map_key-side_code (float x) = refl
map_key-side_code (text s) = elim (Bool-cases (text_eq s (codes "B"))) [
  | inl b ↦ rw b refl
  | inr nb ↦ elim (Bool-cases (text_eq s (codes "S"))) [
    | inl t ↦ rw (nb, t) refl
    | inr nt ↦ elim (Bool-cases (text_eq s (codes "SS"))) [
      | inl u ↦ rw (nb, nt, u) refl
      | inr nu ↦ elim (Bool-cases (text_eq s (codes "SSE"))) [
        | inl w ↦ rw (nb, nt, nu, w) refl
        | inr nw ↦ rw (nb, nt, nu, nw) refl
      ]
    ]
  ]
]

module _ {F : Type 0} (num : Floats F) (number : F → Text) (symbol : Value F → Value F)
    (kwargs : Dict (Value F)) (order : Order F) where
  -- A keyword, or the attribute of the order where the keyword is missing.
  abbrev pub keyword_or : Text → Value F → Value F
  keyword_or key attribute = given_or attribute (lookup key kwargs)

  -- ClOrdID, OrderID, Symbol, Side and OrderQty
  abbrev pub order_fields : Value F → List (Text × Value F)
  order_fields side =
      (codes "11", keyword_or (codes "clOrdID") order.cl_ord_id)
      ∷ (codes "37", get (codes "orderID") kwargs)
      ∷ (codes "55", keyword_or (codes "symbol") (symbol order.security))
      ∷ (codes "54", side)
      ∷ (
        codes "38",
        (let qty = keyword_or (codes "orderQty") order.order_qty in
            if is_null qty then null else text (str num number symbol qty)),
      )
      ∷ []

  -- Price, which is not compared where it is None or 0
  abbrev pub price_field : List (Text × Value F)
  price_field =
      let price = keyword_or (codes "price") order.order_price in
      (codes "44", if truthy num price then text (str num number symbol price) else null) ∷ []

  -- MsgType, OrdStatus and ExecType
  abbrev pub report_fields : Text → List (Text × Value F) → List (Text × Value F)
  report_fields status fields =
      (codes "35", text (codes "8"))
      ∷ (fields ++ ((codes "39", text status) ∷ (codes "150", text status) ∷ []))

  -- LastQty and LastPx
  abbrev pub executed_fields : List (Text × Value F)
  executed_fields =
      (codes "32", text (str num number symbol (get (codes "execQty") kwargs)))
      ∷ (codes "31", text (str num number symbol (get (codes "execPrice") kwargs)))
      ∷ []

  abbrev pub order_side : Value F
  order_side = keyword_or (codes "side") order.side

  -- The three reports: status and execution type are New, Rejected and Filled.
  abbrev pub acceptance : Value F → List (Text × Value F)
  acceptance side = report_fields (codes "0") (order_fields side ++ price_field)

  abbrev pub rejection : Value F → List (Text × Value F)
  rejection side = report_fields (codes "8") (order_fields side ++ price_field)

  abbrev pub execution : Value F → List (Text × Value F)
  execution side = report_fields (codes "2") (order_fields side ++ executed_fields)

  module _ (msg : Dict Text) where
    pub acceptance-IsExpected :
        IsExpected msg (expected_acceptance num number symbol order kwargs)
        ≡ Shows msg (acceptance (side_code order_side))
    unfolding expected_acceptance print_ℕ lookup
    acceptance-IsExpected = ap (λ side. Shows msg (acceptance side)) (map_key-side_code order_side)

    pub rejection-IsExpected :
        IsExpected msg (expected_rejection num number symbol order kwargs)
        ≡ Shows msg (rejection (side_code order_side))
    unfolding expected_rejection print_ℕ lookup
    rejection-IsExpected = ap (λ side. Shows msg (rejection side)) (map_key-side_code order_side)

    pub execution-IsExpected :
        IsExpected msg (expected_fill num number symbol order kwargs)
        ≡ Shows msg (execution (side_code order_side))
    unfolding expected_fill print_ℕ lookup
    execution-IsExpected = ap (λ side. Shows msg (execution side)) (map_key-side_code order_side)
