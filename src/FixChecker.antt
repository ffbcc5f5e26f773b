-- ===== src/FixChecker.antt =====
-- The validation of FIX messages of common/fix_utils.py, and the messages that the checker expects.
pub mod Steps
pub mod Agreement
pub mod Errors
pub mod Reports
use auto_test_poc.Base.{
  ℕ, Bool, true, false, not, List, [], ◌∷◌, ◌++◌, Option, none, some, if◌then◌else◌, ◌||◌,
}
use auto_test_poc.Py.Exceptions.{Result, ok, assertion_error, guard, ◌>>◌}
use auto_test_poc.Py.Text.{Text, codes, text_eq}
use auto_test_poc.Py.Decimal.{print_ℕ, print_ℤ}
use auto_test_poc.Py.Dict.{Dict, lookup}
use auto_test_poc.Messages.Enums.Field.{Field, field_tag}
use auto_test_poc.Messages.Enums.Field as Tag
use auto_test_poc.Messages.Enums.MsgType.{
  MsgType, msg_type_value, execution_report, new_order_single,
}
use auto_test_poc.Orders.Value.{Floats, Value, null, flag, int, float, text, is_null, truthy}
use auto_test_poc.Orders.Kwargs.{get}
use auto_test_poc.Orders.State.{Order, given_or}

-- `SIDE_MAPPING`, `STATUS_MAPPING` and `EXEC_TYPE_MAPPING`
abbrev pub side_mapping : Dict Text
side_mapping =
    (codes "B", codes "1")
    ∷ (codes "S", codes "2")
    ∷ (codes "SS", codes "5")
    ∷ (codes "SSE", codes "6")
    ∷ []

abbrev pub status_mapping : Dict Text
status_mapping =
    (codes "NEW", codes "0")
    ∷ (codes "PARTIALLY_FILLED", codes "1")
    ∷ (codes "FILLED", codes "2")
    ∷ (codes "CANCELED", codes "4")
    ∷ (codes "REJECTED", codes "8")
    ∷ []

abbrev pub exec_type_mapping : Dict Text
exec_type_mapping =
    (codes "NEW", codes "0")
    ∷ (codes "PARTIAL_FILL", codes "1")
    ∷ (codes "FILL", codes "2")
    ∷ (codes "CANCELED", codes "4")
    ∷ (codes "REJECT", codes "8")
    ∷ []

-- `_extract_field` with a member of the enumeration: the key is its value as a text.
abbrev pub extract_field : Field → Dict Text → Option Text
extract_field tag msg = lookup (print_ℕ (field_tag tag)) msg

module _ {F : Type 0} where
  -- `actual == expected`
  abbrev pub is_same : Value F → Option Text → Bool
  is_same (text s) (some t) = text_eq s t
  is_same (text s) none = false
  is_same null none = true
  is_same null (some t) = false
  is_same (flag b) actual = false
  is_same (int n) actual = false
  is_same (float x) actual = false

  -- `_validate_field`
  unfoldable pub validate_field : Value F → Option Text → Result (Unit {0})
  validate_field expected actual =
      guard (is_null expected || is_same expected actual) assertion_error

  -- The loop of `_validate_fix_message` over the expected fields
  abbrev pub validate_fields : Dict Text → List (Field × Value F) → Result (Unit {0})
  validate_fields msg [] = ok tt
  validate_fields msg ((tag, expected) ∷ fields) =
      let rest = validate_fields msg fields in
      if is_null expected then rest else validate_field expected (extract_field tag msg) >> rest

  -- `_validate_fix_message`
  unfoldable pub validate_fix_message :
      Dict Text → MsgType → List (Field × Value F) → Result (Unit {0})
  unfolding validate_field
  validate_fix_message msg expected_type fields =
      validate_field (text (msg_type_value expected_type)) (extract_field Tag.msg_type msg)
      >> validate_fields msg fields

  -- `MAPPING.get(key)`, for a key that may be no text
  abbrev pub mapped : Option Text → Value F
  mapped none = null
  mapped (some s) = text s

  abbrev pub map_key : Dict Text → Value F → Value F
  map_key mapping (text s) = mapped (lookup s mapping)
  map_key mapping null = null
  map_key mapping (flag b) = null
  map_key mapping (int n) = null
  map_key mapping (float x) = null

-- `number` prints a floating point number, and `symbol` is the attribute of a security.
module _ {F : Type 0} (num : Floats F) (number : F → Text) (symbol : Value F → Value F) where
  -- `str(value)`
  abbrev pub str : Value F → Text
  str null = codes "None"
  str (flag true) = codes "True"
  str (flag false) = codes "False"
  str (int n) = print_ℤ n
  str (float x) = number x
  str (text s) = s

  -- `str(value) if value is not None else None`, and `str(value) if value else None`
  abbrev pub str_unless_none : Value F → Value F
  str_unless_none v = if is_null v then null else text (str v)

  abbrev pub str_if_true : Value F → Value F
  str_if_true v = if truthy num v then text (str v) else null

  abbrev pub or_attribute : Text → Value F → Dict (Value F) → Value F
  or_attribute key attribute kwargs = given_or attribute (lookup key kwargs)

  -- What an acceptance, a rejection and a fill have in common.
  abbrev pub expected_order : Order F → Dict (Value F) → List (Field × Value F)
  expected_order order kwargs =
      (Tag.cl_ord_id, or_attribute (codes "clOrdID") order.cl_ord_id kwargs)
      ∷ (Tag.order_id, get (codes "orderID") kwargs)
      ∷ (Tag.symbol, or_attribute (codes "symbol") (symbol order.security) kwargs)
      ∷ (Tag.side, map_key side_mapping (or_attribute (codes "side") order.side kwargs))
      ∷ (Tag.order_qty, str_unless_none (or_attribute (codes "orderQty") order.order_qty kwargs))
      ∷ []

  abbrev pub expected_price : Order F → Dict (Value F) → List (Field × Value F)
  expected_price order kwargs =
      (Tag.price, str_if_true (or_attribute (codes "price") order.order_price kwargs)) ∷ []

  abbrev pub expected_status : Text → Text → List (Field × Value F)
  expected_status status exec_type =
      (Tag.ord_status, mapped (lookup status status_mapping))
      ∷ (Tag.exec_type, mapped (lookup exec_type exec_type_mapping))
      ∷ []

  -- `expected_fields` of `ordered`, of `reject` and of `fill`
  unfoldable pub expected_acceptance : Order F → Dict (Value F) → List (Field × Value F)
  expected_acceptance order kwargs =
      expected_order order kwargs
      ++ (expected_price order kwargs ++ expected_status (codes "NEW") (codes "NEW"))

  unfoldable pub expected_rejection : Order F → Dict (Value F) → List (Field × Value F)
  expected_rejection order kwargs =
      expected_order order kwargs
      ++ (expected_price order kwargs ++ expected_status (codes "REJECTED") (codes "REJECT"))

  unfoldable pub expected_fill : Order F → Dict (Value F) → List (Field × Value F)
  expected_fill order kwargs =
      expected_order order kwargs
      ++ ((Tag.last_qty, text (str (get (codes "execQty") kwargs)))
          ∷ (Tag.last_px, text (str (get (codes "execPrice") kwargs)))
          ∷ expected_status (codes "FILLED") (codes "FILL"))
