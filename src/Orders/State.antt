-- ===== src/Orders/State.antt =====
-- The attributes of `Order` of common/test_utils.py, its constructor and `open_qty`.
use auto_test_poc.Base.{
  Bool, true, false, not, ◌&&◌, ◌||◌, List, [], ◌∷◌, Option, none, some, if◌then◌else◌,
}
use auto_test_poc.Base.Int.{pos}
use auto_test_poc.Py.Exceptions.{Result, ok, type_error, guard, ◌>>◌}
use auto_test_poc.Py.Text.{Text, codes, text_eq}
use auto_test_poc.Py.Dict.{Dict, lookup}
use auto_test_poc.Orders.Value.{
  Floats, Value, null, flag, int, text, is_null, is_unset, is_text, sub,
}
use auto_test_poc.Orders.Kwargs.{get}

pub record Order (F : Type 0) : Type 0 where
  pub security : Value F
  pub side : Value F
  pub order_qty : Value F
  pub exec_qty : Value F
  pub order_price : Value F
  pub cl_ord_id : Value F
  pub dest_cl_ord_id : Value F
  pub order_id2 : Value F
  pub time_in_force : Value F
  pub client_id : Value F
  pub account_id : Value F
  pub order_status : Value F
  pub dk : Value F
  pub queue : List (Dict (Value F))

-- `kwargs.get(k, default)`
abbrev pub given_or : {V : Type 0} → V → Option V → V
given_or default none = default
given_or default (some v) = v

-- The fields of the dataclass, but for `checker` and `queue`.
abbrev pub parameters : List Text
parameters =
    codes "security"
    ∷ codes "side"
    ∷ codes "order_qty"
    ∷ codes "exec_qty"
    ∷ codes "order_price"
    ∷ codes "cl_ord_id"
    ∷ codes "dest_cl_ord_id"
    ∷ codes "order_id2"
    ∷ codes "time_in_force"
    ∷ codes "client_id"
    ∷ codes "account_id"
    ∷ codes "order_status"
    ∷ codes "orderQty"
    ∷ codes "execQty"
    ∷ codes "orderPrice"
    ∷ codes "clOrdID"
    ∷ codes "destClOrdID"
    ∷ codes "orderID2"
    ∷ codes "timeInForce"
    ∷ codes "clientID"
    ∷ codes "accountID"
    ∷ codes "orderStatus"
    ∷ codes "dk"
    ∷ []

abbrev pub is_parameter : Text → List Text → Bool
is_parameter k [] = false
is_parameter k (name ∷ names) = text_eq k name || is_parameter k names

abbrev pub all_parameters : {V : Type 0} → Dict V → Bool
all_parameters [] = true
all_parameters ((k, v) ∷ kwargs) = is_parameter k parameters && all_parameters kwargs

module _ {F : Type 0} (num : Floats F) where
  -- A dataclass field with its default, and one round of `__post_init__` on it.
  unfoldable pub field_value : Text → Text → Value F → Dict (Value F) → Value F
  field_value snake camel default kwargs =
      let own = given_or default (lookup snake kwargs) in
      let camel_val = get camel kwargs in
      if not (is_null camel_val) && is_unset num own then camel_val else own

  -- The order that `Order(**kwargs)` makes of keywords that are fields of the dataclass, without `queue`,
  -- and but for its place in the checker's list.
  unfoldable pub make_order : Dict (Value F) → Order F
  unfolding field_value
  make_order kwargs = record {
    security = get (codes "security") kwargs;
    side = get (codes "side") kwargs;
    order_qty = field_value (codes "order_qty") (codes "orderQty") null kwargs;
    exec_qty = field_value (codes "exec_qty") (codes "execQty") (int (pos 0)) kwargs;
    order_price = field_value (codes "order_price") (codes "orderPrice") null kwargs;
    cl_ord_id = field_value (codes "cl_ord_id") (codes "clOrdID") null kwargs;
    dest_cl_ord_id = field_value (codes "dest_cl_ord_id") (codes "destClOrdID") null kwargs;
    order_id2 = field_value (codes "order_id2") (codes "orderID2") null kwargs;
    time_in_force = field_value (codes "time_in_force") (codes "timeInForce") null kwargs;
    client_id = field_value (codes "client_id") (codes "clientID") null kwargs;
    account_id = field_value (codes "account_id") (codes "accountID") null kwargs;
    order_status =
        field_value (codes "order_status") (codes "orderStatus") (text (codes "new")) kwargs;
    dk = given_or (flag false) (lookup (codes "dk") kwargs);
    queue = [] ∷ [];
  }

  -- `Order(**kwargs)`: a keyword that is no field is a TypeError; `history` is the keyword `queue`, which
  -- is a list and so stands for itself.
  unfoldable pub construct : Dict (Value F) → Option (List (Dict (Value F))) → Result (Order F)
  unfolding make_order
  construct kwargs history =
      guard (all_parameters kwargs) type_error
      >> ok (record (make_order kwargs) { queue = given_or ([] ∷ []) history })

  -- The property `open_qty`.
  unfoldable pub open_qty : Order F → Result (Value F)
  open_qty o =
      if is_null o.order_qty || is_null o.exec_qty
      then ok null
      else if is_text (codes "filled") o.order_status
      then ok (int (pos 0))
      else sub num o.order_qty o.exec_qty
