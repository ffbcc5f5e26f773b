-- ===== src/Orders/Kwargs.antt =====
-- `Order._normalize_kwargs` of common/test_utils.py, and the tests on keyword arguments.
use auto_test_poc.Base.{List, [], ◌∷◌, Option, none, some, if◌then◌else◌}
use auto_test_poc.Py.Text.{Text, codes}
use auto_test_poc.Py.Dict.{Dict, lookup, contains, insert}
use auto_test_poc.Orders.Value.{Value, null, flag, int, float, text}

abbrev pub mapping : List (Text × Text)
mapping =
    (codes "orderQty", codes "order_qty")
    ∷ (codes "execQty", codes "exec_qty")
    ∷ (codes "orderPrice", codes "order_price")
    ∷ (codes "clOrdID", codes "cl_ord_id")
    ∷ (codes "destClOrdID", codes "dest_cl_ord_id")
    ∷ (codes "orderID2", codes "order_id2")
    ∷ (codes "timeInForce", codes "time_in_force")
    ∷ (codes "clientID", codes "client_id")
    ∷ (codes "accountID", codes "account_id")
    ∷ (codes "orderStatus", codes "order_status")
    ∷ (codes "dOrderQty", codes "d_order_qty")
    ∷ (codes "dOrderPrice", codes "d_order_price")
    ∷ (codes "execPrice", codes "exec_price")
    ∷ (codes "execID2", codes "exec_id2")
    ∷ (codes "transactTime", codes "transact_time")
    ∷ (codes "tradeDate", codes "trade_date")
    ∷ []

module _ {V : Type 0} where
  -- One round of the loop over `mapping`.
  unfoldable pub copy_alias : Text → Text → Dict V → Dict V
  unfolding lookup
  copy_alias camel snake out = elim (lookup camel out) [
    | none ↦ out
    | some v ↦ if contains snake out then out else insert snake v out
  ]

  abbrev pub copy_aliases : List (Text × Text) → Dict V → Dict V
  copy_aliases [] out = out
  copy_aliases ((camel, snake) ∷ table) out = copy_aliases table (copy_alias camel snake out)

  -- `_normalize_kwargs`: an empty dict has nothing to copy.
  unfoldable pub normalize_kwargs : Dict V → Dict V
  unfolding copy_alias
  normalize_kwargs kwargs = copy_aliases mapping kwargs

module _ {F : Type 0} where
  -- `kwargs.get(attr)`
  abbrev pub get : Text → Dict (Value F) → Value F
  get attr kwargs = elim (lookup attr kwargs) [ none ↦ null | some v ↦ v ]

  abbrev pub non_null : Value F → Option (Value F)
  non_null null = none
  non_null (flag b) = some (flag b)
  non_null (int n) = some (int n)
  non_null (float x) = some (float x)
  non_null (text s) = some (text s)

  -- `kwargs[attr]` where `attr in kwargs and kwargs[attr] is not None`
  abbrev pub given : Text → Dict (Value F) → Option (Value F)
  given attr kwargs = non_null (get attr kwargs)
