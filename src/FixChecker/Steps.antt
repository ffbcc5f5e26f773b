-- ===== src/FixChecker/Steps.antt =====
-- The methods of `FIXClientChecker` of common/fix_utils.py on one order, with the dummy client that it
-- makes for itself, and an exchange that fills orders where there is one.
use auto_test_poc.Base.{ℕ, ◌+◌, Bool, true, false, not, ◌&&◌, List, [], ◌∷◌, ◌++◌, if◌then◌else◌}
use auto_test_poc.Py.Exceptions.{Result, key_error, type_error}
use auto_test_poc.Py.State.{Action, pure, raise, lift, modify, when, expect, gets, ◌>>=◌, ◌>>◌}
use auto_test_poc.Py.Text.{Text, codes}
use auto_test_poc.Py.Decimal.{print_ℕ}
use auto_test_poc.Py.Dict.{Dict, lookup, contains}
use auto_test_poc.Messages.Enums.Field.{Field}
use auto_test_poc.Messages.Enums.Field as Tag
use auto_test_poc.Messages.Enums.MsgType.{msg_type_value, execution_report, new_order_single}
use auto_test_poc.Orders.Value.{Floats, Value, flag, text, is_null, truthy}
use auto_test_poc.Orders.Kwargs.{get}
use auto_test_poc.Orders.State.{Order, given_or}
use auto_test_poc.Orders.Events as Events
use auto_test_poc.Orders.Events.{Event, callback}
use auto_test_poc.FixChecker.{
  validate_fix_message, side_mapping, map_key, str, str_if_true, expected_acceptance,
  expected_rejection, expected_fill,
}

-- The checker and the order that its methods are called with: the messages that its client has sent and
-- is still to receive, the fills that it asked the exchange for, and its number.
pub record Checker (F : Type 0) : Type 0 where
  pub sent : List (List (Field × Value F))
  pub received : List (Dict Text)
  pub has_exchange : Bool
  pub fills : List (Value F × Value F × Value F)
  pub expected_seq_num : ℕ
  pub order : Order F

-- The first message, and the rest.
abbrev pub pop_first : {F : Type 0} → List (Dict Text) → Checker F → Result (Dict Text) × Checker F
pop_first [] c = pure [] c
pop_first (msg ∷ queue) c = pure msg (record c { received = queue })

-- `receiveMsg` of the dummy client: an empty dict where there is no message.
abbrev pub receive_fix : {F : Type 0} → Action (Checker F) (Dict Text)
receive_fix c = pop_first c.received c

-- `not msg`
abbrev pub is_empty : Dict Text → Bool
is_empty [] = true
is_empty (pair ∷ msg) = false

-- `{k: v for k, v in fix_msg.items() if v is not None}`
abbrev pub without_none : {F : Type 0} → List (Field × Value F) → List (Field × Value F)
without_none [] = []
without_none ((tag, v) ∷ fields) =
    let rest = without_none fields in if is_null v then rest else (tag, v) ∷ rest

module _ {F : Type 0} (num : Floats F) (number : F → Text) (symbol : Value F → Value F) where
  -- `super().…(order, **kwargs)`
  abbrev pub advance : Event → Dict (Value F) → Action (Checker F) (Unit {0})
  advance event kwargs c =
      let (result, order) = callback num event kwargs c.order in
      (result, record c { order = order })

  -- `_build_new_order_single`
  unfoldable pub build_new_order_single : ℕ → Dict (Value F) → List (Field × Value F)
  build_new_order_single expected_seq_num kwargs = without_none (
      (Tag.msg_type, text (msg_type_value new_order_single))
      ∷ (
        Tag.cl_ord_id,
        given_or (text (codes "ORD" ++ print_ℕ expected_seq_num)) (lookup (codes "clOrdID") kwargs),
      )
      ∷ (Tag.symbol, get (codes "symbol") kwargs)
      ∷ (
        Tag.side,
        map_key side_mapping (given_or (text (codes "B")) (lookup (codes "side") kwargs)),
      )
      ∷ (Tag.order_qty, text (str num number symbol (get (codes "orderQty") kwargs)))
      ∷ (Tag.price, str_if_true num number symbol (get (codes "price") kwargs))
      ∷ [])

  abbrev pub send_order : Dict (Value F) → Action (Checker F) (Unit {0})
  send_order kwargs = modify (λ c. record c {
    sent = c.sent ++ build_new_order_single c.expected_seq_num kwargs ∷ [];
    expected_seq_num = c.expected_seq_num + 1;
  })

  -- `newOrder`, `shortSell` and `shortSellExempt`
  unfoldable pub new_order : Dict (Value F) → Action (Checker F) (Unit {0})
  new_order kwargs =
      when (not (truthy num (given_or (flag false) (lookup (codes "dk") kwargs))))
        (send_order kwargs)
      >> advance Events.new_order kwargs

  -- A second `side` among the keywords is a `TypeError`.
  abbrev pub new_order_with : Text → Dict (Value F) → Action (Checker F) (Unit {0})
  new_order_with side kwargs =
      when (contains (codes "side") kwargs) (raise type_error)
      >> new_order ((codes "side", text side) ∷ kwargs)

  abbrev pub short_sell : Dict (Value F) → Action (Checker F) (Unit {0})
  short_sell = new_order_with (codes "SS")

  abbrev pub short_sell_exempt : Dict (Value F) → Action (Checker F) (Unit {0})
  short_sell_exempt = new_order_with (codes "SSE")

  -- A report is received and, if there is one, validated; then the order is advanced.
  abbrev pub check_report :
      (Order F → Dict (Value F) → List (Field × Value F))
      → Event
      → Dict (Value F)
      → Dict Text
      → Action (Checker F) (Unit {0})
  check_report expected event kwargs msg =
      when (not (is_empty msg)) (
        gets (λ c. expected c.order kwargs) >>= λ fields.
        lift (validate_fix_message msg execution_report fields))
      >> advance event kwargs

  abbrev pub on_report :
      (Order F → Dict (Value F) → List (Field × Value F))
      → Event
      → Dict (Value F)
      → Action (Checker F) (Unit {0})
  on_report expected event kwargs = receive_fix >>= check_report expected event kwargs

  -- `ordered` and `reject`
  unfoldable pub ordered : Dict (Value F) → Action (Checker F) (Unit {0})
  ordered = on_report (expected_acceptance num number symbol) Events.ordered

  unfoldable pub reject : Dict (Value F) → Action (Checker F) (Unit {0})
  reject = on_report (expected_rejection num number symbol) Events.reject

  -- `self.exchange_sim.fill(orderID, kwargs["execQty"], kwargs["execPrice"])`
  abbrev pub ask_fill : Value F → Dict (Value F) → Action (Checker F) (Unit {0})
  ask_fill order_id kwargs = expect (lookup (codes "execQty") kwargs) key_error >>= λ qty.
      expect (lookup (codes "execPrice") kwargs) key_error >>= λ price.
      modify (λ c. record c { fills = c.fills ++ (order_id, qty, price) ∷ [] })

  -- `fill`
  unfoldable pub fill : Dict (Value F) → Action (Checker F) (Unit {0})
  fill kwargs =
      gets (λ c. c.has_exchange && not (is_null (get (codes "orderID") kwargs))) >>= λ asks.
      when asks (ask_fill (get (codes "orderID") kwargs) kwargs)
      >> on_report (expected_fill num number symbol) Events.fill kwargs
