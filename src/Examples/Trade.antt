-- ===== src/Examples/Trade.antt =====
-- An order of ten, with executions and modifications. Prices are whole numbers here.
use auto_test_poc.Base.{
  ◌≡◌, refl, false, ◌||◌, if◌then◌else◌, List, [], ◌∷◌, none, some, arith, or_else,
}
use auto_test_poc.Base.Int.{ℤ, pos, ◌+ℤ◌, ◌-ℤ◌, neg_ℤ, ltb_ℤ, leb_ℤ, eq_ℤ, max_ℤ}
use auto_test_poc.Py.Exceptions.{ok, err, attribute_error, type_error}
use auto_test_poc.Py.State.{◌>>◌}
use auto_test_poc.Py.Text.{codes}
use auto_test_poc.Py.Dict.{Dict, lookup, insert}
use auto_test_poc.Orders.Value.{Floats, Value, int, text, is_text}
use auto_test_poc.Orders.Kwargs.{normalize_kwargs, copy_alias}
use auto_test_poc.Orders.State.{Order, construct, make_order, field_value, open_qty}
use auto_test_poc.Orders.Queue.{get_attribute, push_modify, old_prefix}
use auto_test_poc.Orders.Handlers.{fill, bust, moved_qty}
use auto_test_poc.Orders.Events.{Event, mod_reject, cxl_reject, callback, run}
use auto_test_poc.Orders.Events
use auto_test_poc.Orders.Names.{spelled, camel_names, camel_of, aliased, lookup-normalize_kwargs}
use auto_test_poc.Orders.Fills.{
  exec_kwargs, fill_outcome, fill_cases, moved_qty_lem, fill-fill, fill-bust,
}
use auto_test_poc.Orders.History.{history-unset}
use auto_test_poc.Orders.Moves.{Outcome}
use auto_test_poc.Orders.Pending.{run-Pending, mod_reject-unrestored}

abbrev whole : Floats ℤ
whole = record {
  add = λ a b. a +ℤ b;
  sub = λ a b. a -ℤ b;
  neg = neg_ℤ;
  ltb = ltb_ℤ;
  leb = leb_ℤ;
  is_zero = λ a. eq_ℤ a (pos 0);
  of_int = λ a. a;
}

abbrev bought : Dict (Value ℤ)
bought = (codes "orderQty", int (pos 10)) ∷ (codes "orderPrice", int (pos 7)) ∷ []

abbrev ten : Order ℤ
ten = make_order whole bought

ten_constructed : construct whole bought none ≡ ok ten
unfolding construct make_order field_value lookup
ten_constructed = refl

unknown_refused : construct whole ((codes "quantity", int (pos 10)) ∷ bought) none ≡ err type_error
unfolding construct make_order field_value lookup
unknown_refused = refl

ten_qty : ten.order_qty ≡ int (pos 10)
unfolding make_order field_value lookup
ten_qty = refl

ten_exec : ten.exec_qty ≡ int (pos 0)
unfolding make_order field_value lookup
ten_exec = refl

ten_live : is_text (codes "filled") ten.order_status ≡ false
unfolding make_order field_value lookup
ten_live = refl

abbrev executed : Dict (Value ℤ)
executed = (codes "execQty", int (pos 4)) ∷ (codes "account_id", text (codes "A1")) ∷ []

executed_qty : lookup (codes "exec_qty") (normalize_kwargs executed) ≡ some (int (pos 4))
unfolding normalize_kwargs copy_alias lookup insert
executed_qty = refl

lookup-normalize_kwargs_example :
    lookup (codes "exec_qty") (normalize_kwargs executed)
    ≡ or_else
        (lookup (codes "exec_qty") executed)
        (aliased (camel_of (spelled camel_names) (codes "exec_qty")) executed)
lookup-normalize_kwargs_example = lookup-normalize_kwargs (codes "exec_qty") executed

fill_cases_example :
    fill whole executed ten
    ≡ fill_outcome executed ten (some (pos 10)) (some (pos 0)) (some (some (pos 4)))
fill_cases_example =
    fill_cases whole executed ten (some (pos 10)) (some (pos 0)) (some (some (pos 4))) ten_qty
      ten_exec executed_qty

moved_qty_lem_example :
    moved_qty whole (int (pos 3)) ten ≡ ok (int (max_ℤ (pos 10 +ℤ pos 3) (pos 0)))
moved_qty_lem_example =
    moved_qty_lem whole ten (pos 10) (pos 0) (pos 3) ten_qty ten_exec ten_live (omega arith)

fill-fill_example :
    (fill whole (exec_kwargs (pos 4)) >> fill whole (exec_kwargs (pos 6))) ten
    ≡ fill whole (exec_kwargs (pos 4 +ℤ pos 6)) ten
fill-fill_example =
    fill-fill whole ten (pos 10) (pos 0) (pos 4) (pos 6) ten_qty ten_exec (omega arith)

fill-bust_example : (fill whole (exec_kwargs (pos 4)) >> bust whole (exec_kwargs (pos 4))) ten ≡ (
  ok tt,
  record ten {
    order_qty = int (max_ℤ (pos 10) (pos 0 +ℤ pos 4));
    order_status =
        if is_text (codes "filled") ten.order_status || leb_ℤ (pos 10) (pos 0 +ℤ pos 4)
        then text (codes "filled")
        else text (codes "open");
  },
)
fill-bust_example = fill-bust whole ten (pos 10) (pos 0) (pos 4) ten_qty ten_exec (omega arith)

-- A modification that is not answered, and a fill.
abbrev calls : List (Event × Dict (Value ℤ))
calls = (Events.modify, (codes "orderQty", int (pos 20)) ∷ []) ∷ (Events.fill, executed) ∷ []

returned : run whole calls ten ≡ (ok tt, (run whole calls ten).1)
unfolding run callback make_order field_value push_modify open_qty normalize_kwargs copy_alias
    lookup insert ◌+ℤ◌ ◌-ℤ◌
returned = refl

history-unset_example :
    get_attribute (codes "old_order_qty") (run whole calls ten).1 ≡ err attribute_error
history-unset_example =
    history-unset whole calls bought (codes "old_order_qty") (codes "order_qty") old_prefix refl

run-Pending_example : Outcome 1 (run whole calls ten)
run-Pending_example = run-Pending whole calls bought 1 refl

mod_reject-unrestored_example :
    (callback whole mod_reject [] (run whole calls ten).1
      ≡ (ok tt, record (run whole calls ten).1 { queue = [] ∷ [] }))
    × (callback whole cxl_reject [] (run whole calls ten).1
        ≡ (ok tt, record (run whole calls ten).1 { queue = [] ∷ [] }))
mod_reject-unrestored_example =
    mod_reject-unrestored whole calls bought [] 0 (run whole calls ten).1 refl returned
