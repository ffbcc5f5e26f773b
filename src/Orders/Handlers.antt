-- ===== src/Orders/Handlers.antt =====
-- The state changes of `Order` of common/test_utils.py, `_new_order` to `_bust`.
use auto_test_poc.Base.{true, false, ◌&&◌, not, Option, none, some, if◌then◌else◌, get_or}
use auto_test_poc.Base.Int.{pos}
use auto_test_poc.Py.Exceptions.{Result, ok, err, key_error, or_raise, ◌>>=◌}
use auto_test_poc.Py.State.{Action, modify, ◌>>◌}
use auto_test_poc.Py.Text.{Text, codes}
use auto_test_poc.Py.Dict.{Dict, lookup}
use auto_test_poc.Orders.Value.{
  Floats, Value, null, flag, int, text, is_null, add, sub, neg, max, le_zero, gt_zero, truthy,
}
use auto_test_poc.Orders.Kwargs.{get, given, normalize_kwargs}
use auto_test_poc.Orders.State.{Order, given_or, open_qty}
use auto_test_poc.Orders.Queue.{push_modify, pop_modify}

module _ {F : Type 0} where
  abbrev pub kept : Text → Value F → Dict (Value F) → Value F
  kept attr old kwargs = get_or (given attr kwargs) old

  -- `for attr in ["client_id", "account_id"]`
  abbrev pub set_accounts : Dict (Value F) → Order F → Order F
  set_accounts kwargs o = record o {
    client_id = kept (codes "client_id") o.client_id kwargs;
    account_id = kept (codes "account_id") o.account_id kwargs;
  }

  abbrev pub set_status : Text → Order F → Order F
  set_status s o = record o { order_status = text s }

module _ {F : Type 0} (num : Floats F) where
  abbrev pub new_order_state : Dict (Value F) → Order F → Order F
  new_order_state kwargs o =
      let dk = given_or (flag false) (lookup (codes "dk") kwargs) in
      record o {
        dk = dk;
        security = get (codes "security") kwargs;
        side = get (codes "side") kwargs;
        order_qty = get (codes "order_qty") kwargs;
        exec_qty = if truthy num dk then null else int (pos 0);
        order_price = get (codes "order_price") kwargs;
        cl_ord_id = get (codes "cl_ord_id") kwargs;
        dest_cl_ord_id = get (codes "dest_cl_ord_id") kwargs;
        order_id2 = get (codes "order_id2") kwargs;
        time_in_force = get (codes "time_in_force") kwargs;
        client_id = get (codes "client_id") kwargs;
        account_id = get (codes "account_id") kwargs;
      }

  abbrev pub new_order : Dict (Value F) → Action (Order F) (Unit {0})
  new_order kwargs = modify (new_order_state (normalize_kwargs kwargs))

  abbrev pub ordering_state : Dict (Value F) → Order F → Order F
  ordering_state kwargs o = record o {
    order_qty = kept (codes "order_qty") o.order_qty kwargs;
    order_price = kept (codes "order_price") o.order_price kwargs;
    cl_ord_id = kept (codes "cl_ord_id") o.cl_ord_id kwargs;
    dest_cl_ord_id = kept (codes "dest_cl_ord_id") o.dest_cl_ord_id kwargs;
    order_id2 = kept (codes "order_id2") o.order_id2 kwargs;
    time_in_force = kept (codes "time_in_force") o.time_in_force kwargs;
    client_id = kept (codes "client_id") o.client_id kwargs;
    account_id = kept (codes "account_id") o.account_id kwargs;
  }

  abbrev pub ordering : Dict (Value F) → Action (Order F) (Unit {0})
  ordering kwargs = modify (ordering_state (normalize_kwargs kwargs))

  abbrev pub ordered : Dict (Value F) → Action (Order F) (Unit {0})
  ordered kwargs = modify (set_status (codes "open")) >> ordering (normalize_kwargs kwargs)

  abbrev pub reject : Dict (Value F) → Action (Order F) (Unit {0})
  reject kwargs = modify (set_status (codes "rejected"))

  -- `self.open_qty or 0`
  abbrev pub open_or_zero : Order F → Result (Value F)
  open_or_zero o = open_qty num o >>= λ q. ok (if truthy num q then q else int (pos 0))

  -- `self.order_qty + max(delta, -(self.open_qty or 0))`
  abbrev pub moved_qty : Value F → Order F → Result (Value F)
  moved_qty delta o = open_or_zero o >>= λ q.
      neg num q >>= λ least. max num delta least >>= λ d. add num o.order_qty d

  -- The new quantity: an absolute one wins over a change.
  abbrev pub qty_from : Option (Value F) → Option (Value F) → Order F → Result (Value F)
  qty_from (some q) d o = max num q (int (pos 0))
  qty_from none (some delta) o = moved_qty delta o
  qty_from none none o = ok o.order_qty

  abbrev pub modified_qty : Dict (Value F) → Order F → Result (Value F)
  modified_qty kwargs =
      qty_from (given (codes "order_qty") kwargs) (given (codes "d_order_qty") kwargs)

  abbrev pub price_from : Option (Value F) → Option (Value F) → Order F → Result (Value F)
  price_from (some p) d o = ok p
  price_from none (some delta) o = add num o.order_price delta
  price_from none none o = ok o.order_price

  abbrev pub modified_price : Dict (Value F) → Order F → Result (Value F)
  modified_price kwargs =
      price_from (given (codes "order_price") kwargs) (given (codes "d_order_price") kwargs)

  -- A computed value that is written to the order.
  abbrev pub store :
      (Order F → Result (Value F)) → (Value F → Order F → Order F) → Action (Order F) (Unit {0})
  store compute set o = elim (compute o) [ ok v ↦ (ok tt, set v o) | err e ↦ (err e, o) ]

  abbrev pub modify_ids : Dict (Value F) → Order F → Order F
  modify_ids kwargs o = record o {
    cl_ord_id = kept (codes "cl_ord_id") o.cl_ord_id kwargs;
    dest_cl_ord_id = kept (codes "dest_cl_ord_id") o.dest_cl_ord_id kwargs;
    time_in_force = kept (codes "time_in_force") o.time_in_force kwargs;
    client_id = kept (codes "client_id") o.client_id kwargs;
    account_id = kept (codes "account_id") o.account_id kwargs;
  }

  abbrev pub store_qty : Dict (Value F) → Action (Order F) (Unit {0})
  store_qty kwargs = store (modified_qty kwargs) (λ v o. record o { order_qty = v })

  abbrev pub store_price : Dict (Value F) → Action (Order F) (Unit {0})
  store_price kwargs = store (modified_price kwargs) (λ v o. record o { order_price = v })

  abbrev pub modify_order : Dict (Value F) → Action (Order F) (Unit {0})
  modify_order given_kwargs =
      let kwargs = normalize_kwargs given_kwargs in
      push_modify >> store_qty kwargs >> store_price kwargs >> modify (modify_ids kwargs)

  abbrev pub modifying : Dict (Value F) → Action (Order F) (Unit {0})
  modifying kwargs = ordering (normalize_kwargs kwargs)

  -- `if self.open_qty <= 0: self.order_status = …`
  abbrev pub close_with : Text → Action (Order F) (Unit {0})
  close_with status =
      store
        (λ o. open_qty num o >>= λ q.
          le_zero num q >>= λ closed. ok (if closed then text status else o.order_status))
        (λ v o. record o { order_status = v })

  abbrev pub modified : Dict (Value F) → Action (Order F) (Unit {0})
  modified kwargs =
      pop_modify num false >> ordering (normalize_kwargs kwargs) >> close_with (codes "rejected")

  abbrev pub mod_reject : Dict (Value F) → Action (Order F) (Unit {0})
  mod_reject kwargs = pop_modify num true

  abbrev pub cancel_ids : Dict (Value F) → Order F → Order F
  cancel_ids kwargs o = record o {
    cl_ord_id = kept (codes "cl_ord_id") o.cl_ord_id kwargs;
    dest_cl_ord_id = kept (codes "dest_cl_ord_id") o.dest_cl_ord_id kwargs;
    client_id = kept (codes "client_id") o.client_id kwargs;
    account_id = kept (codes "account_id") o.account_id kwargs;
  }

  abbrev pub cancel : Dict (Value F) → Action (Order F) (Unit {0})
  cancel kwargs = push_modify >> modify (cancel_ids (normalize_kwargs kwargs))

  abbrev pub canceling : Dict (Value F) → Action (Order F) (Unit {0})
  canceling kwargs = ordering (normalize_kwargs kwargs)

  abbrev pub canceled : Dict (Value F) → Action (Order F) (Unit {0})
  canceled kwargs =
      pop_modify num false
      >> ordering (normalize_kwargs kwargs)
      >> modify (set_status (codes "cancelled"))

  abbrev pub cxl_reject : Dict (Value F) → Action (Order F) (Unit {0})
  cxl_reject kwargs = pop_modify num true

  abbrev pub expire : Dict (Value F) → Action (Order F) (Unit {0})
  expire kwargs =
      modify (set_status (codes "expired")) >> modify (set_accounts (normalize_kwargs kwargs))

  abbrev pub dfd : Dict (Value F) → Action (Order F) (Unit {0})
  dfd kwargs = modify (set_status (codes "dfd")) >> modify (set_accounts (normalize_kwargs kwargs))

  -- `kwargs["exec_qty"]`
  abbrev pub executed : Dict (Value F) → Result (Value F)
  executed kwargs = or_raise (lookup (codes "exec_qty") kwargs) key_error

  -- The race of a modification with a fill: the quantity is what was executed, at least.
  abbrev pub raised_qty : Order F → Result (Value F)
  raised_qty o =
      if not (is_null o.order_qty) && not (is_null o.exec_qty)
      then max num o.order_qty o.exec_qty
      else ok o.order_qty

  -- `self.exec_qty += kwargs["exec_qty"]`, and `-=`
  abbrev pub add_executed : Dict (Value F) → Action (Order F) (Unit {0})
  add_executed kwargs =
      store (λ o. executed kwargs >>= λ n. add num o.exec_qty n) (λ v o. record o { exec_qty = v })

  abbrev pub sub_executed : Dict (Value F) → Action (Order F) (Unit {0})
  sub_executed kwargs =
      store (λ o. executed kwargs >>= λ n. sub num o.exec_qty n) (λ v o. record o { exec_qty = v })

  abbrev pub raise_qty : Action (Order F) (Unit {0})
  raise_qty = store raised_qty (λ v o. record o { order_qty = v })

  abbrev pub fill : Dict (Value F) → Action (Order F) (Unit {0})
  fill given_kwargs =
      let kwargs = normalize_kwargs given_kwargs in
      add_executed kwargs
      >> raise_qty
      >> close_with (codes "filled")
      >> modify (set_accounts kwargs)

  -- `if self.open_qty > 0: self.order_status = "open"`
  abbrev pub reopened : Order F → Result (Value F)
  reopened o = open_qty num o >>= λ q.
      gt_zero num q >>= λ more. ok (if more then text (codes "open") else o.order_status)

  abbrev pub reopen : Action (Order F) (Unit {0})
  reopen = store reopened (λ v o. record o { order_status = v })

  abbrev pub bust : Dict (Value F) → Action (Order F) (Unit {0})
  bust given_kwargs =
      let kwargs = normalize_kwargs given_kwargs in
      sub_executed kwargs >> reopen >> modify (set_accounts kwargs)
