-- ===== src/Orders/Errors.antt =====
-- The computations of the handlers raise no `IndexError`.
use auto_test_poc.Base.{◌≢◌, Option, none, some, arith}
use auto_test_poc.Base.Int.{pos}
use auto_test_poc.Py.Exceptions.{Result, ok, err, index_error, ◌>>=◌}
use auto_test_poc.Py.Dict.{Dict}
use auto_test_poc.Orders.Value.{Floats, Value, int, add, sub, neg, max, le_zero, gt_zero}
use auto_test_poc.Orders.State.{Order, open_qty}
use auto_test_poc.Orders.Handlers.{store, close_with}
use auto_test_poc.Orders.Handlers

abbrev pub NoIndex : {A : Type 0} → Result A → Type 0
NoIndex r = r ≢ err index_error

pub NoIndex-bind :
    {A B : Type 0} (r : Result A) (f : A → Result B)
    → NoIndex r
    → ((a : A) → NoIndex (f a))
    → NoIndex (r >>= f)
NoIndex-bind (ok a) f hr hf = hf a
NoIndex-bind (err e) f hr hf = λ h. hr cc

module _ {F : Type 0} (num : Floats F) where
  pub add-NoIndex : (a b : Value F) → NoIndex (add num a b)
  add-NoIndex a b = ground arith

  pub sub-NoIndex : (a b : Value F) → NoIndex (sub num a b)
  sub-NoIndex a b = ground arith

  pub neg-NoIndex : (a : Value F) → NoIndex (neg num a)
  neg-NoIndex a = ground arith

  pub max-NoIndex : (a b : Value F) → NoIndex (max num a b)
  max-NoIndex a b = ground arith

  pub le_zero-NoIndex : (a : Value F) → NoIndex (le_zero num a)
  le_zero-NoIndex a = ground arith

  pub gt_zero-NoIndex : (a : Value F) → NoIndex (gt_zero num a)
  gt_zero-NoIndex a = ground arith

  pub open_qty-NoIndex : (o : Order F) → NoIndex (open_qty num o)
  unfolding open_qty
  open_qty-NoIndex o = ground (arith, sub-NoIndex o.order_qty o.exec_qty)

  pub qty_from-NoIndex :
      (q d : Option (Value F)) (o : Order F) → NoIndex (Handlers.qty_from num q d o)
  qty_from-NoIndex (some q) d o = max-NoIndex q (int (pos 0))
  qty_from-NoIndex none none o = ground arith
  qty_from-NoIndex none (some delta) o =
      NoIndex-bind (Handlers.open_or_zero num o) _
        (NoIndex-bind (open_qty num o) _ (open_qty-NoIndex o) (λ q. ground arith))
        (λ q. NoIndex-bind (neg num q) _ (neg-NoIndex q) (λ least.
          NoIndex-bind (max num delta least) _ (max-NoIndex delta least)
            (λ d. add-NoIndex o.order_qty d)))

  pub price_from-NoIndex :
      (p d : Option (Value F)) (o : Order F) → NoIndex (Handlers.price_from num p d o)
  price_from-NoIndex (some p) d o = ground arith
  price_from-NoIndex none none o = ground arith
  price_from-NoIndex none (some delta) o = add-NoIndex o.order_price delta

  pub executed-NoIndex : (kwargs : Dict (Value F)) → NoIndex (Handlers.executed num kwargs)
  executed-NoIndex kwargs = ground arith

  pub raised_qty-NoIndex : (o : Order F) → NoIndex (Handlers.raised_qty num o)
  raised_qty-NoIndex o = ground (arith, max-NoIndex o.order_qty o.exec_qty)
