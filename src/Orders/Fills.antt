-- ===== src/Orders/Fills.antt =====
-- Executions of an order: fills, busts, and the quantities between them.
use auto_test_poc.Base.{
  ◌≡◌, refl, sym, ap, ◌∙◌, true, false, not, ◌&&◌, ◌||◌, [], ◌∷◌, Option, none, some, if◌then◌else◌,
  arith,
}
use auto_test_poc.Base.Int.{
  ℤ, pos, ◌+ℤ◌, ◌-ℤ◌, ◌≤ℤ◌, leb_ℤ, ltb_ℤ, max_ℤ, neg_ℤ, neg_ℤ_parts, +ℤ_parts, -ℤ_parts,
  eq_of_parts,
}
use auto_test_poc.Py.Exceptions.{Result, ok, err, key_error, type_error}
use auto_test_poc.Py.State.{◌>>◌}
use auto_test_poc.Py.Text.{codes}
use auto_test_poc.Py.Dict.{Dict, lookup}
use auto_test_poc.Orders.Value.{Floats, Value, null, int, text, is_text}
use auto_test_poc.Orders.Kwargs.{normalize_kwargs, copy_alias}
use auto_test_poc.Orders.State.{Order, open_qty}
use auto_test_poc.Orders.Handlers.{fill, bust, set_accounts, moved_qty}

leb-sub : (a b : ℤ) → leb_ℤ (a -ℤ b) (pos 0) ≡ leb_ℤ a b
leb-sub a b = ground (arith, -ℤ_parts a b)

leb_self : (a : ℤ) → leb_ℤ a a ≡ true
leb_self a = ground arith

gtb-sub : (a b : ℤ) → ltb_ℤ (pos 0) (a -ℤ b) ≡ ltb_ℤ b a
gtb-sub a b = ground (arith, -ℤ_parts a b)

ltb-leb : (a b : ℤ) → ltb_ℤ a b ≡ true → leb_ℤ a b ≡ true
ltb-leb a b h = ground arith

-- The order after an execution that takes the executed quantity to `e`.
abbrev pub filled_order : {F : Type 0} → Order F → ℤ → ℤ → Order F
filled_order o q e = record o {
  exec_qty = int e;
  order_qty = int (max_ℤ q e);
  order_status =
      if is_text (codes "filled") o.order_status || leb_ℤ q e
      then text (codes "filled")
      else o.order_status;
}

module _ {F : Type 0} (num : Floats F) (kwargs : Dict (Value F)) (o : Order F) (q e n : ℤ) where
  -- A fill of `n`, where both quantities are integers.
  fill_lem :
      o.order_qty ≡ int q
      → o.exec_qty ≡ int e
      → lookup (codes "exec_qty") (normalize_kwargs kwargs) ≡ some (int n)
      → fill num kwargs o
        ≡ (ok tt, set_accounts (normalize_kwargs kwargs) (filled_order o q (e +ℤ n)))
  unfolding open_qty
  fill_lem hq he hn =
      rw (hq, he, hn) (ground (arith, leb-sub q (e +ℤ n), leb-sub (e +ℤ n) (e +ℤ n)))

  -- A bust of `n` takes `n` from the executed quantity. The status becomes `open` where a quantity is
  -- left, unless it is `filled`: a filled order has nothing left, and stays filled.
  pub bust_lem :
      o.order_qty ≡ int q
      → o.exec_qty ≡ int e
      → lookup (codes "exec_qty") (normalize_kwargs kwargs) ≡ some (int n)
      → bust num kwargs o ≡ (
        ok tt,
        set_accounts (normalize_kwargs kwargs) (record o {
          exec_qty = int (e -ℤ n);
          order_status =
              if not (is_text (codes "filled") o.order_status) && ltb_ℤ (e -ℤ n) q
              then text (codes "open")
              else o.order_status;
        }),
      )
  unfolding open_qty
  bust_lem hq he hn = rw (hq, he, hn) (ground (arith, gtb-sub q (e -ℤ n)))

-- An integer, or None.
abbrev pub quantity : {F : Type 0} → Option ℤ → Value F
quantity none = null
quantity (some n) = int n

-- The value under the keyword `exec_qty`, where there is one.
abbrev pub keyword : {F : Type 0} → Option (Option ℤ) → Option (Value F)
keyword none = none
keyword (some n) = some (quantity n)

-- What a fill makes of the order: the ordered and the executed quantity, and the keyword.
abbrev pub fill_outcome :
    {F : Type 0}
    → Dict (Value F)
    → Order F
    → Option ℤ
    → Option ℤ
    → Option (Option ℤ)
    → Result (Unit {0}) × Order F
fill_outcome kwargs o q e none = (err key_error, o)
fill_outcome kwargs o q none (some n) = (err type_error, o)
fill_outcome kwargs o q (some e) (some none) = (err type_error, o)
fill_outcome kwargs o none (some e) (some (some n)) =
    (err type_error, record o { exec_qty = int (e +ℤ n) })
fill_outcome kwargs o (some q) (some e) (some (some n)) =
    (ok tt, set_accounts (normalize_kwargs kwargs) (filled_order o q (e +ℤ n)))

fill-unordered :
    {F : Type 0} (num : Floats F) (kwargs : Dict (Value F)) (o : Order F) (e n : ℤ)
    → o.order_qty ≡ null
    → o.exec_qty ≡ int e
    → lookup (codes "exec_qty") (normalize_kwargs kwargs) ≡ some (int n)
    → fill num kwargs o ≡ (err type_error, record o { exec_qty = int (e +ℤ n) })
unfolding open_qty
fill-unordered num kwargs o e n hq he hn = simp (hn, hq) (ground (arith, hq))

-- A fill of an order whose quantities are integers or None. Without the keyword `exec_qty` it raises
-- KeyError, and where that or the executed quantity is None, TypeError: nothing has changed. Where the
-- ordered quantity is None it raises TypeError as well, when the executed quantity has been raised. Else
-- it adds the keyword to the executed quantity, raises the ordered quantity to it where it was below,
-- makes the status `filled` where nothing is left or the order was filled before, takes over the accounts
-- of the keywords, and changes nothing else.
pub fill_cases :
    {F : Type 0} (num : Floats F) (kwargs : Dict (Value F)) (o : Order F) (q e : Option ℤ)
    (n : Option (Option ℤ))
    → o.order_qty ≡ quantity q
    → o.exec_qty ≡ quantity e
    → lookup (codes "exec_qty") (normalize_kwargs kwargs) ≡ keyword n
    → fill num kwargs o ≡ fill_outcome kwargs o q e n
unfolding open_qty
fill_cases num kwargs o q e none hq he hn = rw hn refl
fill_cases num kwargs o q none (some none) hq he hn = rw (hn, he) refl
fill_cases num kwargs o q none (some (some n)) hq he hn = rw (hn, he) refl
fill_cases num kwargs o q (some e) (some none) hq he hn = rw (hn, he) refl
fill_cases num kwargs o none (some e) (some (some n)) hq he hn =
    fill-unordered num kwargs o e n hq he hn
fill_cases num kwargs o (some q) (some e) (some (some n)) hq he hn =
    fill_lem num kwargs o q e n hq he hn

module _ {F : Type 0} (num : Floats F) (o : Order F) (q e d : ℤ) where
  -- A change of the quantity by `d` moves an order that is not filled by `d`, but not below what is
  -- executed.
  pub moved_qty_lem :
      o.order_qty ≡ int q
      → o.exec_qty ≡ int e
      → is_text (codes "filled") o.order_status ≡ false
      → e ≤ℤ q
      → moved_qty num (int d) o ≡ ok (int (max_ℤ (q +ℤ d) e))
  unfolding open_qty
  moved_qty_lem hq he hs h =
      rw (hq, he, hs)
        (ground (
          arith,
          -ℤ_parts q e,
          neg_ℤ_parts (q -ℤ e),
          neg_ℤ_parts (pos 0),
          +ℤ_parts q d,
          +ℤ_parts q (neg_ℤ (q -ℤ e)),
          +ℤ_parts q (neg_ℤ (pos 0)),
          eq_of_parts (q +ℤ neg_ℤ (q -ℤ e)) e,
          eq_of_parts (q +ℤ neg_ℤ (pos 0)) e,
          eq_of_parts (q +ℤ d) e,
        ))

abbrev pub exec_kwargs : {F : Type 0} → ℤ → Dict (Value F)
exec_kwargs n = (codes "exec_qty", int n) ∷ []

exec_kwargs-lookup :
    {F : Type 0} (n : ℤ)
    → lookup {V = Value F} (codes "exec_qty") (normalize_kwargs (exec_kwargs n)) ≡ some (int n)
unfolding lookup normalize_kwargs copy_alias
exec_kwargs-lookup n = refl

exec_kwargs-accounts :
    {F : Type 0} (n : ℤ) (o : Order F) → set_accounts (normalize_kwargs (exec_kwargs n)) o ≡ o
unfolding lookup normalize_kwargs copy_alias
exec_kwargs-accounts n o = refl

fill_exec :
    {F : Type 0} (num : Floats F) (o : Order F) (q e n : ℤ)
    → o.order_qty ≡ int q
    → o.exec_qty ≡ int e
    → fill num (exec_kwargs n) o ≡ (ok tt, filled_order o q (e +ℤ n))
fill_exec num o q e n hq he =
    fill_lem num (exec_kwargs n) o q e n hq he (exec_kwargs-lookup n)
    ∙ ap (λ o'. (ok tt, o')) (exec_kwargs-accounts n (filled_order o q (e +ℤ n)))

+ℤ_assoc : (a b c : ℤ) → (a +ℤ b) +ℤ c ≡ a +ℤ (b +ℤ c)
+ℤ_assoc a b c = ground (
  arith,
  +ℤ_parts a b,
  +ℤ_parts b c,
  +ℤ_parts (a +ℤ b) c,
  +ℤ_parts a (b +ℤ c),
  eq_of_parts ((a +ℤ b) +ℤ c) (a +ℤ (b +ℤ c)),
)

max-max : (q a b : ℤ) → a ≤ℤ b → max_ℤ (max_ℤ q a) b ≡ max_ℤ q b
max-max q a b h = ground (arith, eq_of_parts q b, eq_of_parts a b)

filled_order-twice :
    {F : Type 0} (o : Order F) (q a b : ℤ)
    → a ≤ℤ b
    → filled_order (filled_order o q a) (max_ℤ q a) b ≡ filled_order o q b
filled_order-twice o q a b h = rw (max-max q a b h) (ground arith)

module _ {F : Type 0} (num : Floats F) (o : Order F) (q e n m : ℤ) where
  -- Two fills in a row leave the order that one fill of their sum leaves, if the second one is not
  -- negative: the quantities, the status and all else.
  pub fill-fill :
      o.order_qty ≡ int q
      → o.exec_qty ≡ int e
      → pos 0 ≤ℤ m
      → (fill num (exec_kwargs n) >> fill num (exec_kwargs m)) o ≡ fill num (exec_kwargs (n +ℤ m)) o
  fill-fill hq he h =
      ap (λ (p : Result (Unit {0}) × Order F). ((λ _. p) >> fill num (exec_kwargs m)) o)
        (fill_exec num o q e n hq he)
      ∙ fill_exec num (filled_order o q (e +ℤ n)) (max_ℤ q (e +ℤ n)) (e +ℤ n) m refl refl
      ∙ ap (λ o'. (ok tt, o'))
          (filled_order-twice o q (e +ℤ n) ((e +ℤ n) +ℤ m) (ground (arith, +ℤ_parts (e +ℤ n) m)))
      ∙ ap (λ k. (ok tt, filled_order o q k)) (+ℤ_assoc e n m)
      ∙ sym (fill_exec num o q e (n +ℤ m) hq he)

module _ {F : Type 0} (num : Floats F) (o : Order F) (q e n : ℤ) where
  -- A bust of what was filled takes the executed quantity back to what it was. The order is `open`
  -- again, but not if the fill completed it: then it stays `filled`.
  pub fill-bust :
      o.order_qty ≡ int q
      → o.exec_qty ≡ int e
      → pos 0 ≤ℤ n
      → (fill num (exec_kwargs n) >> bust num (exec_kwargs n)) o ≡ (
        ok tt,
        record o {
          order_qty = int (max_ℤ q (e +ℤ n));
          order_status =
              if is_text (codes "filled") o.order_status || leb_ℤ q (e +ℤ n)
              then text (codes "filled")
              else text (codes "open");
        },
      )
  fill-bust hq he h =
      ap (λ (p : Result (Unit {0}) × Order F). ((λ _. p) >> bust num (exec_kwargs n)) o)
        (fill_exec num o q e n hq he)
      ∙ bust_lem num (exec_kwargs n) (filled_order o q (e +ℤ n)) (max_ℤ q (e +ℤ n)) (e +ℤ n) n refl
          refl (exec_kwargs-lookup n)
      ∙ ap (λ o'. (ok tt, o')) (exec_kwargs-accounts n _)
      ∙ ap (λ o'. (ok tt, o')) busted
    where
      back : (e +ℤ n) -ℤ n ≡ e
      back = ground (arith, +ℤ_parts e n, -ℤ_parts (e +ℤ n) n, eq_of_parts ((e +ℤ n) -ℤ n) e)

      busted :
          record (filled_order o q (e +ℤ n)) {
            exec_qty = int ((e +ℤ n) -ℤ n);
            order_status =
                if not (is_text (codes "filled") (filled_order o q (e +ℤ n)).order_status)
                  && ltb_ℤ ((e +ℤ n) -ℤ n) (max_ℤ q (e +ℤ n))
                then text (codes "open")
                else (filled_order o q (e +ℤ n)).order_status;
          }
          ≡ record o {
            order_qty = int (max_ℤ q (e +ℤ n));
            order_status =
                if is_text (codes "filled") o.order_status || leb_ℤ q (e +ℤ n)
                then text (codes "filled")
                else text (codes "open");
          }
      busted = rw (he, back) (ground (arith, +ℤ_parts e n))
