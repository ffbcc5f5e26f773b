-- ===== src/Orders/Pending.antt =====
-- The history has one snapshot for each modification or cancellation that is not answered, and one more.
use mathlib.Core.Path.{subst}
use auto_test_poc.Base.{ℕ, zero, suc, ◌≡◌, refl, true, List, [], ◌∷◌, replicate, Option, none, some}
use auto_test_poc.Py.Exceptions.{ok}
use auto_test_poc.Py.State.{◌>>◌, modify}
use auto_test_poc.Py.Text.{codes}
use auto_test_poc.Py.Dict.{Dict}
use auto_test_poc.Orders.Value.{Floats, Value}
use auto_test_poc.Orders.Kwargs.{normalize_kwargs, given}
use auto_test_poc.Orders.State.{Order, make_order}
use auto_test_poc.Orders.Queue.{push_modify, pop_modify, pop_queue}
use auto_test_poc.Orders.Handlers.{store, close_with}
use auto_test_poc.Orders.Handlers
use auto_test_poc.Orders.Events.{
  Event, new_order, ordering, ordered, reject, modifying, modified, mod_reject, cancel, canceling,
  canceled, cxl_reject, expire, dfd, callback, run,
}
use auto_test_poc.Orders.Events
use auto_test_poc.Orders.Errors.{qty_from-NoIndex, price_from-NoIndex, raised_qty-NoIndex}
use auto_test_poc.Orders.Moves.{
  pending_step, pending_after, Pending, Outcome, MovesTo, Moves-then, Moves-store, close_with-Moves,
  reopen-Moves, add_executed-Moves, sub_executed-Moves, push_modify-Moves, pop_modify-Moves,
  popped-Moves,
}

module _ {F : Type 0} where
  module _ (num : Floats F) where
    callback-Moves :
        (event : Event) (kwargs : Dict (Value F)) (n : ℕ)
        → MovesTo n (pending_step event n) (callback num event kwargs)
    unfolding callback
    callback-Moves new_order kwargs n = λ o h. h
    callback-Moves ordering kwargs n = λ o h. h
    callback-Moves ordered kwargs n = λ o h. h
    callback-Moves reject kwargs n = λ o h. h
    callback-Moves Events.modify kwargs n =
        let ks = normalize_kwargs kwargs in
        let priced = push_modify >> Handlers.store_qty num ks >> Handlers.store_price num ks in
        Moves-then n (suc n) (suc n) priced (modify (Handlers.modify_ids num ks))
          (Moves-then n (suc n) (suc n) (push_modify >> Handlers.store_qty num ks)
            (Handlers.store_price num ks)
            (Moves-then n (suc n) (suc n) push_modify (Handlers.store_qty num ks)
              (push_modify-Moves num n)
              (Moves-store num (suc n) _ _
                (λ o.
                  qty_from-NoIndex num (given (codes "order_qty") ks)
                    (given (codes "d_order_qty") ks) o)
                (λ v o. refl)))
            (Moves-store num (suc n) _ _
              (λ o.
                price_from-NoIndex num (given (codes "order_price") ks)
                  (given (codes "d_order_price") ks) o)
              (λ v o. refl)))
          (λ o h. h)
    callback-Moves modifying kwargs n = λ o h. h
    callback-Moves modified kwargs zero = tt
    callback-Moves modified kwargs (suc n) =
        popped-Moves num n (normalize_kwargs kwargs) (close_with num (codes "rejected"))
          (close_with-Moves num n (codes "rejected"))
    callback-Moves mod_reject kwargs zero = tt
    callback-Moves mod_reject kwargs (suc n) = pop_modify-Moves num n true
    callback-Moves cancel kwargs n =
        Moves-then n (suc n) (suc n) push_modify
          (modify (Handlers.cancel_ids num (normalize_kwargs kwargs))) (push_modify-Moves num n)
          (λ o h. h)
    callback-Moves canceling kwargs n = λ o h. h
    callback-Moves canceled kwargs zero = tt
    callback-Moves canceled kwargs (suc n) =
        popped-Moves num n (normalize_kwargs kwargs)
          (modify (Handlers.set_status (codes "cancelled"))) (λ o h. h)
    callback-Moves cxl_reject kwargs zero = tt
    callback-Moves cxl_reject kwargs (suc n) = pop_modify-Moves num n true
    callback-Moves expire kwargs n = λ o h. h
    callback-Moves dfd kwargs n = λ o h. h
    callback-Moves Events.fill kwargs n =
        let ks = normalize_kwargs kwargs in
        let raised = Handlers.add_executed num ks >> Handlers.raise_qty num in
        Moves-then n n n (raised >> close_with num (codes "filled"))
          (modify (Handlers.set_accounts ks))
          (Moves-then n n n raised (close_with num (codes "filled"))
            (Moves-then n n n (Handlers.add_executed num ks) (Handlers.raise_qty num)
              (add_executed-Moves num n ks)
              (Moves-store num n _ _ (raised_qty-NoIndex num) (λ v o. refl)))
            (close_with-Moves num n (codes "filled")))
          (λ o h. h)
    callback-Moves Events.bust kwargs n =
        let ks = normalize_kwargs kwargs in
        Moves-then n n n (Handlers.sub_executed num ks >> Handlers.reopen num)
          (modify (Handlers.set_accounts ks))
          (Moves-then n n n (Handlers.sub_executed num ks) (Handlers.reopen num)
            (sub_executed-Moves num n ks) (reopen-Moves num n))
          (λ o h. h)

    call-MovesTo :
        (k : Option ℕ) (event : Event) (kwargs : Dict (Value F))
        (calls : List (Event × Dict (Value F))) (n : ℕ)
        → MovesTo n k (callback num event kwargs)
        → ((j : ℕ) → MovesTo j (pending_after calls j) (run num calls))
        → MovesTo n
            (elim k [ none ↦ none | some m ↦ pending_after calls m ])
            (callback num event kwargs >> run num calls)
    call-MovesTo none event kwargs calls n h rest = tt
    call-MovesTo (some j) event kwargs calls n h rest = onto (pending_after calls j) (rest j)
      where
        onto :
            (l : Option ℕ)
            → MovesTo j l (run num calls)
            → MovesTo n l (callback num event kwargs >> run num calls)
        onto none r = tt
        onto (some m) r = Moves-then n j m (callback num event kwargs) (run num calls) h r

    run-MovesTo :
        (calls : List (Event × Dict (Value F))) (n : ℕ)
        → MovesTo n (pending_after calls n) (run num calls)
    unfolding run
    run-MovesTo [] n = λ o h. h
    run-MovesTo ((event, kwargs) ∷ calls) n =
        call-MovesTo (pending_step event n) event kwargs calls n (callback-Moves event kwargs n)
          (run-MovesTo calls)

-- Calls on a new order in which each answer to a modification or a cancellation has one before it that
-- was not answered: none of them raises `IndexError`, and where they return, the history has one
-- snapshot more than there are requests without an answer.
pub run-Pending :
    {F : Type 0} (num : Floats F) (calls : List (Event × Dict (Value F))) (kwargs : Dict (Value F))
    (n : ℕ)
    → pending_after calls 0 ≡ some n
    → Outcome n (run num calls (make_order num kwargs))
unfolding make_order
run-Pending num calls kwargs n e =
    subst (λ l. MovesTo 0 l (run num calls)) e (run-MovesTo num calls 0) (make_order num kwargs)
      refl

-- The rejection of a modification or of a cancellation, on an order that calls on a new order made and
-- that has a request without an answer: it drops a snapshot, and all else stays. The quantity, the
-- price and the names are those that the rejected request set.
pub mod_reject-unrestored :
    {F : Type 0} (num : Floats F) (calls : List (Event × Dict (Value F)))
    (kwargs ks : Dict (Value F)) (n : ℕ) (o : Order F)
    → pending_after calls 0 ≡ some (suc n)
    → run num calls (make_order num kwargs) ≡ (ok tt, o)
    → (callback num mod_reject ks o ≡ (ok tt, record o { queue = replicate (suc n) [] }))
      × (callback num cxl_reject ks o ≡ (ok tt, record o { queue = replicate (suc n) [] }))
unfolding callback pop_modify pop_queue
mod_reject-unrestored num calls kwargs ks n o e returned =
    let pending : Pending (suc n) o =
      subst (Outcome (suc n)) returned (run-Pending num calls kwargs (suc n) e) in
    (rw (pending, pop_modify) refl, rw (pending, pop_modify) refl)
