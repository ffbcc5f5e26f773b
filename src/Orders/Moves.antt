-- ===== src/Orders/Moves.antt =====
-- How each step of a handler changes the length of the history.
use auto_test_poc.Base.{
  ℕ, zero, suc, ◌≡◌, ◌≢◌, refl, ap, ◌∙◌, Bool, true, false, List, [], ◌∷◌, ◌++◌, replicate, Option,
  none, some, arith,
}
use auto_test_poc.Py.Exceptions.{Result, ok, err, index_error}
use auto_test_poc.Py.State.{Action, ◌>>◌}
use auto_test_poc.Py.Text.{Text}
use auto_test_poc.Py.Dict.{Dict}
use auto_test_poc.Orders.Value.{Floats, Value, le_zero, gt_zero}
use auto_test_poc.Orders.State.{Order, open_qty}
use auto_test_poc.Orders.Queue.{last, push_modify, pop_modify, pop_queue}
use auto_test_poc.Orders.Handlers.{store, close_with}
use auto_test_poc.Orders.Handlers
use auto_test_poc.Orders.Events.{
  Event, new_order, ordering, ordered, reject, modifying, modified, mod_reject, cancel, canceling,
  canceled, cxl_reject, expire, dfd, callback, run,
}
use auto_test_poc.Orders.Events
use auto_test_poc.Orders.Errors.{
  NoIndex, NoIndex-bind, add-NoIndex, sub-NoIndex, le_zero-NoIndex, gt_zero-NoIndex,
  open_qty-NoIndex, executed-NoIndex,
}

-- The number of unanswered requests after an event, where there was one to answer.
abbrev pub pending_step : Event → ℕ → Option ℕ
pending_step Events.modify n = some (suc n)
pending_step cancel n = some (suc n)
pending_step modified zero = none
pending_step modified (suc n) = some n
pending_step mod_reject zero = none
pending_step mod_reject (suc n) = some n
pending_step canceled zero = none
pending_step canceled (suc n) = some n
pending_step cxl_reject zero = none
pending_step cxl_reject (suc n) = some n
pending_step _ n = some n

module _ {F : Type 0} where
  abbrev pub pending_after : List (Event × Dict (Value F)) → ℕ → Option ℕ
  pending_after [] n = some n
  pending_after ((event, kwargs) ∷ calls) n = elim (pending_step event n) [
    | none ↦ none
    | some m ↦ pending_after calls m
  ]

  abbrev pub Pending : ℕ → Order F → Type 0
  Pending n o = o.queue ≡ replicate (suc n) []

  abbrev pub Outcome : ℕ → Result (Unit {0}) × Order F → Type 0
  Outcome n (ok _, o) = Pending n o
  Outcome n (err e, o) = e ≢ index_error

  abbrev pub Moves : ℕ → ℕ → Action (Order F) (Unit {0}) → Type 0
  Moves n m act = (o : Order F) → Pending n o → Outcome m (act o)

  abbrev pub MovesTo : ℕ → Option ℕ → Action (Order F) (Unit {0}) → Type 0
  MovesTo n none act = Unit
  MovesTo n (some m) act = Moves n m act

  pub Moves-then :
      (n j m : ℕ) (a b : Action (Order F) (Unit {0}))
      → Moves n j a
      → Moves j m b
      → Moves n m (a >> b)
  Moves-then n j m a b ha hb o h = go (a o) (ha o h)
    where
      go : (p : Result (Unit {0}) × Order F) → Outcome j p → Outcome m (((λ _. p) >> b) o)
      go (ok u, o') r = hb o' r
      go (err e, o') r = r

  module _ (num : Floats F) where
    pub Moves-store :
        (n : ℕ) (compute : Order F → Result (Value F)) (set : Value F → Order F → Order F)
        → ((o : Order F) → NoIndex (compute o))
        → ((v : Value F) (o : Order F) → (set v o).queue ≡ o.queue)
        → Moves n n (store num compute set)
    Moves-store n compute set hc hs o h = go (compute o) (hc o)
      where
        go : (r : Result (Value F)) → NoIndex r → Outcome n (store num (λ _. r) set o)
        go (ok v) hr = hs v o ∙ h
        go (err e) hr = λ same. hr (ap err same)

    pub close_with-Moves : (n : ℕ) (status : Text) → Moves n n (close_with num status)
    close_with-Moves n status =
        Moves-store n _ _
          (λ o.
            NoIndex-bind (open_qty num o) _ (open_qty-NoIndex num o) (λ q.
              NoIndex-bind (le_zero num q) _ (le_zero-NoIndex num q) (λ closed. ground arith)))
          (λ v o. refl)

    pub reopen-Moves : (n : ℕ) → Moves n n (Handlers.reopen num)
    reopen-Moves n =
        Moves-store n _ _
          (λ o.
            NoIndex-bind (open_qty num o) _ (open_qty-NoIndex num o)
              (λ q. NoIndex-bind (gt_zero num q) _ (gt_zero-NoIndex num q) (λ more. ground arith)))
          (λ v o. refl)

    pub add_executed-Moves :
        (n : ℕ) (kwargs : Dict (Value F)) → Moves n n (Handlers.add_executed num kwargs)
    add_executed-Moves n kwargs =
        Moves-store n _ _
          (λ o.
            NoIndex-bind (Handlers.executed num kwargs) _ (executed-NoIndex num kwargs)
              (λ k. add-NoIndex num o.exec_qty k))
          (λ v o. refl)

    pub sub_executed-Moves :
        (n : ℕ) (kwargs : Dict (Value F)) → Moves n n (Handlers.sub_executed num kwargs)
    sub_executed-Moves n kwargs =
        Moves-store n _ _
          (λ o.
            NoIndex-bind (Handlers.executed num kwargs) _ (executed-NoIndex num kwargs)
              (λ k. sub-NoIndex num o.exec_qty k))
          (λ v o. refl)

    last-replicate : (n : ℕ) (d : Dict (Value F)) → last (replicate (suc n) d) ≡ some d
    last-replicate zero d = refl
    last-replicate (suc n) d = last-replicate n d

    replicate-snoc : (n : ℕ) (d : Dict (Value F)) → replicate n d ++ d ∷ [] ≡ replicate (suc n) d
    replicate-snoc zero d = refl
    replicate-snoc (suc n) d = ap (λ ds. d ∷ ds) (replicate-snoc n d)

    pub push_modify-Moves : (n : ℕ) → Moves n (suc n) push_modify
    unfolding push_modify
    push_modify-Moves n o h =
        rw (h, last-replicate n [], push_modify)
          (ap (λ q. q ++ [] ∷ []) h ∙ replicate-snoc (suc n) [])

    pub pop_modify-Moves : (n : ℕ) (restore : Bool) → Moves (suc n) n (pop_modify num restore)
    unfolding pop_modify pop_queue
    pop_modify-Moves n true o h = rw (h, pop_modify) refl
    pop_modify-Moves n false o h = rw (h, pop_modify) refl

    pub popped-Moves :
        (n : ℕ) (kwargs : Dict (Value F)) (k : Action (Order F) (Unit {0}))
        → Moves n n k
        → Moves (suc n) n (pop_modify num false >> Handlers.ordering num kwargs >> k)
    popped-Moves n kwargs k hk =
        Moves-then (suc n) n n (pop_modify num false >> Handlers.ordering num kwargs) k
          (Moves-then (suc n) n n (pop_modify num false) (Handlers.ordering num kwargs)
            (pop_modify-Moves n false) (λ o h. h))
          hk
