-- ===== src/Orders/History.antt =====
-- What the history of modifications holds: a snapshot is copied from the one before it, and the first
-- one is empty.
use auto_test_poc.Base.{
  ◌≡◌, refl, ap, Bool, true, false, List, [], ◌∷◌, All, All-append, none, some, Bool-cases, inl,
  inr, ◌⊎◌,
}
use auto_test_poc.Py.Exceptions.{Result, ok, err, attribute_error}
use auto_test_poc.Py.State.{Action, ◌>>◌, modify}
use auto_test_poc.Py.Text.{Text, codes}
use auto_test_poc.Py.Dict.{Dict, lookup}
use auto_test_poc.Orders.Value.{Floats, Value}
use auto_test_poc.Orders.Kwargs.{normalize_kwargs}
use auto_test_poc.Orders.State.{Order, make_order}
use auto_test_poc.Orders.Queue.{
  Queue, Prefix, old_prefix, prev_prefix, last, before_last, push_modify, pop_modify, pop_queue,
  prefix_of, prefixed_value, get_attribute, is_member, modify_attributes,
}
use auto_test_poc.Orders.Handlers.{store, close_with, fill, bust}
use auto_test_poc.Orders.Events.{
  Event, new_order, ordering, ordered, reject, modifying, modified, mod_reject, cancel, canceling,
  canceled, cxl_reject, expire, dfd, callback, run,
}
use auto_test_poc.Orders.Events
use auto_test_poc.Orders.Handlers

module _ {F : Type 0} where
  -- Every snapshot is empty.
  abbrev pub Blank : Order F → Type 0
  Blank o = All (λ (d : Dict (Value F)). d ≡ []) o.queue

  abbrev Keeps : Action (Order F) (Unit {0}) → Type 0
  Keeps m = (o : Order F) → Blank o → Blank (m o).1

  Keeps-then : (m k : Action (Order F) (Unit {0})) → Keeps m → Keeps k → Keeps (m >> k)
  Keeps-then m k hm hk o h = go (m o) (hm o h)
    where
      go : (p : Result (Unit {0}) × Order F) → Blank p.1 → Blank (((λ _. p) >> k) o).1
      go (ok a, o') b = hk o' b
      go (err e, o') b = b

  Keeps-store :
      (num : Floats F) (compute : Order F → Result (Value F)) (set : Value F → Order F → Order F)
      → ((v : Value F) (o : Order F) → Blank o → Blank (set v o))
      → Keeps (store num compute set)
  Keeps-store num compute set hs o h = go (compute o)
    where
      go : (r : Result (Value F)) → Blank (store num (λ _. r) set o).1
      go (ok v) = hs v o h
      go (err e) = h

  last-blank :
      (q : Queue F) → All (λ (d : Dict (Value F)). d ≡ []) q → (last q ≡ none) ⊎ (last q ≡ some [])
  last-blank [] h = inl refl
  last-blank (d ∷ []) h = inr (ap some h.0)
  last-blank (d ∷ e ∷ ds) h = last-blank (e ∷ ds) h.1

  Keeps-push_modify : Keeps push_modify
  unfolding push_modify
  Keeps-push_modify o h = elim (last-blank o.queue h) [
    | inl e ↦ rw (e, push_modify) h
    | inr e ↦
        rw (e, push_modify)
          (All-append (λ (d : Dict (Value F)). d ≡ []) o.queue ([] ∷ []) h (refl, tt))
  ]

  module _ (num : Floats F) where
    pop_queue-blank :
        (restore : Bool) (q : Queue F)
        → All (λ (d : Dict (Value F)). d ≡ []) q
        → All (λ (d : Dict (Value F)). d ≡ []) (pop_queue num restore q).1
    unfolding pop_queue
    pop_queue-blank restore [] h = tt
    pop_queue-blank false (d ∷ ds) h = h.1
    pop_queue-blank true (d ∷ []) h = tt
    pop_queue-blank true (d ∷ e ∷ ds) h = rw (h.0, h.1.0) (refl, h.1.1)

    Keeps-pop_modify : (restore : Bool) → Keeps (pop_modify num restore)
    unfolding pop_modify
    Keeps-pop_modify restore o h = pop_queue-blank restore o.queue h

    Keeps-popped :
        (kwargs : Dict (Value F)) (k : Action (Order F) (Unit {0}))
        → Keeps k
        → Keeps (pop_modify num false >> Handlers.ordering num kwargs >> k)
    Keeps-popped kwargs k hk =
        Keeps-then (pop_modify num false >> Handlers.ordering num kwargs) k
          (Keeps-then (pop_modify num false) (Handlers.ordering num kwargs) (Keeps-pop_modify false)
            (λ o h. h))
          hk

    Keeps-callback : (event : Event) (kwargs : Dict (Value F)) → Keeps (callback num event kwargs)
    unfolding callback
    Keeps-callback new_order kwargs o h = h
    Keeps-callback ordering kwargs o h = h
    Keeps-callback ordered kwargs o h = h
    Keeps-callback reject kwargs o h = h
    Keeps-callback Events.modify kwargs o h =
        let ks = normalize_kwargs kwargs in
        let priced = push_modify >> Handlers.store_qty num ks >> Handlers.store_price num ks in
        Keeps-then priced (modify (Handlers.modify_ids num ks))
          (Keeps-then (push_modify >> Handlers.store_qty num ks) (Handlers.store_price num ks)
            (Keeps-then push_modify (Handlers.store_qty num ks) Keeps-push_modify
              (Keeps-store num _ _ (λ v o h. h)))
            (Keeps-store num _ _ (λ v o h. h)))
          (λ o h. h) o h
    Keeps-callback modifying kwargs o h = h
    Keeps-callback modified kwargs o h =
        Keeps-popped (normalize_kwargs kwargs) (close_with num (codes "rejected"))
          (Keeps-store num _ _ (λ v o h. h)) o h
    Keeps-callback mod_reject kwargs o h = Keeps-pop_modify true o h
    Keeps-callback cancel kwargs o h =
        Keeps-then push_modify (modify (Handlers.cancel_ids num (normalize_kwargs kwargs)))
          Keeps-push_modify (λ o h. h) o h
    Keeps-callback canceling kwargs o h = h
    Keeps-callback canceled kwargs o h =
        Keeps-popped (normalize_kwargs kwargs) (modify (Handlers.set_status (codes "cancelled")))
          (λ o h. h) o h
    Keeps-callback cxl_reject kwargs o h = Keeps-pop_modify true o h
    Keeps-callback expire kwargs o h = h
    Keeps-callback dfd kwargs o h = h
    Keeps-callback Events.fill kwargs o h =
        let ks = normalize_kwargs kwargs in
        let raised = Handlers.add_executed num ks >> Handlers.raise_qty num in
        Keeps-then (raised >> close_with num (codes "filled")) (modify (Handlers.set_accounts ks))
          (Keeps-then raised (close_with num (codes "filled"))
            (Keeps-then (Handlers.add_executed num ks) (Handlers.raise_qty num)
              (Keeps-store num _ _ (λ v o h. h)) (Keeps-store num _ _ (λ v o h. h)))
            (Keeps-store num _ _ (λ v o h. h)))
          (λ o h. h) o h
    Keeps-callback Events.bust kwargs o h =
        let ks = normalize_kwargs kwargs in
        Keeps-then (Handlers.sub_executed num ks >> Handlers.reopen num)
          (modify (Handlers.set_accounts ks))
          (Keeps-then (Handlers.sub_executed num ks) (Handlers.reopen num)
            (Keeps-store num _ _ (λ v o h. h)) (Keeps-store num _ _ (λ v o h. h)))
          (λ o h. h) o h

    pub Keeps-run : (calls : List (Event × Dict (Value F))) → Keeps (run num calls)
    unfolding run
    Keeps-run [] o h = h
    Keeps-run ((event, kwargs) ∷ calls) o h =
        Keeps-then (callback num event kwargs) (run num calls) (Keeps-callback event kwargs)
          (Keeps-run calls) o h

    pub make_order-Blank : (kwargs : Dict (Value F)) → Blank (make_order num kwargs)
    unfolding make_order
    make_order-Blank kwargs = (refl, tt)

  before_last-blank :
      (q : Queue F)
      → All (λ (d : Dict (Value F)). d ≡ []) q
      → (before_last q ≡ none) ⊎ (before_last q ≡ some [])
  before_last-blank [] h = inl refl
  before_last-blank (d ∷ []) h = inl refl
  before_last-blank (d ∷ e ∷ []) h = inr (ap some h.0)
  before_last-blank (d ∷ e ∷ f ∷ ds) h = before_last-blank (e ∷ f ∷ ds) h.1

  prefixed-blank :
      (prefix : Prefix) (attr : Text) (q : Queue F)
      → All (λ (d : Dict (Value F)). d ≡ []) q
      → prefixed_value prefix attr q ≡ err attribute_error
  unfolding lookup
  prefixed-blank old_prefix attr [] h = refl
  prefixed-blank old_prefix attr (d ∷ ds) h = rw h.0 refl
  prefixed-blank prev_prefix attr q h = elim (before_last-blank q h) [
    | inl e ↦ rw e refl
    | inr e ↦ rw e refl
  ]

  get_attribute-Blank :
      (o : Order F) (name attr : Text) (prefix : Prefix)
      → Blank o
      → prefix_of name ≡ some (prefix, attr)
      → get_attribute name o ≡ err attribute_error
  unfolding get_attribute
  get_attribute-Blank o name attr prefix h e =
      rw (e, get_attribute)
        (elim (Bool-cases (is_member attr modify_attributes)) [
          | inl known ↦ rw known (prefixed-blank prefix attr o.queue h)
          | inr other ↦ rw other refl
        ])

-- No sequence of calls on a new order, whether it returns or raises, puts a value into the history: an
-- attribute `old_…` or `prev_…` raises `AttributeError` always.
pub history-unset :
    {F : Type 0} (num : Floats F) (calls : List (Event × Dict (Value F))) (kwargs : Dict (Value F))
    (name attr : Text) (prefix : Prefix)
    → prefix_of name ≡ some (prefix, attr)
    → get_attribute name (run num calls (make_order num kwargs)).1 ≡ err attribute_error
history-unset num calls kwargs name attr prefix e =
    get_attribute-Blank _ name attr prefix
      (Keeps-run num calls (make_order num kwargs) (make_order-Blank num kwargs)) e
