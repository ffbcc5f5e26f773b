-- ===== src/Orders/Queue.antt =====
-- The history of modifications: `push_modify`, `pop_modify` and `__getattr__` of `Order` of
-- common/test_utils.py.
use auto_test_poc.Base.{
  Bool, true, false, not, ◌&&◌, ◌||◌, List, [], ◌∷◌, ◌++◌, Option, none, some, if◌then◌else◌, map,
  drop,
}
use auto_test_poc.Py.Exceptions.{
  Result, ok, err, index_error, key_error, attribute_error, ◌>>=◌, or_raise,
}
use auto_test_poc.Py.State.{Action, skip, ◌>>◌}
use auto_test_poc.Py.Text.{Text, codes, text_eq, starts_with}
use auto_test_poc.Py.Dict.{Dict, lookup, insert, remove, contains}
use auto_test_poc.Orders.Value.{Floats, Value, is_null, sub}
use auto_test_poc.Orders.Kwargs.{get}
use auto_test_poc.Orders.State.{Order}

module _ {F : Type 0} where
  -- `queue[-1]`
  abbrev pub last : List (Dict (Value F)) → Option (Dict (Value F))
  last [] = none
  last (d ∷ []) = some d
  last (d ∷ e ∷ ds) = last (e ∷ ds)

  -- `queue[-2]`
  abbrev pub before_last : List (Dict (Value F)) → Option (Dict (Value F))
  before_last [] = none
  before_last (d ∷ []) = none
  before_last (d ∷ e ∷ []) = some d
  before_last (d ∷ e ∷ f ∷ ds) = before_last (e ∷ f ∷ ds)

  -- `push_modify`
  unfoldable pub push_modify : Order F → Result (Unit {0}) × Order F
  push_modify o = elim (last o.queue) [
    | none ↦ (err index_error, o)
    | some d ↦ (ok tt, record o { queue = o.queue ++ d ∷ [] })
  ]

  -- `set(d) | set(e)`, in some order.
  abbrev pub keys_without : Dict (Value F) → Dict (Value F) → List Text
  keys_without seen [] = []
  keys_without seen ((k, v) ∷ d) =
      let rest = keys_without seen d in if contains k seen then rest else k ∷ rest

  abbrev pub all_keys : Dict (Value F) → Dict (Value F) → List Text
  all_keys d e = map (λ (p : Text × Value F). p.0) d ++ keys_without d e

abbrev pub is_numeric : Text → Bool
is_numeric attr = text_eq attr (codes "order_qty") || text_eq attr (codes "order_price")

abbrev pub modify_attributes : List Text
modify_attributes =
    codes "order_qty" ∷ codes "order_price" ∷ codes "cl_ord_id" ∷ codes "time_in_force" ∷ []

abbrev pub is_member : Text → List Text → Bool
is_member k [] = false
is_member k (j ∷ ks) = let rest = is_member k ks in if text_eq k j then true else rest

abbrev pub Queue : Type 0 → Type 0
Queue F = List (Dict (Value F))

module _ {F : Type 0} (num : Floats F) where
  -- `queue[i][attr] -= diff`
  unfoldable pub shift : Text → Value F → Dict (Value F) → Result (Dict (Value F))
  shift attr diff d = elim (lookup attr d) [
    | none ↦ err key_error
    | some v ↦ sub num v diff >>= λ w. ok (insert attr w d)
  ]

  -- The loop over the queue: a failure leaves the snapshots from there on as they are.
  unfoldable pub shift_all : Text → Value F → Action (Queue F) (Unit {0})
  unfolding shift
  shift_all attr diff [] = (ok tt, [])
  shift_all attr diff (d ∷ ds) =
      let (r, rest) = shift_all attr diff ds in
      elim (shift attr diff d) [ ok e ↦ (r, e ∷ rest) | err x ↦ (err x, d ∷ ds) ]

  -- A value that was there before: a number moves the whole history, another value is put back.
  unfoldable pub put_back : Text → Value F → Action (Queue F) (Unit {0})
  unfolding shift_all
  put_back attr v [] = (err index_error, [])
  put_back attr v (d ∷ ds) =
      let w = get attr d in
      if is_numeric attr && not (is_null v) && not (is_null w)
      then elim (sub num w v) [ ok diff ↦ shift_all attr diff (d ∷ ds) | err x ↦ (err x, d ∷ ds) ]
      else (ok tt, insert attr v d ∷ ds)

  -- One round of the loop in `pop_modify`.
  unfoldable pub restore_attr : Dict (Value F) → Text → Action (Queue F) (Unit {0})
  unfolding put_back
  restore_attr old_old attr [] = (err index_error, [])
  restore_attr old_old attr (d ∷ ds) = elim (lookup attr old_old) [
    | none ↦ if contains attr d then (ok tt, remove attr d ∷ ds) else (err key_error, d ∷ ds)
    | some v ↦ put_back attr v (d ∷ ds)
  ]

  abbrev pub restore_attrs : Dict (Value F) → List Text → Action (Queue F) (Unit {0})
  restore_attrs old_old [] = skip
  restore_attrs old_old (attr ∷ attrs) = restore_attr old_old attr >> restore_attrs old_old attrs

  -- `pop_modify` on the queue
  unfoldable pub pop_queue : Bool → Action (Queue F) (Unit {0})
  unfolding restore_attr
  pop_queue restore [] = (err index_error, [])
  pop_queue false (old_old ∷ ds) = (ok tt, ds)
  pop_queue true (old_old ∷ []) = (err index_error, [])
  pop_queue true (old_old ∷ d ∷ ds) = restore_attrs old_old (all_keys old_old d) (d ∷ ds)

  unfoldable pub pop_modify : Bool → Action (Order F) (Unit {0})
  unfolding pop_queue
  pop_modify restore o =
      let (r, queue) = pop_queue restore o.queue in (r, record o { queue = queue })

-- `__getattr__` for a name that is no attribute: the oldest snapshot's value for `old_…`, the one
-- before the last for `prev_…`.
pub data Prefix : Type 0 where
  old_prefix prev_prefix : Prefix

abbrev pub prefix_of : Text → Option (Prefix × Text)
prefix_of name =
    if starts_with (codes "old_") name
    then some (old_prefix, drop 4 name)
    else if starts_with (codes "prev_") name
    then some (prev_prefix, drop 5 name)
    else none

module _ {F : Type 0} where
  abbrev pub value_in : Text → Option (Dict (Value F)) → Result (Value F)
  value_in attr none = err attribute_error
  value_in attr (some d) = or_raise (lookup attr d) attribute_error

  abbrev pub prefixed_value : Prefix → Text → Queue F → Result (Value F)
  prefixed_value old_prefix attr [] = err attribute_error
  prefixed_value old_prefix attr (d ∷ ds) = value_in attr (some d)
  prefixed_value prev_prefix attr ds = value_in attr (before_last ds)

  -- `queue[-1][name]`
  abbrev pub latest_value : Text → Option (Dict (Value F)) → Result (Value F)
  latest_value attr none = err index_error
  latest_value attr (some d) = value_in attr (some d)

  unfoldable pub get_attribute : Text → Order F → Result (Value F)
  get_attribute name o = elim (prefix_of name) [
    | none ↦
        if is_member name modify_attributes
        then latest_value name (last o.queue)
        else err attribute_error
    | some (prefix, attr) ↦
        if is_member attr modify_attributes
        then prefixed_value prefix attr o.queue
        else err attribute_error
  ]
