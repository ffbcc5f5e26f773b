-- ===== src/FixChecker/Errors.antt =====
-- What the validation of a report makes of the checker, for any list of expected fields.
use auto_test_poc.Base.{
  ◌≡◌, ◌⊎◌, inl, inr, refl, ap, ◌∙◌, false, not, ◌&&◌, List, [], ◌∷◌, ◌++◌, some, if◌then◌else◌,
  Bool-cases,
}
use auto_test_poc.Py.Exceptions.{Result, err, assertion_error}
use auto_test_poc.Py.State.{lift, ◌>>=◌, ◌>>◌}
use auto_test_poc.Py.Text.{Text, codes}
use auto_test_poc.Py.Dict.{Dict, lookup}
use auto_test_poc.Messages.Enums.Field.{Field}
use auto_test_poc.Messages.Enums.Field as Tag
use auto_test_poc.Messages.Enums.MsgType.{msg_type_value, execution_report}
use auto_test_poc.Orders.Value.{Floats, Value, text, is_null}
use auto_test_poc.Orders.Kwargs.{get}
use auto_test_poc.Orders.State.{Order}
use auto_test_poc.Orders.Events as Events
use auto_test_poc.Orders.Events.{Event, callback}
use auto_test_poc.FixChecker.{extract_field, validate_fix_message, expected_fill}
use auto_test_poc.FixChecker.Steps.{
  Checker, is_empty, pop_first, advance, check_report, on_report, fill,
}
use auto_test_poc.FixChecker.Agreement.{Fits, Agrees, Decides, validate_fix_message-Agrees}

-- What the code expects of a message.
abbrev pub IsExpected : {F : Type 0} → Dict Text → List (Field × Value F) → Type 0
IsExpected {F} msg fields =
    Fits {F = F} (text (msg_type_value execution_report)) (extract_field Tag.msg_type msg)
    × Agrees msg fields

-- The order is advanced by the event if `AsWanted` holds of the message; if not, AssertionError is raised,
-- and nothing has changed.
abbrev pub IsChecked :
    {F : Type 0}
    → Floats F
    → Event
    → Dict (Value F)
    → Type 0
    → Checker F
    → Result (Unit {0}) × Checker F
    → Type 0
IsChecked num event kwargs AsWanted c outcome =
    ((outcome ≡ (
      (callback num event kwargs c.order).0,
      record c { order = (callback num event kwargs c.order).1 },
    ))
      × AsWanted)
    ⊎ ((outcome ≡ (err assertion_error, c)) × (¬ AsWanted))

module _ {F : Type 0} (num : Floats F) (number : F → Text) (symbol : Value F → Value F) where
  pub check_report-IsChecked :
      (expected : Order F → Dict (Value F) → List (Field × Value F)) (event : Event)
      (kwargs : Dict (Value F)) (msg : Dict Text) (c : Checker F)
      → is_empty msg ≡ false
      → IsChecked num event kwargs
          (IsExpected msg (expected c.order kwargs))
          c
          (check_report num number symbol expected event kwargs msg c)
  check_report-IsChecked expected event kwargs msg c present =
      decided (validate_fix_message msg execution_report (expected c.order kwargs))
        (validate_fix_message-Agrees msg execution_report (expected c.order kwargs)) refl
    where
      start :
          check_report num number symbol expected event kwargs msg c
          ≡ (lift (validate_fix_message msg execution_report (expected c.order kwargs))
                >> advance num number symbol event kwargs)
              c
      start = rw present refl

      decided :
          (r : Result (Unit {0}))
          → Decides r (IsExpected msg (expected c.order kwargs))
          → validate_fix_message msg execution_report (expected c.order kwargs) ≡ r
          → IsChecked num event kwargs
              (IsExpected msg (expected c.order kwargs))
              c
              (check_report num number symbol expected event kwargs msg c)
      decided r (inl (e, holds)) h =
          inl
            (start ∙ ap (λ v. (lift v >> advance num number symbol event kwargs) c) (h ∙ e), holds)
      decided r (inr (e, fails)) h =
          inr
            (start ∙ ap (λ v. (lift v >> advance num number symbol event kwargs) c) (h ∙ e), fails)

  -- The message is taken from the queue.
  pub popped :
      (expected : Order F → Dict (Value F) → List (Field × Value F)) (event : Event)
      (kwargs : Dict (Value F)) (msg : Dict Text) (queue : List (Dict Text)) (c : Checker F)
      → c.received ≡ msg ∷ queue
      → on_report num number symbol expected event kwargs c
        ≡ check_report num number symbol expected event kwargs msg (record c { received = queue })
  popped expected event kwargs msg queue c received =
      ap (λ q. (pop_first q >>= check_report num number symbol expected event kwargs) c) received

  -- The client after the exchange was asked for a fill, where there is one and the order is known to it.
  abbrev pub asked : Dict (Value F) → Value F → Value F → Checker F → Checker F
  asked kwargs qty price c = record c {
    fills =
        if c.has_exchange && not (is_null (get (codes "orderID") kwargs))
        then c.fills ++ (get (codes "orderID") kwargs, qty, price) ∷ []
        else c.fills;
  }

  pub fill-asked :
      (kwargs : Dict (Value F)) (qty price : Value F) (c : Checker F)
      → lookup (codes "execQty") kwargs ≡ some qty
      → lookup (codes "execPrice") kwargs ≡ some price
      → fill num number symbol kwargs c
        ≡ on_report num number symbol
            (expected_fill num number symbol)
            Events.fill
            kwargs
            (asked kwargs qty price c)
  unfolding fill
  fill-asked kwargs qty price c has_qty has_price =
      elim (Bool-cases (c.has_exchange && not (is_null (get (codes "orderID") kwargs)))) [
        | inl asks ↦ rw (asks, has_qty, has_price) refl
        | inr silent ↦ rw silent refl
      ]
