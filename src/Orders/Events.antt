-- ===== src/Orders/Events.antt =====
-- The callbacks of `GenericChecker` of common/test_utils.py, and sequences of them on one order.
use auto_test_poc.Base.{List, [], ◌∷◌}
use auto_test_poc.Py.State.{Action, skip, ◌>>◌}
use auto_test_poc.Py.Dict.{Dict}
use auto_test_poc.Orders.Value.{Floats, Value}
use auto_test_poc.Orders.State.{Order}
use auto_test_poc.Orders.Handlers

pub data Event : Type 0 where
  new_order ordering ordered reject modify modifying modified mod_reject : Event
  cancel canceling canceled cxl_reject expire dfd fill bust : Event

module _ {F : Type 0} (num : Floats F) where
  -- `GenericChecker.callback`: each of the names has a method of the order.
  unfoldable pub callback : Event → Dict (Value F) → Action (Order F) (Unit {0})
  callback new_order kwargs = Handlers.new_order num kwargs
  callback ordering kwargs = Handlers.ordering num kwargs
  callback ordered kwargs = Handlers.ordered num kwargs
  callback reject kwargs = Handlers.reject num kwargs
  callback modify kwargs = Handlers.modify_order num kwargs
  callback modifying kwargs = Handlers.modifying num kwargs
  callback modified kwargs = Handlers.modified num kwargs
  callback mod_reject kwargs = Handlers.mod_reject num kwargs
  callback cancel kwargs = Handlers.cancel num kwargs
  callback canceling kwargs = Handlers.canceling num kwargs
  callback canceled kwargs = Handlers.canceled num kwargs
  callback cxl_reject kwargs = Handlers.cxl_reject num kwargs
  callback expire kwargs = Handlers.expire num kwargs
  callback dfd kwargs = Handlers.dfd num kwargs
  callback fill kwargs = Handlers.fill num kwargs
  callback bust kwargs = Handlers.bust num kwargs

  -- A test's calls, up to the first that raises.
  unfoldable pub run : List (Event × Dict (Value F)) → Action (Order F) (Unit {0})
  run [] = skip
  run ((event, kwargs) ∷ calls) = callback event kwargs >> run calls
