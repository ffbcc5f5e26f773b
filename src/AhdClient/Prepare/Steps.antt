-- ===== src/AhdClient/Prepare/Steps.antt =====
-- `AHDClient._prepare_msg` and `AHDClient.send_msg` of common/ahd_cli.py, step by step.
use auto_test_poc.Base.{Bool, true, false, List, [], ◌∷◌, ◌++◌, Option, none, some}
use auto_test_poc.Base.Int.{ℤ}
use auto_test_poc.Py.Exceptions.{Result, name_error, index_error}
use auto_test_poc.Py.Exceptions as Exceptions
use auto_test_poc.Py.Text.{Text, codes}
use auto_test_poc.Py.State.{Action, pure, gets, lift, expect, modify, when, ◌>>=◌, ◌>>◌}
use auto_test_poc.Ahd.Calendar.{Date, Time}
use auto_test_poc.AhdClient.{AhdClient}
use auto_test_poc.AhdClient.Internal.{generate_next_internal}
use auto_test_poc.AhdClient.Prepare.{
  esp_common, operation, new_order, other, Layer, Message, OperationCommon, add_base, esp_of,
  put_esp, numbered_by, fill_esp, count_sent, fill_operation, change_operation, operation_of,
}

-- The list `common_layers` of bases and layers. Its expression names AdminCommonOULayers,
-- OrderCommonOLayers and ESPCommonLayers, which neither this module nor one that it imports from binds.
abbrev pub common_layers : Result (List (Layer × List Text))
common_layers = Exceptions.err name_error

-- The loop over such a list.
abbrev pub add_layers : List (Layer × List Text) → Message → Message
add_layers [] msg = msg
add_layers ((base, layers) ∷ common) msg = add_layers common (add_base base layers msg)

-- The fields of ESPCommon, and the numbers of the client.
abbrev pub stamp : Date × Time → Message → Action AhdClient Message
stamp now msg = expect (esp_of msg) index_error >>= λ e.
    numbered_by e.seq_no (λ c. c.last_sent_seq_no) >>= λ n.
    gets (λ c. fill_esp c now n e) >>= λ filled.
    modify (count_sent filled) >> pure (put_esp filled msg)

-- The common fields of the layers of orders and administration.
abbrev pub fill_operations : AhdClient → Message → Message
fill_operations c msg = change_operation (codes "AdminCommonQU") (fill_operation c) (
    change_operation (codes "AdminCommonOU") (fill_operation c) (
      change_operation (codes "OrderCommonQ") (fill_operation c)
        (change_operation (codes "OrderCommonO") (fill_operation c) msg)))

abbrev pub set_order_number : ℤ → OperationCommon → OperationCommon
set_order_number n o = record o { order_entry_seq_no = some n }

abbrev pub count_order : ℤ → AhdClient → AhdClient
count_order n c = record c { last_sent_order_entry_seq_no = some n }

-- The number of an order, which only OrderCommonO counts up.
abbrev pub number_as : Text → Bool → OperationCommon → Message → Action AhdClient Message
number_as cls counts o msg =
    numbered_by o.order_entry_seq_no (λ c. c.last_sent_order_entry_seq_no) >>= λ n.
    when counts (modify (count_order n)) >> pure (change_operation cls (set_order_number n) msg)

abbrev pub number_query : Option OperationCommon → Message → Action AhdClient Message
number_query none = pure
number_query (some o) = number_as (codes "OrderCommonQ") false o

abbrev pub number_order : Option OperationCommon → Message → Action AhdClient Message
number_order (some o) msg = number_as (codes "OrderCommonO") true o msg
number_order none msg = number_query (operation_of (codes "OrderCommonQ") msg) msg

-- The identifier of a new order that has none.
abbrev pub identify : Message → Action AhdClient Message
identify [] = pure []
identify (new_order none ∷ msg) =
    gets (λ c. generate_next_internal c.last_sent_internal) >>= λ next. lift next >>= λ internal.
    modify (λ c. record c { last_sent_internal = internal })
    >> pure (new_order (some internal) ∷ msg)
identify (new_order (some internal) ∷ msg) = pure (new_order (some internal) ∷ msg)
identify (esp_common e ∷ msg) = identify msg >>= λ rest. pure (esp_common e ∷ rest)
identify (operation cls o ∷ msg) = identify msg >>= λ rest. pure (operation cls o ∷ rest)
identify (other cls ∷ msg) = identify msg >>= λ rest. pure (other cls ∷ rest)

-- What follows on the numbers of ESPCommon; `to_bytes` builds a packet.
abbrev pub finish_msg : (Message → Result Text) → Message → Action AhdClient Text
finish_msg to_bytes msg = gets (λ c. fill_operations c msg) >>= λ filled.
    number_order (operation_of (codes "OrderCommonO") filled) filled >>= λ numbered.
    identify numbered >>= λ identified. lift (to_bytes identified)

-- What follows on the loop over the layers.
unfoldable pub complete_msg :
    Date × Time → (Message → Result Text) → Message → Action AhdClient Text
complete_msg now to_bytes layered = stamp now layered >>= finish_msg to_bytes

-- `_prepare_msg`
unfoldable pub prepare_msg : Date × Time → (Message → Result Text) → Message → Action AhdClient Text
unfolding complete_msg
prepare_msg now to_bytes msg =
    lift common_layers >>= λ common. complete_msg now to_bytes (add_layers common msg)

-- `send_msg`: the packet is put into the queue of a client that is started.
unfoldable pub send_msg : Date × Time → (Message → Result Text) → Message → Action AhdClient Text
unfolding prepare_msg
send_msg now to_bytes msg = prepare_msg now to_bytes msg >>= λ prepared.
    modify (λ c. record c { send_queue = c.send_queue ++ prepared ∷ [] }) >> pure prepared
