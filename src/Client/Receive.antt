-- ===== src/Client/Receive.antt =====
-- The receiving side of `FixClient` of common/fix_cli.py: its thread, the handlers that it registers for
-- itself, and `disconnect`.
pub mod Fields
use auto_test_poc.Base.{
  ℕ, zero, suc, ◌+◌, Bool, true, false, List, [], ◌∷◌, ◌++◌, Option, none, some, if◌then◌else◌,
  get_or, length,
}
use auto_test_poc.Base.Int.{ℤ, pos, ◌+ℤ◌}
use auto_test_poc.Py.Text.{Text, codes, text_eq, partition}
use auto_test_poc.Py.Decimal.{parse_int}
use auto_test_poc.Py.Dict.{Dict, lookup}
use auto_test_poc.Codec.{soh, fix_to_dict}
use auto_test_poc.Client.{FixClient, logout, handle_test_request}

-- The client with its receive queue; `connected` says that it has a socket.
pub record Receiver : Type 0 where
  pub client : FixClient
  pub receive_queue : List Text
  pub connected : Bool

-- `self.logout()`, whose exceptions are passed over
abbrev pub try_logout : Text → Receiver → Receiver
try_logout now r = record r { client = (logout now r.client).1 }

-- `disconnect`: the queues are emptied behind the logout.
unfoldable pub disconnect : Text → Receiver → Receiver
disconnect now r =
    let quit = if r.connected then try_logout now r else r in
    record quit {
      connected = false;
      receive_queue = [];
      client = record quit.client { send_queue = [] };
    }

-- The handlers of a message type: those of Heartbeat and Logon only log.
unfoldable pub run_handlers : Text → Text → Dict Text → Receiver → Receiver
unfolding disconnect handle_test_request
run_handlers now msg_type message r =
    if text_eq msg_type (codes "1")
    then record r { client = (handle_test_request now message r.client).1 }
    else if text_eq msg_type (codes "5")
    then disconnect now r
    else r

-- `int(message["34"]) + 1`: `none` where it raises ValueError
abbrev pub counted_in : Option Text → Receiver → Option Receiver
counted_in none r = some r
counted_in (some s) r = elim (parse_int s) [
  | none ↦ none
  | some n ↦ some (record r { client = record r.client { in_seq_num = n +ℤ pos 1 } })
]

-- `_handle_message`
unfoldable pub handle_received : Text → Dict Text → Receiver → Option Receiver
unfolding run_handlers
handle_received now message r = elim (counted_in (lookup (codes "34") message) r) [
  | none ↦ none
  | some counted ↦ some (run_handlers now (get_or (lookup (codes "35") message) []) message counted)
]

-- What the thread does with a text; one that raises an exception is only logged.
unfoldable pub take_text : Text → Text → Receiver → Receiver
unfolding handle_received
take_text now message r = elim (handle_received now (fix_to_dict message) r) [
  | none ↦ r
  | some handled ↦ record handled { receive_queue = handled.receive_queue ++ message ∷ [] }
]

-- `while chr(1) in buffer`; `none` means that the fuel ran out.
unfoldable pub take_texts : ℕ → Text → Text → Receiver → Option (Receiver × Text)
take_texts zero now buffer r = none
take_texts (suc fuel) now buffer r = elim (partition soh buffer) [
  | none ↦ some (r, buffer)
  | some (message, rest) ↦ take_texts fuel now rest (take_text now (message ++ soh ∷ []) r)
]

-- `_receive_loop` on the texts that the bytes of the socket decode to. A read that gives nothing, and so
-- an empty text, ends the loop.
unfoldable pub receive_texts : Text → List Text → Text → Receiver → Option (Receiver × Text)
receive_texts now [] buffer r = some (r, buffer)
receive_texts now ([] ∷ chunks) buffer r = some (r, buffer)
receive_texts now ((x ∷ received) ∷ chunks) buffer r =
    elim (take_texts (suc (length (buffer ++ x ∷ received))) now (buffer ++ x ∷ received) r) [
      | none ↦ none
      | some (r', rest) ↦ if r'.connected then receive_texts now chunks rest r' else some (r', rest)
    ]
