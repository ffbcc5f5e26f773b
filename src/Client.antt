-- ===== src/Client.antt =====
-- `FixClient` of common/fix_cli.py: what it queues for sending, and its sequence numbers.
pub mod Numbers
pub mod Receive
use auto_test_poc.Base.{
  ℕ, ◌+◌, ◌%◌, Bool, true, false, List, [], ◌∷◌, ◌++◌, Option, none, some, map, if◌then◌else◌,
  get_or, length,
}
use auto_test_poc.Base.Int.{ℤ, pos, ◌+ℤ◌, ltb_ℤ, eq_ℤ}
use auto_test_poc.Py.Exceptions.{Result, ok, err, Error, value_error, key_error, ◌>>=◌, or_raise}
use auto_test_poc.Py.State.{Action, skip}
use auto_test_poc.Py.Text.{Text, codes, join, text_eq}
use auto_test_poc.Py.Decimal.{print_ℕ, print_ℤ, parse_int}
use auto_test_poc.Py.Dict.{Dict, lookup, contains, insert}
use auto_test_poc.Codec.{soh, pairs, field, checksum}
use auto_test_poc.Orders.Value.{ltb_text}
use auto_test_poc.Messages.Enums.MsgType.{MsgType, msg_type_value}
use auto_test_poc.Messages.Enums.MsgType

-- What the client is constructed with, its counters, and the texts that wait for the send thread.
pub record FixClient : Type 0 where
  pub sender_comp_id : Text
  pub target_comp_id : Text
  pub heartbeat_interval : ℤ
  pub username : Option Text
  pub password : Option Text
  pub out_seq_num : ℕ
  pub in_seq_num : ℤ
  pub send_queue : List Text

-- `sorted` on pairs: by the number, and by the text where two numbers are equal.
abbrev pub is_before : ℤ × Text → ℤ × Text → Bool
is_before (j, v) (k, w) = if eq_ℤ j k then ltb_text v w else ltb_ℤ j k

unfoldable pub place_pair : ℤ × Text → List (ℤ × Text) → List (ℤ × Text)
place_pair p [] = p ∷ []
place_pair p (q ∷ ps) = let rest = place_pair p ps in if is_before q p then q ∷ rest else p ∷ q ∷ ps

abbrev pub sort_pairs : List (ℤ × Text) → List (ℤ × Text)
sort_pairs [] = []
sort_pairs (p ∷ ps) = place_pair p (sort_pairs ps)

-- `[f"8={message['8']}"] if "8" in message else []`
abbrev pub begin_part : Option Text → List Text
begin_part none = []
begin_part (some begin) = (codes "8=" ++ begin) ∷ []

-- The text up to the checksum.
abbrev pub client_front : Text → List Text → Text
client_front begin parts =
    let body = join soh parts in
    (codes "8=" ++ begin) ++ soh ∷ (codes "9=" ++ print_ℕ (length body)) ++ soh ∷ body ++ soh ∷ []

-- `FixClient._dict_to_fix`
unfoldable pub client_text : Dict Text → Result Text
client_text message = pairs message >>= λ tags.
    or_raise (lookup (codes "8") message) key_error >>= λ begin.
    let fix_str =
      client_front begin (begin_part (lookup (codes "8") message) ++ map field (sort_pairs tags)) in
    ok (fix_str ++ (codes "10=" ++ checksum fix_str) ++ soh ∷ [])

-- `if k not in message: message[k] = value`
abbrev pub default_field : Text → Text → Dict Text → Dict Text
default_field k value message = if contains k message then message else insert k value message

-- The header of `send_message` in front of the number, and behind it.
abbrev pub addressed : FixClient → Dict Text → Dict Text
addressed c message = default_field (codes "56") c.target_comp_id (
    default_field (codes "49") c.sender_comp_id
      (default_field (codes "8") (codes "FIX.4.4") message))

-- `MsgSeqNum`, which is taken from the counter where it is missing.
abbrev pub numbered : FixClient → Dict Text → Dict Text × FixClient
numbered c message = if contains (codes "34") message then (message, c) else (
  insert (codes "34") (print_ℕ c.out_seq_num) message,
  record c { out_seq_num = c.out_seq_num + 1 },
)

-- `self.send_queue.put(…)`, where the text could be made
abbrev pub queued : Result Text → Action FixClient (Unit {0})
queued (ok text) c = (ok tt, record c { send_queue = c.send_queue ++ text ∷ [] })
queued (err e) c = (err e, c)

-- The checksum that is put into the dict is passed over when the text is made again.
abbrev pub queue_text : Dict Text → Action FixClient (Unit {0})
queue_text message = queued (
    client_text message >>= λ fix_str. client_text (insert (codes "10") (checksum fix_str) message))

unfoldable pub send_message : Text → Dict Text → Action FixClient (Unit {0})
unfolding client_text
send_message now message c =
    let (complete, c') = numbered c (addressed c message) in
    queue_text (default_field (codes "52") now complete) c'

abbrev pub create_message : Text → Text → FixClient → Dict Text
create_message now msg_type c =
    (codes "8", codes "FIX.4.4")
    ∷ (codes "35", msg_type)
    ∷ (codes "49", c.sender_comp_id)
    ∷ (codes "56", c.target_comp_id)
    ∷ (codes "34", print_ℕ c.out_seq_num)
    ∷ (codes "52", now)
    ∷ []

-- `if value: message[k] = value`
abbrev pub set_truthy : Text → Option Text → Dict Text → Dict Text
set_truthy k none message = message
set_truthy k (some []) message = message
set_truthy k (some (x ∷ s)) message = insert k (x ∷ s) message

abbrev pub logon_message : Text → FixClient → Dict Text
logon_message now c =
    insert (codes "108") (print_ℤ c.heartbeat_interval)
      (insert (codes "98") (codes "0") (create_message now (msg_type_value MsgType.logon) c))

unfoldable pub logon : Text → Action FixClient (Unit {0})
unfolding send_message
logon now c =
    send_message now
      (set_truthy (codes "554") c.password
        (set_truthy (codes "553") c.username (logon_message now c)))
      c

unfoldable pub logout : Text → Action FixClient (Unit {0})
unfolding send_message
logout now c = send_message now (create_message now (msg_type_value MsgType.logout) c) c

abbrev pub heartbeat_message : Text → FixClient → Dict Text
heartbeat_message now c = create_message now (msg_type_value MsgType.heartbeat) c

unfoldable pub send_heartbeat : Text → Action FixClient (Unit {0})
unfolding send_message
send_heartbeat now c = send_message now (heartbeat_message now c) c

abbrev pub test_request_message : Text → Text → FixClient → Dict Text
test_request_message now test_req_id c =
    insert (codes "112") test_req_id (create_message now (msg_type_value MsgType.test_request) c)

unfoldable pub send_test_request : Text → Text → Action FixClient (Unit {0})
unfolding send_message
send_test_request now test_req_id c = send_message now (test_request_message now test_req_id c) c

-- `_handle_test_request`: an empty and a missing TestReqID are passed over.
abbrev pub answer_test_request : Text → Option Text → Action FixClient (Unit {0})
answer_test_request now none = skip
answer_test_request now (some []) = skip
answer_test_request now (some (x ∷ s)) = λ c.
    send_message now
      (insert (codes "112") (x ∷ s) (create_message now (msg_type_value MsgType.heartbeat) c)) c

unfoldable pub handle_test_request : Text → Dict Text → Action FixClient (Unit {0})
handle_test_request now message = answer_test_request now (lookup (codes "112") message)
