-- ===== src/Client/Numbers.antt =====
-- The sequence numbers of what the client sends.
use auto_test_poc.Base.{
  ◌+◌, ◌≡◌, refl, ap, ◌∙◌, false, [], ◌∷◌, Option, none, some, if◌then◌else◌, Bool-cases, inl, inr,
  is_some,
}
use auto_test_poc.Py.Exceptions.{Result, ok, err}
use auto_test_poc.Py.State.{Action}
use auto_test_poc.Py.Decimal.{print_ℕ}
use auto_test_poc.Py.Text.{Text, codes, text_eq}
use auto_test_poc.Py.Dict.{Dict, lookup, insert, contains, lookup-insert}
use auto_test_poc.Messages.Enums.MsgType.{msg_type_value}
use auto_test_poc.Messages.Enums.MsgType
use auto_test_poc.Client.{
  logon_message, heartbeat_message, test_request_message, FixClient, queued, numbered, addressed,
  default_field, send_message, create_message, set_truthy, logon, logout, send_heartbeat,
  send_test_request,
}

queued-number : (r : Result Text) (c : FixClient) → (queued r c).1.out_seq_num ≡ c.out_seq_num
queued-number (ok text) c = refl
queued-number (err e) c = refl

set_truthy-number :
    (k : Text) (o : Option Text) (message : Dict Text)
    → text_eq (codes "34") k ≡ false
    → lookup (codes "34") (set_truthy k o message) ≡ lookup (codes "34") message
set_truthy-number k none message h = refl
set_truthy-number k (some []) message h = refl
set_truthy-number k (some (x ∷ s)) message h =
    lookup-insert (codes "34") k (x ∷ s) message ∙ rw h refl

default_field-number :
    (k v : Text) (message : Dict Text)
    → text_eq (codes "34") k ≡ false
    → lookup (codes "34") (default_field k v message) ≡ lookup (codes "34") message
default_field-number k v message h = elim (Bool-cases (contains k message)) [
  | inl there ↦ rw there refl
  | inr missing ↦ rw missing (lookup-insert (codes "34") k v message ∙ rw h refl)
]

addressed-number :
    (c : FixClient) (message : Dict Text)
    → lookup (codes "34") (addressed c message) ≡ lookup (codes "34") message
addressed-number c message =
    default_field-number (codes "56") c.target_comp_id _ refl
    ∙ default_field-number (codes "49") c.sender_comp_id _ refl
    ∙ default_field-number (codes "8") (codes "FIX.4.4") message refl

numbered-number :
    (c : FixClient) (message : Dict Text)
    → (numbered c message).1.out_seq_num
      ≡ (if contains (codes "34") message then c.out_seq_num else c.out_seq_num + 1)
numbered-number c message = elim (Bool-cases (contains (codes "34") message)) [
  | inl there ↦ rw there refl
  | inr missing ↦ rw missing refl
]

-- Sending counts the number up where it takes it for the message, and not where the message has one:
-- whether it returns or raises.
pub send_message-number :
    (now : Text) (message : Dict Text) (c : FixClient)
    → (send_message now message c).1.out_seq_num
      ≡ (if contains (codes "34") message then c.out_seq_num else c.out_seq_num + 1)
unfolding send_message
send_message-number now message c =
    queued-number _ (numbered c (addressed c message)).1
    ∙ numbered-number c (addressed c message)
    ∙ ap (λ (o : Option Text). if is_some o then c.out_seq_num else c.out_seq_num + 1)
        (addressed-number c message)

-- `action` sends a message that has the number of the client, and the counter stays as it is.
abbrev pub SendsOwnNumber : Text → FixClient → Action FixClient (Unit {0}) → Type 0
SendsOwnNumber now c action =
    (message : Dict Text) × (action c ≡ send_message now message c)
    × (lookup (codes "34") (addressed c message) ≡ some (print_ℕ c.out_seq_num))
    × ((action c).1.out_seq_num ≡ c.out_seq_num)

sends_own :
    (now : Text) (message : Dict Text) (c : FixClient) (action : Action FixClient (Unit {0}))
    → action c ≡ send_message now message c
    → lookup (codes "34") message ≡ some (print_ℕ c.out_seq_num)
    → SendsOwnNumber now c action
sends_own now message c action sends own = (
  message,
  sends,
  addressed-number c message ∙ own,
  ap (λ r. r.1.out_seq_num) sends
      ∙ send_message-number now message c
      ∙ ap (λ (o : Option Text). if is_some o then c.out_seq_num else c.out_seq_num + 1) own,
)

-- A logon, a logout, a heartbeat and a test request each send a message in which the field MsgSeqNum is
-- the client's number, and leave the counter, which gives the next number, as it is.
pub session-number :
    (now id : Text) (c : FixClient)
    → SendsOwnNumber now c (logon now)
      × SendsOwnNumber now c (logout now)
      × SendsOwnNumber now c (send_heartbeat now)
      × SendsOwnNumber now c (send_test_request now id)
unfolding logon logout send_heartbeat send_test_request lookup insert
session-number now id c =
    let named = set_truthy (codes "553") c.username (logon_message now c) in
    (
      sends_own now (set_truthy (codes "554") c.password named) c (logon now) refl (
          set_truthy-number (codes "554") c.password named refl
          ∙ set_truthy-number (codes "553") c.username (logon_message now c) refl),
      sends_own now (create_message now (msg_type_value MsgType.logout) c) c (logout now) refl refl,
      sends_own now (heartbeat_message now c) c (send_heartbeat now) refl refl,
      sends_own now (test_request_message now id c) c (send_test_request now id) refl refl,
    )
