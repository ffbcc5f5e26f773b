-- ===== src/Examples/Session.antt =====
-- A client that logs on and sends a message.
use auto_test_poc.Base.{◌≡◌, true, [], ◌∷◌, ◌++◌, none, some, if◌then◌else◌}
use auto_test_poc.Base.Int.{pos}
use auto_test_poc.Py.Text.{Text, codes}
use auto_test_poc.Py.Dict.{Dict, contains}
use auto_test_poc.Client.{FixClient, send_message, logon, logout, send_heartbeat, send_test_request}
use auto_test_poc.Codec.{soh}
use auto_test_poc.Client.Receive.{Receiver, receive_texts}
use auto_test_poc.Client.Receive.Fields.{IsSilent, receive_texts-IsSilent}
use auto_test_poc.Client.Numbers.{SendsOwnNumber, send_message-number, session-number}

abbrev client : FixClient
client = record {
  sender_comp_id = codes "CL";
  target_comp_id = codes "SERVER";
  heartbeat_interval = pos 30;
  username = some (codes "user");
  password = none;
  out_seq_num = 1;
  in_seq_num = pos 1;
  send_queue = [];
}

abbrev order : Dict Text
order = (codes "35", codes "D") ∷ (codes "11", codes "C1") ∷ []

send_message-number_example :
    (send_message (codes "20250101-00:00:00.000") order client).1.out_seq_num
    ≡ (if contains (codes "34") order then 1 else 2)
send_message-number_example = send_message-number (codes "20250101-00:00:00.000") order client

session-number_example :
    SendsOwnNumber (codes "20250101-00:00:00.000") client (logon (codes "20250101-00:00:00.000"))
    × SendsOwnNumber (codes "20250101-00:00:00.000") client (logout (codes "20250101-00:00:00.000"))
    × SendsOwnNumber
        (codes "20250101-00:00:00.000")
        client
        (send_heartbeat (codes "20250101-00:00:00.000"))
    × SendsOwnNumber
        (codes "20250101-00:00:00.000")
        client
        (send_test_request (codes "20250101-00:00:00.000") (codes "T"))
session-number_example = session-number (codes "20250101-00:00:00.000") (codes "T") client

-- A test request, the fields of which are taken one by one.
abbrev test_request : Text
test_request = (codes "35=1" ++ soh ∷ []) ++ (codes "112=T" ++ soh ∷ [])

abbrev connected : Receiver
connected = record { client = client; receive_queue = []; connected = true }

receive_texts-IsSilent_example :
    (r' : Receiver) × (rest : Text) × (receive_texts
        (codes "20250101-00:00:00.000")
        (test_request ∷ [])
        []
        connected
      ≡ some (r', rest))
    × IsSilent connected r'
receive_texts-IsSilent_example =
    receive_texts-IsSilent (codes "20250101-00:00:00.000") (test_request ∷ []) [] connected
