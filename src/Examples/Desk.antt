-- ===== src/Examples/Desk.antt =====
-- The client of the exchange at concrete packets and queues.
use auto_test_poc.Base.{
  ◌≡◌, refl, true, false, List, [], ◌∷◌, ◌++◌, none, some, arith, replicate, length, take, drop,
  Option,
}
use auto_test_poc.Base.Int.{ℤ, pos}
use auto_test_poc.Py.Exceptions.{Result, ok, err, empty_error, ◌>>=◌}
use auto_test_poc.Py.Text.{Text, codes}
use auto_test_poc.Py.Decimal.{print_ℕ, print_ℤ, parse_int, rjust}
use auto_test_poc.Padded.{int_m2i}
use auto_test_poc.Ahd.PostBuild.Lengths.{five_field}
use auto_test_poc.Ahd.PostBuild.{esp_post_build}
use auto_test_poc.Ahd.Calendar.{Date, Time}
use auto_test_poc.AhdClient.{AhdClient, Incoming}
use auto_test_poc.AhdClient.Internal.{
  rstrip_digits, generate_times, first_internal, generate_times_lem,
}
use auto_test_poc.AhdClient.Receive.{Arrival, blocked, chunk, receive_loop}
use auto_test_poc.AhdClient.Receive.Frames.{Sent, wire, handle_all}
use auto_test_poc.AhdClient.Receive.Loop.{receive_loop-esp_post_build}
use auto_test_poc.AhdClient.Prepare.{Message, EspCommon, operation}
use auto_test_poc.AhdClient.Session.{admin_start}
use auto_test_poc.AhdClient.Session.Answers.{admin_start_lem}

virtua : rstrip_digits (codes "VIRTUA") ≡ codes "VIRTUA"
unfolding rstrip_digits
virtua = refl

generate_times_lem_example :
    (generate_times 2 (first_internal (codes "VIRTUA"))
      ≡ ok (codes "VIRTUA" ++ rjust 14 b'0' (print_ℕ 2)))
    × (length (codes "VIRTUA" ++ rjust 14 b'0' (print_ℕ 2)) ≡ 20)
generate_times_lem_example =
    generate_times_lem (codes "VIRTUA") 2 virtua (omega arith) (omega arith)

abbrev client : AhdClient
client = record {
  participant_code = codes "11560";
  virtual_server_no = codes "000001";
  exchange_code = codes "1";
  market_code = codes "11";
  handle_heartbeats = true;
  heartbeats_allowed = false;
  last_sent_internal = first_internal (codes "VIRTUA");
  last_sent_order_entry_seq_no = some (pos 4);
  last_sent_seq_no = some (pos 7);
  last_sent_arm_sn = some (pos 0);
  last_sent_sam_sn = some (pos 0);
  last_rcvd_seq_no = some (pos 3);
  last_rcvd_arm_sn = some (pos 0);
  last_rcvd_sam_sn = some (pos 0);
  last_rcvd_notice_seq_no = some (pos 0);
  last_rcvd_execution_seq_no = some (pos 0);
  send_queue = [];
  receive_queue = [];
}

abbrev now : Date × Time
now = (
  record { year = 2024; month = 2; day = 29 },
  record { hour = 9; minute = 0; second = 0; microsecond = 0 },
)

abbrev to_bytes : Message → Result Text
to_bytes msg = ok (codes "built")

abbrev order : Message
order =
    operation (codes "OrderCommonO") (record {
      exchange_code = none;
      market_code = none;
      participant_code = none;
      virtual_server_no = none;
      order_entry_seq_no = none;
    })
    ∷ []

abbrev blank : EspCommon
blank = record {
  seq_no = none;
  resend_flag = some (codes "0");
  virtual_server_no = none;
  participant_code = none;
  arm_sn = none;
  sam_sn = none;
  transmission_date = none;
  transmission_time = none;
}

abbrev incoming : Option ℤ → List Text → Incoming
incoming message_length layers = record {
  message_length = message_length;
  seq_no = some (pos 4);
  arm_sn = some (pos 9);
  sam_sn = some (pos 0);
  layers = layers;
  notice = none;
}

abbrev login_response : Incoming
login_response = incoming (some (pos 83)) (codes "ESPCommon" ∷ codes "LoginResponse" ∷ [])

abbrev market_admin : Incoming
market_admin =
    incoming (some (pos 83)) (codes "ESPCommon" ∷ codes "AdminCommonOD" ∷ codes "MarketAdmin" ∷ [])

-- A packet of another kind arrives before the one that is waited for, and one behind it.
admin_start_lem_example :
    (admin_start
        (record client { receive_queue = login_response ∷ market_admin ∷ login_response ∷ [] })
      ≡ (ok tt, record client { receive_queue = login_response ∷ [] }))
    × (admin_start (record client { receive_queue = login_response ∷ [] })
        ≡ (err empty_error, record client { receive_queue = [] }))
admin_start_lem_example =
    admin_start_lem client (login_response ∷ []) (login_response ∷ []) market_admin (refl, tt) refl

-- A dissection that reads the length and nothing else.
abbrev dissect : Text → Result Incoming
dissect s = int_m2i five_field (take 5 s) >>= λ n. ok (incoming n [])

dissect-ReadsLength :
    (s : Text) (x : Incoming)
    → dissect s ≡ ok x
    → int_m2i five_field (take 5 s) ≡ ok x.message_length
dissect-ReadsLength s x = by_length (int_m2i five_field (take 5 s))
  where
    by_length :
        (r : Result (Option ℤ)) → (r >>= λ n. ok (incoming n [])) ≡ ok x → r ≡ ok x.message_length
    by_length (ok n) h = ground arith
    by_length (err e) h = absurd (ground arith)

abbrev packet : Sent
packet = record {
  p = replicate 72 32;
  payload = codes "sixteen  columns";
  header = incoming (some (pos 83)) [];
  message = incoming (some (pos 83)) [];
}

-- The packet arrives in two pieces, with a wait between them.
abbrev pieces : List Arrival
pieces = chunk (take 30 (wire packet)) ∷ blocked ∷ chunk (drop 30 (wire packet)) ∷ []

receive_loop-esp_post_build_example :
    receive_loop dissect 5 client pieces ≡ some (handle_all (packet ∷ []) client)
unfolding esp_post_build print_ℕ print_ℤ int_m2i parse_int
receive_loop-esp_post_build_example =
    receive_loop-esp_post_build dissect 5 (packet ∷ []) pieces client dissect-ReadsLength
      ((refl, omega arith, omega arith, refl, refl), tt) tt refl (omega arith)
