-- ===== src/Server.antt =====
-- `FixSession` and `FixServer` of fix_poc/fix_server_asyncio.py.
pub mod Dispatch
pub mod Values
pub mod Replies
pub mod Parsed
pub mod Total
pub mod Sequence
pub mod Chunked
pub mod Answers
use auto_test_poc.Base.{
  ℕ, suc, ◌+◌, Bool, List, [], ◌∷◌, ◌++◌, Option, none, some, if◌then◌else◌, or_else, get_or,
}
use auto_test_poc.Py.Exceptions.{Error, Result, ok, err}
use auto_test_poc.Py.State.{Action, ◌>>=◌, ◌>>◌, modify, skip, when, lift, raise, pure}
use auto_test_poc.Py.Text.{Text, codes, text_eq}
use auto_test_poc.Py.Decimal.{print_ℕ}
use auto_test_poc.Py.Dict.{Dict, lookup, insert}
use auto_test_poc.Codec.{dict_to_fix, fix_to_dict}
use auto_test_poc.Frames.{extract_messages}

pub record Session : Type 0 where
  pub server_comp_id : Text
  pub client_sender : Option Text
  pub client_target : Option Text
  pub out_seq : ℕ

-- What `FixServer` was constructed with.
pub record Config : Type 0 where
  pub comp_id : Text
  pub begin_string : Text
  pub auto_fill : Bool

-- What the clock and `uuid4` give while one message is handled.
pub record Draw : Type 0 where
  pub now : Text
  pub now_fill : Text
  pub hex_client : Text
  pub hex_order : Text
  pub hex_exec : Text
  pub hex_fill : Text

abbrev pub new_session : Text → Session
new_session comp_id = record {
  server_comp_id = comp_id;
  client_sender = none;
  client_target = none;
  out_seq = 1;
}

-- `FixSession.assign_from_incoming`
unfoldable pub assign_from_incoming : Dict Text → Session → Session
assign_from_incoming msg s = record s {
  client_sender = or_else (lookup (codes "49") msg) s.client_sender;
  client_target = or_else (lookup (codes "56") msg) s.client_target;
}

-- `a or b`, where a missing and an empty text are false.
abbrev pub or_text : Option Text → Text → Text
or_text none b = b
or_text (some []) b = b
or_text (some (c ∷ s)) b = c ∷ s

abbrev pub server_sender : Session → Text
server_sender s = or_text s.client_target (or_text (some s.server_comp_id) (codes "SERVER"))

abbrev pub server_target : Session → Text
server_target s = or_text s.client_sender (codes "CLIENT")

-- The session, how many messages were handled (which says what the clock gives next), and each
-- message that was sent with the text that was written for it.
pub record Conn : Type 0 where
  pub session : Session
  pub handled : ℕ
  pub sent : List (Dict Text × Text)

abbrev pub Method : Type 0
Method = Action Conn (Unit {0})

-- `FixServer._send`
unfoldable pub send : Dict Text → Method
send msg = do
  fix_str ← lift (dict_to_fix msg)
  modify λ c. record c { sent = c.sent ++ (msg, fix_str) ∷ [] }

abbrev pub bump : Conn → Conn
bump c = record c { session = record c.session { out_seq = c.session.out_seq + 1 } }

-- The fields that every reply begins with.
abbrev pub reply_header : Config → Session → Text → Text → Dict Text
reply_header cfg s mtype now =
    (codes "8", cfg.begin_string)
    ∷ (codes "35", mtype)
    ∷ (codes "49", server_sender s)
    ∷ (codes "56", server_target s)
    ∷ (codes "34", print_ℕ s.out_seq)
    ∷ (codes "52", now)
    ∷ []

abbrev pub logon_reply : Config → Draw → Dict Text → Session → Dict Text
logon_reply cfg draw msg s =
    reply_header cfg s (codes "A") draw.now
    ++ (codes "98", codes "0") ∷ (codes "108", get_or (lookup (codes "108") msg) (codes "30")) ∷ []

abbrev pub heartbeat_reply : Config → Draw → Dict Text → Session → Dict Text
heartbeat_reply cfg draw msg s =
    reply_header cfg s (codes "0") draw.now
    ++ (codes "112", get_or (lookup (codes "112") msg) (codes "TEST")) ∷ []

abbrev pub order_field : Text → Text → Dict Text → Text
order_field tag default msg = get_or (lookup tag msg) default

-- `if price is not None: d[k] = price`
abbrev pub with_price : Text → Option Text → Dict Text → Dict Text
with_price k none d = d
with_price k (some price) d = insert k price d

-- `er_new`
abbrev pub new_report : Config → Draw → Dict Text → Session → Dict Text
new_report cfg draw msg s =
    let qty = order_field (codes "38") (codes "0") msg in
    let er_new : Dict Text =
      reply_header cfg s (codes "8") draw.now
      ++ (codes "150", codes "0")
        ∷ (codes "39", codes "0")
        ∷ (codes "11", order_field (codes "11") (codes "CL" ++ draw.hex_client) msg)
        ∷ (codes "37", codes "ORD" ++ draw.hex_order)
        ∷ (codes "17", codes "EX" ++ draw.hex_exec)
        ∷ (codes "55", order_field (codes "55") (codes "SYM") msg)
        ∷ (codes "54", order_field (codes "54") (codes "1") msg)
        ∷ (codes "38", qty)
        ∷ (codes "151", qty)
        ∷ (codes "14", codes "0")
        ∷ (codes "6", codes "0")
        ∷ [] in
    with_price (codes "44") (lookup (codes "44") msg) er_new

-- `er_fill`
abbrev pub fill_report : Config → Draw → Dict Text → Session → Dict Text
fill_report cfg draw msg s =
    let qty = order_field (codes "38") (codes "0") msg in
    let er_fill : Dict Text =
      reply_header cfg s (codes "8") draw.now_fill
      ++ (codes "150", codes "2")
        ∷ (codes "39", codes "2")
        ∷ (codes "11", order_field (codes "11") (codes "CL" ++ draw.hex_client) msg)
        ∷ (codes "37", codes "ORD" ++ draw.hex_order)
        ∷ (codes "17", codes "EX" ++ draw.hex_fill)
        ∷ (codes "55", order_field (codes "55") (codes "SYM") msg)
        ∷ (codes "54", order_field (codes "54") (codes "1") msg)
        ∷ (codes "38", qty)
        ∷ (codes "32", qty)
        ∷ (codes "151", codes "0")
        ∷ (codes "14", qty)
        ∷ (codes "6", or_text (lookup (codes "44") msg) (codes "0"))
        ∷ [] in
    with_price (codes "31") (lookup (codes "44") msg) er_fill

-- A reply carries the number of the session, which counts on before it is sent.
abbrev pub reply_with : (Session → Dict Text) → Method
reply_with make c = send (make c.session) (bump c)

-- The ladder of `FixServer._handle_message` over the message type.
unfoldable pub dispatch : Text → Method → Method → Method → Method
dispatch mtype logon test_request new_order_single =
    if text_eq mtype (codes "A")
    then logon
    else if text_eq mtype (codes "0")
    then skip
    else if text_eq mtype (codes "1")
    then test_request
    else if text_eq mtype (codes "D")
    then new_order_single
    else skip

abbrev pub new_order_single : Config → Draw → Dict Text → Method
new_order_single cfg draw msg =
    reply_with (new_report cfg draw msg)
    >> when cfg.auto_fill (reply_with (fill_report cfg draw msg))

-- `FixServer._handle_message`
unfoldable pub handle_message : Config → Draw → Dict Text → Method
unfolding dispatch insert
handle_message cfg draw msg =
    dispatch (order_field (codes "35") [] msg) (reply_with (logon_reply cfg draw msg))
      (reply_with (heartbeat_reply cfg draw msg)) (new_order_single cfg draw msg)

-- The body of the loop over `msgs`.
unfoldable pub handle_raw : Config → (ℕ → Draw) → Text → Method
unfolding handle_message assign_from_incoming
handle_raw cfg draws raw c =
    let msg = fix_to_dict raw in
    handle_message cfg (draws c.handled) msg
      (record c { session = assign_from_incoming msg c.session; handled = c.handled + 1 })

unfoldable pub handle_all : Config → (ℕ → Draw) → List Text → Method
unfolding handle_raw
handle_all cfg draws [] = skip
handle_all cfg draws (raw ∷ raws) = handle_raw cfg draws raw >> handle_all cfg draws raws

-- The loop of `FixServer._handle_client` over the chunks that are read; an empty one ends it.
unfoldable pub client_loop : Config → (ℕ → Draw) → List Text → Text → Method
unfolding handle_all
client_loop cfg draws [] buffer = skip
client_loop cfg draws ([] ∷ chunks) buffer = skip
client_loop cfg draws ((c ∷ s) ∷ chunks) buffer =
    let (msgs, rest) = extract_messages (buffer ++ c ∷ s) in
    handle_all cfg draws msgs >> client_loop cfg draws chunks rest

-- `FixServer._handle_client`: an exception is logged, and ends the connection.
unfoldable pub handle_client : Config → (ℕ → Draw) → List Text → Conn
unfolding client_loop
handle_client cfg draws chunks =
    (client_loop cfg draws chunks []
      (record { session = new_session cfg.comp_id; handled = 0; sent = [] })).1
