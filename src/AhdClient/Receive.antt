-- ===== src/AhdClient/Receive.antt =====
-- The receiving thread of common/ahd_cli.py. What the socket gives, and when, is a list of arrivals; the
-- dissection of a packet is a parameter.
pub mod Exact
pub mod Frames
pub mod Loop
use auto_test_poc.Base.{
  ℕ, zero, suc, ◌-◌, Bool, true, false, not, ◌&&◌, ◌||◌, List, [], ◌∷◌, ◌++◌, Option, none, some,
  if◌then◌else◌, ltb, leb, length, take, drop,
}
use auto_test_poc.Base.Int.{ℤ, pos, pos_part, ◌+ℤ◌, ◌-ℤ◌}
use auto_test_poc.Py.Exceptions.{Result, ok, err}
use auto_test_poc.Py.Text.{Text, codes, text_eq, starts_with}
use auto_test_poc.Ahd.Enums.{is_seen}
use auto_test_poc.AhdClient.{AhdClient, Incoming}

-- Bytes that can be read, a wait that times out, or the stop of the client. Behind the last arrival the
-- peer has closed the connection.
pub data Arrival : Type 0 where
  blocked stopped : Arrival
  chunk : (s : Text) → Arrival

-- `_receive_exact`, with what it has read. A chunk is read as far as it is needed; an empty one is the
-- end of the connection.
unfoldable pub receive_exact : ℕ → Text → List Arrival → Option Text × List Arrival
receive_exact size acc [] = if ltb (length acc) size then (none, []) else (some acc, [])
receive_exact size acc (blocked ∷ arrivals) =
    let rest = receive_exact size acc arrivals in
    if ltb (length acc) size then rest else (some acc, blocked ∷ arrivals)
receive_exact size acc (stopped ∷ arrivals) = (some acc, stopped ∷ arrivals)
receive_exact size acc (chunk [] ∷ arrivals) =
    if ltb (length acc) size then (none, arrivals) else (some acc, chunk [] ∷ arrivals)
receive_exact size acc (chunk (c ∷ s) ∷ arrivals) =
    let rest = receive_exact size (acc ++ (c ∷ s)) arrivals in
    let missing = size - length acc in
    if leb size (length acc)
    then (some acc, chunk (c ∷ s) ∷ arrivals)
    else if leb (length (c ∷ s)) missing
    then rest
    else (some (acc ++ take missing (c ∷ s)), chunk (drop missing (c ∷ s)) ∷ arrivals)

-- `s.endswith(suffix)`
abbrev pub has_suffix : Text → Text → Bool
has_suffix suffix [] = text_eq suffix []
has_suffix suffix (c ∷ s) =
    let rest = has_suffix suffix s in if text_eq suffix (c ∷ s) then true else rest

-- The numbers of the header.
abbrev pub count_received : Incoming → AhdClient → AhdClient
count_received msg c = record c {
  last_rcvd_seq_no = msg.seq_no;
  last_rcvd_arm_sn = msg.arm_sn;
  last_rcvd_sam_sn = msg.sam_sn;
}

-- The number of a notice, by the class of the notice.
abbrev pub count_notice : Option (Text × Option ℤ) → AhdClient → AhdClient
count_notice none c = c
count_notice (some (cls_name, notice_seq_no)) c =
    if has_suffix (codes "AcceptanceNotice") cls_name
      || has_suffix (codes "AcceptanceError") cls_name
    then record c { last_rcvd_notice_seq_no = notice_seq_no }
    else record c { last_rcvd_execution_seq_no = notice_seq_no }

-- `default_handler`, the only handler that the client has of itself.
abbrev pub default_handler : Incoming → AhdClient → Bool
default_handler msg c = is_seen (codes "Heartbeat") msg.layers && c.handle_heartbeats

-- What the loop does with a packet.
unfoldable pub handle_incoming : Incoming → AhdClient → AhdClient
handle_incoming msg c =
    let counted = count_notice msg.notice (count_received msg c) in
    if default_handler msg counted
    then counted
    else record counted { receive_queue = counted.receive_queue ++ msg ∷ [] }

-- `len(ESPCommon())`
abbrev pub header_size : ℕ
header_size = 72

module _ (dissect : Text → Result Incoming) where
  -- The packet, where its data came; `none` ends the loop.
  abbrev pub finish_message :
      AhdClient → Text → Option Text × List Arrival → Option (AhdClient × List Arrival)
  finish_message c header (none, arrivals) = none
  finish_message c header (some [], arrivals) = none
  finish_message c header (some (d ∷ ds), arrivals) = elim (dissect (header ++ d ∷ ds)) [
    | ok msg ↦ some (handle_incoming msg c, arrivals)
    | err e ↦ none
  ]

  -- The data behind a header; no length raises an exception.
  abbrev pub read_data :
      AhdClient → Text → Option ℤ → List Arrival → Option (AhdClient × List Arrival)
  read_data c header none arrivals = none
  read_data c header (some n) arrivals =
      finish_message c header
        (receive_exact (pos_part ((n -ℤ pos header_size) +ℤ pos 5)) [] arrivals)

  abbrev pub read_header :
      AhdClient → Option Text × List Arrival → Option (AhdClient × List Arrival)
  read_header c (none, arrivals) = none
  read_header c (some [], arrivals) = none
  read_header c (some (h ∷ hs), arrivals) = elim (dissect (h ∷ hs)) [
    | ok header ↦ read_data c (h ∷ hs) header.message_length arrivals
    | err e ↦ none
  ]

  abbrev pub read_message : AhdClient → List Arrival → Option (AhdClient × List Arrival)
  read_message c arrivals = read_header c (receive_exact header_size [] arrivals)

  -- `_receive_loop`, to the end of the thread; `none` means that the fuel ran out.
  pub receive_loop : ℕ → AhdClient → List Arrival → Option AhdClient
  receive_loop zero c arrivals = none
  receive_loop (suc fuel) c (blocked ∷ arrivals) = receive_loop fuel c arrivals
  receive_loop (suc fuel) c (stopped ∷ arrivals) = some c
  receive_loop (suc fuel) c [] = some c
  receive_loop (suc fuel) c (chunk s ∷ arrivals) = elim (read_message c (chunk s ∷ arrivals)) [
    | none ↦ some c
    | some (c', rest) ↦ receive_loop fuel c' rest
  ]
