-- ===== src/AhdClient/Prepare.antt =====
-- `AHDClient._prepare_msg` of common/ahd_cli.py: packets, their layers and their fields. Building a packet
-- is a parameter.
pub mod Steps
pub mod Numbers
use auto_test_poc.Base.{
  ℕ, Bool, true, false, not, ◌&&◌, ◌||◌, List, [], ◌∷◌, Option, none, some, if◌then◌else◌, is_some,
  or_else,
}
use auto_test_poc.Base.Int.{ℤ, pos, ◌+ℤ◌}
use auto_test_poc.Py.Exceptions.{Result, Error, name_error, type_error, index_error}
use auto_test_poc.Py.Exceptions as Exceptions
use auto_test_poc.Py.Text.{Text, codes, text_eq}
use auto_test_poc.Py.State.{
  Action, pure, raise, gets, lift, expect, modify, skip, when, ◌>>=◌, ◌>>◌,
}
use auto_test_poc.Ahd.Enums.{is_seen}
use auto_test_poc.Ahd.Calendar.{Date, Time}
use auto_test_poc.AhdClient.{AhdClient}
use auto_test_poc.AhdClient.Internal.{generate_next_internal}

-- The fields that the function reads or sets in the layer ESPCommon.
pub record EspCommon : Type 0 where
  pub seq_no : Option ℤ
  pub resend_flag : Option Text
  pub virtual_server_no : Option Text
  pub participant_code : Option Text
  pub arm_sn : Option ℤ
  pub sam_sn : Option ℤ
  pub transmission_date : Option Date
  pub transmission_time : Option Time

-- The fields that the function reads or sets in a layer of orders or administration.
pub record OperationCommon : Type 0 where
  pub exchange_code : Option Text
  pub market_code : Option Text
  pub participant_code : Option Text
  pub virtual_server_no : Option Text
  pub order_entry_seq_no : Option ℤ

pub data Layer : Type 0 where
  esp_common : EspCommon → Layer
  operation : (cls : Text) → OperationCommon → Layer
  new_order : (internal_processing : Option Text) → Layer
  other : (cls : Text) → Layer

-- A packet, with the layers from the lowest up.
abbrev pub Message : Type 0
Message = List Layer

abbrev pub class_of_layer : Layer → Text
class_of_layer (esp_common e) = codes "ESPCommon"
class_of_layer (operation cls o) = cls
class_of_layer (new_order i) = codes "NewOrder"
class_of_layer (other cls) = cls

-- `cls in msg`
abbrev pub has_layer : Text → Message → Bool
has_layer cls [] = false
has_layer cls (l ∷ msg) = text_eq cls (class_of_layer l) || has_layer cls msg

-- `any(layer in msg for layer in layers)`
abbrev pub has_any : List Text → Message → Bool
has_any [] msg = false
has_any (cls ∷ layers) msg = has_layer cls msg || has_any layers msg

-- `if base not in msg and any(layer in msg for layer in layers): msg = base() / msg`
abbrev pub add_base : Layer → List Text → Message → Message
add_base base layers msg =
    if not (has_layer (class_of_layer base) msg) && has_any layers msg then base ∷ msg else msg

-- `msg[ESPCommon]`
abbrev pub esp_of : Message → Option EspCommon
esp_of [] = none
esp_of (esp_common e ∷ msg) = some e
esp_of (operation cls o ∷ msg) = esp_of msg
esp_of (new_order i ∷ msg) = esp_of msg
esp_of (other cls ∷ msg) = esp_of msg

abbrev pub put_esp : EspCommon → Message → Message
put_esp e [] = []
put_esp e (esp_common old ∷ msg) = esp_common e ∷ msg
put_esp e (operation cls o ∷ msg) = operation cls o ∷ put_esp e msg
put_esp e (new_order i ∷ msg) = new_order i ∷ put_esp e msg
put_esp e (other cls ∷ msg) = other cls ∷ put_esp e msg

-- `self.last_sent_… + 1`, where the number may be missing
abbrev pub next_number : Option ℤ → Result ℤ
next_number none = Exceptions.err type_error
next_number (some n) = Exceptions.ok (n +ℤ pos 1)

-- `number if number is not None else next`
abbrev pub numbered_by : Option ℤ → (AhdClient → Option ℤ) → Action AhdClient ℤ
numbered_by (some n) last = pure n
numbered_by none last = gets last >>= λ n. lift (next_number n)

-- The fields of ESPCommon that are missing; `now` is the clock.
abbrev pub fill_esp : AhdClient → Date × Time → ℤ → EspCommon → EspCommon
fill_esp c now seq_no e = record e {
  seq_no = some seq_no;
  resend_flag = or_else e.resend_flag (some (codes "0"));
  virtual_server_no = or_else e.virtual_server_no (some c.virtual_server_no);
  participant_code = or_else e.participant_code (some c.participant_code);
  arm_sn = or_else e.arm_sn c.last_rcvd_seq_no;
  sam_sn = or_else e.sam_sn (some (pos 0));
  transmission_date = or_else e.transmission_date (some now.0);
  transmission_time = or_else e.transmission_time (some now.1);
}

-- `self.last_sent_seq_no = esp_layer.SeqNo`, and so on
abbrev pub count_sent : EspCommon → AhdClient → AhdClient
count_sent e c = record c {
  last_sent_seq_no = e.seq_no;
  last_sent_arm_sn = e.arm_sn;
  last_sent_sam_sn = e.sam_sn;
}

-- The fields of a layer of orders or administration that are missing.
abbrev pub fill_operation : AhdClient → OperationCommon → OperationCommon
fill_operation c o = record o {
  exchange_code = or_else o.exchange_code (some c.exchange_code);
  market_code = or_else o.market_code (some c.market_code);
  participant_code = or_else o.participant_code (some c.participant_code);
  virtual_server_no = or_else o.virtual_server_no (some c.virtual_server_no);
}

-- The change of the first layer of a class.
abbrev pub change_operation : Text → (OperationCommon → OperationCommon) → Message → Message
change_operation cls f [] = []
change_operation cls f (operation c o ∷ msg) =
    if text_eq cls c then operation c (f o) ∷ msg else operation c o ∷ change_operation cls f msg
change_operation cls f (esp_common e ∷ msg) = esp_common e ∷ change_operation cls f msg
change_operation cls f (new_order i ∷ msg) = new_order i ∷ change_operation cls f msg
change_operation cls f (other c ∷ msg) = other c ∷ change_operation cls f msg

abbrev pub operation_of : Text → Message → Option OperationCommon
operation_of cls [] = none
operation_of cls (operation c o ∷ msg) =
    let rest = operation_of cls msg in if text_eq cls c then some o else rest
operation_of cls (esp_common e ∷ msg) = operation_of cls msg
operation_of cls (new_order i ∷ msg) = operation_of cls msg
operation_of cls (other c ∷ msg) = operation_of cls msg
