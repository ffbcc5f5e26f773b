-- ===== src/Messages/Types.antt =====
-- The factory makes a message of the type that was sent.
use mathlib.Core.Path.{subst}
use auto_test_poc.Base.{
  drop, ℕ, ◌≡◌, refl, ap, ◌∙◌, List, [], ◌∷◌, ◌++◌, map, Option, none, some, arith, All, Bool-cases,
  inl, inr, ◌==◌,
}
use auto_test_poc.Base.Int.{pos, negsuc}
use auto_test_poc.Py.Exceptions.{ok}
use auto_test_poc.Py.Text.{Text, codes, Lacks, split, text_eq, starts_with}
use auto_test_poc.Py.Decimal.{print_ℕ, print_ℤ, print_ℕ-Lacks}
use auto_test_poc.Py.Sort.{first}
use auto_test_poc.Codec.{field}
use auto_test_poc.Codec.Fields.{text_eq-print}
use auto_test_poc.Messages.Members.{member}
use auto_test_poc.Messages.Enums.MsgType.{MsgType, msg_type_value, msg_types, msg_type_value_lem}
use auto_test_poc.Messages.Enums.FixVersion
use auto_test_poc.Messages.Message.{
  Fields, FixMessage, bar, add_type, new_message, parsed_type, parse_fix_string, to_fix_string,
  typed_fields,
}
use auto_test_poc.Messages.Reading.{IsEntry, first-put}
use auto_test_poc.Messages.Factory.{
  MessageClass, logon, logout, heartbeat, test_request, resend_request, sequence_reset, reject,
  new_order_single, execution_report, order_cancel_request, order_cancel_replace_request,
  order_cancel_reject, generic, named_type, class_of, from_string,
}
use auto_test_poc.Messages.Classes.ExecutionReport.{execution_report_message}
use auto_test_poc.Messages.Classes.Heartbeat.{heartbeat_message}
use auto_test_poc.Messages.Classes.Logon.{logon_message}
use auto_test_poc.Messages.Classes.Logout.{logout_message}
use auto_test_poc.Messages.Classes.NewOrderSingle.{new_order_single_message}
use auto_test_poc.Messages.Classes.OrderCancelReject.{order_cancel_reject_message}
use auto_test_poc.Messages.Classes.OrderCancelReplaceRequest.{order_cancel_replace_request_message}
use auto_test_poc.Messages.Classes.OrderCancelRequest.{order_cancel_request_message}
use auto_test_poc.Messages.Classes.Reject.{reject_message}
use auto_test_poc.Messages.Classes.ResendRequest.{resend_request_message}
use auto_test_poc.Messages.Classes.SequenceReset.{sequence_reset_message}
use auto_test_poc.Messages.Classes.TestRequest.{test_request_message}
use auto_test_poc.Messages.Shape.{opening, opening-IsEntry, message_text-split}
use auto_test_poc.Messages.RoundTrip.{
  IsSendable, encode, first-Encoded, encoded_text, first-parse_fix_string,
}

starts_with-tag :
    (a b v : Text)
    → Lacks b'=' a
    → Lacks b'=' b
    → starts_with (a ++ b'=' ∷ []) (b ++ b'=' ∷ v) ≡ text_eq a b
starts_with-tag [] [] v ha hb = refl
starts_with-tag [] (d ∷ b) v ha hb = ground arith
starts_with-tag (c ∷ a) [] v ha hb = ground arith
starts_with-tag (c ∷ a) (d ∷ b) v ha hb = ground (arith, starts_with-tag a b v ha.1 hb.1)

print_35 : codes "35" ≡ print_ℕ 35
unfolding print_ℕ
print_35 = refl

starts_with-field :
    (n : ℕ) (v : Text) → starts_with (codes "35=") (print_ℕ n ++ b'=' ∷ v) ≡ (35 == n)
starts_with-field n v =
    starts_with-tag (codes "35") (print_ℕ n) v (omega arith) (print_ℕ-Lacks b'=' n (omega arith))
    ∙ printed
  where
    printed : text_eq (codes "35") (print_ℕ n) ≡ (35 == n)
    printed = ap (λ k. text_eq k (print_ℕ n)) print_35 ∙ elim (text_eq-print 35 n) [
      | inl (e, same) ↦ rw e (ground (arith, same))
      | inr (e, other) ↦ rw e (ground (arith, other))
    ]

drop-tag : (n : ℕ) (w : Text) → 35 ≡ n → drop 3 (print_ℕ n ++ b'=' ∷ w) ≡ w
drop-tag n w e = subst (λ k. drop 3 (print_ℕ k ++ b'=' ∷ w) ≡ w) e (unfold print_ℕ in refl)

-- The type that a list of fields names, where one of them has the tag of the type.
pub named_type-first :
    (ps : Fields) (rest : List Text) (v : Text)
    → All IsEntry ps
    → first (pos 35) ps ≡ some v
    → named_type (map field ps ++ rest) ≡ member msg_type_value msg_types v
unfolding print_ℤ
named_type-first [] rest v h e = ground arith
named_type-first ((pos n, w) ∷ ps) rest v h e = elim (Bool-cases (35 == n)) [
  | inl here ↦
      let same : w ≡ v = ground (arith, here, e) in
      rw (starts_with-field n w, here)
        (ap (member msg_type_value msg_types) (drop-tag n w (ground (arith, here)) ∙ same))
  | inr later ↦
      rw (starts_with-field n w, later) (named_type-first ps rest v h.1 (ground (arith, later)))
]
named_type-first ((negsuc n, w) ∷ ps) rest v h e = absurd h.0

parsed_type_lem :
    (t : MsgType) (old : Option MsgType) → parsed_type (some (msg_type_value t)) old ≡ some t
parsed_type_lem t old = ground arith

typed_fields-type :
    (m : FixMessage) (t : MsgType)
    → m.msg_type ≡ some t
    → first (pos 35) m.fields ≡ none
    → first (pos 35) (typed_fields m) ≡ some (msg_type_value t)
typed_fields-type m t e h =
    ap (λ o. first (pos 35) (add_type o (first (pos 35) m.fields) m.fields)) e
    ∙ ap (λ o. first (pos 35) (add_type (some t) o m.fields)) h
    ∙ first-put (pos 35) (pos 35) (msg_type_value t) m.fields

from_string-named :
    (s : Text) (t : MsgType)
    → named_type (split bar s) ≡ some t
    → from_string s ≡ some (class_of t, parse_fix_string s (new_message FixVersion.fix44 (some t)))
unfolding from_string
from_string-named s t e = rw (e, from_string) refl

parse_fix_string-type :
    (s : Text) (m : FixMessage) (t : MsgType)
    → first (pos 35) (parse_fix_string s m).fields ≡ some (msg_type_value t)
    → (parse_fix_string s m).msg_type ≡ some t
unfolding parse_fix_string
parse_fix_string-type s m t e = ap (λ o. parsed_type o m.msg_type) e ∙ parsed_type_lem t m.msg_type

-- The type that the constructor of a class gives to its object. `FixMessage` itself gives none, and stands
-- for the one type that has no class.
abbrev pub Constructs : MessageClass → MsgType → Type 0
Constructs logon t = (logon_message FixVersion.fix44).msg_type ≡ some t
Constructs logout t = (logout_message FixVersion.fix44).msg_type ≡ some t
Constructs heartbeat t = (heartbeat_message FixVersion.fix44).msg_type ≡ some t
Constructs test_request t = (test_request_message FixVersion.fix44).msg_type ≡ some t
Constructs resend_request t = (resend_request_message FixVersion.fix44).msg_type ≡ some t
Constructs sequence_reset t = (sequence_reset_message FixVersion.fix44).msg_type ≡ some t
Constructs reject t = (reject_message FixVersion.fix44).msg_type ≡ some t
Constructs new_order_single t = (new_order_single_message FixVersion.fix44).msg_type ≡ some t
Constructs execution_report t = (execution_report_message FixVersion.fix44).msg_type ≡ some t
Constructs order_cancel_request t =
    (order_cancel_request_message FixVersion.fix44).msg_type ≡ some t
Constructs order_cancel_replace_request t =
    (order_cancel_replace_request_message FixVersion.fix44).msg_type ≡ some t
Constructs order_cancel_reject t = (order_cancel_reject_message FixVersion.fix44).msg_type ≡ some t
Constructs generic t = t ≡ MsgType.business_message_reject

class_of-Constructs : (t : MsgType) → Constructs (class_of t) t
unfolding new_message
class_of-Constructs MsgType.logon = refl
class_of-Constructs t = refl

-- A message that has a type and no field for it is sent as a text from which the factory makes an
-- object with that type, of the class whose constructor gives that type; the class is `FixMessage` itself
-- exactly for the one type that has no class of its own.
pub from_string-to_fix_string :
    (m : FixMessage) (t : MsgType)
    → IsSendable m
    → m.msg_type ≡ some t
    → first (pos 35) m.fields ≡ none
    → (s : Text) × (made : FixMessage) × (to_fix_string m ≡ ok s)
      × (cls : MessageClass) × (from_string s ≡ some (cls, made))
      × (made.msg_type ≡ some t)
      × Constructs cls t
from_string-to_fix_string m t h typed unset =
    let e = encode m h in
    let s = encoded_text m e in
    let made = parse_fix_string s (new_message FixVersion.fix44 (some t)) in
    let known = typed_fields-type m t typed unset in
    let named =
      ap named_type (message_text-split m.fix_version e.head e.rest e.head_entry e.entries)
      ∙ named_type-first (opening m.fix_version e.head e.rest e.head_entry e.entries) _
          (msg_type_value t) (opening-IsEntry m.fix_version e.head e.rest e.head_entry e.entries)
          (first-Encoded m e (pos 35) (λ x. ground (arith, x)) (λ x. ground (arith, x)) ∙ known)
      ∙ msg_type_value_lem t in
    (
      s,
      made,
      e.computed,
      class_of t,
      from_string-named s t named,
      parse_fix_string-type s (new_message FixVersion.fix44 (some t)) t (
          first-parse_fix_string m (new_message FixVersion.fix44 (some t)) h e (pos 35)
            (λ x. ground (arith, x)) (λ x. ground (arith, x))
          ∙ known),
      class_of-Constructs t,
    )
