-- ===== src/Examples/Report.antt =====
-- Reports on an order of the FIX checker.
use auto_test_poc.Base.{true, List, [], ◌∷◌}
use auto_test_poc.Base.Int.{ℤ, pos, ◌+ℤ◌, ◌-ℤ◌, neg_ℤ, ltb_ℤ, leb_ℤ, eq_ℤ}
use auto_test_poc.Py.Text.{Text, codes}
use auto_test_poc.Py.Dict.{Dict}
use auto_test_poc.Messages.Enums.Field.{Field}
use auto_test_poc.Messages.Enums.Field as Tag
use auto_test_poc.Messages.Enums.MsgType.{execution_report, msg_type_value}
use auto_test_poc.Orders.Value.{Floats, Value, int, text}
use auto_test_poc.Orders.State.{make_order}
use auto_test_poc.Orders.Events as Events
use auto_test_poc.FixChecker.{extract_field, validate_fix_message}
use auto_test_poc.FixChecker.Steps.{Checker}
use auto_test_poc.FixChecker.Agreement.{Fits, Agrees, Decides, validate_fix_message-Agrees}

-- Whole numbers in place of floating point numbers.
abbrev integers : Floats ℤ
integers = record {
  sub = λ a b. a -ℤ b;
  add = λ a b. a +ℤ b;
  leb = leb_ℤ;
  ltb = ltb_ℤ;
  of_int = λ a. a;
  neg = neg_ℤ;
  is_zero = λ a. eq_ℤ a (pos 0);
}

-- The symbol of a security that is a text is that text.
abbrev symbol : Value ℤ → Value ℤ
symbol security = security

abbrev accepted : Dict Text
accepted =
    (codes "35", codes "8")
    ∷ (codes "39", codes "0")
    ∷ (codes "150", codes "0")
    ∷ (codes "54", codes "1")
    ∷ []

abbrev buyer : Checker ℤ
buyer = record {
  sent = [];
  received = accepted ∷ [];
  has_exchange = true;
  fills = [];
  expected_seq_num = 2;
  order = make_order integers ((codes "side", text (codes "B")) ∷ []);
}

abbrev wanted : List (Field × Value ℤ)
wanted = (Tag.side, text (codes "1")) ∷ (Tag.ord_status, text (codes "2")) ∷ []

validate_fix_message-Agrees_example :
    Decides (validate_fix_message accepted execution_report wanted) (
      Fits {F = ℤ} (text (msg_type_value execution_report)) (extract_field Tag.msg_type accepted)
      × Agrees accepted wanted)
validate_fix_message-Agrees_example = validate_fix_message-Agrees accepted execution_report wanted

-- An exchange is asked for the fill of the order O1.
abbrev keywords : Dict (Value ℤ)
keywords =
    (codes "execQty", int (pos 4))
    ∷ (codes "execPrice", int (pos 100))
    ∷ (codes "orderID", text (codes "O1"))
    ∷ []
