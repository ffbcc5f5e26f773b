-- ===== src/AhdClient/Prepare/Numbers.antt =====
-- The numbers that `_prepare_msg` writes and keeps.
use auto_test_poc.Base.{◌≡◌, ap, Option, none, some, or_else}
use auto_test_poc.Base.Int.{ℤ}
use auto_test_poc.Py.Exceptions.{Result, ok, err}
use auto_test_poc.Py.Text.{Text}
use auto_test_poc.Py.State.{Action, raise, ◌>>=◌}
use auto_test_poc.AhdClient.{AhdClient}
use auto_test_poc.AhdClient.Prepare.{OperationCommon}

-- The number of the layer of orders that the client counts.
abbrev pub order_number : Option OperationCommon → Option ℤ → Option ℤ → Option ℤ
order_number none last next = last
order_number (some o) last next = or_else o.order_entry_seq_no next

pub bind-ok :
    {A B : Type 0} (m : Action AhdClient A) (k : A → Action AhdClient B) (c d : AhdClient) (a : A)
    → m c ≡ (ok a, d)
    → (m >>= k) c ≡ k a d
bind-ok {A} {B} m k c d a h = ap continue h
  where
    continue : Result A × AhdClient → Result B × AhdClient
    continue (r, s) = elim r [ ok x ↦ k x s | err e ↦ raise e s ]
