-- ===== src/AhdClient/Session.antt =====
-- Login, start, operation start and logout of common/ahd_cli.py. The receive queue holds the packets that
-- arrive until the call has ended; a queue that is empty then makes `receive_msg` raise `Empty`.
pub mod Answers
use auto_test_poc.Base.{
  ◌||◌, arith, ◌≡◌, ◌≢◌, refl, ap, ◌∙◌, Bool, true, false, List, [], ◌∷◌, ◌++◌, Option, All,
  Bool-cases, inl, inr, if◌then◌else◌,
}
use auto_test_poc.Py.Exceptions.{Result, ok, err, empty_error, assertion_error, guard}
use auto_test_poc.Py.Text.{Text, codes}
use auto_test_poc.Py.State.{Action, gets, lift, modify, ◌>>=◌, ◌>>◌}
use auto_test_poc.Ahd.Enums.{is_seen}
use auto_test_poc.Base.Int.{ℤ}
use auto_test_poc.AhdClient.{AhdClient, Incoming}
use auto_test_poc.Ahd.Calendar.{Date, Time}
use auto_test_poc.AhdClient.Prepare.{Message, other}
use auto_test_poc.AhdClient.Prepare.Steps.{send_msg}
use auto_test_poc.AhdClient.Prepare.Numbers.{bind-ok}

-- `cls in msg`
abbrev pub carries : Text → Incoming → Bool
carries cls msg = is_seen cls msg.layers

-- The first packet of the queue, and the rest.
abbrev pub take_first : List Incoming → AhdClient → Result Incoming × AhdClient
take_first [] c = (err empty_error, c)
take_first (msg ∷ queue) c = (ok msg, record c { receive_queue = queue })

-- `receive_msg`
abbrev pub receive_msg : Action AhdClient Incoming
receive_msg c = take_first c.receive_queue c

-- `while True: msg = self.receive_msg()`, where `verdict` says whether the loop ends or raises.
abbrev pub await_in : (Incoming → Result Bool) → List Incoming → Result (Unit {0}) × List Incoming
await_in verdict [] = (err empty_error, [])
await_in verdict (msg ∷ queue) = elim (verdict msg) [
  | ok true ↦ (ok tt, queue)
  | ok false ↦ await_in verdict queue
  | err e ↦ (err e, queue)
]

abbrev pub await : (Incoming → Result Bool) → Action AhdClient (Unit {0})
await verdict c =
    let (result, queue) = await_in verdict c.receive_queue in
    (result, record c { receive_queue = queue })

-- The packets that the methods send; `OpStart` carries the two numbers of notices.
abbrev pub named : Text → Message
named cls = other cls ∷ []

-- The answer to the start of operations.
abbrev pub op_start_verdict : Incoming → Result Bool
op_start_verdict msg =
    if carries (codes "OpStartResponse") msg
    then ok true
    else if carries (codes "OpStartErrorResponse") msg
    then err assertion_error
    else ok false

-- `op_start_of` makes the packet `OpStart` with the two numbers.
module _ (now : Date × Time) (to_bytes : Message → Result Text)
    (op_start_of : Option ℤ → Option ℤ → Message) where
  unfoldable pub login : Action AhdClient (Unit {0})
  login = send_msg now to_bytes (named (codes "LoginRequest")) >>= λ sent.
      receive_msg >>= λ response.
      lift (guard (carries (codes "LoginResponse") response) assertion_error)
      >> modify (λ c. record c { last_sent_seq_no = response.arm_sn; heartbeats_allowed = true })

  unfoldable pub op_start : Action AhdClient (Unit {0})
  op_start =
      gets (λ c. op_start_of c.last_rcvd_notice_seq_no c.last_rcvd_execution_seq_no) >>= λ request.
      send_msg now to_bytes request >>= λ sent. await op_start_verdict

  unfoldable pub logout : Action AhdClient (Unit {0})
  logout = send_msg now to_bytes (named (codes "PreLogoutRequest")) >>= λ sent.
      await (λ msg. ok (carries (codes "PreLogoutResponse") msg)) >>= λ answered.
      send_msg now to_bytes (named (codes "LogoutRequest")) >>= λ sent_too.
      receive_msg >>= λ response.
      lift (guard (carries (codes "LogoutResponse") response) assertion_error)

unfoldable pub admin_start : Action AhdClient (Unit {0})
admin_start = await (λ msg. ok (carries (codes "MarketAdmin") msg))
