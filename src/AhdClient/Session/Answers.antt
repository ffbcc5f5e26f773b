-- ===== src/AhdClient/Session/Answers.antt =====
-- What the methods of a session make of the packets in the queue.
use auto_test_poc.Base.{
  arith, ◌≡◌, ◌≢◌, refl, ap, ◌∙◌, Bool, true, false, List, [], ◌∷◌, ◌++◌, Option, All,
}
use auto_test_poc.Py.Exceptions.{Result, ok, err, empty_error, name_error}
use auto_test_poc.Py.Text.{Text, codes}
use auto_test_poc.Base.Int.{ℤ}
use auto_test_poc.AhdClient.{AhdClient, Incoming}
use auto_test_poc.Ahd.Calendar.{Date, Time}
use auto_test_poc.AhdClient.Prepare.{Message}
use auto_test_poc.AhdClient.Prepare.Steps.{send_msg}
use auto_test_poc.AhdClient.Session.{await_in, carries, login, op_start, logout, admin_start}

-- The packets for which a loop goes on.
abbrev pub AllPassed : (Incoming → Result Bool) → List Incoming → Type 0
AllPassed verdict = All (λ msg. verdict msg ≡ ok false)

-- What a loop makes of the first packet for which it does not go on.
abbrev pub outcome : Result Bool → Result (Unit {0})
outcome (ok b) = ok tt
outcome (err e) = err e

await_in-append :
    (verdict : Incoming → Result Bool) (before after : List Incoming) (msg : Incoming)
    → AllPassed verdict before
    → verdict msg ≢ ok false
    → await_in verdict (before ++ msg ∷ after) ≡ (outcome (verdict msg), after)
await_in-append verdict [] after msg passed ends = last (verdict msg) ends
  where
    last :
        (v : Result Bool)
        → v ≢ ok false
        → (let o : Result (Unit {0}) × List Incoming = elim v [
          | ok true ↦ (ok tt, after)
          | ok false ↦ await_in verdict after
          | err e ↦ (err e, after)
        ] in
            o)
          ≡ (outcome v, after)
    last (ok true) h = refl
    last (ok false) h = absurd (h refl)
    last (err e) h = refl
await_in-append verdict (x ∷ before) after msg passed ends =
    rw (passed.0, await_in) (await_in-append verdict before after msg passed.1 ends)

-- No request leaves the client: the layer lists are built first, and naming them raises NameError.
requests-unsent :
    (now : Date × Time) (to_bytes : Message → Result Text)
    (op_start_of : Option ℤ → Option ℤ → Message) (c : AhdClient)
    → (login now to_bytes op_start_of c ≡ (err name_error, c))
      × (op_start now to_bytes op_start_of c ≡ (err name_error, c))
      × (logout now to_bytes op_start_of c ≡ (err name_error, c))
unfolding login op_start logout send_msg
requests-unsent now to_bytes op_start_of c = (refl, refl, refl)

await_in-passed :
    (verdict : Incoming → Result Bool) (queue : List Incoming)
    → AllPassed verdict queue
    → await_in verdict queue ≡ (err empty_error, [])
await_in-passed verdict [] passed = refl
await_in-passed verdict (x ∷ queue) passed =
    rw (passed.0, await_in) (await_in-passed verdict queue passed.1)

is_start : Incoming → Result Bool
is_start msg = ok (carries (codes "MarketAdmin") msg)

none_start :
    (queue : List Incoming)
    → All (λ x. carries (codes "MarketAdmin") x ≡ false) queue
    → AllPassed is_start queue
unfolding is_start
none_start [] h = tt
none_start (x ∷ queue) h = (ap ok h.0, none_start queue h.1)

-- `admin_start` passes over the packets that have no layer MarketAdmin, in their order, and returns at the
-- first that has one: this is taken from the queue as well, and what is behind it stays. Where no packet
-- has one it takes all of them and then raises `Empty`. Nothing else of the client changes.
pub admin_start_lem :
    (c : AhdClient) (before after : List Incoming) (msg : Incoming)
    → All (λ x. carries (codes "MarketAdmin") x ≡ false) before
    → carries (codes "MarketAdmin") msg ≡ true
    → (admin_start (record c { receive_queue = before ++ msg ∷ after })
        ≡ (ok tt, record c { receive_queue = after }))
      × (admin_start (record c { receive_queue = before })
          ≡ (err empty_error, record c { receive_queue = [] }))
unfolding admin_start is_start
admin_start_lem c before after msg passed found = (
  ap with_queue (
        await_in-append is_start before after msg (none_start before passed)
          (λ ends. absurd (ground (arith, ends, found))))
      ∙ ap (λ v. with_queue (outcome v, after)) (ap ok found),
  ap with_queue (await_in-passed is_start before (none_start before passed)),
)
  where
    with_queue : Result (Unit {0}) × List Incoming → Result (Unit {0}) × AhdClient
    with_queue (r, q) = (r, record c { receive_queue = q })
