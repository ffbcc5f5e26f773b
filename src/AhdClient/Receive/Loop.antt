-- ===== src/AhdClient/Receive/Loop.antt =====
-- The receiving thread handles the packets of the stream one after the other, and ends with it.
use auto_test_poc.Base.{
  ℕ, zero, suc, ◌+◌, ◌<◌, ◌≡◌, refl, ap, ◌∙◌, List, [], ◌∷◌, some, arith, length, All,
  length-append,
}
use auto_test_poc.Py.Exceptions.{Result}
use auto_test_poc.Py.Text.{Text}
use auto_test_poc.AhdClient.{AhdClient, Incoming}
use auto_test_poc.AhdClient.Receive.{
  Arrival, blocked, stopped, chunk, receive_loop, read_message, handle_incoming,
}
use auto_test_poc.AhdClient.Receive.Exact.{stream, Flows}
use auto_test_poc.AhdClient.Receive.Frames.{
  Sent, wire, wires, IsSent, handle_all, ReadsLength, wire-length, read_message_lem,
}

module _ (dissect : Text → Result Incoming) (reads : ReadsLength dissect) where
  -- One round on a chunk.
  round :
      (fuel : ℕ) (c c' : AhdClient) (s : Text) (arrivals rest : List Arrival)
      → read_message dissect c (chunk s ∷ arrivals) ≡ some (c', rest)
      → receive_loop dissect (suc fuel) c (chunk s ∷ arrivals) ≡ receive_loop dissect fuel c' rest
  unfolding receive_loop
  round fuel c c' s arrivals rest e = rw (e, receive_loop) refl

-- The receiving thread of a client that is not stopped, with the dissection of packets as a parameter
-- that reads the length in the first five bytes of what it dissects. From the bytes of packets that
-- `post_build` made, with headers of their width and payloads that are not empty and can be counted,
-- all of them dissected without an error, the thread takes exactly these packets, handles each once and
-- in their order, and ends when the connection is closed. It does so however the bytes are cut into
-- chunks, if no chunk is empty, and wherever the poll times out, within as many rounds as there are
-- arrivals and packets, and one more.
pub receive_loop-esp_post_build :
    (dissect : Text → Result Incoming) (fuel : ℕ) (bs : List Sent) (arrivals : List Arrival)
    (c : AhdClient)
    → ReadsLength dissect
    → All (IsSent dissect) bs
    → Flows arrivals
    → stream arrivals ≡ wires bs
    → length arrivals + length bs < fuel
    → receive_loop dissect fuel c arrivals ≡ some (handle_all bs c)
unfolding receive_loop
receive_loop-esp_post_build dissect zero bs arrivals c reads sent flows e h = absurd (omega arith)
receive_loop-esp_post_build dissect (suc fuel) [] [] c reads sent flows e h = refl
receive_loop-esp_post_build dissect (suc fuel) (b ∷ bs) [] c reads sent flows e h = absurd (
    omega
      (arith, ap length e, length-append (wire b) (wires bs), wire-length dissect reads b sent.0))
receive_loop-esp_post_build dissect (suc fuel) bs (blocked ∷ arrivals) c reads sent flows e h =
    receive_loop-esp_post_build dissect fuel bs arrivals c reads sent flows e (omega arith)
receive_loop-esp_post_build dissect (suc fuel) bs (stopped ∷ arrivals) c reads sent flows e h =
    absurd flows
receive_loop-esp_post_build dissect (suc fuel) bs (chunk [] ∷ arrivals) c reads sent flows e h =
    absurd flows
receive_loop-esp_post_build dissect (suc fuel) [] (chunk (x ∷ s) ∷ arrivals) c reads sent flows e
      h =
    absurd (omega (arith, ap length e))
receive_loop-esp_post_build dissect (suc fuel) (b ∷ bs) (chunk (x ∷ s) ∷ arrivals) c reads sent
      flows e h =
    let (rest, read, flows', left, less) =
      read_message_lem dissect reads b sent.0 c (wires bs) (chunk (x ∷ s) ∷ arrivals) flows e in
    round dissect reads fuel c (handle_incoming b.message c) (x ∷ s) arrivals rest read
    ∙ receive_loop-esp_post_build dissect fuel bs rest (handle_incoming b.message c) reads sent.1
        flows' left (omega arith)
