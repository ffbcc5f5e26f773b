-- ===== src/AhdClient/Receive/Frames.antt =====
-- The receiving thread takes the packets out of the stream that `post_build` made, however they arrive.
use auto_test_poc.Base.{
  ℕ, zero, suc, ◌+◌, ◌-◌, ◌≤◌, ◌<◌, ◌≡◌, refl, sym, ap, ◌∙◌, List, [], ◌∷◌, ◌++◌, some, arith,
  length, take, drop, take-append_le, drop-append_le, take-append-drop, length-append, length-take,
  take-length, drop-length,
}
use auto_test_poc.Base.Int.{pos, pos_part, ◌+ℤ◌, ◌-ℤ◌}
use auto_test_poc.Py.Exceptions.{Result, ok}
use auto_test_poc.Py.Text.{Text, codes}
use auto_test_poc.Padded.{int_m2i}
use auto_test_poc.Ahd.PostBuild.{esp_post_build}
use auto_test_poc.Ahd.PostBuild.Lengths.{five_field}
use auto_test_poc.Ahd.PostBuild.Session.{esp_post_build_lem}
use auto_test_poc.AhdClient.{AhdClient, Incoming}
use auto_test_poc.AhdClient.Receive.{
  Arrival, receive_exact, handle_incoming, finish_message, read_data, read_header, read_message,
  header_size,
}
use auto_test_poc.AhdClient.Receive.Exact.{stream, Flows, receive_exact_lem}

-- A packet that the exchange builds of a header and a payload, and what its dissection, and that of the
-- header alone, give.
pub record Sent : Type 0 where
  pub p : Text
  pub payload : Text
  pub header : Incoming
  pub message : Incoming

abbrev pub wire : Sent → Text
wire b = esp_post_build b.p b.payload

abbrev pub wires : List Sent → Text
wires [] = []
wires (b ∷ bs) = wire b ++ wires bs

-- The header has its width, the payload is not empty and can be counted, and both dissections succeed.
abbrev pub IsSent : (Text → Result Incoming) → Sent → Type 0
IsSent dissect b =
    (length b.p ≡ 72)
    × (0 < length b.payload)
    × (length b.payload < 99933)
    × (dissect (take 72 (wire b)) ≡ ok b.header)
    × (dissect (wire b) ≡ ok b.message)

abbrev pub handle_all : List Sent → AhdClient → AhdClient
handle_all [] c = c
handle_all (b ∷ bs) c = handle_all bs (handle_incoming b.message c)

-- A dissection reads the length in the first five bytes.
abbrev pub ReadsLength : (Text → Result Incoming) → Type 0
ReadsLength dissect =
    (s : Text) (x : Incoming)
    → dissect s ≡ ok x
    → int_m2i five_field (take 5 s) ≡ ok x.message_length

take-take : (m n : ℕ) (s : Text) → m ≤ n → take m (take n s) ≡ take m s
take-take zero n s h = refl
take-take (suc m) zero s h = absurd (omega arith)
take-take (suc m) (suc n) [] h = refl
take-take (suc m) (suc n) (c ∷ s) h = ap (λ t. c ∷ t) (take-take m n s (omega arith))

behind_header : (n : ℕ) → pos_part ((pos (72 + n - 5) -ℤ pos 72) +ℤ pos 5) ≡ n
unfolding ◌+ℤ◌ ◌-ℤ◌
behind_header n = ground arith

module _ (dissect : Text → Result Incoming) where
  header_read :
      (c : AhdClient) (t : Text) (x : Incoming) (arrivals : List Arrival)
      → 0 < length t
      → dissect t ≡ ok x
      → read_header dissect c (some t, arrivals) ≡ read_data dissect c t x.message_length arrivals
  header_read c [] x arrivals h e = absurd (omega arith)
  header_read c (d ∷ t) x arrivals h e = rw (e, read_header) refl

  data_read :
      (c : AhdClient) (t s : Text) (x : Incoming) (arrivals : List Arrival)
      → 0 < length s
      → dissect (t ++ s) ≡ ok x
      → finish_message dissect c t (some s, arrivals) ≡ some (handle_incoming x c, arrivals)
  data_read c t [] x arrivals h e = absurd (omega arith)
  data_read c t (d ∷ s) x arrivals h e = rw (e, finish_message) refl

  module _ (reads : ReadsLength dissect) (b : Sent) (sent : IsSent dissect b) where
    pub wire-length : length (wire b) ≡ 72 + length b.payload
    wire-length =
        omega
          (arith, (esp_post_build_lem b.p b.payload (codes "SeqNo") sent.0 sent.2 refl).0, sent.0)

    wire-payload : drop 72 (wire b) ≡ b.payload
    wire-payload =
        ap (λ n. drop n (wire b)) (sym sent.0)
        ∙ (esp_post_build_lem b.p b.payload (codes "SeqNo") sent.0 sent.2 refl).3

    ok-injective : {A : Type 0} {x y : A} → ok x ≡ ok y → x ≡ y
    ok-injective e = cc

    header_length : b.header.message_length ≡ some (pos (length (wire b) - 5))
    header_length = ok-injective (
        sym (reads (take 72 (wire b)) b.header sent.3)
        ∙ ap (int_m2i five_field) (take-take 5 72 (wire b) (omega arith))
        ∙ (esp_post_build_lem b.p b.payload (codes "SeqNo") sent.0 sent.2 refl).1)

    data_size :
        pos_part ((pos (length (wire b) - 5) -ℤ pos header_size) +ℤ pos 5) ≡ length b.payload
    data_size =
        ap (λ n. pos_part ((pos (n - 5) -ℤ pos header_size) +ℤ pos 5)) wire-length
        ∙ behind_header (length b.payload)

    -- One packet is taken from the front of the stream.
    pub read_message_lem :
        (c : AhdClient) (tail : Text) (arrivals : List Arrival)
        → Flows arrivals
        → stream arrivals ≡ wire b ++ tail
        → (rest : List Arrival) × (read_message dissect c arrivals
            ≡ some (handle_incoming b.message c, rest))
          × Flows rest
          × (stream rest ≡ tail)
          × (length rest ≤ length arrivals)
    read_message_lem c tail arrivals flows e =
        let enough : 72 + length b.payload ≤ length (stream arrivals) =
          omega (arith, ap length e, length-append (wire b) tail, wire-length) in
        let (behind, head, flows1, left1, less1) =
          receive_exact_lem 72 72 [] arrivals flows refl (omega arith) in
        let front : take 72 (stream arrivals) ≡ take 72 (wire b) =
          ap (take 72) e ∙ take-append_le 72 (wire b) tail (omega (arith, wire-length)) in
        let behind_stream : stream behind ≡ b.payload ++ tail =
          left1
          ∙ ap (drop 72) e
          ∙ drop-append_le 72 (wire b) tail (omega (arith, wire-length))
          ∙ ap (λ s. s ++ tail) wire-payload in
        let (rest, body, flows2, left2, less2) =
          receive_exact_lem (length b.payload) (length b.payload) [] behind flows1 (omega arith)
            (omega (arith, ap length behind_stream, length-append b.payload tail)) in
        (
          rest,
          ap (read_header dissect c) (head ∙ ap (λ t. (some t, behind)) front)
              ∙ header_read c (take 72 (wire b)) b.header behind
                  (omega (arith, length-take 72 (wire b), wire-length)) sent.3
              ∙ ap (λ o. read_data dissect c (take 72 (wire b)) o behind) header_length
              ∙ ap (λ n. finish_message dissect c (take 72 (wire b)) (receive_exact n [] behind))
                  data_size
              ∙ ap (finish_message dissect c (take 72 (wire b))) (
                  body
                  ∙ ap (λ t. (some (take (length b.payload) t), rest)) behind_stream
                  ∙ ap (λ t. (some t, rest)) (take-length b.payload tail))
              ∙ data_read c (take 72 (wire b)) b.payload b.message rest sent.1 (
                  ap dissect (
                    ap (λ t. take 72 (wire b) ++ t) (sym wire-payload)
                    ∙ take-append-drop 72 (wire b))
                  ∙ sent.4),
          flows2,
          left2 ∙ ap (drop (length b.payload)) behind_stream ∙ drop-length b.payload tail,
          omega arith,
        )
