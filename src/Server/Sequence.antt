-- ===== src/Server/Sequence.antt =====
-- The numbers of the messages that a connection sends.
use auto_test_poc.Base.{
  ℕ, suc, ◌+◌, ◌≡◌, refl, ap, ◌∙◌, Bool, true, false, List, [], ◌∷◌, ◌++◌, some, arith, length,
  length-append, Option-cases, inl, inr,
}
use auto_test_poc.Py.Exceptions.{Result, ok, err}
use auto_test_poc.Py.State.{◌>>◌, when}
use auto_test_poc.Py.Text.{Text, codes}
use auto_test_poc.Py.Decimal.{print_ℕ}
use auto_test_poc.Py.Dict.{Dict, lookup, insert}
use auto_test_poc.Codec.{dict_to_fix, fix_to_dict}
use auto_test_poc.Frames.{extract_messages}
use auto_test_poc.Server.Dispatch.{dispatch_elim}
use auto_test_poc.Server.{
  Config, Draw, Session, Conn, Method, new_session, send, reply_with, logon_reply, heartbeat_reply,
  new_report, fill_report, handle_message, handle_raw, handle_all, client_loop, handle_client,
  assign_from_incoming, order_field,
}

-- The messages carry MsgSeqNum `n`, `n + 1` and so on, each with the text that encodes it.
abbrev pub Numbered : ℕ → List (Dict Text × Text) → Type 0
Numbered n [] = Unit
Numbered n ((d, s) ∷ sent) =
    (lookup (codes "34") d ≡ some (print_ℕ n)) × (dict_to_fix d ≡ ok s) × Numbered (suc n) sent

Numbered-snoc :
    (n : ℕ) (sent : List (Dict Text × Text)) (m : ℕ) (d : Dict Text) (s : Text)
    → Numbered n sent
    → m ≡ n + length sent
    → lookup (codes "34") d ≡ some (print_ℕ m)
    → dict_to_fix d ≡ ok s
    → Numbered n (sent ++ (d, s) ∷ [])
Numbered-snoc n [] m d s h e l p =
    let same : m ≡ n = omega arith in (l ∙ ap (λ k. some (print_ℕ k)) same, p, tt)
Numbered-snoc n (x ∷ sent) m d s h e l p =
    (h.0, h.1, Numbered-snoc (suc n) sent m d s h.2 (omega arith) l p)

-- After a call that returned, the next number is one above the messages sent; after one that raised,
-- a number may have been taken for a message that was not sent.
abbrev pub Counts : Result (Unit {0}) × Conn → Type 0
Counts (ok _, c) = Numbered 1 c.sent × (c.session.out_seq ≡ 1 + length c.sent)
Counts (err _, c) = Numbered 1 c.sent

abbrev HasNumber : (Session → Dict Text) → Type 0
HasNumber make = (s : Session) → lookup (codes "34") (make s) ≡ some (print_ℕ s.out_seq)

reply_with-Counts :
    (make : Session → Dict Text) (c : Conn)
    → HasNumber make
    → Counts (ok tt, c)
    → Counts (reply_with make c)
unfolding send
reply_with-Counts make c number h = go (dict_to_fix (make c.session)) refl
  where
    go : (r : Result Text) → dict_to_fix (make c.session) ≡ r → Counts (reply_with make c)
    go (ok s) e =
        rw (e, send)
          (
            Numbered-snoc 1 c.sent c.session.out_seq (make c.session) s h.0 h.1 (number c.session)
                e,
            omega (arith, h.1, length-append c.sent ((make c.session, s) ∷ [])),
          )
    go (err x) e = rw (e, send) h.0

>>-Counts :
    (m k : Method) (c : Conn)
    → Counts (m c)
    → ((c' : Conn) → Counts (ok tt, c') → Counts (k c'))
    → Counts ((m >> k) c)
>>-Counts m k c h next = go (m c) h
  where
    go : (p : Result (Unit {0}) × Conn) → Counts p → Counts (((λ _. p) >> k) c)
    go (ok a, c') h = next c' h
    go (err e, c') h = h

module _ (cfg : Config) (draw : Draw) (msg : Dict Text) where
  new_report-HasNumber : HasNumber (new_report cfg draw msg)
  unfolding lookup insert
  new_report-HasNumber s = elim (Option-cases (lookup (codes "44") msg)) [
    | inl market ↦ ground (arith, market)
    | inr (price, limit) ↦ ground (arith, limit)
  ]

  fill_report-HasNumber : HasNumber (fill_report cfg draw msg)
  unfolding lookup insert
  fill_report-HasNumber s = elim (Option-cases (lookup (codes "44") msg)) [
    | inl market ↦ ground (arith, market)
    | inr (price, limit) ↦ ground (arith, limit)
  ]

  handle_message-Counts : (c : Conn) → Counts (ok tt, c) → Counts (handle_message cfg draw msg c)
  unfolding handle_message
  handle_message-Counts c h =
      dispatch_elim Counts (order_field (codes "35") [] msg) _ _ _ c
        (reply_with-Counts (logon_reply cfg draw msg) c (λ s. unfold lookup in refl) h) h
        (reply_with-Counts (heartbeat_reply cfg draw msg) c (λ s. unfold lookup in refl) h)
        (>>-Counts (reply_with (new_report cfg draw msg))
          (when cfg.auto_fill (reply_with (fill_report cfg draw msg))) c
          (reply_with-Counts (new_report cfg draw msg) c new_report-HasNumber h)
          (filled cfg.auto_fill))
    where
      filled :
          (auto : Bool) (c : Conn)
          → Counts (ok tt, c)
          → Counts (when auto (reply_with (fill_report cfg draw msg)) c)
      filled true c h = reply_with-Counts (fill_report cfg draw msg) c fill_report-HasNumber h
      filled false c h = h

module _ (cfg : Config) (draws : ℕ → Draw) where
  handle_all-Counts :
      (raws : List Text) (c : Conn) → Counts (ok tt, c) → Counts (handle_all cfg draws raws c)
  unfolding handle_all
  handle_all-Counts [] c h = h
  handle_all-Counts (raw ∷ raws) c h =
      >>-Counts (handle_raw cfg draws raw) (handle_all cfg draws raws) c (one raw c h)
        (handle_all-Counts raws)
    where
      one : (raw : Text) (c : Conn) → Counts (ok tt, c) → Counts (handle_raw cfg draws raw c)
      one raw c h =
          unfold handle_raw in
          handle_message-Counts cfg (draws c.handled) (fix_to_dict raw)
            (record c {
              session = assign_from_incoming (fix_to_dict raw) c.session;
              handled = c.handled + 1;
            })
            h

  client_loop-Counts :
      (chunks : List Text) (buffer : Text) (c : Conn)
      → Counts (ok tt, c)
      → Counts (client_loop cfg draws chunks buffer c)
  unfolding client_loop
  client_loop-Counts [] buffer c h = h
  client_loop-Counts ([] ∷ chunks) buffer c h = h
  client_loop-Counts ((x ∷ s) ∷ chunks) buffer c h =
      let (msgs, rest) = extract_messages (buffer ++ x ∷ s) in
      >>-Counts (handle_all cfg draws msgs) (client_loop cfg draws chunks rest) c
        (handle_all-Counts msgs c h) (client_loop-Counts chunks rest)

-- Over a whole connection, whatever bytes the client sends and also if an exception ends it, the
-- messages that the server sent carry MsgSeqNum 1, 2, 3 and so on without a gap or a repetition, and
-- each one's text is the encoding of its fields.
pub handle_client-Numbered :
    (cfg : Config) (draws : ℕ → Draw) (chunks : List Text)
    → Numbered 1 (handle_client cfg draws chunks).sent
unfolding handle_client
handle_client-Numbered cfg draws chunks =
    let start : Conn = record { session = new_session cfg.comp_id; handled = 0; sent = [] } in
    numbered (client_loop cfg draws chunks [] start)
      (client_loop-Counts cfg draws chunks [] start (tt, omega arith))
  where
    numbered : (p : Result (Unit {0}) × Conn) → Counts p → Numbered 1 p.1.sent
    numbered (ok a, c) h = h.0
    numbered (err e, c) h = h
