-- ===== src/Server/Answers.antt =====
-- What the server answers to each type of message.
use mathlib.Core.Path.{subst}
use auto_test_poc.Base.{
  ℕ, ◌+◌, ◌≡◌, refl, sym, ap, ◌∙◌, Bool, true, false, List, [], ◌∷◌, ◌++◌, append_assoc, append-nil,
  length, length-append, some, get_or, arith, Option-cases, Bool-cases, inl, inr, if◌then◌else◌,
}
use auto_test_poc.Py.Exceptions.{Result, ok, err}
use auto_test_poc.Py.State.{◌>>◌, when}
use auto_test_poc.Py.Text.{Text, codes, text_eq}
use auto_test_poc.Py.Dict.{Dict, lookup, insert}
use auto_test_poc.Codec.{header, sealed}
use auto_test_poc.Codec.Messages.{IsMessage}
use auto_test_poc.Codec.Shape.{dict_to_fix-sealed}
use auto_test_poc.Server.Values.{AllValues, IsCleanConfig, IsCleanDraw, IsCleanSession}
use auto_test_poc.Server.Replies.{
  logon_reply-IsMessage, heartbeat_reply-IsMessage, new_report-IsMessage, fill_report-IsMessage,
}
use auto_test_poc.Server.Total.{begin_new, begin_fill}
use auto_test_poc.Server.{
  Config, Draw, Session, Conn, send, reply_with, logon_reply, heartbeat_reply, new_report,
  fill_report, handle_message, dispatch,
}

-- The messages that were sent, without their texts.
abbrev pub dicts : List (Dict Text × Text) → List (Dict Text)
dicts [] = []
dicts ((d, s) ∷ sent) = d ∷ dicts sent

dicts-append : (xs ys : List (Dict Text × Text)) → dicts (xs ++ ys) ≡ dicts xs ++ dicts ys
dicts-append [] ys = refl
dicts-append ((d, s) ∷ xs) ys = ap (λ ds. d ∷ ds) (dicts-append xs ys)

abbrev pub numbered_from : Session → ℕ → Session
numbered_from s n = record s { out_seq = n }

-- The answers to a message, by its type: the second one has the next number.
abbrev pub order_answers : Bool → Config → Draw → Dict Text → Session → List (Dict Text)
order_answers true cfg draw msg s =
    new_report cfg draw msg s ∷ fill_report cfg draw msg (numbered_from s (s.out_seq + 1)) ∷ []
order_answers false cfg draw msg s = new_report cfg draw msg s ∷ []

unfoldable pub answers : Config → Draw → Dict Text → Session → List (Dict Text)
answers cfg draw msg s =
    let mtype = get_or (lookup (codes "35") msg) [] in
    if text_eq mtype (codes "A")
    then logon_reply cfg draw msg s ∷ []
    else if text_eq mtype (codes "0")
    then []
    else if text_eq mtype (codes "1")
    then heartbeat_reply cfg draw msg s ∷ []
    else if text_eq mtype (codes "D")
    then order_answers cfg.auto_fill cfg draw msg s
    else []

-- The call returned and sent `ds`; the session's number counts them, and is else as it was.
abbrev pub Sends : Conn → List (Dict Text) → Result (Unit {0}) × Conn → Type 0
Sends c ds (ok _, c') =
    (dicts c'.sent ≡ dicts c.sent ++ ds)
    × (c'.session ≡ numbered_from c.session (c.session.out_seq + length ds))
    × (c'.handled ≡ c.handled)
Sends c ds (err e, c') = ⊥

reply_with-Sends :
    (make : Session → Dict Text) (c : Conn) {begin : Text}
    → IsMessage (make c.session)
    → lookup (codes "8") (make c.session) ≡ some begin
    → Sends c (make c.session ∷ []) (reply_with make c)
unfolding send
reply_with-Sends make c {begin} hm hb =
    let (ps, t, made) = dict_to_fix-sealed (make c.session) hm hb in
    rw (made, send)
      (dicts-append c.sent ((make c.session, sealed (header begin _)) ∷ []), refl, refl)

Sends-join :
    (c c' : Conn) (ds es : List (Dict Text)) (p : Result (Unit {0}) × Conn)
    → Sends c ds (ok tt, c')
    → Sends c' es p
    → Sends c (ds ++ es) p
Sends-join c c' ds es (err e, c'') h r = r
Sends-join c c' ds es (ok a, c'') h r = (
  r.0 ∙ ap (λ xs. xs ++ es) h.0 ∙ append_assoc (dicts c.sent) ds es,
  r.1
      ∙ ap (λ s. numbered_from s (s.out_seq + length es)) h.1
      ∙ ap (numbered_from c.session) (omega (arith, length-append ds es)),
  r.2 ∙ h.2,
)

module _ (cfg : Config) (draw : Draw) (msg : Dict Text) (hc : IsCleanConfig cfg)
    (hd : IsCleanDraw draw) (hm : AllValues msg) where
  numbered-IsCleanSession :
      (s : Session) (n : ℕ) → IsCleanSession s → IsCleanSession (numbered_from s n)
  numbered-IsCleanSession s n hs = record {
    server_comp_id = hs.server_comp_id;
    client_sender = hs.client_sender;
    client_target = hs.client_target;
  }

  new_report-Sends :
      (c : Conn)
      → IsCleanSession c.session
      → Sends c (new_report cfg draw msg c.session ∷ []) (reply_with (new_report cfg draw msg) c)
  new_report-Sends c hs =
      reply_with-Sends (new_report cfg draw msg) c {begin = cfg.begin_string}
        (new_report-IsMessage cfg draw msg c.session hc hd hm hs)
        (begin_new cfg draw msg hc hd hm c.session)

  fill_report-Sends :
      (c : Conn)
      → IsCleanSession c.session
      → Sends c (fill_report cfg draw msg c.session ∷ []) (reply_with (fill_report cfg draw msg) c)
  fill_report-Sends c hs =
      reply_with-Sends (fill_report cfg draw msg) c {begin = cfg.begin_string}
        (fill_report-IsMessage cfg draw msg c.session hc hd hm hs)
        (begin_fill cfg draw msg hc hd hm c.session)

  order-Sends :
      (auto : Bool) (c : Conn)
      → IsCleanSession c.session
      → Sends c (order_answers auto cfg draw msg c.session) (
          (reply_with (new_report cfg draw msg)
              >> when auto (reply_with (fill_report cfg draw msg)))
            c)
  order-Sends auto c hs = go auto (reply_with (new_report cfg draw msg) c) (new_report-Sends c hs)
    where
      go :
          (auto : Bool) (p : Result (Unit {0}) × Conn)
          → Sends c (new_report cfg draw msg c.session ∷ []) p
          → Sends c
              (order_answers auto cfg draw msg c.session)
              (((λ _. p) >> when auto (reply_with (fill_report cfg draw msg))) c)
      go auto (err e, c') h = absurd h
      go false (ok a, c') h = h
      go true (ok a, c') h =
          let next = numbered_from c.session (c.session.out_seq + 1) in
          let clean : IsCleanSession c'.session =
            subst IsCleanSession (sym h.1)
              (numbered-IsCleanSession c.session (c.session.out_seq + 1) hs) in
          Sends-join c c' (new_report cfg draw msg c.session ∷ [])
            (fill_report cfg draw msg next ∷ []) (reply_with (fill_report cfg draw msg) c') h
            (subst
              (λ s.
                Sends c' (fill_report cfg draw msg s ∷ [])
                  (reply_with (fill_report cfg draw msg) c'))
              h.1 (fill_report-Sends c' clean))

  nothing-Sends : (c : Conn) → Sends c [] (ok tt, c)
  nothing-Sends c =
      (sym (append-nil (dicts c.sent)), ap (numbered_from c.session) (omega arith), refl)

-- A message is handled without an exception and makes the server send the answers of its type and no
-- other message: a Logon for a Logon, a Heartbeat for a TestRequest, an ExecutionReport for a
-- NewOrderSingle with a second one where fills are automatic, and nothing else. The values of the
-- message, of the session, of the configuration and of the draw are ASCII without the delimiter.
pub handle_message-Sends :
    (cfg : Config) (draw : Draw) (msg : Dict Text) (c : Conn)
    → IsCleanConfig cfg
    → IsCleanDraw draw
    → AllValues msg
    → IsCleanSession c.session
    → Sends c (answers cfg draw msg c.session) (handle_message cfg draw msg c)
unfolding handle_message answers dispatch
handle_message-Sends cfg draw msg c hc hd hm hs =
    let mtype = get_or (lookup (codes "35") msg) [] in
    elim (Bool-cases (text_eq mtype (codes "A"))) [
      | inl logon ↦ rw logon (
          reply_with-Sends (logon_reply cfg draw msg) c {begin = cfg.begin_string}
            (logon_reply-IsMessage cfg draw msg c.session hc hd hm hs) (unfold lookup in refl))
      | inr a ↦ elim (Bool-cases (text_eq mtype (codes "0"))) [
        | inl heartbeat ↦ rw (a, heartbeat) (nothing-Sends cfg draw msg hc hd hm c)
        | inr b ↦ elim (Bool-cases (text_eq mtype (codes "1"))) [
          | inl test ↦
              rw (a, b, test)
                (reply_with-Sends (heartbeat_reply cfg draw msg) c {begin = cfg.begin_string}
                  (heartbeat_reply-IsMessage cfg draw msg c.session hc hd hm hs)
                  (unfold lookup in refl))
          | inr d ↦ elim (Bool-cases (text_eq mtype (codes "D"))) [
            | inl order ↦ rw (a, b, d, order) (order-Sends cfg draw msg hc hd hm cfg.auto_fill c hs)
            | inr other ↦ rw (a, b, d, other) (nothing-Sends cfg draw msg hc hd hm c)
          ]
        ]
      ]
    ]

-- The two reports of an order that is filled at once name the same order: the identifiers, the symbol,
-- the side and the quantity agree, which is that of the order, or 0 where the order has none. In the
-- first report the whole quantity is open and 0 is filled, in the second one 0 is open and the whole
-- quantity is filled.
pub fill_report-new_report :
    (cfg : Config) (draw : Draw) (msg : Dict Text) (s s' : Session)
    → let new = new_report cfg draw msg s in
      let done = fill_report cfg draw msg s' in
      (lookup (codes "11") done ≡ lookup (codes "11") new)
      × (lookup (codes "37") done ≡ lookup (codes "37") new)
      × (lookup (codes "55") done ≡ lookup (codes "55") new)
      × (lookup (codes "54") done ≡ lookup (codes "54") new)
      × (lookup (codes "38") done ≡ lookup (codes "38") new)
      × (lookup (codes "38") new ≡ some (get_or (lookup (codes "38") msg) (codes "0")))
      × (lookup (codes "151") new ≡ lookup (codes "38") new)
      × (lookup (codes "14") new ≡ some (codes "0"))
      × (lookup (codes "151") done ≡ some (codes "0"))
      × (lookup (codes "14") done ≡ lookup (codes "38") done)
unfolding lookup insert
fill_report-new_report cfg draw msg s s' = elim (Option-cases (lookup (codes "44") msg)) [
  | inl market ↦ rw market (refl, refl, refl, refl, refl, refl, refl, refl, refl, refl)
  | inr (price, limit) ↦ rw limit (refl, refl, refl, refl, refl, refl, refl, refl, refl, refl)
]
