-- ===== src/Server/Total.antt =====
-- The server's handlers return, whatever the client sends.
use auto_test_poc.Base.{
  ℕ, ◌+◌, ◌≡◌, refl, Bool, true, false, List, [], ◌∷◌, ◌++◌, some, All, arith, Option-cases, inl,
  inr,
}
use auto_test_poc.Py.Exceptions.{Result, ok, err}
use auto_test_poc.Py.State.{◌>>◌, when}
use auto_test_poc.Py.Text.{Text, codes}
use auto_test_poc.Py.Dict.{Dict, lookup, insert}
use auto_test_poc.Codec.{fix_to_dict}
use auto_test_poc.Codec.Messages.{IsAscii, IsMessage}
use auto_test_poc.Codec.Shape.{dict_to_fix-sealed}
use auto_test_poc.Frames.{extract_messages}
use auto_test_poc.Server.Dispatch.{dispatch_elim}
use auto_test_poc.Server.Values.{
  AllValues, IsCleanConfig, IsCleanDraw, IsCleanSession, lookup-IsValue, or_else-IsValue,
}
use auto_test_poc.Server.Replies.{
  logon_reply-IsMessage, heartbeat_reply-IsMessage, new_report-IsMessage, fill_report-IsMessage,
}
use auto_test_poc.Server.Parsed.{fix_to_dict-AllValues, extract_messages-IsAscii}
use auto_test_poc.Server.{
  Config, Draw, Session, Conn, Method, new_session, send, reply_with, logon_reply, heartbeat_reply,
  new_report, fill_report, handle_message, handle_raw, handle_all, client_loop,
  assign_from_incoming, order_field,
}

-- The call returned, and left a session whose values can be encoded.
abbrev pub Returns : Result (Unit {0}) × Conn → Type 0
Returns (ok _, c) = IsCleanSession c.session
Returns (err _, c) = ⊥

>>-Returns :
    (m k : Method) (c : Conn)
    → Returns (m c)
    → ((c' : Conn) → IsCleanSession c'.session → Returns (k c'))
    → Returns ((m >> k) c)
>>-Returns m k c h next = go (m c) h
  where
    go : (p : Result (Unit {0}) × Conn) → Returns p → Returns (((λ _. p) >> k) c)
    go (ok a, c') h = next c' h
    go (err e, c') h = absurd h

reply_with-Returns :
    (make : Session → Dict Text) (c : Conn) {begin : Text}
    → IsMessage (make c.session)
    → lookup (codes "8") (make c.session) ≡ some begin
    → IsCleanSession c.session
    → Returns (reply_with make c)
unfolding send
reply_with-Returns make c {begin} hm hb hs =
    let (ps, t, made) = dict_to_fix-sealed (make c.session) hm hb in
    rw (made, send)
      (record {
        server_comp_id = hs.server_comp_id;
        client_sender = hs.client_sender;
        client_target = hs.client_target;
      })

assign-IsCleanSession :
    (msg : Dict Text) (s : Session)
    → AllValues msg
    → IsCleanSession s
    → IsCleanSession (assign_from_incoming msg s)
unfolding assign_from_incoming
assign-IsCleanSession msg s hm hs = record {
  server_comp_id = hs.server_comp_id;
  client_sender =
      or_else-IsValue (lookup (codes "49") msg) s.client_sender (lookup-IsValue (codes "49") msg hm)
        hs.client_sender;
  client_target =
      or_else-IsValue (lookup (codes "56") msg) s.client_target (lookup-IsValue (codes "56") msg hm)
        hs.client_target;
}

module _ (cfg : Config) (draw : Draw) (msg : Dict Text) (hc : IsCleanConfig cfg)
    (hd : IsCleanDraw draw) (hm : AllValues msg) where
  pub begin_new :
      (s : Session) → lookup (codes "8") (new_report cfg draw msg s) ≡ some cfg.begin_string
  unfolding lookup insert
  begin_new s = elim (Option-cases (lookup (codes "44") msg)) [
    | inl market ↦ ground (arith, market)
    | inr (price, limit) ↦ ground (arith, limit)
  ]

  pub begin_fill :
      (s : Session) → lookup (codes "8") (fill_report cfg draw msg s) ≡ some cfg.begin_string
  unfolding lookup insert
  begin_fill s = elim (Option-cases (lookup (codes "44") msg)) [
    | inl market ↦ ground (arith, market)
    | inr (price, limit) ↦ ground (arith, limit)
  ]

  handle_message-Returns :
      (c : Conn) → IsCleanSession c.session → Returns (handle_message cfg draw msg c)
  unfolding handle_message
  handle_message-Returns c hs =
      dispatch_elim Returns (order_field (codes "35") [] msg) _ _ _ c
        (reply_with-Returns (logon_reply cfg draw msg) c {begin = cfg.begin_string}
          (logon_reply-IsMessage cfg draw msg c.session hc hd hm hs) (unfold lookup in refl) hs)
        hs
        (reply_with-Returns (heartbeat_reply cfg draw msg) c {begin = cfg.begin_string}
          (heartbeat_reply-IsMessage cfg draw msg c.session hc hd hm hs) (unfold lookup in refl) hs)
        (>>-Returns (reply_with (new_report cfg draw msg))
          (when cfg.auto_fill (reply_with (fill_report cfg draw msg))) c
          (reply_with-Returns (new_report cfg draw msg) c
            (new_report-IsMessage cfg draw msg c.session hc hd hm hs) (begin_new c.session) hs)
          (filled cfg.auto_fill))
    where
      filled :
          (auto : Bool) (c : Conn)
          → IsCleanSession c.session
          → Returns (when auto (reply_with (fill_report cfg draw msg)) c)
      filled true c hs =
          reply_with-Returns (fill_report cfg draw msg) c
            (fill_report-IsMessage cfg draw msg c.session hc hd hm hs) (begin_fill c.session) hs
      filled false c hs = hs

module _ (cfg : Config) (draws : ℕ → Draw) (hc : IsCleanConfig cfg)
    (hd : (n : ℕ) → IsCleanDraw (draws n)) where
  handle_raw-Returns :
      (raw : Text) (c : Conn)
      → IsAscii raw
      → IsCleanSession c.session
      → Returns (handle_raw cfg draws raw c)
  unfolding handle_raw
  handle_raw-Returns raw c ha hs =
      let hm = fix_to_dict-AllValues raw ha in
      handle_message-Returns cfg (draws c.handled) (fix_to_dict raw) hc (hd c.handled) hm
        (record c {
          session = assign_from_incoming (fix_to_dict raw) c.session;
          handled = c.handled + 1;
        })
        (assign-IsCleanSession (fix_to_dict raw) c.session hm hs)

  handle_all-Returns :
      (raws : List Text) (c : Conn)
      → All IsAscii raws
      → IsCleanSession c.session
      → Returns (handle_all cfg draws raws c)
  unfolding handle_all
  handle_all-Returns [] c ha hs = hs
  handle_all-Returns (raw ∷ raws) c ha hs =
      >>-Returns (handle_raw cfg draws raw) (handle_all cfg draws raws) c
        (handle_raw-Returns raw c ha.0 hs) (λ c' hs'. handle_all-Returns raws c' ha.1 hs')

  client_loop-Returns :
      (chunks : List Text) (buffer : Text) (c : Conn)
      → IsCleanSession c.session
      → Returns (client_loop cfg draws chunks buffer c)
  unfolding client_loop
  client_loop-Returns [] buffer c hs = hs
  client_loop-Returns ([] ∷ chunks) buffer c hs = hs
  client_loop-Returns ((x ∷ s) ∷ chunks) buffer c hs =
      let (msgs, rest) = extract_messages (buffer ++ x ∷ s) in
      >>-Returns (handle_all cfg draws msgs) (client_loop cfg draws chunks rest) c
        (handle_all-Returns msgs c (extract_messages-IsAscii (buffer ++ x ∷ s)) hs)
        (client_loop-Returns chunks rest)

-- Whatever bytes the client sends and however they are cut into chunks, the loop over them returns: no
-- handler raises. The server's own CompID and BeginString, and what the clock and `uuid4` give, are
-- ASCII without the delimiter.
pub client_loop-returns :
    (cfg : Config) (draws : ℕ → Draw) (chunks : List Text)
    → IsCleanConfig cfg
    → ((n : ℕ) → IsCleanDraw (draws n))
    → (client_loop cfg draws chunks []
        (record { session = new_session cfg.comp_id; handled = 0; sent = [] })).0
      ≡ ok tt
client_loop-returns cfg draws chunks hc hd =
    returned (client_loop cfg draws chunks [] start)
      (client_loop-Returns cfg draws hc hd chunks [] start clean)
  where
    start : Conn
    start = record { session = new_session cfg.comp_id; handled = 0; sent = [] }

    clean : IsCleanSession (new_session cfg.comp_id)
    clean = record { server_comp_id = hc.comp_id; client_sender = tt; client_target = tt }

    returned : (p : Result (Unit {0}) × Conn) → Returns p → p.0 ≡ ok tt
    returned (ok a, c) h = refl
    returned (err e, c) h = absurd h
