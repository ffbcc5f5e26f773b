-- ===== src/Server/Replies.antt =====
-- Every reply is a message that the codec can encode.
use auto_test_poc.Base.{ℕ, refl, List, [], ◌∷◌, ◌++◌, Option, none, some, arith, All-append}
use auto_test_poc.Py.Text.{Text, codes}
use auto_test_poc.Py.Decimal.{print_ℕ}
use auto_test_poc.Py.Dict.{Dict, lookup}
use auto_test_poc.Codec.Messages.{IsMessage}
use auto_test_poc.Server.{
  Config, Draw, Session, or_text, server_sender, server_target, order_field, reply_header,
  logon_reply, heartbeat_reply, new_report, fill_report, with_price,
}
use auto_test_poc.Server.Values.{
  IsValue, IsValue?, AllValues, AllValues-append, IsCleanConfig, IsCleanDraw, IsCleanSession,
  lookup-IsValue, get_or-IsValue, or_text-IsValue, print_ℕ-IsValue, keyed, keyed-IsMessage,
  insert-IsMessage,
}

with_price-IsMessage :
    (n : ℕ) (price : Option Text) (d : Dict Text)
    → IsValue? price
    → IsMessage d
    → IsMessage (with_price (print_ℕ n) price d)
with_price-IsMessage n none d hp hd = hd
with_price-IsMessage n (some p) d hp hd = insert-IsMessage n (print_ℕ n) p d refl hp hd

module _ (cfg : Config) (draw : Draw) (msg : Dict Text) (s : Session) (hc : IsCleanConfig cfg)
    (hd : IsCleanDraw draw) (hm : AllValues msg) (hs : IsCleanSession s) where
  sender-IsValue : IsValue (server_sender s)
  sender-IsValue = or_text-IsValue s.client_target _ hs.client_target (
      or_text-IsValue (some s.server_comp_id) (codes "SERVER") hs.server_comp_id
        (omega arith, omega arith))

  target-IsValue : IsValue (server_target s)
  target-IsValue =
      or_text-IsValue s.client_sender (codes "CLIENT") hs.client_sender (omega arith, omega arith)

  field-IsValue : (k default : Text) → IsValue default → IsValue (order_field k default msg)
  field-IsValue k default hv = get_or-IsValue (lookup k msg) default (lookup-IsValue k msg hm) hv

  header-AllValues :
      (mtype now : Text) → IsValue mtype → IsValue now → AllValues (reply_header cfg s mtype now)
  header-AllValues mtype now ht hn = (
    hc.begin_string,
    (ht, (sender-IsValue, (target-IsValue, (print_ℕ-IsValue s.out_seq, (hn, tt))))),
  )

  abbrev numbered_header : Text → Text → List (ℕ × Text)
  numbered_header mtype now =
      (8, cfg.begin_string)
      ∷ (35, mtype)
      ∷ (49, server_sender s)
      ∷ (56, server_target s)
      ∷ (34, print_ℕ s.out_seq)
      ∷ (52, now)
      ∷ []

  pub heartbeat_reply-IsMessage : IsMessage (heartbeat_reply cfg draw msg s)
  unfolding print_ℕ
  heartbeat_reply-IsMessage =
      let v = order_field (codes "112") (codes "TEST") msg in
      keyed-IsMessage (numbered_header (codes "0") draw.now ++ (112, v) ∷ []) refl (
        AllValues-append (reply_header cfg s (codes "0") draw.now) ((codes "112", v) ∷ [])
          (header-AllValues (codes "0") draw.now (omega arith, omega arith) hd.now)
          (field-IsValue (codes "112") (codes "TEST") (omega arith, omega arith), tt))

  pub logon_reply-IsMessage : IsMessage (logon_reply cfg draw msg s)
  unfolding print_ℕ
  logon_reply-IsMessage =
      let v = order_field (codes "108") (codes "30") msg in
      keyed-IsMessage (numbered_header (codes "A") draw.now ++ (98, codes "0") ∷ (108, v) ∷ []) refl
        (AllValues-append (reply_header cfg s (codes "A") draw.now)
          ((codes "98", codes "0") ∷ (codes "108", v) ∷ [])
          (header-AllValues (codes "A") draw.now (omega arith, omega arith) hd.now)
          (
            (omega arith, omega arith),
            (field-IsValue (codes "108") (codes "30") (omega arith, omega arith), tt),
          ))

  abbrev qty : Text
  qty = order_field (codes "38") (codes "0") msg

  abbrev client_id : Text
  client_id = order_field (codes "11") (codes "CL" ++ draw.hex_client) msg

  abbrev symbol : Text
  symbol = order_field (codes "55") (codes "SYM") msg

  abbrev side : Text
  side = order_field (codes "54") (codes "1") msg

  qty-IsValue : IsValue qty
  qty-IsValue = field-IsValue (codes "38") (codes "0") (omega arith, omega arith)

  prefixed-IsValue : (p v : Text) → IsValue p → IsValue v → IsValue (p ++ v)
  prefixed-IsValue p v hp hv = (All-append _ p v hp.0 hv.0, All-append _ p v hp.1 hv.1)

  client_id-IsValue : IsValue client_id
  client_id-IsValue =
      field-IsValue (codes "11") (codes "CL" ++ draw.hex_client)
        (prefixed-IsValue (codes "CL") draw.hex_client (omega arith, omega arith) hd.hex_client)

  pub new_report-IsMessage : IsMessage (new_report cfg draw msg s)
  unfolding print_ℕ
  new_report-IsMessage =
      let tail : List (ℕ × Text) =
        (150, codes "0")
        ∷ (39, codes "0")
        ∷ (11, client_id)
        ∷ (37, codes "ORD" ++ draw.hex_order)
        ∷ (17, codes "EX" ++ draw.hex_exec)
        ∷ (55, symbol)
        ∷ (54, side)
        ∷ (38, qty)
        ∷ (151, qty)
        ∷ (14, codes "0")
        ∷ (6, codes "0")
        ∷ [] in
      with_price-IsMessage 44 (lookup (codes "44") msg) _ (lookup-IsValue (codes "44") msg hm) (
        keyed-IsMessage (numbered_header (codes "8") draw.now ++ tail) refl (
          AllValues-append (reply_header cfg s (codes "8") draw.now) (keyed tail)
            (header-AllValues (codes "8") draw.now (omega arith, omega arith) hd.now)
            (
              digit,
              (
                digit,
                (
                  client_id-IsValue,
                  (
                    prefixed-IsValue (codes "ORD") draw.hex_order (omega arith, omega arith)
                        hd.hex_order,
                    (
                      prefixed-IsValue (codes "EX") draw.hex_exec (omega arith, omega arith)
                          hd.hex_exec,
                      (
                        field-IsValue (codes "55") (codes "SYM") (omega arith, omega arith),
                        (
                          field-IsValue (codes "54") (codes "1") (omega arith, omega arith),
                          (qty-IsValue, (qty-IsValue, (zero, (zero, tt)))),
                        ),
                      ),
                    ),
                  ),
                ),
              ),
            )))
    where
      digit : IsValue (codes "0")
      digit = (omega arith, omega arith)

      zero : IsValue (codes "0")
      zero = (omega arith, omega arith)

  pub fill_report-IsMessage : IsMessage (fill_report cfg draw msg s)
  unfolding print_ℕ
  fill_report-IsMessage =
      let tail : List (ℕ × Text) =
        (150, codes "2")
        ∷ (39, codes "2")
        ∷ (11, client_id)
        ∷ (37, codes "ORD" ++ draw.hex_order)
        ∷ (17, codes "EX" ++ draw.hex_fill)
        ∷ (55, symbol)
        ∷ (54, side)
        ∷ (38, qty)
        ∷ (32, qty)
        ∷ (151, codes "0")
        ∷ (14, qty)
        ∷ (6, or_text (lookup (codes "44") msg) (codes "0"))
        ∷ [] in
      with_price-IsMessage 31 (lookup (codes "44") msg) _ (lookup-IsValue (codes "44") msg hm) (
        keyed-IsMessage (numbered_header (codes "8") draw.now_fill ++ tail) refl (
          AllValues-append (reply_header cfg s (codes "8") draw.now_fill) (keyed tail)
            (header-AllValues (codes "8") draw.now_fill (omega arith, omega arith) hd.now_fill)
            (
              digit,
              (
                digit,
                (
                  client_id-IsValue,
                  (
                    prefixed-IsValue (codes "ORD") draw.hex_order (omega arith, omega arith)
                        hd.hex_order,
                    (
                      prefixed-IsValue (codes "EX") draw.hex_fill (omega arith, omega arith)
                          hd.hex_fill,
                      (
                        field-IsValue (codes "55") (codes "SYM") (omega arith, omega arith),
                        (
                          field-IsValue (codes "54") (codes "1") (omega arith, omega arith),
                          (
                            qty-IsValue,
                            (
                              qty-IsValue,
                              (
                                zero,
                                (
                                  qty-IsValue,
                                  (
                                    or_text-IsValue (lookup (codes "44") msg) (codes "0")
                                        (lookup-IsValue (codes "44") msg hm) zero,
                                    tt,
                                  ),
                                ),
                              ),
                            ),
                          ),
                        ),
                      ),
                    ),
                  ),
                ),
              ),
            )))
    where
      digit : IsValue (codes "2")
      digit = (omega arith, omega arith)

      zero : IsValue (codes "0")
      zero = (omega arith, omega arith)
