-- ===== src/Examples/Connection.antt =====
-- A client that sends an order, and the server's side of that connection.
use mathlib.Core.List.{flatten}
use auto_test_poc.Base.{◌≡◌, refl, true, List, [], ◌∷◌, arith, take, drop, get_or, some}
use auto_test_poc.Py.Exceptions.{ok}
use auto_test_poc.Py.Text.{Text, codes}
use auto_test_poc.Py.Dict.{Dict, lookup}
use auto_test_poc.Server.{
  Config, Draw, Conn, new_session, client_loop, handle_client, handle_message, new_report,
  fill_report,
}
use auto_test_poc.Server.Values.{IsCleanConfig, IsCleanDraw}
use auto_test_poc.Server.Sequence.{Numbered, handle_client-Numbered}
use auto_test_poc.Server.Chunked.{handle_client-chunks}
use auto_test_poc.Server.Total.{client_loop-returns}
use auto_test_poc.Server.Answers.{Sends, answers, handle_message-Sends, fill_report-new_report}
use auto_test_poc.Examples.Wire.{wire}

abbrev config : Config
config = record { comp_id = codes "SERVER"; begin_string = codes "FIX.4.4"; auto_fill = true }

abbrev draw : Draw
draw = record {
  now = codes "20250101-00:00:00";
  now_fill = codes "20250101-00:00:00";
  hex_client = codes "00000001";
  hex_order = codes "00000002";
  hex_exec = codes "00000003";
  hex_fill = codes "00000004";
}

config-IsCleanConfig : IsCleanConfig config
config-IsCleanConfig = record {
  comp_id = (omega arith, omega arith);
  begin_string = (omega arith, omega arith);
}

draw-IsCleanDraw : IsCleanDraw draw
draw-IsCleanDraw = record {
  now = (omega arith, omega arith);
  now_fill = (omega arith, omega arith);
  hex_client = (omega arith, omega arith);
  hex_order = (omega arith, omega arith);
  hex_exec = (omega arith, omega arith);
  hex_fill = (omega arith, omega arith);
}

abbrev order_text : Text
order_text = wire (
    codes "8=FIX.4.4"
    ∷ codes "35=D"
    ∷ codes "11=C1"
    ∷ codes "38=5"
    ∷ codes "49=CL"
    ∷ codes "10=000"
    ∷ [])

abbrev order_chunks : List Text
order_chunks = take 20 order_text ∷ drop 20 order_text ∷ []

abbrev order : Dict Text
order = (codes "35", codes "D") ∷ (codes "11", codes "C1") ∷ (codes "38", codes "5") ∷ []

abbrev fresh_conn : Conn
fresh_conn = record { session = new_session (codes "SERVER"); handled = 0; sent = [] }

handle_client-Numbered_example : Numbered 1 (handle_client config (λ n. draw) order_chunks).sent
handle_client-Numbered_example = handle_client-Numbered config (λ n. draw) order_chunks

handle_client-chunks_example :
    handle_client config (λ n. draw) order_chunks
    ≡ handle_client config (λ n. draw) (order_text ∷ [])
handle_client-chunks_example =
    handle_client-chunks config (λ n. draw) order_chunks (order_text ∷ []) (cc, (cc, tt)) (cc, tt)
      (unfold flatten in refl)

client_loop-returns_example : (client_loop config (λ n. draw) order_chunks [] fresh_conn).0 ≡ ok tt
client_loop-returns_example =
    client_loop-returns config (λ n. draw) order_chunks config-IsCleanConfig (λ n. draw-IsCleanDraw)

handle_message-Sends_example :
    Sends fresh_conn
      (answers config draw order fresh_conn.session)
      (handle_message config draw order fresh_conn)
handle_message-Sends_example =
    handle_message-Sends config draw order fresh_conn config-IsCleanConfig draw-IsCleanDraw
      ((omega arith, omega arith), ((omega arith, omega arith), ((omega arith, omega arith), tt)))
      (record {
        server_comp_id = (omega arith, omega arith);
        client_sender = tt;
        client_target = tt;
      })

fill_report-new_report_example :
    let new = new_report config draw order fresh_conn.session in
    let done = fill_report config draw order fresh_conn.session in
    (lookup (codes "11") done ≡ lookup (codes "11") new)
    × (lookup (codes "37") done ≡ lookup (codes "37") new)
    × (lookup (codes "55") done ≡ lookup (codes "55") new)
    × (lookup (codes "54") done ≡ lookup (codes "54") new)
    × (lookup (codes "38") done ≡ lookup (codes "38") new)
    × (lookup (codes "38") new ≡ some (get_or (lookup (codes "38") order) (codes "0")))
    × (lookup (codes "151") new ≡ lookup (codes "38") new)
    × (lookup (codes "14") new ≡ some (codes "0"))
    × (lookup (codes "151") done ≡ some (codes "0"))
    × (lookup (codes "14") done ≡ lookup (codes "38") done)
fill_report-new_report_example =
    fill_report-new_report config draw order fresh_conn.session fresh_conn.session
