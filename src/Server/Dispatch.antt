-- ===== src/Server/Dispatch.antt =====
-- What holds of each branch holds of the dispatch.
use auto_test_poc.Base.{Bool, true, false, if◌then◌else◌}
use auto_test_poc.Py.Exceptions.{Result}
use auto_test_poc.Py.State.{skip}
use auto_test_poc.Py.Text.{Text, codes, text_eq}
use auto_test_poc.Server.{Conn, Method, dispatch}

if_elim :
    (P : Result (Unit {0}) × Conn → Type 0) (b : Bool) (m k : Method) (c : Conn)
    → P (m c)
    → P (k c)
    → P ((if b then m else k) c)
if_elim P true m k c hm hk = hm
if_elim P false m k c hm hk = hk

pub dispatch_elim :
    (P : Result (Unit {0}) × Conn → Type 0) (mtype : Text) (logon test order : Method) (c : Conn)
    → P (logon c)
    → P (skip c)
    → P (test c)
    → P (order c)
    → P (dispatch mtype logon test order c)
unfolding dispatch
dispatch_elim P mtype logon test order c hl hs ht ho =
    let new = if text_eq mtype (codes "D") then order else skip in
    let probe = if text_eq mtype (codes "1") then test else new in
    let idle = if text_eq mtype (codes "0") then skip else probe in
    if_elim P (text_eq mtype (codes "A")) logon idle c hl (
      if_elim P (text_eq mtype (codes "0")) skip probe c hs (
        if_elim P (text_eq mtype (codes "1")) test new c ht
          (if_elim P (text_eq mtype (codes "D")) order skip c ho hs)))
