-- ===== src/Udp/Laws.antt =====
-- What a failure means to a request over src/msgpack/rpc/transport/udp.cc.
use msgpack_rpc_boost.Future.{new_future}
use msgpack_rpc_boost.Future.Heap.{FutureRef, deref}
use msgpack_rpc_boost.Prelude.{ℕ, ◌≡◌, true, some, arith, ◌==◌, if◌then◌else◌}
use msgpack_rpc_boost.Protocol.{Runtime}
use msgpack_rpc_boost.Reqtable.Laws.{find}
use msgpack_rpc_boost.Rpc.{find-register, deref-register}
use msgpack_rpc_boost.Session.{future, threw, system_failure, register, send_request_impl}
use msgpack_rpc_boost.Udp.{Client, Network, UdpSocket, connect, send_data}

-- The socket that is sent over: it is connected first if it is not open.
abbrev pub opened : {Addr Object : Type 0} → Network Addr Object → Client Addr Object → UdpSocket
opened net s = if s.tran.is_open then s.tran else connect net.connected s.tran

module _ {Addr Object Bytes : Type 0} ⦃rt : Runtime Object⦄ (net : Network Addr Object) where
  -- A request over UDP whose loop has workers is entered in the table, with its full time, whatever
  -- becomes of the datagram. If the socket cannot be connected the call gives a future and reports
  -- nothing; if it can, the call throws exactly when the send fails, and the request stays in the
  -- table even then.
  pub send_request_impl-stays :
      (s : Client Addr Object) (msgid : ℕ) (buf : Bytes)
      → net.running ≡ true
      → let (called, t) = send_request_impl (λ (e : Unit {0}). send_data net) tt msgid buf s in
        (r : FutureRef) × (find msgid t.session.reqtable ≡ some r)
        × (deref t.heap r ≡ some (new_future msgid s.session.self s.session.timeout))
        × (t.tran ≡ opened net s)
        × (called ≡ (
            if (opened net s).is_open
            then (if net.sent == 0 then future r else threw system_failure)
            else future r))
  unfolding send_request_impl send_data register connect
  send_request_impl-stays s msgid buf on = (
    (register msgid s).0,
    ground (arith, find-register s msgid),
    ground (arith, deref-register s msgid),
    ground arith,
    ground arith,
  )
