-- ===== src/TcpClient/Calls.antt =====
-- Calls through src/msgpack/rpc/caller.h over the transport of src/msgpack/rpc/transport/tcp.cc, from the
-- call to what `get` on its future comes to.
use msgpack_rpc_boost.Caller.{call, notify}
use msgpack_rpc_boost.Exceptions.{RpcError, throw_exception, timeout_object}
use msgpack_rpc_boost.Future.{new_future, is_ready}
use msgpack_rpc_boost.Future.Heap.{FutureRef, deref}
use msgpack_rpc_boost.Future.Wait as FutureWait
use msgpack_rpc_boost.Future.Wait.{Wake, value, get_impl}
use msgpack_rpc_boost.Future.WaitLaws.{no_answer, get_impl-Reports}
use msgpack_rpc_boost.Prelude.{
  ℕ, suc, ◌≡◌, ◌≢◌, refl, ap, Bool, true, false, Option, none, some, List, [], ◌∷◌, arith,
  if◌then◌else◌,
}
use msgpack_rpc_boost.Protocol.{Runtime, Codec, msg_request, msg_notify}
use msgpack_rpc_boost.Request.{SenderRef, Answer}
use msgpack_rpc_boost.Request.Laws.{result_of, error_of}
use msgpack_rpc_boost.Rpc.{
  request_of, exchange, exchange-unanswered, find-register, deref-register, rpc_roundtrip,
}
use msgpack_rpc_boost.Server.{ServerImpl, Dispatcher}
use msgpack_rpc_boost.Session.{
  State, Failure, connect_failure, Called, future, threw, next_msgid, register, send_request,
  send_request_impl, send_notify, send_notify_impl,
}
use msgpack_rpc_boost.Session.Expiry.{seconds, request_expires}
use msgpack_rpc_boost.Session.Invariant.{IsValid, Step-IsValid, register-IsValid}
use msgpack_rpc_boost.Session.Response.{answered}
use msgpack_rpc_boost.Session.Steps.{numbered, transport}
use msgpack_rpc_boost.TcpClient.{ClientTransport, Client, Network, send_data}
use msgpack_rpc_boost.TcpClient.Reliable.{send_data-sent, send_data-refused}
use msgpack_rpc_boost.TcpClient.Requests.{sender}

-- The message that a call packs.
abbrev pub packed :
    {Addr Tran Object Bytes : Type 0} ⦃rt : Runtime Object⦄
    → Codec Object Bytes
    → Object
    → List Object
    → State Addr Tran Object
    → Bytes
packed ⦃rt⦄ codec name args s =
    codec.pack_request (msg_request name (rt.from_tuple args) s.session.msgid_rr)

module _ {Addr Object Bytes : Type 0} (codec : Codec Object Bytes) ⦃rt : Runtime Object⦄
    (net : Network Addr Object) (quiet : (s : Client Addr Object) → net.flush s ≡ s) (name : Object)
    (args : List Object) (s : Client Addr Object) where
  -- The client with its counter moved, over a socket.
  abbrev over : ClientTransport → Client Addr Object
  over sock = record s { session = (next_msgid s.session).1; tran = sock }

  abbrev message : Bytes
  message = packed codec name args s

  -- What a call is, after a send that may have thrown.
  call_lem :
      (o : Option Failure) (u : Client Addr Object)
      → send_data net message (register s.session.msgid_rr (over s.tran)).1 ≡ some (o, u)
      → call codec (sender net) tt name args s ≡ (
        elim o [ none ↦ future (register s.session.msgid_rr (over s.tran)).0 | some f ↦ threw f ],
        u,
      )
  unfolding call send_request send_request_impl next_msgid
  call_lem o u e =
      let (r, t) = register s.session.msgid_rr (over s.tran) in
      let same : sender net tt message t ≡ (o, u) = ground (arith, e) in
      ap
        (λ (p : Option Failure × Client Addr Object).
          (elim p.0 as (λ x. Called) [ none ↦ future r | some f ↦ threw f ], p.1))
        same

  call-sent :
      net.attempt 1 ≡ 0
      → net.write ≡ 0
      → (sock : ClientTransport) × (sock.is_open ≡ true)
        × (call codec (sender net) tt name args s ≡ (
          future (register s.session.msgid_rr (over sock)).0,
          (register s.session.msgid_rr (over sock)).1,
        ))
  unfolding register
  call-sent good written =
      let t = (register s.session.msgid_rr (over s.tran)).1 in
      let (sock, e, up) = send_data-sent net quiet message t good written in
      (sock, up, call_lem none (record t { tran = sock }) e)

  over-IsValid : (sock : ClientTransport) → IsValid s → IsValid (over sock)
  over-IsValid sock v = Step-IsValid (transport sock) (Step-IsValid ⦃rt = rt⦄ numbered v)

  -- A call over a connection that works gives a future, for the request that it enters in the table;
  -- and once a serving server has answered the message, first by `a`, and the reply is taken, `get` on
  -- the future returns the result, or throws the exception for the error.
  pub call_served :
      {STran : Type 0} (peer : SenderRef) (svr : ServerImpl Object STran) (dp : Dispatcher Object)
      (a : Answer Object) (more : List (Answer Object)) (running : Bool) (ws : List (Wake Object))
      → net.attempt 1 ≡ 0
      → net.write ≡ 0
      → IsValid s
      → svr.dp ≡ some dp
      → dp (request_of codec peer s.session.msgid_rr name (rt.from_tuple args)) ≡ a ∷ more
      → (r : FutureRef) × (t u : Client Addr Object) × (call codec (sender net) tt name args s
          ≡ (future r, t))
        × (exchange codec peer message svr t ≡ some u)
        × (get_impl running (deref u.heap r) ws ≡ (
            if rt.is_nil (error_of codec a)
            then value (result_of codec a)
            else FutureWait.threw (throw_exception (error_of codec a))))
  call_served peer svr dp a more running ws good written v served asked =
      let id = s.session.msgid_rr in
      let (sock, up, called) = call-sent good written in
      let (u, back, got, gone) =
        rpc_roundtrip codec (over sock) id name (rt.from_tuple args) peer svr dp a more running ws
          (over-IsValid sock v) v.counter served asked in
      let (r, t) = register id (over sock) in (r, t, u, called, back, got)

  -- A call over a connection that works, to a serving server that does not answer: nothing comes back,
  -- and when the timer has gone round once more than the timeout has seconds `get` on the future
  -- throws the timeout error.
  pub call_unanswered :
      {STran : Type 0} (peer : SenderRef) (svr : ServerImpl Object STran) (dp : Dispatcher Object)
      (running : Bool) (ws : List (Wake Object))
      → net.attempt 1 ≡ 0
      → net.write ≡ 0
      → IsValid s
      → svr.dp ≡ some dp
      → dp (request_of codec peer s.session.msgid_rr name (rt.from_tuple args)) ≡ []
      → (r : FutureRef) × (t : Client Addr Object) × (call codec (sender net) tt name args s
          ≡ (future r, t))
        × (exchange codec peer message svr t ≡ some t)
        × (get_impl running (deref (seconds (suc s.session.timeout) t).heap r) ws
            ≡ FutureWait.threw RpcError.timeout_error)
  unfolding register next_msgid is_ready
  call_unanswered peer svr dp running ws good written v served asked =
      let id = s.session.msgid_rr in
      let n = s.session.timeout in
      let (sock, up, called) = call-sent good written in
      let (r, t) = register id (over sock) in
      let f = new_future id s.session.self n in
      let (_, _, _, done) =
        request_expires n t id r f (register-IsValid id (over sock) (over-IsValid sock v))
          (find-register (over sock) id) (deref-register (over sock) id) (omega arith) in
      (
        r,
        t,
        called,
        exchange-unanswered codec peer id name (rt.from_tuple args) svr dp t v.counter served asked,
        rw done (
            get_impl-Reports running
              (answered rt.nil timeout_object none (record f { timeout = 0 })) ws refl
              (no_answer refl)),
      )

  -- A call of a client that is not connected, to an address where every attempt is refused, throws.
  pub call_refused :
      ((n : ℕ) → net.attempt n ≢ 0)
      → s.tran.is_open ≡ false
      → (t : Client Addr Object) × (call codec (sender net) tt name args s
          ≡ (threw connect_failure, t))
  unfolding register
  call_refused refused down =
      let t = (register s.session.msgid_rr (over s.tran)).1 in
      let (u, e) = send_data-refused net quiet message t refused down in
      (u, call_lem (some connect_failure) u e)

  -- A notification over a connection that works changes the socket alone.
  pub notify-sent :
      net.attempt 1 ≡ 0
      → net.write ≡ 0
      → (sock : ClientTransport) × (notify codec (sender net) tt name args s
          ≡ (none, record s { tran = sock }))
  unfolding notify send_notify send_notify_impl
  notify-sent good written =
      let buf = codec.pack_notify (msg_notify name (rt.from_tuple args)) in
      let (sock, e, up) = send_data-sent net quiet buf s good written in (sock, ground (arith, e))
