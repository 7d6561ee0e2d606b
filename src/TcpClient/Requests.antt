-- ===== src/TcpClient/Requests.antt =====
-- What becomes of a request over src/msgpack/rpc/transport/tcp.cc: session.cc makes it, and the transport
-- sends it, connecting first if it must.
use msgpack_rpc_boost.Exceptions.{RpcError, connect_object}
use msgpack_rpc_boost.Future.{FutureImpl, new_future, is_ready}
use msgpack_rpc_boost.Future.Heap.{FutureRef, deref}
use msgpack_rpc_boost.Future.Wait.{Wake, get_impl}
use msgpack_rpc_boost.Future.Wait as FutureWait
use msgpack_rpc_boost.Future.WaitLaws.{no_connection, get_impl-Reports}
use msgpack_rpc_boost.Prelude.{
  ℕ, ◌≡◌, ◌≢◌, ◌⊎◌, inl, inr, refl, sym, ap, subst, Bool, true, false, Option, none, some, List, [],
  ◌∷◌, arith, ◌==◌, Bool-cases,
}
use msgpack_rpc_boost.Protocol.{Runtime}
use msgpack_rpc_boost.Future.HeapLaws.{member}
use msgpack_rpc_boost.Reqtable.{Reqtable}
use msgpack_rpc_boost.Reqtable.Laws.{find, refs}
use msgpack_rpc_boost.Rpc.{find-register, deref-register}
use msgpack_rpc_boost.Session
use msgpack_rpc_boost.Session.{
  State, Failure, connect_failure, Called, future, threw, register, send_request_impl,
}
use msgpack_rpc_boost.Session.Equations.{on_connect_failed_lem, on_system_error_lem}
use msgpack_rpc_boost.Session.Failing.{AllFailed, failure-AllFailed}
use msgpack_rpc_boost.Session.Invariant.{IsValid, register-IsValid, Step-IsValid}
use msgpack_rpc_boost.Session.Response.{answered}
use msgpack_rpc_boost.Session.Steps.{transport}
use msgpack_rpc_boost.TcpClient.{
  ClientTransport, Client, Network, close, flush_idle, write_data, on_system_error, send_data,
}
use msgpack_rpc_boost.TcpClient.Laws.{Steady, connect_ends}
use msgpack_rpc_boost.TcpClient.Keeping.{connect-Kept}

find-member : (k : ℕ) (r : FutureRef) (m : Reqtable) → find k m ≡ some r → member r (refs m) ≡ true
find-member k r [] e = cc
find-member k r ((j, q) ∷ m) e = ground (arith, find-member k r m)

module _ {Addr Object : Type 0} ⦃rt : Runtime Object⦄ where
  -- After a failure, the future of a request that was in the table has the connection error.
  AllFailed-get_impl :
      (s t : Client Addr Object) (msgid : ℕ) (r : FutureRef) (f : FutureImpl Object)
      (running : Bool) (ws : List (Wake Object))
      → AllFailed rt s t
      → find msgid s.session.reqtable ≡ some r
      → deref s.heap r ≡ some f
      → get_impl running (deref t.heap r) ws ≡ FutureWait.threw RpcError.connect_error
  unfolding is_ready
  AllFailed-get_impl s t msgid r f running ws failed entered here =
      let done : deref t.heap r ≡ some (answered rt.nil connect_object none f) =
        ground (arith, failed.completed r, find-member msgid r s.session.reqtable entered, here) in
      rw done (
        get_impl-Reports running (answered rt.nil connect_object none f) ws refl
          (no_connection refl))

  -- The transport as the session's sender; `none` does not happen.
  abbrev pub sender :
      {Bytes : Type 0}
      → Network Addr Object
      → Unit {0}
      → Bytes
      → Client Addr Object
      → Option Failure × Client Addr Object
  sender net env buf s = elim (send_data net buf s) [ none ↦ (none, s) | some p ↦ p ]

  -- What a request must come to.
  abbrev pub Sent :
      Network Addr Object → ℕ → FutureRef → FutureImpl Object → Called → Client Addr Object → Type 0
  Sent net msgid r f called t =
      (called ≡ future r)
      × (net.write ≡ 0)
      × (t.tran.is_open ≡ true)
      × (find msgid t.session.reqtable ≡ some r)
      × (deref t.heap r ≡ some f)

  abbrev pub Failed :
      Network Addr Object
      → FutureRef
      → Called
      → Client Addr Object
      → Bool
      → List (Wake Object)
      → Type 0
  Failed net r called t running ws =
      (((called ≡ future r) × (net.write ≢ 0)) ⊎ (called ≡ threw connect_failure))
      × (t.tran.is_open ≡ false)
      × (t.session.reqtable ≡ [])
      × (get_impl running (deref t.heap r) ws ≡ FutureWait.threw RpcError.connect_error)

module _ {Addr Object : Type 0} ⦃rt : Runtime Object⦄ (net : Network Addr Object)
    -- A session with a request in its table.
    (s : Client Addr Object) (v : IsValid s) (msgid : ℕ) (r : FutureRef) (f : FutureImpl Object)
    (entered : find msgid s.session.reqtable ≡ some r) (here : deref s.heap r ≡ some f)
    (running : Bool) (ws : List (Wake Object)) where
  -- What the call gives, after a send that may have thrown.
  abbrev called : Option Failure → Called
  called o = elim o [ none ↦ future r | some e ↦ threw e ]

  abbrev Comes : Option Failure → Client Addr Object → Type 0
  Comes o t = Sent net msgid r f (called o) t ⊎ Failed net r (called o) t running ws

  failed_write :
      (sock : ClientTransport)
      → sock.is_open ≡ true
      → (net.write == 0) ≡ false
      → write_data net (record s { tran = sock })
        ≡ record (Session.on_system_error (record s { tran = sock })) { tran = close sock }
  unfolding write_data on_system_error
  failed_write sock up bad = ground (arith, up, bad, on_system_error_lem (record s { tran = sock }))

  write_data-Comes :
      (sock : ClientTransport)
      → sock.is_open ≡ true
      → Comes none (write_data net (record s { tran = sock }))
  unfolding close
  write_data-Comes sock up = elim (Bool-cases (net.write == 0)) [
    | inl good ↦
        let same : write_data net (record s { tran = sock }) ≡ record s { tran = sock } =
          unfold write_data in ground (arith, up, good) in
        rw same (inl (refl, ground arith, up, entered, here))
    | inr bad ↦
        let s' = record s { tran = sock } in
        let failed = (failure-AllFailed s' (Step-IsValid (transport sock) v)).1 in
        rw (failed_write sock up bad) (
          inr (
            inl (refl, ground arith),
            refl,
            failed.emptied,
            AllFailed-get_impl s' (Session.on_system_error s') msgid r f running ws failed entered
                here,
          ))
  ]

  failed_connect :
      (sock : ClientTransport)
      → sock.is_open ≡ false
      → Comes (some connect_failure) (Session.on_connect_failed (record s { tran = sock }))
  failed_connect sock closed =
      let s' = record s { tran = sock } in
      let failed = (failure-AllFailed s' (Step-IsValid (transport sock) v)).0 in
      inr (
        inr refl,
        ground (arith, on_connect_failed_lem s', closed),
        failed.emptied,
        AllFailed-get_impl s' (Session.on_connect_failed s') msgid r f running ws failed entered
            here,
      )

  send_data-Comes :
      {Bytes : Type 0} (buf : Bytes)
      → net.running ≡ true
      → Steady net
      → (o : Option Failure) × (t : Client Addr Object) × (send_data net buf s ≡ some (o, t))
        × Comes o t
  unfolding send_data flush_idle
  send_data-Comes buf on steady = elim (Bool-cases s.tran.is_open) [
    | inl up ↦ (none, write_data net s, ground (arith, on, up), write_data-Comes s.tran up)
    | inr down ↦
        let (u, ends, _, _, _) = connect_ends net steady s in
        elim ends [
          | inl (e, up) ↦ elim (connect-Kept net on s u none e) [
            | inl (_, (sock, left, up1)) ↦ (
              none,
              write_data net u,
              ground (arith, on, down, e),
              subst (λ x. Comes none (write_data net x)) (sym left) (write_data-Comes sock up1),
            )
            | inr (thrown, _) ↦ absurd (ground (arith, thrown))
          ]
          | inr (e, given) ↦ elim (connect-Kept net on s u (some connect_failure) e) [
            | inl (thrown, _) ↦ absurd (ground (arith, thrown))
            | inr (_, (sock, left, closed)) ↦ (
              some connect_failure,
              u,
              ground (arith, on, down, e),
              subst (Comes (some connect_failure)) (sym left) (failed_connect sock closed),
            )
          ]
        ]
  ]

module _ {Addr Object Bytes : Type 0} ⦃rt : Runtime Object⦄ (net : Network Addr Object)
    (on : net.running ≡ true) (steady : Steady net) where
  send_request_impl_lem :
      (s u : Client Addr Object) (msgid : ℕ) (buf : Bytes) (o : Option Failure)
      → send_data net buf (register msgid s).1 ≡ some (o, u)
      → send_request_impl (sender net) tt msgid buf s
        ≡ (elim o [ none ↦ future (register msgid s).0 | some e ↦ threw e ], u)
  unfolding send_request_impl
  send_request_impl_lem s u msgid buf o e =
      let (r, t) = register msgid s in
      let same : sender net tt buf t ≡ (o, u) = ground (arith, e) in
      ap
        (λ (p : Option Failure × Client Addr Object).
          (elim p.0 as (λ x. Called) [ none ↦ future r | some e ↦ threw e ], p.1))
        same

  -- A request over TCP from a valid session, whose loop has workers: either the message was written,
  -- over an open socket, and the request waits in the table with its full time; or it has failed: the
  -- call threw the connection error, or it gave a future and the write failed, the socket is closed,
  -- the table is empty, and `get` on the request's future throws the connection error at once.
  pub send_request_impl_ends :
      (s : Client Addr Object) (msgid : ℕ) (buf : Bytes) (running : Bool) (ws : List (Wake Object))
      → IsValid s
      → let (called, t) = send_request_impl (sender net) tt msgid buf s in
        let r = (register msgid s).0 in
        Sent net msgid r (new_future msgid s.session.self s.session.timeout) called t
        ⊎ Failed net r called t running ws
  send_request_impl_ends s msgid buf running ws v =
      let (r, t) = register msgid s in
      let f = new_future msgid s.session.self s.session.timeout in
      let (o, u, sent, comes) =
        send_data-Comes net t (register-IsValid msgid s v) msgid r f (find-register s msgid)
          (deref-register s msgid) running ws buf on steady in
      subst
        (λ (p : Called × Client Addr Object).
          Sent net msgid r f p.0 p.1 ⊎ Failed net r p.0 p.1 running ws)
        (sym (send_request_impl_lem s u msgid buf o sent)) comes
