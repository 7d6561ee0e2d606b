-- ===== src/Caller/Unanswered.antt =====
-- What becomes of a call through src/msgpack/rpc/caller.h that no response comes back for.
use msgpack_rpc_boost.Caller.Laws.{Overload, call_by, call_by_lem, sending, sending-IsValid}
use msgpack_rpc_boost.Exceptions.{RpcError, timeout_object}
use msgpack_rpc_boost.Future.{new_future, is_ready}
use msgpack_rpc_boost.Future.Heap.{FutureRef, deref}
use msgpack_rpc_boost.Future.Wait.{Wake, threw, get_impl}
use msgpack_rpc_boost.Future.WaitLaws.{no_answer, get_impl-Reports}
use msgpack_rpc_boost.Prelude.{suc, ◌≡◌, refl, Bool, none, some, List, [], ◌∷◌, arith}
use msgpack_rpc_boost.Protocol.{Runtime, Codec, msg_request}
use msgpack_rpc_boost.Reqtable.Laws.{find}
use msgpack_rpc_boost.Request.{SenderRef}
use msgpack_rpc_boost.Rpc.{request_of, exchange, exchange-unanswered, find-register, deref-register}
use msgpack_rpc_boost.Server.{ServerImpl, Dispatcher}
use msgpack_rpc_boost.Session.{State, future, register, next_msgid}
use msgpack_rpc_boost.Session.Expiry.{seconds, request_expires}
use msgpack_rpc_boost.Session.Invariant.{IsValid, register-IsValid}
use msgpack_rpc_boost.Session.Response.{answered}

module _ {Object Bytes : Type 0} (codec : Codec Object Bytes) ⦃rt : Runtime Object⦄ where
  -- A call by any overload, on a valid session whose transport takes the message, to a serving server
  -- whose dispatcher does not answer it: nothing comes back, and the session stays as the call left
  -- it; the request is in the table for as many rounds of the timer as the session's timeout has
  -- seconds; and after the next round it is not, and `get` on its future throws the timeout error.
  pub call_by_unanswered :
      {Addr STran : Type 0} (o : Overload) (name : Object) (args : List Object)
      (s : State Addr (List Bytes) Object) (peer : SenderRef) (svr : ServerImpl Object STran)
      (dp : Dispatcher Object) (running : Bool) (ws : List (Wake Object))
      → IsValid s
      → svr.dp ≡ some dp
      → dp (request_of codec peer s.session.msgid_rr name (rt.from_tuple args)) ≡ []
      → let t = (call_by codec o name args s).1 in
        let id = s.session.msgid_rr in
        let n = s.session.timeout in
        (r : FutureRef) × (buf : Bytes) × ((call_by codec o name args s).0 ≡ future r)
        × (t.tran ≡ buf ∷ s.tran)
        × (exchange codec peer buf svr t ≡ some t)
        × (find id (seconds n t).session.reqtable ≡ some r)
        × (find id (seconds (suc n) t).session.reqtable ≡ none)
        × (get_impl running (deref (seconds (suc n) t).heap r) ws ≡ threw RpcError.timeout_error)
  unfolding sending register next_msgid is_ready
  call_by_unanswered o name args s peer svr dp running ws v served asked =
      let id = s.session.msgid_rr in
      let n = s.session.timeout in
      let params = rt.from_tuple args in
      let buf = codec.pack_request (msg_request name params id) in
      let s' = sending codec buf s in
      let (r, t) = register id s' in
      let f = new_future id s.session.self n in
      let (there, _, gone, done) =
        request_expires n t id r f (register-IsValid id s' (sending-IsValid codec buf s v))
          (find-register s' id) (deref-register s' id) (omega arith) in
      rw (call_by_lem codec o name args s) (
        r,
        buf,
        refl,
        refl,
        exchange-unanswered codec peer id name params svr dp t v.counter served asked,
        there,
        gone,
        rw done (
            get_impl-Reports running
              (answered rt.nil timeout_object none (record f { timeout = 0 })) ws refl
              (no_answer refl)),
      )
