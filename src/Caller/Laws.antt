-- ===== src/Caller/Laws.antt =====
-- What a program sees of the overloads of src/msgpack/rpc/caller.h.
use msgpack_rpc_boost.Caller.{
  call, call_with_auto_zone, call_with_shared_zone, call_apply, call_apply_with_auto_zone, notify,
  notify_with_auto_zone, notify_with_shared_zone,
}
use msgpack_rpc_boost.Exceptions.{throw_exception}
use msgpack_rpc_boost.Future.{Zone}
use msgpack_rpc_boost.Future.Heap.{FutureRef, deref}
use msgpack_rpc_boost.Future.Wait.{Wake, value, threw, get_impl}
use msgpack_rpc_boost.Prelude.{◌≡◌, refl, Bool, Option, none, some, List, [], ◌∷◌, if◌then◌else◌}
use msgpack_rpc_boost.Protocol.{Runtime, Codec, msg_request, msg_notify}
use msgpack_rpc_boost.Request.{SenderRef, Answer}
use msgpack_rpc_boost.Request.Laws.{result_of, error_of}
use msgpack_rpc_boost.Rpc.{request_of, exchange, serve_message, rpc_roundtrip, notify_silent}
use msgpack_rpc_boost.Server.{ServerImpl, Dispatcher}
use msgpack_rpc_boost.Session.{
  State, Sender, Called, future, Failure, next_msgid, register, send_request, send_notify,
}
use msgpack_rpc_boost.Session.Invariant.{IsValid, Step-IsValid}
use msgpack_rpc_boost.Session.Steps.{numbered, transport}

-- A transport that puts what is sent in front of what was sent before, and never fails.
pub wire : {Bytes Addr Object : Type 0} → Sender Unit Bytes Addr (List Bytes) Object
wire env buf st = (none, record st { tran = buf ∷ st.tran })

-- The overloads: a call over a list of arguments, whatever keeps them alive.
pub data Overload : Type 0 where
  plain : Overload
  auto_zone shared_zone : Option Zone → Overload

module _ {Bytes Addr Object : Type 0} ⦃rt : Runtime Object⦄ (codec : Codec Object Bytes) where
  pub call_by :
      Overload
      → Object
      → List Object
      → State Addr (List Bytes) Object
      → Called × State Addr (List Bytes) Object
  unfolding call
  call_by plain name args = call codec wire tt name args
  call_by (auto_zone z) name args = call_with_auto_zone codec wire tt name z args
  call_by (shared_zone z) name args = call_with_shared_zone codec wire tt name z args

  pub notify_by :
      Overload
      → Object
      → List Object
      → State Addr (List Bytes) Object
      → Option Failure × State Addr (List Bytes) Object
  unfolding notify
  notify_by plain name args = notify codec wire tt name args
  notify_by (auto_zone z) name args = notify_with_auto_zone codec wire tt name z args
  notify_by (shared_zone z) name args = notify_with_shared_zone codec wire tt name z args

  -- The session after its counter moved, with one more message sent.
  unfoldable pub sending : Bytes → State Addr (List Bytes) Object → State Addr (List Bytes) Object
  sending buf s = record s { session = (next_msgid s.session).1; tran = buf ∷ s.tran }

  pub sending-IsValid :
      (buf : Bytes) (s : State Addr (List Bytes) Object) → IsValid s → IsValid (sending buf s)
  unfolding sending
  sending-IsValid buf s v =
      Step-IsValid (transport (buf ∷ s.tran)) (Step-IsValid ⦃rt = rt⦄ numbered v)

  pub call_by_lem :
      (o : Overload) (name : Object) (args : List Object) (s : State Addr (List Bytes) Object)
      → let id = s.session.msgid_rr in
        let buf = codec.pack_request (msg_request name (rt.from_tuple args) id) in
        call_by o name args s
        ≡ (future (register id (sending buf s)).0, (register id (sending buf s)).1)
  unfolding call_by call_with_auto_zone call_with_shared_zone send_request wire sending call_apply
      call_apply_with_auto_zone
  call_by_lem plain name args s = refl
  call_by_lem (auto_zone z) name args s = refl
  call_by_lem (shared_zone z) name args s = refl

  -- A call by any overload, on a valid session whose transport takes the message, to a serving
  -- server whose dispatcher answers the name with the arguments, first by `a`: the call gives a
  -- future, one more message is sent, and once that message is served and the reply taken `get` on
  -- the future returns the dispatcher's result, or throws the exception for the dispatcher's error.
  pub call_by_served :
      {STran : Type 0} (o : Overload) (name : Object) (args : List Object)
      (s : State Addr (List Bytes) Object) (peer : SenderRef) (svr : ServerImpl Object STran)
      (dp : Dispatcher Object) (a : Answer Object) (more : List (Answer Object)) (running : Bool)
      (ws : List (Wake Object))
      → IsValid s
      → svr.dp ≡ some dp
      → dp (request_of codec peer s.session.msgid_rr name (rt.from_tuple args)) ≡ a ∷ more
      → let t = (call_by o name args s).1 in
        (r : FutureRef) × (buf : Bytes) × (u : State Addr (List Bytes) Object) × ((call_by o name
            args s).0
          ≡ future r)
        × (t.tran ≡ buf ∷ s.tran)
        × (exchange codec peer buf svr t ≡ some u)
        × (get_impl running (deref u.heap r) ws ≡ (
            if rt.is_nil (error_of codec a)
            then value (result_of codec a)
            else threw (throw_exception (error_of codec a))))
  unfolding sending register
  call_by_served o name args s peer svr dp a more running ws v served asked =
      let id = s.session.msgid_rr in
      let params = rt.from_tuple args in
      let buf = codec.pack_request (msg_request name params id) in
      let (u, back, got, gone) =
        rpc_roundtrip codec (sending buf s) id name params peer svr dp a more running ws
          (sending-IsValid buf s v) v.counter served asked in
      rw (call_by_lem o name args s)
        ((register id (sending buf s)).0, buf, u, refl, refl, back, got)

  -- A notification by any overload, over a transport that takes the message, changes nothing in the
  -- session but sends one message, and a serving server answers that message with nothing, whatever
  -- its dispatcher does.
  pub notify_by_served :
      {STran : Type 0} (o : Overload) (name : Object) (args : List Object)
      (s : State Addr (List Bytes) Object) (peer : SenderRef) (svr : ServerImpl Object STran)
      (dp : Dispatcher Object)
      → svr.dp ≡ some dp
      → (buf : Bytes) × (notify_by o name args s ≡ (none, record s { tran = buf ∷ s.tran }))
        × (serve_message codec peer buf svr ≡ some [])
  unfolding notify_by wire notify_with_auto_zone notify_with_shared_zone send_notify
  notify_by_served plain name args s peer svr dp served = (
    codec.pack_notify (msg_notify name (rt.from_tuple args)),
    refl,
    notify_silent codec name (rt.from_tuple args) peer svr dp served,
  )
  notify_by_served (auto_zone z) name args s peer svr dp served = (
    codec.pack_notify (msg_notify name (rt.from_tuple args)),
    refl,
    notify_silent codec name (rt.from_tuple args) peer svr dp served,
  )
  notify_by_served (shared_zone z) name args s peer svr dp served = (
    codec.pack_notify (msg_notify name (rt.from_tuple args)),
    refl,
    notify_silent codec name (rt.from_tuple args) peer svr dp served,
  )
