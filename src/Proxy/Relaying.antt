-- ===== src/Proxy/Relaying.antt =====
-- What becomes of a request to the proxy of test/async_server.cc.
use Prim.Native.String.{String}
use msgpack_rpc_boost.Caller.{call, call_apply}
use msgpack_rpc_boost.Caller.Laws.{sending, sending-IsValid}
use msgpack_rpc_boost.EchoServer.{Conversions}
use msgpack_rpc_boost.Future.{FutureImpl, new_future, attach_callback}
use msgpack_rpc_boost.Future.Heap.{FutureRef, deref}
use msgpack_rpc_boost.Future.HeapLaws.{deref-attach}
use msgpack_rpc_boost.Prelude.{
  ℕ, ◌≡◌, ◌∙◌, refl, ap, true, false, Option, none, some, List, [], ◌∷◌, ◌++◌, arith, length,
  get_elem?, get_elem?-append_last,
}
use msgpack_rpc_boost.Protocol.{Runtime, Codec, msg_request, msg_response}
use msgpack_rpc_boost.Proxy.{Proxy, catch_up, drop, bind_request, dispatch, reach, take_reply}
use msgpack_rpc_boost.Reqtable.Laws.{find}
use msgpack_rpc_boost.Proxy.Callbacks.{
  relayed, run_callbacks-kept, callback-answered, take_reply_lem,
}
use msgpack_rpc_boost.Request.{RequestImpl, SenderRef, Answer}
use msgpack_rpc_boost.Request.Laws.{result_of, error_of}
use msgpack_rpc_boost.Rpc.{
  request_of, serve_message, serve-request, take-response, find-register, deref-register,
}
use msgpack_rpc_boost.Server.{ServerImpl, Dispatcher}
use msgpack_rpc_boost.Session.{
  State, future, send_request, send_request_impl, register, on_response, on_connect_failed,
  next_msgid,
}
use msgpack_rpc_boost.Session.Invariant.{IsValid, Step-IsValid, register-IsValid}
use msgpack_rpc_boost.Session.Response.{answered, on_response_completes}
use msgpack_rpc_boost.Session.Steps.{attached}

module _ {Addr Bytes Object : Type 0} (codec : Codec Object Bytes) ⦃rt : Runtime Object⦄
    (cv : Conversions rt) (to_int : Object → Option ℕ) where
  module _ (req : RequestImpl Object) (p : Proxy Addr Bytes Object) (method : String) (a b : ℕ)
      (named : cv.to_string req.method ≡ some method)
      (given : cv.to_ints req.params ≡ some (a, b)) where
    abbrev id : ℕ
    id = p.backend.session.msgid_rr

    abbrev params : Object
    params = rt.from_tuple (cv.from_int a ∷ cv.from_int b ∷ [])

    abbrev message : Bytes
    message = codec.pack_request (msg_request (cv.from_string method) params id)

    abbrev sending_it : State Addr (List Bytes) Object
    sending_it = sending codec message p.backend

    abbrev asked_it : FutureRef
    asked_it = (register id sending_it).0

    abbrev asking : Proxy Addr Bytes Object
    asking = bind_request asked_it req (record p { backend = (register id sending_it).1 })

    called_lem :
        call codec
          (reach codec cv to_int false)
          tt
          (cv.from_string method)
          (cv.from_int a ∷ cv.from_int b ∷ [])
          p.backend
        ≡ (future (register id sending_it).0, (register id sending_it).1)
    unfolding call call_apply send_request send_request_impl reach sending
    called_lem = refl

    dispatch_lem : dispatch codec cv to_int false req p ≡ (asking, false)
    unfolding dispatch
    dispatch_lem = ground (arith, named, given, called_lem)

    -- The transport of the backend cannot connect.
    abbrev lost : Proxy Addr Bytes Object
    lost = (dispatch codec cv to_int true req p).0

    dispatch-down :
        ((dispatch codec cv to_int true req p).1 ≡ true)
        × (lost.bound ≡ p.bound)
        × (lost.backend.tran ≡ p.backend.tran)
    unfolding dispatch catch_up call send_request send_request_impl reach register next_msgid
        on_connect_failed
    dispatch-down =
        let st =
          (call codec (reach codec cv to_int true) tt (cv.from_string method)
            (cv.from_int a ∷ cv.from_int b ∷ []) p.backend).1 in
        let ran = drop (length p.backend.heap.ran) st.heap.ran in
        let (same, alike) = run_callbacks-kept codec cv to_int ran (record p { backend = st }) in
        (
          ground (arith, named, given),
          ground (arith, named, given, alike),
          ground (arith, named, given, same),
        )

    -- The future that the proxy waits for.
    abbrev awaited : FutureImpl Object
    awaited = record (new_future id p.backend.session.self p.backend.session.timeout) {
      callback = some (length p.bound);
    }

    asking-IsValid : IsValid p.backend → IsValid asking.backend
    unfolding bind_request
    asking-IsValid v =
        Step-IsValid ⦃rt = rt⦄ (attached (length p.bound) asked_it)
          (register-IsValid id sending_it (sending-IsValid codec message p.backend v))

    deref-asking : deref asking.backend.heap asked_it ≡ some awaited
    unfolding bind_request attach_callback new_future next_msgid sending
    deref-asking = ground (
      arith,
      deref-attach (register id sending_it).1.heap asked_it asked_it (length p.bound),
      deref-register sending_it id,
    )

    found : find id asking.backend.session.reqtable ≡ some asked_it
    unfolding bind_request
    found = find-register sending_it id

    bound_it : get_elem? asking.bound (length p.bound) ≡ some req
    unfolding bind_request
    bound_it = get_elem?-append_last p.bound req

    sent_yet : asking.sent ≡ p.sent
    unfolding bind_request
    sent_yet = refl

    module _ (v : IsValid p.backend) (x : Answer Object) where
      abbrev reply : Bytes
      reply = codec.pack_response (msg_response (result_of codec x) (error_of codec x) id)

      abbrev replied_to : State Addr (List Bytes) Object
      replied_to = on_response id (result_of codec x) (error_of codec x) none asking.backend

      -- The callback runs, with the request that is bound to it.
      take_reply-asking :
          (peer : SenderRef)
          → req.ms ≡ some peer
          → take_reply codec cv to_int reply asking
            ≡ some (record asking {
              backend = replied_to;
              sent = asking.sent ++ relayed codec cv to_int x peer req.msgid;
            })
      take_reply-asking peer asked =
          let (done, ran, _) =
            on_response_completes asking.backend id (result_of codec x) (error_of codec x) none
              asked_it awaited (asking-IsValid v) found deref-asking in
          let completed : deref replied_to.heap asked_it
              ≡ some (answered (result_of codec x) (error_of codec x) none awaited) =
            done asked_it ∙ ground arith in
          take_reply_lem codec cv to_int asking reply replied_to (length p.bound) asked_it req
            (take-response codec id (result_of codec x) (error_of codec x) asking.backend v.counter)
            ran bound_it
          ∙ ap some (
              callback-answered codec cv to_int x awaited asked_it req peer
                (record asking { backend = replied_to }) completed asked)

-- A request to the proxy whose method and two ints convert. If the transport of the backend cannot connect,
-- the dispatcher throws, and neither asks the backend nor binds the request to a callback. If the
-- transport takes the message: the proxy asks the backend, with one message, and has answered nobody; and when a serving backend, whose dispatcher answers, first by `x`, has been
-- given that message and its reply is taken, the proxy has sent one more response, to that request's peer
-- and with its id, if the backend gave an int, and nothing otherwise: an error of the backend, or another
-- result, is told to nobody.
pub dispatch-relays :
    {Addr Bytes Object STran : Type 0} (codec : Codec Object Bytes) ⦃rt : Runtime Object⦄
    (cv : Conversions rt) (to_int : Object → Option ℕ) (req : RequestImpl Object)
    (p : Proxy Addr Bytes Object) (method : String) (a b : ℕ) (peer other : SenderRef)
    (svr : ServerImpl Object STran) (dp : Dispatcher Object) (x : Answer Object)
    (more : List (Answer Object))
    → cv.to_string req.method ≡ some method
    → cv.to_ints req.params ≡ some (a, b)
    → req.ms ≡ some peer
    → IsValid p.backend
    → svr.dp ≡ some dp
    → dp (
        request_of codec other p.backend.session.msgid_rr
          (cv.from_string method)
          (rt.from_tuple (cv.from_int a ∷ cv.from_int b ∷ [])))
      ≡ x ∷ more
    → let (lost, failed) = dispatch codec cv to_int true req p in
      let (q, threw) = dispatch codec cv to_int false req p in
      ((failed ≡ true) × (lost.bound ≡ p.bound) × (lost.backend.tran ≡ p.backend.tran))
      × (buf : Bytes) × (reply : Bytes) × (threw ≡ false)
      × (q.backend.tran ≡ buf ∷ p.backend.tran)
      × (q.sent ≡ p.sent)
      × (serve_message codec other buf svr ≡ some ((other, reply) ∷ []))
      × ((u : Proxy Addr Bytes Object) × (take_reply codec cv to_int reply q ≡ some u)
          × (u.sent ≡ p.sent ++ relayed codec cv to_int x peer req.msgid))
unfolding bind_request sending register
dispatch-relays codec cv to_int req p method a b peer other svr dp x more named given asked v served
      answers =
    rw (dispatch_lem codec cv to_int req p method a b named given) (
      dispatch-down codec cv to_int req p method a b named given,
      message codec cv to_int req p method a b named given,
      reply codec cv to_int req p method a b named given v x,
      refl,
      refl,
      refl,
      serve-request codec other p.backend.session.msgid_rr (cv.from_string method) _ svr dp x more
          v.counter served answers,
      (
        record (asking codec cv to_int req p method a b named given) {
          backend = replied_to codec cv to_int req p method a b named given v x;
          sent =
              (asking codec cv to_int req p method a b named given).sent
              ++ relayed codec cv to_int x peer req.msgid;
        },
        take_reply-asking codec cv to_int req p method a b named given v x peer asked,
        refl,
      ),
    )
