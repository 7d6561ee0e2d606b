-- ===== src/Rpc.antt =====
-- One call from end to end: session.h at the client; stream_handler.cc, tcp.cc, server.cc and
-- request.h at the server; and stream_handler.cc, tcp.cc, session.cc and future.cc back at the
-- client, all under src/msgpack/rpc.
pub mod Pipeline
use msgpack_rpc_boost.Exceptions.{throw_exception}
use msgpack_rpc_boost.Future.{FutureImpl, new_future}
use msgpack_rpc_boost.Future.Heap.{deref}
use msgpack_rpc_boost.Future.Wait.{Wake, value, threw, get_impl}
use msgpack_rpc_boost.Prelude.{
  ℕ, ◌^◌, ◌<◌, ◌≡◌, ◌∙◌, refl, Bool, true, Option, none, some, List, [], ◌∷◌, arith, if◌then◌else◌,
}
use msgpack_rpc_boost.Protocol.{Runtime, Codec, msg_request, msg_response, msg_notify}
use msgpack_rpc_boost.Reqtable.Laws.{find, find-insert}
use msgpack_rpc_boost.Request.{RequestImpl, SenderRef, Answer, answers}
use msgpack_rpc_boost.Request.Laws.{answers_once, answers_unsent, result_of, error_of}
use msgpack_rpc_boost.Server
use msgpack_rpc_boost.Server.{ServerImpl, Dispatcher}
use msgpack_rpc_boost.Session.{State, register, on_response}
use msgpack_rpc_boost.Session.Invariant.{IsValid, register-IsValid, deref-allocate_self}
use msgpack_rpc_boost.Session.Response.{answered, on_response_completes}
use msgpack_rpc_boost.Sockets.{client_socket, server_socket}
use msgpack_rpc_boost.Stream.{Incoming, requested, responded, notified, on_message}

module _ {Addr Tran Object : Type 0} ⦃rt : Runtime Object⦄ (s : State Addr Tran Object)
    (msgid : ℕ) where
  pub find-register : find msgid (register msgid s).1.session.reqtable ≡ some (register msgid s).0
  unfolding register
  find-register = find-insert msgid msgid (register msgid s).0 s.session.reqtable ∙ ground arith

  pub deref-register :
      deref (register msgid s).1.heap (register msgid s).0
      ≡ some (new_future msgid s.session.self s.session.timeout)
  unfolding register
  deref-register = deref-allocate_self s.heap (new_future msgid s.session.self s.session.timeout)

-- A whole message from the wire: unpacked, and taken for a message.
abbrev pub receive : {Object Bytes : Type 0} → Codec Object Bytes → Bytes → Option (Incoming Object)
receive codec buf = elim (codec.unpack buf) [ none ↦ none | some o ↦ on_message codec o ]

module _ {Object Bytes : Type 0} (codec : Codec Object Bytes) where
  receive-request :
      (method param : Object) (msgid : ℕ)
      → msgid < 2 ^ 32
      → receive codec (codec.pack_request (msg_request method param msgid))
        ≡ some (requested msgid method param)
  unfolding on_message msg_request
  receive-request method param msgid h =
      ground (arith, codec.unpack-pack_request (msg_request method param msgid) (omega arith) h)

  receive-response :
      (result error : Object) (msgid : ℕ)
      → msgid < 2 ^ 32
      → receive codec (codec.pack_response (msg_response result error msgid))
        ≡ some (responded msgid result error)
  unfolding on_message msg_response
  receive-response result error msgid h =
      ground (arith, codec.unpack-pack_response (msg_response result error msgid) (omega arith) h)

  receive-notify :
      (method param : Object)
      → receive codec (codec.pack_notify (msg_notify method param)) ≡ some (notified method param)
  unfolding on_message msg_notify
  receive-notify method param =
      ground (arith, codec.unpack-pack_notify (msg_notify method param) (omega arith))

  module _ ⦃rt : Runtime Object⦄ where
    -- What the server sends in return for a message.
    pub serve_message :
        {Tran : Type 0}
        → SenderRef
        → Bytes
        → ServerImpl Object Tran
        → Option (List (SenderRef × Bytes))
    serve_message peer buf svr = elim (receive codec buf) [
      | none ↦ none
      | some m ↦ server_socket codec true peer none m svr
    ]

    module _ {Addr Tran : Type 0} where
      -- The client, after a message.
      pub take_message : Bytes → State Addr Tran Object → Option (State Addr Tran Object)
      take_message buf s = elim (receive codec buf) [
        | none ↦ none
        | some m ↦ client_socket true none m s
      ]

      unfoldable pub take_messages :
          List (SenderRef × Bytes) → State Addr Tran Object → Option (State Addr Tran Object)
      take_messages [] s = some s
      take_messages ((peer, buf) ∷ more) s =
          let rest = take_messages more in
          elim (take_message buf s) [ none ↦ none | some t ↦ rest t ]

      -- What the client sent, served, and the replies taken.
      pub exchange :
          {STran : Type 0}
          → SenderRef
          → Bytes
          → ServerImpl Object STran
          → State Addr Tran Object
          → Option (State Addr Tran Object)
      exchange peer buf svr s = elim (serve_message peer buf svr) [
        | none ↦ none
        | some replies ↦ take_messages replies s
      ]

    -- The request that the server makes of a message.
    abbrev pub request_of : SenderRef → ℕ → Object → Object → RequestImpl Object
    request_of peer msgid method params = record {
      ms = some peer;
      msgid = msgid;
      method = method;
      params = params;
      zone = none;
    }

    pub serve-request :
        {Tran : Type 0} (peer : SenderRef) (msgid : ℕ) (method params : Object)
        (svr : ServerImpl Object Tran) (dp : Dispatcher Object) (a : Answer Object)
        (more : List (Answer Object))
        → msgid < 2 ^ 32
        → svr.dp ≡ some dp
        → dp (request_of peer msgid method params) ≡ a ∷ more
        → serve_message peer (codec.pack_request (msg_request method params msgid)) svr
          ≡ some (
              (
                peer,
                codec.pack_response (msg_response (result_of codec a) (error_of codec a) msgid),
              )
              ∷ [])
    unfolding serve_message server_socket Server.on_request
    serve-request peer msgid method params svr dp a more lt served asked = ground (
      arith,
      receive-request method params msgid lt,
      answers_once codec a more (request_of peer msgid method params) peer refl,
    )

    -- A request that the dispatcher does not answer brings nothing back.
    pub exchange-unanswered :
        {Addr Tran STran : Type 0} (peer : SenderRef) (msgid : ℕ) (method params : Object)
        (svr : ServerImpl Object STran) (dp : Dispatcher Object) (s : State Addr Tran Object)
        → msgid < 2 ^ 32
        → svr.dp ≡ some dp
        → dp (request_of peer msgid method params) ≡ []
        → exchange peer (codec.pack_request (msg_request method params msgid)) svr s ≡ some s
    unfolding exchange take_messages serve_message server_socket Server.on_request answers
    exchange-unanswered peer msgid method params svr dp s lt served asked =
        ground (arith, receive-request method params msgid lt)

    pub take-response :
        {Addr Tran : Type 0} (msgid : ℕ) (result error : Object) (s : State Addr Tran Object)
        → msgid < 2 ^ 32
        → take_message (codec.pack_response (msg_response result error msgid)) s
          ≡ some (on_response msgid result error none s)
    unfolding take_message client_socket
    take-response msgid result error s lt = ground (arith, receive-response result error msgid lt)

    pub get_impl-answered :
        (running : Bool) (result error : Object) (f : FutureImpl Object) (ws : List (Wake Object))
        → get_impl running (some (answered result error none f)) ws
          ≡ (if rt.is_nil error then value result else threw (throw_exception error))
    unfolding get_impl
    get_impl-answered running result error f ws = ground arith

    -- A request that a valid session registers and sends to a serving server, whose dispatcher
    -- answers it (first by `a`, and however it goes on), comes back: the exchange raises no
    -- exception, `get` on the request's future then returns the dispatcher's result, or, if the
    -- dispatcher gave an error, throws the exception for that error, and the id is no longer in the
    -- table.
    pub rpc_roundtrip :
        {Addr Tran STran : Type 0} (s : State Addr Tran Object) (msgid : ℕ) (method params : Object)
        (peer : SenderRef) (svr : ServerImpl Object STran) (dp : Dispatcher Object)
        (a : Answer Object) (more : List (Answer Object)) (running : Bool) (ws : List (Wake Object))
        → IsValid s
        → msgid < 2 ^ 32
        → svr.dp ≡ some dp
        → dp (request_of peer msgid method params) ≡ a ∷ more
        → let (r, t) = register msgid s in
          (u : State Addr Tran Object) × (exchange peer
              (codec.pack_request (msg_request method params msgid))
              svr
              t
            ≡ some u)
          × (get_impl running (deref u.heap r) ws ≡ (
              if rt.is_nil (error_of codec a)
              then value (result_of codec a)
              else threw (throw_exception (error_of codec a))))
          × (find msgid u.session.reqtable ≡ none)
    unfolding exchange take_messages
    rpc_roundtrip s msgid method params peer svr dp a more running ws v lt served asked =
        let result = result_of codec a in
        let error = error_of codec a in
        let (r, t) = register msgid s in
        let f = new_future msgid s.session.self s.session.timeout in
        let done =
          on_response_completes t msgid result error none r f (register-IsValid msgid s v)
            (find-register s msgid) (deref-register s msgid) in
        (
          on_response msgid result error none t,
          ground (
            arith,
            serve-request peer msgid method params svr dp a more lt served asked,
            take-response msgid result error t lt,
          ),
          rw (done.0 r) (ground (arith, get_impl-answered running result error f ws)),
          done.2 msgid ∙ ground arith,
        )

    -- A notification is served by the dispatcher like a request, and no answer to it is ever sent,
    -- whatever the dispatcher answers.
    pub notify_silent :
        {Tran : Type 0} (method params : Object) (peer : SenderRef) (svr : ServerImpl Object Tran)
        (dp : Dispatcher Object)
        → svr.dp ≡ some dp
        → serve_message peer (codec.pack_notify (msg_notify method params)) svr ≡ some []
    unfolding serve_message server_socket Server.on_notify
    notify_silent method params peer svr dp served =
        let r : RequestImpl Object = record {
          ms = none;
          msgid = 0;
          method = method;
          params = params;
          zone = none;
        } in
        ground (arith, receive-notify method params, answers_unsent codec (dp r) r refl)
