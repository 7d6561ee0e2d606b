-- ===== src/TcpServer/Serving.antt =====
-- The server's socket of src/msgpack/rpc/transport/tcp.cc over stream_handler.cc: the requests that come in
-- one stream, one after another. `broken` is what the transport does when a read fails. What is
-- told here is told of servers that serve.
use msgpack_rpc_boost.Prelude.{
  ℕ, zero, suc, ◌+◌, ◌≤◌, ◌<◌, ◌≡◌, ◌∙◌, refl, sym, ap, Bool, true, false, Option, none, some, List,
  [], ◌∷◌, ◌++◌, arith,
}
use msgpack_rpc_boost.Protocol.{Runtime, Codec, msg_response}
use msgpack_rpc_boost.Request.{RequestImpl, SenderRef, Answer, answers}
use msgpack_rpc_boost.Request.Laws.{answers_once, result_of, error_of}
use msgpack_rpc_boost.Rpc.{request_of}
use msgpack_rpc_boost.Server
use msgpack_rpc_boost.Server.{ServerImpl, Dispatcher}
use msgpack_rpc_boost.Sockets.{server_socket}
use msgpack_rpc_boost.Stream.{requested, on_message}
use msgpack_rpc_boost.Stream.Reading
use msgpack_rpc_boost.Stream.Reading.{
  Next, object, incomplete, Unpacker, Drained, drained, Handler, drain, settle, on_read,
  max_message_size,
}
use msgpack_rpc_boost.TcpServer.Writing.{
  ServerSocket, write_all, write_all-server, write_all-append,
}

-- A request on the wire: its id, its method and its parameters.
pub record Asked (Object : Type 0) : Type 0 where
  pub msgid : ℕ
  pub method : Object
  pub params : Object

module _ {Object Bytes : Type 0} (codec : Codec Object Bytes) ⦃rt : Runtime Object⦄
    (self : SenderRef) where
  abbrev pub answer_of : Asked Object → List (Answer Object) → List (SenderRef × Bytes)
  answer_of c [] = []
  answer_of c (a ∷ more) =
      (self, codec.pack_response (msg_response (result_of codec a) (error_of codec a) c.msgid)) ∷ []

  abbrev pub ask : Asked Object → RequestImpl Object
  ask c = request_of codec self c.msgid c.method c.params

  -- The responses to these requests, in their order, of those that the dispatcher answers.
  abbrev pub responses : Dispatcher Object → List (Asked Object) → List (SenderRef × Bytes)
  responses dp [] = []
  responses dp (c ∷ cs) = answer_of c (dp (ask c)) ++ responses dp cs

  answers-answer_of :
      (c : Asked Object) (l : List (Answer Object)) → (answers codec l (ask c)).1 ≡ answer_of c l
  unfolding answers
  answers-answer_of c [] = refl
  answers-answer_of c (a ∷ more) = answers_once codec a more (ask c) self refl

-- The unpacker has these requests, and then the beginning of another message, or nothing.
pub data Holds {Object Bytes Pac : Type 0} (codec : Codec Object Bytes)
    (up : Unpacker Object Bytes Pac) : Pac → List (Asked Object) → Pac → Type 0 where
  rest : {q : Pac} → up.next q ≡ incomplete → Holds codec up q [] q
  request :
      {p q r : Pac} {cs : List (Asked Object)} (c : Asked Object) (o : Object)
      → up.next p ≡ object o q
      → on_message codec o ≡ some (requested c.msgid c.method c.params)
      → Holds codec up q cs r
      → Holds codec up p (c ∷ cs) r

module _ {Object Bytes Tran : Type 0} (codec : Codec Object Bytes) ⦃rt : Runtime Object⦄
    (self : SenderRef) where
  -- What the replies leave, and whether the socket threw.
  abbrev written :
      ServerSocket Object Bytes Tran
      → Option (List (SenderRef × Bytes))
      → ServerSocket Object Bytes Tran × Bool
  written s none = (s, true)
  written s (some replies) = (write_all replies s, false)

  -- `on_message`, with the virtual functions of the server's socket, which is the sender itself.
  unfoldable pub handle_request :
      Object → ServerSocket Object Bytes Tran → ServerSocket Object Bytes Tran × Bool
  unfolding on_message server_socket write_all
  handle_request o s = elim (on_message codec o) [
    | none ↦ (s, true)
    | some m ↦ written s (server_socket codec true self none m s.server)
  ]

  -- `on_read` of a server's socket.
  unfoldable pub read_stream :
      {Pac : Type 0}
      → Unpacker Object Bytes Pac
      → (ServerSocket Object Bytes Tran → ServerSocket Object Bytes Tran)
      → ℕ
      → Bytes
      → Handler Pac (ServerSocket Object Bytes Tran)
      → Option (Handler Pac (ServerSocket Object Bytes Tran))
  unfolding on_read handle_request
  read_stream up broken err buf h = on_read up handle_request broken err buf h

  abbrev pub sending :
      List (SenderRef × Bytes) → ServerSocket Object Bytes Tran → ServerSocket Object Bytes Tran
  sending l s = record s { sent = s.sent ++ l }

  -- One request, handled.
  handle_request-answer :
      (dp : Dispatcher Object) (c : Asked Object) (o : Object) (s : ServerSocket Object Bytes Tran)
      → s.server.dp ≡ some dp
      → on_message codec o ≡ some (requested c.msgid c.method c.params)
      → handle_request o s ≡ (write_all (answer_of codec self c (dp (ask codec self c))) s, false)
  unfolding handle_request server_socket Server.on_request
  handle_request-answer dp c o s served found =
      ground (arith, served, found, answers-answer_of codec self c (dp (ask codec self c)))

  module _ {Pac : Type 0} (up : Unpacker Object Bytes Pac) where
    drain-Holds :
        (dp : Dispatcher Object) (fuel : ℕ) (p q : Pac) (cs : List (Asked Object))
        (s : ServerSocket Object Bytes Tran)
        → s.server.dp ≡ some dp
        → Holds codec up p cs q
        → up.remaining p < fuel
        → drain up handle_request fuel p s ≡ drained q (write_all (responses codec self dp cs) s)
    unfolding drain write_all
    drain-Holds dp zero p q cs s served h lt = absurd (omega arith)
    drain-Holds dp (suc fuel) p q [] s served (rest e) lt = rw (drain, e) refl
    drain-Holds dp (suc fuel) p q (c ∷ cs) s served (request {q = r} _ o e found more) lt =
        let less = up.next_consumes p r o e in
        let new = answer_of codec self c (dp (ask codec self c)) in
        let same = write_all-server new s in
        rw (drain, e, handle_request-answer dp c o s served found)
          (drain-Holds dp fuel r q cs (write_all new s) (ground (arith, same, served)) more
              (omega arith)
            ∙ ap (λ t. drained q t) (sym (write_all-append new (responses codec self dp cs) s)))

    -- What a read of some requests leaves.
    pub read_stream_lem :
        (broken : ServerSocket Object Bytes Tran → ServerSocket Object Bytes Tran)
        (dp : Dispatcher Object) (cs : List (Asked Object)) (buf : Bytes) (q : Pac)
        (h : Handler Pac (ServerSocket Object Bytes Tran))
        → h.state.server.dp ≡ some dp
        → Holds codec up (up.buffer_consumed buf h.pac) cs q
        → up.message_size q ≤ max_message_size
        → read_stream up broken 0 buf h
          ≡ some (record {
            reading = true;
            pac = q;
            state = write_all (responses codec self dp cs) h.state;
          })
    unfolding read_stream settle Reading.start
    read_stream_lem broken dp cs buf q h served holds small =
        let p = up.buffer_consumed buf h.pac in
        let all = drain-Holds dp (up.remaining p + 1) p q cs h.state served holds (omega arith) in
        ap (settle up handle_request broken) all ∙ ground (arith, small)
