-- ===== src/Rpc/Pipeline.antt =====
-- Several calls at once, over the stream of src/msgpack/rpc/transport/tcp.cc: the requests that come to the
-- server in one read, and the responses that the client then takes.
use msgpack_rpc_boost.Prelude.{none, List, [], ◌∷◌, ◌++◌}
use msgpack_rpc_boost.Protocol.{Runtime, Codec}
use msgpack_rpc_boost.Request.{SenderRef, Answer}
use msgpack_rpc_boost.Request.Laws.{result_of, error_of}
use msgpack_rpc_boost.Server.{Dispatcher}
use msgpack_rpc_boost.Session.Replies.{Reply}
use msgpack_rpc_boost.TcpServer.Serving.{Asked, ask}

module _ {Object Bytes : Type 0} (codec : Codec Object Bytes) ⦃rt : Runtime Object⦄
    (self : SenderRef) where
  abbrev reply_of : Asked Object → List (Answer Object) → List (Reply Object)
  reply_of c [] = []
  reply_of c (a ∷ more) =
      record { msgid = c.msgid; result = result_of codec a; error = error_of codec a; zone = none }
      ∷ []

  -- The answers to these requests, of those that the dispatcher answers.
  abbrev pub replies_of : Dispatcher Object → List (Asked Object) → List (Reply Object)
  replies_of dp [] = []
  replies_of dp (c ∷ cs) = reply_of c (dp (ask codec self c)) ++ replies_of dp cs
