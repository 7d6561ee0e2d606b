-- ===== src/Sockets.antt =====
-- The virtual functions of the sockets in src/msgpack/rpc/transport/tcp.cc and udp.cc, which are the
-- same in both files. `alive` says whether the weak pointer to the session or to the server still
-- locks; `none` is an exception, msgpack::type_error or `closed_exception`, or the call through a null
-- pointer of a server that does not serve.
use msgpack_rpc_boost.Future.{Zone}
use msgpack_rpc_boost.Prelude.{Bool, Option, none, some, List, if◌then◌else◌}
use msgpack_rpc_boost.Protocol.{Runtime, Codec}
use msgpack_rpc_boost.Request.{SenderRef}
use msgpack_rpc_boost.Server
use msgpack_rpc_boost.Server.{ServerImpl}
use msgpack_rpc_boost.Session
use msgpack_rpc_boost.Session.{State}
use msgpack_rpc_boost.Stream.{Incoming, requested, responded, notified}

module _ {Addr Tran Object : Type 0} ⦃rt : Runtime Object⦄ where
  unfoldable pub client_socket :
      Bool
      → Option Zone
      → Incoming Object
      → State Addr Tran Object
      → Option (State Addr Tran Object)
  client_socket alive z (requested msgid method params) s = none
  client_socket alive z (responded msgid result error) s =
      if alive then some (Session.on_response msgid result error z s) else none
  client_socket alive z (notified method params) s =
      if alive then some (Session.on_notify method params z s) else none

module _ {Object Bytes Tran : Type 0} (codec : Codec Object Bytes) ⦃rt : Runtime Object⦄ where
  unfoldable pub server_socket :
      Bool
      → SenderRef
      → Option Zone
      → Incoming Object
      → ServerImpl Object Tran
      → Option (List (SenderRef × Bytes))
  server_socket alive peer z (requested msgid method params) s =
      if alive then Server.on_request codec peer msgid method params z s else none
  server_socket alive peer z (responded msgid result error) s = none
  server_socket alive peer z (notified method params) s =
      if alive then Server.on_notify codec method params z s else none
