-- ===== src/Server.antt =====
-- src/msgpack/rpc/server.cc and server_impl.h: the server hands each message to its dispatcher. The
-- dispatcher is the program's: here it is the answers that it gives to a request. `none` is a call
-- through the null pointer of a server that does not serve yet.
pub mod Handle
use msgpack_rpc_boost.Future.{Zone}
use msgpack_rpc_boost.Prelude.{ℕ, Option, none, some, List}
use msgpack_rpc_boost.Protocol.{Runtime, Codec}
use msgpack_rpc_boost.Request.{RequestImpl, SenderRef, Answer, answers}

abbrev pub Dispatcher : Type 0 → Type 0
Dispatcher Object = RequestImpl Object → List (Answer Object)

-- What the server asks of the transport that it listens with.
pub record ServerTransport (Addr Tran : Type 0) : Type 0 where
  pub local_endpoint : Tran → Addr
  pub connection_num : Tran → ℕ
  pub close : Tran → Tran

pub record ServerImpl (Object Tran : Type 0) : Type 0 where
  pub dp : Option (Dispatcher Object)
  pub stran : Option Tran

module _ {Object Tran : Type 0} where
  unfoldable pub serve : Dispatcher Object → ServerImpl Object Tran → ServerImpl Object Tran
  serve dp s = record s { dp = some dp }

  -- The listener has made the transport.
  unfoldable pub listen : Tran → ServerImpl Object Tran → ServerImpl Object Tran
  listen t s = record s { stran = some t }

  -- The transport is destroyed, and its destructor closes it.
  unfoldable pub close : ServerImpl Object Tran → ServerImpl Object Tran
  close s = record s { stran = none }

  -- The second argument stands for `address("0.0.0.0", 0)`.
  unfoldable pub get_local_endpoint :
      {Addr : Type 0} → ServerTransport Addr Tran → Addr → ServerImpl Object Tran → Addr
  get_local_endpoint st invalid s = elim s.stran [ none ↦ invalid | some t ↦ st.local_endpoint t ]

  unfoldable pub get_connection_num :
      {Addr : Type 0} → ServerTransport Addr Tran → ServerImpl Object Tran → ℕ
  get_connection_num st s = elim s.stran [ none ↦ 0 | some t ↦ st.connection_num t ]

  module _ {Bytes : Type 0} (codec : Codec Object Bytes) ⦃rt : Runtime Object⦄ where
    dispatch : RequestImpl Object → ServerImpl Object Tran → Option (List (SenderRef × Bytes))
    dispatch r s = elim s.dp [ none ↦ none | some dp ↦ some (answers codec (dp r) r).1 ]

    unfoldable pub on_request :
        SenderRef
        → ℕ
        → Object
        → Object
        → Option Zone
        → ServerImpl Object Tran
        → Option (List (SenderRef × Bytes))
    unfolding dispatch
    on_request ms msgid method params z s =
        dispatch
          (record { ms = some ms; msgid = msgid; method = method; params = params; zone = z }) s

    unfoldable pub on_notify :
        Object → Object → Option Zone → ServerImpl Object Tran → Option (List (SenderRef × Bytes))
    unfolding dispatch
    on_notify method params z s =
        dispatch (record { ms = none; msgid = 0; method = method; params = params; zone = z }) s
