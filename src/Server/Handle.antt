-- ===== src/Server/Handle.antt =====
-- The class `server` of src/msgpack/rpc/server.cc and server.h: a session_pool whose implementation is a
-- server_impl. A listener has made the transport that it gives; `tcp_listener` and the address that a
-- listener is made for are arguments.
use msgpack_rpc_boost.Loop.{IoService, LoopImpl, ThreadRef, end_loop}
use msgpack_rpc_boost.Prelude.{ℕ, Option, none, some}
use msgpack_rpc_boost.Server
use msgpack_rpc_boost.Server.{ServerImpl, ServerTransport, Dispatcher}
use msgpack_rpc_boost.SessionPool.Handle
use msgpack_rpc_boost.SessionPool.Handle.{PoolHandle, session_pool}

-- The server_impl in two parts: what it inherits, in the pool, and what is its own.
pub record ServerHandle (Io Addr Object Tran : Type 0) : Type 0 where
  pub pool : PoolHandle Io Addr
  pub impl : ServerImpl Object Tran

module _ {Io Addr Object Tran : Type 0} where
  -- The constructors, with the timeout of the builder.
  unfoldable pub server : ℕ → LoopImpl Io → ServerHandle Io Addr Object Tran
  unfolding session_pool
  server timeout lo = record {
    pool = session_pool timeout lo;
    impl = record { dp = none; stran = none };
  }

  unfoldable pub serve :
      Dispatcher Object → ServerHandle Io Addr Object Tran → ServerHandle Io Addr Object Tran
  unfolding Server.serve
  serve dp s = record s { impl = Server.serve dp s.impl }

  unfoldable pub listen : Tran → ServerHandle Io Addr Object Tran → ServerHandle Io Addr Object Tran
  unfolding Server.listen
  listen t s = record s { impl = Server.listen t s.impl }

  -- With an address: the listener that is made for it may throw, and then nothing changes.
  unfoldable pub listen_at :
      (Addr → Option Tran)
      → Addr
      → ServerHandle Io Addr Object Tran
      → Option (ServerHandle Io Addr Object Tran)
  unfolding listen
  listen_at tcp_listener addr s = elim (tcp_listener addr) [
    | none ↦ none
    | some t ↦ some (listen t s)
  ]

  unfoldable pub get_local_endpoint :
      ServerTransport Addr Tran → Addr → ServerHandle Io Addr Object Tran → Addr
  unfolding Server.get_local_endpoint
  get_local_endpoint st invalid s = Server.get_local_endpoint st invalid s.impl

  unfoldable pub get_connection_num :
      ServerTransport Addr Tran → ServerHandle Io Addr Object Tran → ℕ
  unfolding Server.get_connection_num
  get_connection_num st s = Server.get_connection_num st s.impl

  -- The server works synchronously.
  unfoldable pub get_request_num : ServerHandle Io Addr Object Tran → ℕ
  get_request_num s = 0

  module _ {Handler W : Type 0} (ios : IoService Io Handler W) where
    unfoldable pub close : ServerHandle Io Addr Object Tran → ServerHandle Io Addr Object Tran
    unfolding end_loop Server.close
    close s = record s {
      pool = record s.pool { loop = end_loop ios s.pool.loop };
      impl = Server.close s.impl;
    }

    -- The destructor, and then the one of session_pool.
    unfoldable pub destroy :
        ThreadRef → ServerHandle Io Addr Object Tran → W → ServerHandle Io Addr Object Tran × W
    unfolding close Handle.destroy
    destroy self s w =
        let t = close s in
        let (p, v) = Handle.destroy ios self t.pool w in (record t { pool = p }, v)
