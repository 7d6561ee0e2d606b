-- ===== src/SessionPool/Handle.antt =====
-- The class `session_pool` of src/msgpack/rpc/session_pool.cc: a pool and the loop that its sessions
-- run on. What the resolver gives for a host and a port is an argument, and `none` is the exception of
-- an address that cannot be made.
use msgpack_rpc_boost.Address.{Address, IpAddress, Text, resolve, address_of_string}
use msgpack_rpc_boost.Future.{SessionRef}
use msgpack_rpc_boost.Loop
use msgpack_rpc_boost.Loop.{IoService, LoopImpl, ThreadRef, end_loop, flush}
use msgpack_rpc_boost.Prelude.{ℕ, Bool, Option, none, some, List, Key}
use msgpack_rpc_boost.SessionPool
use msgpack_rpc_boost.SessionPool.{SessionPoolImpl, session_pool_impl}

pub record PoolHandle (Io Addr : Type 0) : Type 0 where
  pub loop : LoopImpl Io
  pub impl : SessionPoolImpl Addr

module _ {Io Addr : Type 0} where
  -- The constructors, with the timeout of the builder.
  unfoldable pub session_pool : ℕ → LoopImpl Io → PoolHandle Io Addr
  unfolding session_pool_impl
  session_pool timeout lo = record { loop = lo; impl = session_pool_impl timeout }

  unfoldable pub get_loop : PoolHandle Io Addr → LoopImpl Io
  get_loop p = p.loop

  unfoldable pub set_timeout : ℕ → PoolHandle Io Addr → PoolHandle Io Addr
  unfolding SessionPool.set_timeout
  set_timeout sec p = record p { impl = SessionPool.set_timeout sec p.impl }

  unfoldable pub is_running : PoolHandle Io Addr → Bool
  unfolding Loop.is_running
  is_running p = Loop.is_running p.loop

  unfoldable pub start : ℕ → PoolHandle Io Addr → Option (PoolHandle Io Addr)
  unfolding Loop.start
  start num p = elim (Loop.start num p.loop) [ none ↦ none | some l ↦ some (record p { loop = l }) ]

  unfoldable pub join : ThreadRef → PoolHandle Io Addr → PoolHandle Io Addr
  unfolding Loop.join
  join self p = record p { loop = (Loop.join self p.loop).1 }

  module _ {Handler W : Type 0} (ios : IoService Io Handler W) where
    unfoldable pub run : ℕ → PoolHandle Io Addr → W → Option (PoolHandle Io Addr × W)
    unfolding Loop.run
    run num p w = elim (Loop.run ios num p.loop w) [
      | none ↦ none
      | some (l, v) ↦ some (record p { loop = l }, v)
    ]

    unfoldable pub run_once : PoolHandle Io Addr → W → PoolHandle Io Addr × W
    unfolding Loop.run_once
    run_once p w = let (l, v) = Loop.run_once ios p.loop w in (record p { loop = l }, v)

    unfoldable pub end : PoolHandle Io Addr → W → PoolHandle Io Addr × W
    unfolding flush end_loop
    end p w = let (l, v) = flush ios p.loop w in (record p { loop = end_loop ios l }, v)

    -- The destructor.
    unfoldable pub destroy : ThreadRef → PoolHandle Io Addr → W → PoolHandle Io Addr × W
    unfolding end join
    destroy self p w = let (q, v) = end p w in (join self q, v)

  module _ ⦃key : Key Addr⦄ where
    unfoldable pub get_session : Addr → PoolHandle Io Addr → SessionRef × PoolHandle Io Addr
    unfolding SessionPool.get_session
    get_session addr p =
        let (s, q) = SessionPool.get_session addr p.impl in (s, record p { impl = q })

    -- With an address that was made first.
    abbrev pub get_session_made :
        Option Addr → PoolHandle Io Addr → Option (SessionRef × PoolHandle Io Addr)
    get_session_made none p = none
    get_session_made (some a) p = some (get_session a p)

module _ {Io Ip : Type 0} ⦃ip : IpAddress Ip⦄ ⦃key : Key (Address Ip)⦄ where
  -- With a host and a port, which the resolver has looked up.
  unfoldable pub get_session_at :
      List (Address Ip)
      → PoolHandle Io (Address Ip)
      → Option (SessionRef × PoolHandle Io (Address Ip))
  unfolding resolve get_session
  get_session_at endpoints p = get_session_made (resolve endpoints) p

  unfoldable pub get_session_named :
      (Text → Text → List (Address Ip))
      → Text
      → PoolHandle Io (Address Ip)
      → Option (SessionRef × PoolHandle Io (Address Ip))
  unfolding address_of_string get_session
  get_session_named resolver addr p = get_session_made (address_of_string resolver addr) p
