-- ===== src/SessionPool/Ending.antt =====
-- How a session_pool of src/msgpack/rpc/session_pool.cc ends.
use msgpack_rpc_boost.Loop.{IoService, ThreadRef, flush}
use msgpack_rpc_boost.Loop.Laws.{Use, joins, use_loop, use_all, use_all-end_loop}
use msgpack_rpc_boost.Prelude.{◌≡◌, refl, false, List, ◌∷◌}
use msgpack_rpc_boost.SessionPool.Handle.{PoolHandle, is_running, destroy}

module _ {Io Addr Handler W : Type 0} (ios : IoService Io Handler W) where
  -- The destructor of a pool runs the handlers that are ready, and then no handler runs any more,
  -- whatever is still done with the loop; the sessions that were handed out stay in the table, and no
  -- worker is left.
  pub use_all-destroy :
      (self : ThreadRef) (p : PoolHandle Io Addr) (w : W) (us : List (Use Handler))
      → let (q, v) = destroy ios self p w in
        (v ≡ (ios.poll p.loop.io w).1)
        × ((use_all ios us (q.loop, v)).1 ≡ v)
        × (q.impl ≡ p.impl)
        × (is_running q ≡ false)
  unfolding destroy is_running use_all use_loop
  use_all-destroy self p w us =
      let (l, v) = flush ios p.loop w in
      (refl, use_all-end_loop ios (joins self ∷ us) l v, refl, refl)
