-- ===== src/Tests/Pools.antt =====
-- A pool whose addresses are numbers.
use msgpack_rpc_boost.Future.{SessionRef}
use msgpack_rpc_boost.Prelude.{
  ℕ, ◌≡◌, refl, Bool, true, false, none, some, [], ◌∷◌, ◌++◌, arith, nat_key, is_set, if◌then◌else◌,
}
use msgpack_rpc_boost.Session
use msgpack_rpc_boost.Session.{session_impl}
use msgpack_rpc_boost.SessionPool.{SessionPoolImpl, find, get_session, session_pool_impl}
use msgpack_rpc_boost.SessionPool.Expiry.{seconds, get_session_expires}
use msgpack_rpc_boost.SessionPool.Laws.{serving, get_session_serves}

abbrev pool : SessionPoolImpl ℕ
pool = session_pool_impl 30

abbrev served : SessionPoolImpl ℕ
served = (get_session 8000 pool).1

get_session_serves_example :
    ((get_session 9000 served).0 ≡ serving 9000 served)
    × ((b : ℕ)
        → find b (get_session 9000 served).1.table ≡ (
            if nat_key.same 9000 b
            then some (record { session = (get_session 9000 served).0; ttl = 60 })
            else find b served.table))
    × ((get_session 9000 (get_session 9000 served).1).0 ≡ (get_session 9000 served).0)
    × ((get_session 9000 served).1.sessions ≡ (
        if is_set (find 9000 served.table)
        then served.sessions
        else served.sessions
          ++ Session.set_timeout served.timeout (session_impl (get_session 9000 served).0 9000)
            ∷ []))
get_session_serves_example = get_session_serves 9000 served

abbrev never : SessionRef → Bool
never s = false

abbrev always : SessionRef → Bool
always s = true

get_session_expires_example :
    (find 8000 (seconds always 59 (get_session 8000 pool).1.table)
      ≡ some (record { session = (get_session 8000 pool).0; ttl = 1 }))
    × (find 8000 (seconds always 61 (get_session 8000 pool).1.table) ≡ none)
unfolding session_pool_impl
get_session_expires_example = get_session_expires 8000 pool tt always 59 refl (omega arith)
