-- ===== src/SessionPool.antt =====
-- src/msgpack/rpc/session_pool.cc and session_pool_impl.h: the sessions by address, each with the
-- seconds that it is kept while nobody else uses it. The map is the list of its entries, in the
-- order in which it iterates; equality of addresses is an instance, and the sessions that were
-- created are numbered. `unique` is `shared_ptr::unique` of the session that an entry holds.
pub mod Laws
pub mod Expiry
pub mod Unique
pub mod Handle
pub mod Ending
use msgpack_rpc_boost.Future.{SessionRef}
use msgpack_rpc_boost.Prelude.{
  ℕ, ◌+◌, ◌-◌, Bool, true, false, Option, none, some, List, [], ◌∷◌, ◌++◌, if◌then◌else◌, leb,
  length, Key,
}
use msgpack_rpc_boost.Session
use msgpack_rpc_boost.Session.{SessionImpl, session_impl}

abbrev pub session_pool_time_limit : ℕ
session_pool_time_limit = 60

pub record Entry : Type 0 where
  pub session : SessionRef
  pub ttl : ℕ

-- `timeout` is the builder's, and `sessions` has what the references name.
pub record SessionPoolImpl (Addr : Type 0) : Type 0 where
  pub table : List (Addr × Entry)
  pub timeout : ℕ
  pub sessions : List (SessionImpl Addr)
  pub armed : Bool

module _ {Addr : Type 0} where
  unfoldable pub arm_step_timer : SessionPoolImpl Addr → SessionPoolImpl Addr
  arm_step_timer p = record p { armed = true }

  unfoldable pub disarm_step_timer : SessionPoolImpl Addr → SessionPoolImpl Addr
  disarm_step_timer p = record p { armed = false }

  -- The constructor, with the timeout of the builder that it copies.
  unfoldable pub session_pool_impl : ℕ → SessionPoolImpl Addr
  unfolding arm_step_timer
  session_pool_impl timeout =
      arm_step_timer (record { table = []; timeout = timeout; sessions = []; armed = false })

  unfoldable pub set_timeout : ℕ → SessionPoolImpl Addr → SessionPoolImpl Addr
  set_timeout sec p = record p { timeout = sec }

  -- The loop over the table.
  unfoldable pub sweep : (SessionRef → Bool) → List (Addr × Entry) → List (Addr × Entry)
  sweep unique [] = []
  sweep unique ((a, e) ∷ m) =
      let rest = sweep unique m in
      if unique e.session
      then (if leb e.ttl 0 then rest else (a, record e { ttl = e.ttl - 1 }) ∷ rest)
      else (a, e) ∷ rest

  unfoldable pub step_timer_handler :
      Bool → (SessionRef → Bool) → SessionPoolImpl Addr → SessionPoolImpl Addr
  unfolding sweep arm_step_timer
  step_timer_handler aborted unique p =
      let q = record p { armed = false } in
      if aborted then q else arm_step_timer (record q { table = sweep unique q.table })

  module _ ⦃key : Key Addr⦄ where
    unfoldable pub find : Addr → List (Addr × Entry) → Option Entry
    find a [] = none
    find a ((b, e) ∷ m) = if key.same b a then some e else find a m

    -- `found->second.ttl = SESSION_POOL_TIME_LIMIT`
    unfoldable pub renew : Addr → List (Addr × Entry) → List (Addr × Entry)
    renew a [] = []
    renew a ((b, e) ∷ m) =
        if key.same b a
        then (b, record e { ttl = session_pool_time_limit }) ∷ m
        else (b, e) ∷ renew a m

    -- The session that is returned, and the pool.
    unfoldable pub get_session : Addr → SessionPoolImpl Addr → SessionRef × SessionPoolImpl Addr
    unfolding find renew session_impl Session.set_timeout
    get_session addr p = elim (find addr p.table) [
      | some e ↦ (e.session, record p { table = renew addr p.table })
      | none ↦
          let s = length p.sessions in
          let impl = Session.set_timeout p.timeout (session_impl s addr) in
          let e : Entry = record { session = s; ttl = session_pool_time_limit } in
          (s, record p { table = p.table ++ (addr, e) ∷ []; sessions = p.sessions ++ impl ∷ [] })
    ]
