-- ===== src/SessionPool/Laws.antt =====
-- What src/msgpack/rpc/session_pool.cc promises when it is asked: one session for an address.
use mathlib.Core.Option
use msgpack_rpc_boost.Future.{SessionRef}
use msgpack_rpc_boost.Prelude.{
  ◌≡◌, ◌∙◌, refl, Bool, false, ◌||◌, none, some, List, [], ◌∷◌, ◌++◌, arith, if◌then◌else◌, length,
  Key, Option-cases, inl, inr, is_set,
}
use msgpack_rpc_boost.Session
use msgpack_rpc_boost.Session.{session_impl}
use msgpack_rpc_boost.SessionPool.{
  SessionPoolImpl, Entry, find, renew, get_session, session_pool_time_limit,
}

module _ {Addr : Type 0} ⦃key : Key Addr⦄ where
  find-renew :
      (a b : Addr) (m : List (Addr × Entry))
      → find b (renew a m) ≡ (
          if key.same a b
          then Option.map (λ (e : Entry). record e { ttl = session_pool_time_limit }) (find b m)
          else find b m)
  unfolding find renew
  find-renew a b [] = ground arith
  find-renew a b ((c, e) ∷ m) =
      ground (arith, find-renew a b m, key.same_iff a b, key.same_iff c a, key.same_iff c b)

  find-append :
      (b a : Addr) (e : Entry) (m : List (Addr × Entry))
      → find b (m ++ (a, e) ∷ [])
        ≡ (if is_set (find b m) then find b m else if key.same a b then some e else none)
  unfolding find
  find-append b a e [] = refl
  find-append b a e ((c, d) ∷ m) = ground (arith, find-append b a e m)

  -- The session that an address is served with: the one in the table, or the next one created.
  abbrev pub serving : Addr → SessionPoolImpl Addr → SessionRef
  serving a p = elim (find a p.table) [ none ↦ length p.sessions | some e ↦ e.session ]

  pub find-get_session :
      (a b : Addr) (p : SessionPoolImpl Addr)
      → find b (get_session a p).1.table ≡ (
          if key.same a b
          then some (record { session = serving a p; ttl = session_pool_time_limit })
          else find b p.table)
  unfolding get_session
  find-get_session a b p = elim (Option-cases (find a p.table)) [
    | inl fresh ↦ ground (
      arith,
      find-append b a (record { session = length p.sessions; ttl = session_pool_time_limit })
          p.table,
      key.same_iff a b,
    )
    | inr (e, found) ↦ ground (arith, find-renew a b p.table, key.same_iff a b)
  ]

  pub get_session-serving :
      (a : Addr) (p : SessionPoolImpl Addr) → (get_session a p).0 ≡ serving a p
  unfolding get_session
  get_session-serving a p = ground arith

  sessions-get_session :
      (a : Addr) (p : SessionPoolImpl Addr)
      → (get_session a p).1.sessions ≡ (
          if is_set (find a p.table)
          then p.sessions
          else p.sessions
            ++ Session.set_timeout p.timeout (session_impl (get_session a p).0 a) ∷ [])
  unfolding get_session
  sessions-get_session a p = ground arith

  -- No address twice, as in any map.
  abbrev pub has_address : Addr → List (Addr × Entry) → Bool
  has_address a [] = false
  has_address a ((b, e) ∷ m) = key.same b a || has_address a m

  abbrev pub Keyed : List (Addr × Entry) → Type 0
  Keyed [] = Unit {0}
  Keyed ((a, e) ∷ m) = (has_address a m ≡ false) × Keyed m

  -- `get_session` returns the session that serves the address, enters it with the full 60 seconds,
  -- and leaves the entries of all other addresses as they are; asked again, it returns the same
  -- session; and a session that it creates has the pool's address and timeout.
  pub get_session_serves :
      (a : Addr) (p : SessionPoolImpl Addr)
      → let (s, q) = get_session a p in
        (s ≡ serving a p)
        × ((b : Addr)
            → find b q.table ≡ (
                if key.same a b
                then some (record { session = s; ttl = session_pool_time_limit })
                else find b p.table))
        × ((get_session a q).0 ≡ s)
        × (q.sessions ≡ (
            if is_set (find a p.table)
            then p.sessions
            else p.sessions ++ Session.set_timeout p.timeout (session_impl s a) ∷ []))
  get_session_serves a p = (
    get_session-serving a p,
    λ b. rw (get_session-serving a p) (find-get_session a b p),
    again,
    sessions-get_session a p,
  )
    where
      again : (get_session a (get_session a p).1).0 ≡ (get_session a p).0
      again =
          get_session-serving a (get_session a p).1
          ∙ ground (arith, find-get_session a a p, get_session-serving a p, key.same_iff a a)

  has_address-renew :
      (a b : Addr) (m : List (Addr × Entry)) → has_address b (renew a m) ≡ has_address b m
  unfolding renew
  has_address-renew a b [] = refl
  has_address-renew a b ((c, e) ∷ m) = ground (arith, has_address-renew a b m)

  renew-Keyed : (a : Addr) (m : List (Addr × Entry)) → Keyed m → Keyed (renew a m)
  unfolding renew
  renew-Keyed a [] k = tt
  renew-Keyed a ((c, e) ∷ m) k = ground (arith, renew-Keyed a m k.1, has_address-renew a c m)

  has_address-append :
      (a b : Addr) (e : Entry) (m : List (Addr × Entry))
      → has_address b (m ++ (a, e) ∷ []) ≡ (has_address b m || key.same a b)
  has_address-append a b e [] = ground arith
  has_address-append a b e ((c, d) ∷ m) = ground (arith, has_address-append a b e m)

  append-Keyed :
      (a : Addr) (e : Entry) (m : List (Addr × Entry))
      → find a m ≡ none
      → Keyed m
      → Keyed (m ++ (a, e) ∷ [])
  unfolding find
  append-Keyed a e [] n k = (refl, tt)
  append-Keyed a e ((c, d) ∷ m) n k =
      ground
        (arith, append-Keyed a e m, has_address-append a c e m, key.same_iff a c, key.same_iff c a)

  pub get_session-Keyed :
      (a : Addr) (p : SessionPoolImpl Addr) → Keyed p.table → Keyed (get_session a p).1.table
  unfolding get_session
  get_session-Keyed a p k = elim (Option-cases (find a p.table)) [
    | inl fresh ↦ ground (
      arith,
      append-Keyed a (record { session = length p.sessions; ttl = session_pool_time_limit }) p.table
          fresh k,
    )
    | inr (e, found) ↦ ground (arith, renew-Keyed a p.table k)
  ]
