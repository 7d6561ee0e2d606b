-- ===== src/SessionPool/Expiry.antt =====
-- How long src/msgpack/rpc/session_pool.cc keeps a session: its timer fires once a second.
use msgpack_rpc_boost.Future.{SessionRef}
use msgpack_rpc_boost.Prelude.{
  ℕ, zero, suc, ◌-◌, ◌≤◌, ◌≡◌, ◌∙◌, refl, subst, Bool, true, false, none, some, List, [], ◌∷◌,
  arith, if◌then◌else◌, Key, Bool-cases, inl, inr, leb,
}
use msgpack_rpc_boost.SessionPool.{
  SessionPoolImpl, Entry, find, get_session, sweep, session_pool_time_limit,
}
use msgpack_rpc_boost.SessionPool.Laws.{
  Keyed, has_address, find-get_session, get_session-serving, get_session-Keyed,
}

module _ {Addr : Type 0} ⦃key : Key Addr⦄ where
  module _ (unique : SessionRef → Bool) where
    -- `n` rounds of the timer, with `unique` the same in all of them.
    abbrev pub seconds : ℕ → List (Addr × Entry) → List (Addr × Entry)
    seconds zero m = m
    seconds (suc n) m = seconds n (sweep unique m)

    find-eq-none : (a : Addr) (m : List (Addr × Entry)) → has_address a m ≡ false → find a m ≡ none
    unfolding find
    find-eq-none a [] n = refl
    find-eq-none a ((b, e) ∷ m) n = ground (arith, find-eq-none a m)

    has_address-sweep :
        (a : Addr) (m : List (Addr × Entry))
        → has_address a m ≡ false
        → has_address a (sweep unique m) ≡ false
    unfolding sweep
    has_address-sweep a [] n = refl
    has_address-sweep a ((b, e) ∷ m) n = ground (arith, has_address-sweep a m)

    sweep-Keyed : (m : List (Addr × Entry)) → Keyed m → Keyed (sweep unique m)
    unfolding sweep
    sweep-Keyed [] k = tt
    sweep-Keyed ((b, e) ∷ m) k = ground (arith, sweep-Keyed m k.1, has_address-sweep b m)

    find-sweep :
        (a : Addr) (m : List (Addr × Entry)) (e : Entry)
        → Keyed m
        → find a m ≡ some e
        → find a (sweep unique m) ≡ (
            if unique e.session
            then (if leb e.ttl 0 then none else some (record e { ttl = e.ttl - 1 }))
            else some e)
    unfolding find sweep
    find-sweep a [] e k h = cc
    find-sweep a ((b, d) ∷ m) e k h = elim (Bool-cases (key.same b a)) [
      | inl here ↦
          let away : has_address a m ≡ false =
            subst (λ c. has_address c m ≡ false) ((key.same_iff b a).0 here) k.0 in
          ground (arith, find-eq-none a (sweep unique m) (has_address-sweep a m away))
      | inr other ↦ ground (arith, find-sweep a m e k.1)
    ]

    unused_stays :
        (k : ℕ) (a : Addr) (m : List (Addr × Entry)) (e : Entry)
        → Keyed m
        → find a m ≡ some e
        → unique e.session ≡ true
        → k ≤ e.ttl
        → (find a (seconds k m) ≡ some (record e { ttl = e.ttl - k })) × Keyed (seconds k m)
    unused_stays zero a m e d h u le = (h ∙ ground arith, d)
    unused_stays (suc k) a m e d h u le =
        let step : find a (sweep unique m) ≡ some (record e { ttl = e.ttl - 1 }) =
          find-sweep a m e d h ∙ ground arith in
        let (left, w) =
          unused_stays k a (sweep unique m) (record e { ttl = e.ttl - 1 }) (sweep-Keyed m d) step u
            (omega arith) in
        (left ∙ ground arith, w)

    after_last : (k : ℕ) (m : List (Addr × Entry)) → seconds (suc k) m ≡ sweep unique (seconds k m)
    after_last zero m = refl
    after_last (suc k) m = after_last k (sweep unique m)

    -- An entry that nobody else uses is kept for as many rounds of the timer as its ttl, counted
    -- down, and is gone in the next round.
    pub unused_expires :
        (k : ℕ) (a : Addr) (m : List (Addr × Entry)) (e : Entry)
        → Keyed m
        → find a m ≡ some e
        → unique e.session ≡ true
        → k ≤ e.ttl
        → (find a (seconds k m) ≡ some (record e { ttl = e.ttl - k }))
          × (find a (seconds (suc e.ttl) m) ≡ none)
    unused_expires k a m e d h u le =
        let (last, w) = unused_stays e.ttl a m e d h u (omega arith) in
        (
          (unused_stays k a m e d h u le).0,
          rw (after_last e.ttl m) (
              find-sweep a (seconds e.ttl m) (record e { ttl = e.ttl - e.ttl }) w last
              ∙ ground arith),
        )

    -- An entry whose session somebody else uses stays as it is, ttl included, for any number of
    -- rounds.
    pub used_stays :
        (k : ℕ) (a : Addr) (m : List (Addr × Entry)) (e : Entry)
        → Keyed m
        → find a m ≡ some e
        → unique e.session ≡ false
        → find a (seconds k m) ≡ some e
    used_stays zero a m e d h u = h
    used_stays (suc k) a m e d h u =
        used_stays k a (sweep unique m) e (sweep-Keyed m d) (find-sweep a m e d h ∙ ground arith) u

module _ {Addr : Type 0} ⦃key : Key Addr⦄ (a : Addr) (p : SessionPoolImpl Addr)
    (d : Keyed p.table) where
  entered :
      find a (get_session a p).1.table
      ≡ some (record { session = (get_session a p).0; ttl = session_pool_time_limit })
  entered = rw (get_session-serving a p) (find-get_session a a p ∙ ground (arith, key.same_iff a a))

  -- A session that `get_session` has just handed out is found under its address for 60 rounds of
  -- the timer and is dropped in the 61st, if nobody else keeps it meanwhile.
  pub get_session_expires :
      (unique : SessionRef → Bool) (k : ℕ)
      → unique (get_session a p).0 ≡ true
      → k ≤ 60
      → (find a (seconds unique k (get_session a p).1.table)
          ≡ some (record { session = (get_session a p).0; ttl = 60 - k }))
        × (find a (seconds unique 61 (get_session a p).1.table) ≡ none)
  get_session_expires unique k u le =
      unused_expires unique k a (get_session a p).1.table
        (record { session = (get_session a p).0; ttl = session_pool_time_limit })
        (get_session-Keyed a p d) entered u le

  -- A session that `get_session` has just handed out and that somebody else keeps is found with its
  -- full time after any number of rounds of the timer, and `get_session` then
  -- returns it again.
  pub get_session_kept :
      (unique : SessionRef → Bool) (k : ℕ)
      → unique (get_session a p).0 ≡ false
      → let q = (get_session a p).1 in
        let later = record q { table = seconds unique k q.table } in
        (find a later.table
          ≡ some (record { session = (get_session a p).0; ttl = session_pool_time_limit }))
        × ((get_session a later).0 ≡ (get_session a p).0)
  get_session_kept unique k u =
      let q = (get_session a p).1 in
      let later = record q { table = seconds unique k q.table } in
      let there =
        used_stays unique k a q.table
          (record { session = (get_session a p).0; ttl = session_pool_time_limit })
          (get_session-Keyed a p d) entered u in
      (there, get_session-serving a later ∙ ground arith)
