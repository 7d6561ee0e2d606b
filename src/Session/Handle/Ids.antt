-- ===== src/Session/Handle/Ids.antt =====
-- The ids of the requests that go through handles of src/msgpack/rpc/session.h.
use msgpack_rpc_boost.Future.{SessionRef}
use msgpack_rpc_boost.Prelude.{
  ℕ, ◌+◌, ◌≡◌, refl, some, List, [], ◌∷◌, ◌++◌, ◌%◌, ◌^◌, Option-cases, Bool-cases, ==_iff, true,
  inl, inr, arith, get_elem?, set, ◌==◌, if◌then◌else◌, get_elem?-set, All, All-imp,
}
use msgpack_rpc_boost.Protocol.{Runtime, Codec, msg_request, msg_notify}
use msgpack_rpc_boost.Protocol.MsgId.{atomic_increment, increments}
use msgpack_rpc_boost.Session
use msgpack_rpc_boost.Session.{SessionImpl, State, Sender, register}
use msgpack_rpc_boost.Session.Handle.Uses.{
  Use, requests, notifies, sets_timeout, requests_to, ids_of, counter, use_handle, use_all,
}
use msgpack_rpc_boost.Session.Handle.{
  SessionHandle, Sessions, through, next_msgid, set_timeout, send_request, send_notify,
  send_request_impl, send_notify_impl,
}

-- What a use makes of the counter, and the id that it gives.
abbrev counted : {Env Object : Type 0} → Use Env Object → ℕ → ℕ
counted (requests env method params) m = (m + 1) % 2 ^ 32
counted u m = m

abbrev id_of : {Env Object : Type 0} → SessionRef → Use Env Object → ℕ → List (SessionRef × ℕ)
id_of r (requests env method params) m = (r, m) ∷ []
id_of r u m = []

ids_step :
    {Env Object : Type 0} (s : SessionHandle) (u : Use Env Object)
    (us : List (SessionHandle × Use Env Object)) (m : ℕ) (r : SessionRef) (n : ℕ)
    (ids : List (SessionRef × ℕ))
    → ((s.pimpl == r) ≡ true → m ≡ n)
    → ids_of r ids ≡ increments (requests_to r us) (if s.pimpl == r then counted u m else n)
    → ids_of r (id_of s.pimpl u m ++ ids) ≡ increments (requests_to r ((s, u) ∷ us)) n
unfolding increments atomic_increment
ids_step s (requests env method params) us m r n ids same h = elim (Bool-cases (s.pimpl == r)) [
  | inl own ↦ ground (arith, own, h, same own)
  | inr other ↦ ground (arith, other, h)
]
ids_step s (notifies env method params) us m r n ids same h = elim (Bool-cases (s.pimpl == r)) [
  | inl own ↦ ground (arith, own, h, same own)
  | inr other ↦ ground (arith, other, h)
]
ids_step s (sets_timeout sec) us m r n ids same h = elim (Bool-cases (s.pimpl == r)) [
  | inl own ↦ ground (arith, own, h, same own)
  | inr other ↦ ground (arith, other, h)
]

module _ {Addr Tran Object : Type 0} where
  -- A call through a handle, from the session's state there.
  through_lem :
      {A : Type 0} (f : State Addr Tran Object → A × State Addr Tran Object) (s : SessionHandle)
      (m : ℕ) (p : Sessions Addr Tran Object)
      → counter p s.pimpl ≡ some m
      → (st : State Addr Tran Object) × (q : Sessions Addr Tran Object) × (st.session.msgid_rr ≡ m)
        × (through f s p ≡ some ((f st).0, q))
        × ((r : SessionRef)
            → counter q r ≡ (if s.pimpl == r then some (f st).1.session.msgid_rr else counter p r))
  unfolding through
  through_lem f s m p h = elim (Option-cases (get_elem? p.sessions s.pimpl)) [
    | inl null ↦ absurd (ground (arith, h, null))
    | inr ((impl, tran), there) ↦
        let st : State Addr Tran Object = record { session = impl; tran = tran; heap = p.heap } in
        let t = (f st).1 in
        (
          st,
          record { sessions = set p.sessions s.pimpl (t.session, t.tran); heap = t.heap },
          ground (arith, h, there),
          ground (arith, there),
          λ r. ground (arith, there, get_elem?-set p.sessions s.pimpl r (t.session, t.tran)),
        )
  ]

module _ {Addr Tran Object Env Bytes : Type 0} (codec : Codec Object Bytes) ⦃rt : Runtime Object⦄
    (send_data : Sender Env Bytes Addr Tran Object) where
  -- A transport that leaves the sessions' counters alone.
  module _
      (kept : (env : Env) (buf : Bytes) (st : State Addr Tran Object)
        → (send_data env buf st).1.session.msgid_rr ≡ st.session.msgid_rr) where
    -- One use of a session whose counter is at `m`: the id that is given, and all the counters.
    abbrev Counts : SessionHandle → Use Env Object → ℕ → Sessions Addr Tran Object → Type 0
    Counts s u m p =
        (q : Sessions Addr Tran Object) × (use_handle codec send_data s u p
          ≡ some (id_of s.pimpl u m, q))
        × ((r : SessionRef)
            → counter q r ≡ (if s.pimpl == r then some (counted u m) else counter p r))

    use_handle-Counts :
        (s : SessionHandle) (u : Use Env Object) (m : ℕ) (p : Sessions Addr Tran Object)
        → counter p s.pimpl ≡ some m
        → Counts s u m p
    unfolding use_handle send_request send_request_impl next_msgid send_notify send_notify_impl
        set_timeout Session.next_msgid atomic_increment Session.send_request_impl
        Session.send_notify_impl Session.set_timeout register
    use_handle-Counts s (requests env method params) m p h =
        let draw : State Addr Tran Object → ℕ × State Addr Tran Object = λ st.
          let (id, impl) = Session.next_msgid st.session in (id, record st { session = impl }) in
        let (st, q, c, e, k) = through_lem draw s m p h in
        let buf = codec.pack_request (msg_request method params m) in
        let send =
          λ (t : State Addr Tran Object). Session.send_request_impl send_data env m buf t in
        let (t, l, d, f, j) =
          through_lem send s ((m + 1) % 2 ^ 32) q (ground (arith, k s.pimpl, c)) in
        (
          l,
          ground (arith, e, f, c),
          λ r. ground (arith, k r, j r, c, d, kept env buf (register m t).1),
        )
    use_handle-Counts s (notifies env method params) m p h =
        let buf = codec.pack_notify (msg_notify method params) in
        let send = λ (t : State Addr Tran Object). Session.send_notify_impl send_data env buf t in
        let (st, q, c, e, k) = through_lem send s m p h in
        (q, ground (arith, e), λ r. ground (arith, k r, c, kept env buf st))
    use_handle-Counts s (sets_timeout sec) m p h =
        let set_to : State Addr Tran Object → Unit {0} × State Addr Tran Object =
          λ st. (tt, record st { session = Session.set_timeout sec st.session }) in
        let (st, q, c, e, k) = through_lem set_to s m p h in
        (q, ground (arith, e), λ r. ground (arith, k r, c))

    -- Every handle has a session.
    abbrev pub Pointed : Sessions Addr Tran Object → List (SessionHandle × Use Env Object) → Type 0
    Pointed p us =
        All (λ (x : SessionHandle × Use Env Object). (m : ℕ) × (counter p x.0.pimpl ≡ some m)) us

    -- Whatever is done through handles that have sessions, in any order, and however often a session has
    -- several handles: the ids of the requests of one session are, in their order, those that its counter
    -- alone gives in as many steps, whatever is done with the other sessions between.
    pub use_all-increments :
        (us : List (SessionHandle × Use Env Object)) (p : Sessions Addr Tran Object)
        (r : SessionRef) (n : ℕ)
        → Pointed p us
        → counter p r ≡ some n
        → (ids : List (SessionRef × ℕ)) × (q : Sessions Addr Tran Object) × (use_all codec send_data
              us p
            ≡ some (ids, q))
          × (ids_of r ids ≡ increments (requests_to r us) n)
    unfolding use_all increments
    use_all-increments [] p r n pointed h = ([], p, refl, refl)
    use_all-increments ((s, u) ∷ us) p r n ((m, here), more) h =
        let (q, e, k) = use_handle-Counts s u m p here in
        let n' = if s.pimpl == r then counted u m else n in
        let pointed' =
          All-imp (λ (x : SessionHandle × Use Env Object). (i : ℕ) × (counter p x.0.pimpl ≡ some i))
            (λ (x : SessionHandle × Use Env Object). (i : ℕ) × (counter q x.0.pimpl ≡ some i)) us
            (λ x there. (
              if s.pimpl == x.0.pimpl then counted u m else there.0,
              ground (arith, k x.0.pimpl, there.1),
            ))
            more in
        let (ids, t, f, g) = use_all-increments us q r n' pointed' (ground (arith, k r, h)) in
        (
          id_of s.pimpl u m ++ ids,
          t,
          ground (arith, e, f),
          ids_step s u us m r n ids (λ same. ground (arith, ==_iff s.pimpl r, here, h)) g,
        )
