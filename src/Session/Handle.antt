-- ===== src/Session/Handle.antt =====
-- The class `session` of src/msgpack/rpc/session.h and session.cc: a shared pointer to a session_impl, with
-- calls that go through it. Several handles may have one session. `none` is a use of a pointer to no
-- session.
pub mod Uses
pub mod Ids
use msgpack_rpc_boost.Future.{SessionRef, Zone}
use msgpack_rpc_boost.Future.Heap.{Heap}
use msgpack_rpc_boost.Prelude.{ℕ, Option, none, some, List, [], ◌∷◌, get_elem?, set}
use msgpack_rpc_boost.Protocol.{Runtime, Codec, msg_request, msg_notify}
use msgpack_rpc_boost.Session
use msgpack_rpc_boost.Session.{SessionImpl, State, Sender, Called, Failure}

pub record SessionHandle : Type 0 where
  pub pimpl : SessionRef

-- The sessions of a program, each with its transport, and the futures that all of them share.
pub record Sessions (Addr Tran Object : Type 0) : Type 0 where
  pub sessions : List (SessionImpl Addr × Tran)
  pub heap : Heap Object

module _ {Addr Tran Object : Type 0} where
  -- `m_pimpl->f(...)`: what it gives, and the sessions after it.
  unfoldable pub through :
      {A : Type 0}
      → (State Addr Tran Object → A × State Addr Tran Object)
      → SessionHandle
      → Sessions Addr Tran Object
      → Option (A × Sessions Addr Tran Object)
  through f s p = elim (get_elem? p.sessions s.pimpl) [
    | none ↦ none
    | some (impl, tran) ↦
        let (a, st) = f (record { session = impl; tran = tran; heap = p.heap }) in
        some (a, record { sessions = set p.sessions s.pimpl (st.session, st.tran); heap = st.heap })
  ]

  unfoldable pub get_address : SessionHandle → Sessions Addr Tran Object → Option Addr
  unfolding Session.get_address
  get_address s p = elim (get_elem? p.sessions s.pimpl) [
    | none ↦ none
    | some (impl, tran) ↦ some (Session.get_address impl)
  ]

  unfoldable pub get_timeout : SessionHandle → Sessions Addr Tran Object → Option ℕ
  unfolding Session.get_timeout
  get_timeout s p = elim (get_elem? p.sessions s.pimpl) [
    | none ↦ none
    | some (impl, tran) ↦ some (Session.get_timeout impl)
  ]

  unfoldable pub set_timeout :
      ℕ → SessionHandle → Sessions Addr Tran Object → Option (Unit {0} × Sessions Addr Tran Object)
  unfolding through Session.set_timeout
  set_timeout sec s p =
      through (λ st. (tt, record st { session = Session.set_timeout sec st.session })) s p

  unfoldable pub next_msgid :
      SessionHandle → Sessions Addr Tran Object → Option (ℕ × Sessions Addr Tran Object)
  unfolding through Session.next_msgid
  next_msgid s p =
      through
        (λ st. let (id, impl) = Session.next_msgid st.session in (id, record st { session = impl }))
        s p

  module _ {Env Bytes : Type 0} ⦃rt : Runtime Object⦄
      (send_data : Sender Env Bytes Addr Tran Object) where
    unfoldable pub send_request_impl :
        Env
        → ℕ
        → Bytes
        → SessionHandle
        → Sessions Addr Tran Object
        → Option (Called × Sessions Addr Tran Object)
    unfolding through Session.send_request_impl
    send_request_impl env msgid buf s p =
        through (λ st. Session.send_request_impl send_data env msgid buf st) s p

    unfoldable pub send_notify_impl :
        Env
        → Bytes
        → SessionHandle
        → Sessions Addr Tran Object
        → Option (Option Failure × Sessions Addr Tran Object)
    unfolding through Session.send_notify_impl
    send_notify_impl env buf s p = through (λ st. Session.send_notify_impl send_data env buf st) s p

    -- `send_request`: the id, which the request's future keeps, and what the call gives.
    unfoldable pub send_request :
        Codec Object Bytes
        → Env
        → Object
        → Object
        → SessionHandle
        → Sessions Addr Tran Object
        → Option ((ℕ × Called) × Sessions Addr Tran Object)
    unfolding next_msgid send_request_impl msg_request
    send_request codec env method params s p = elim (next_msgid s p) [
      | none ↦ none
      | some (msgid, q) ↦
          let buf = codec.pack_request (msg_request method params msgid) in
          elim (send_request_impl env msgid buf s q) [
            | none ↦ none
            | some (called, r) ↦ some ((msgid, called), r)
          ]
    ]

    unfoldable pub send_notify :
        Codec Object Bytes
        → Env
        → Object
        → Object
        → SessionHandle
        → Sessions Addr Tran Object
        → Option (Option Failure × Sessions Addr Tran Object)
    unfolding send_notify_impl msg_notify
    send_notify codec env method params s p =
        send_notify_impl env (codec.pack_notify (msg_notify method params)) s p
