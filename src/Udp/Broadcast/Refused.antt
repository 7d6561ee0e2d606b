-- ===== src/Udp/Broadcast/Refused.antt =====
-- What set_broadcast of src/msgpack/rpc/transport/udp.h is good for: `new_socket::connect` sets the
-- option when the socket is connected already.
use msgpack_rpc_boost.Client.{client_built}
use msgpack_rpc_boost.Future.{SessionRef, new_future, is_ready}
use msgpack_rpc_boost.Future.Heap.{Heap}
use msgpack_rpc_boost.Prelude.{
  ◌≡◌, ◌≢◌, refl, ap, sym, subst, true, false, none, List, [], ◌∷◌, arith, All,
}
use msgpack_rpc_boost.Protocol.{Runtime, Codec, msg_request, msg_notify}
use msgpack_rpc_boost.Session.{
  step_timer_handler, register, send_request, send_request_impl, send_notify, send_notify_impl,
  next_msgid, get_address,
}
use msgpack_rpc_boost.Session.Invariant.{
  IsValid, Step-IsValid, register-IsValid, step_timer_handler-IsValid, create-Reach-IsValid,
}
use msgpack_rpc_boost.Session.Steps.{numbered, start, transport}
use msgpack_rpc_boost.Session.TimedOut.{
  TimedOut, TimedOut-same, TimedOut-then, TimedOut-allocate, TimedOut-step_timer_handler,
}
use msgpack_rpc_boost.Udp.Broadcast.{
  UdpBuilder, get_timeout, Options, no_options, Client, Os, new_socket, connect, build, write_data,
  send_data, Use, requests, notifies, second, use_session, use_all,
}

-- The operating system connects no socket to this address that has not the option for broadcast.
abbrev pub Refuses : {Addr Bytes Object : Type 0} → Os Addr Bytes Object → Addr → Type 0
Refuses os addr = (o : Options) → o.broadcast ≡ false → os.connects o addr ≢ 0

module _ {Addr Bytes Object : Type 0} (codec : Codec Object Bytes) ⦃rt : Runtime Object⦄
    (os : Os Addr Bytes Object) (addr : Addr) (on : os.running ≡ true)
    (refused : Refuses os addr) where
  -- A valid session whose socket is closed and has sent nothing.
  abbrev IsShut : Client Addr Bytes Object → Type 0
  IsShut s =
      (s.tran.options ≡ none)
      × (s.tran.reading ≡ false)
      × (s.tran.sent ≡ [])
      × (s.session.addr ≡ addr)
      × IsValid s

  abbrev Stays : Use Object → Client Addr Bytes Object → Type 0
  Stays u s =
      ((use_session codec os u s).0 ≡ none)
      × IsShut (use_session codec os u s).1
      × TimedOut rt s.heap (use_session codec os u s).1.heap

  -- Sending over the closed socket: it is closed again.
  abbrev shut_down : Client Addr Bytes Object → Client Addr Bytes Object
  shut_down s = record s { tran = record s.tran { options = none; reading = false } }

  send_data-shut :
      (buf : Bytes) (s : Client Addr Bytes Object)
      → s.tran.options ≡ none
      → s.session.addr ≡ addr
      → send_data os buf s ≡ (none, shut_down s)
  unfolding send_data connect write_data get_address
  send_data-shut buf s shut there =
      let no = refused no_options refl in ground (arith, on, shut, there, no)

  sent-IsShut :
      (buf : Bytes) (s : Client Addr Bytes Object) → IsShut s → IsShut (send_data os buf s).1
  sent-IsShut buf s (shut, deaf, quiet, there, v) =
      let sock = record s.tran { options = none; reading = false } in
      subst IsShut (sym (ap (λ x. x.1) (send_data-shut buf s shut there)))
        (refl, refl, quiet, there, Step-IsValid ⦃rt = rt⦄ (transport sock) v)

  use_session-Stays : (u : Use Object) (s : Client Addr Bytes Object) → IsShut s → Stays u s
  unfolding use_session send_request send_request_impl send_notify send_notify_impl register
      next_msgid new_future is_ready step_timer_handler
  use_session-Stays (requests method params) s (shut, deaf, quiet, there, v) =
      let n = record s { session = (next_msgid s.session).1 } in
      let id = s.session.msgid_rr in
      let t = (register id n).1 in
      let buf = codec.pack_request (msg_request method params id) in
      let e = send_data-shut buf t shut there in
      let valid = register-IsValid id n (Step-IsValid ⦃rt = rt⦄ numbered v) in
      let f = new_future id s.session.self s.session.timeout in
      (
        ground (arith, e),
        sent-IsShut buf t (shut, deaf, quiet, there, valid),
        subst (λ h. TimedOut rt s.heap h) (sym (ap (λ x. x.1.heap) e))
            (TimedOut-allocate s.heap f refl),
      )
  use_session-Stays (notifies method params) s (shut, deaf, quiet, there, v) =
      let buf = codec.pack_notify (msg_notify method params) in
      let e = send_data-shut buf s shut there in
      (
        ap (λ x. x.0) e,
        sent-IsShut buf s (shut, deaf, quiet, there, v),
        subst (λ h. TimedOut rt s.heap h) (sym (ap (λ x. x.1.heap) e)) (TimedOut-same s.heap),
      )
  use_session-Stays second s (shut, deaf, quiet, there, v) = (
    refl,
    (shut, deaf, quiet, there, step_timer_handler-IsValid false s v),
    TimedOut-step_timer_handler s v,
  )

  use_all-Stays :
      (us : List (Use Object)) (s : Client Addr Bytes Object)
      → IsShut s
      → All (λ failed. failed ≡ none) (use_all codec os us s).0
        × IsShut (use_all codec os us s).1
        × TimedOut rt s.heap (use_all codec os us s).1.heap
  unfolding use_all
  use_all-Stays [] s h = (tt, h, TimedOut-same s.heap)
  use_all-Stays (u ∷ us) s h =
      let (quiet, k, a) = use_session-Stays u s h in
      let t = (use_session codec os u s).1 in
      let (calm, l, b) = use_all-Stays us t k in
      ((quiet, calm), l, TimedOut-then s.heap t.heap (use_all codec os us t).1.heap a b)

  build-shut :
      (b : UdpBuilder)
      → ((build os b addr).options ≡ none)
        × ((build os b addr).reading ≡ false)
        × ((build os b addr).sent ≡ [])
  unfolding build connect new_socket
  build-shut b =
      let no = refused no_options refl in
      (ground (arith, no), ground (arith, no), ground (arith, no))

  -- Over an operating system that connects no socket to the address unless the socket has the
  -- option for broadcast, and a loop with workers: whatever the builder says, also that broadcast
  -- is wanted, and whatever requests and notifications are made and however often the timer goes
  -- round, nothing is ever sent and nothing thrown, the socket is closed in the end, and every future
  -- that is completed is completed with the timeout error.
  pub build-Refused :
      (b : UdpBuilder) (self : SessionRef) (h : Heap Object) (us : List (Use Object))
      → let s = client_built self h (build os b addr) (get_timeout b) addr in
        let (failures, t) = use_all codec os us s in
        (t.tran.sent ≡ [])
        × All (λ failed. failed ≡ none) failures
        × (t.tran.options ≡ none)
        × TimedOut rt h t.heap
  unfolding client_built
  build-Refused b self h us =
      let s = client_built self h (build os b addr) (get_timeout b) addr in
      let (shut, deaf, quiet) = build-shut b in
      let valid = create-Reach-IsValid self addr (build os b addr) (get_timeout b) h start in
      let (calm, (closed, _, none_sent, _, _), out) =
        use_all-Stays us s (shut, deaf, quiet, refl, valid) in
      (none_sent, calm, closed, out)
