-- ===== src/Udp/Deaf.antt =====
-- A client's socket of src/msgpack/rpc/transport/udp.cc after a read that failed: dgram_handler.cc starts
-- no other read, and the socket stays open, so that `client_transport::send_data` does not connect it
-- again.
use msgpack_rpc_boost.Future.{new_future, is_ready}
use msgpack_rpc_boost.Prelude.{
  ℕ, ◌≡◌, ◌≢◌, inl, inr, refl, subst, Bool, true, false, some, List, [], ◌∷◌, arith, Bool-cases,
}
use msgpack_rpc_boost.Protocol.{Runtime, Codec}
use msgpack_rpc_boost.Session.{
  step_timer_handler, register, send_request, send_request_impl, send_notify, send_notify_impl,
  next_msgid,
}
use msgpack_rpc_boost.Session.Invariant.{
  IsValid, Step-IsValid, register-IsValid, step_timer_handler-IsValid,
}
use msgpack_rpc_boost.Session.Steps.{numbered, transport}
use msgpack_rpc_boost.Stream.Reading.{Unpacker, on_datagram}
use msgpack_rpc_boost.Udp.{send_data, write_data}
use msgpack_rpc_boost.Udp.Reading.{
  Connection, Use, requests, notifies, receives, second, receive, use_socket, use_all,
}
use msgpack_rpc_boost.Session.TimedOut.{
  TimedOut, TimedOut-same, TimedOut-then, TimedOut-allocate, step_timer_handler-tran,
  TimedOut-step_timer_handler,
}

module _ {Addr Object Bytes Pac : Type 0} (codec : Codec Object Bytes) ⦃rt : Runtime Object⦄
    (alive : Bool) (up : Unpacker Object Bytes Pac) where
  -- An open socket that is not read from, of a valid session.
  abbrev IsDeaf : Connection Addr Object Pac → Type 0
  IsDeaf c = (c.client.tran.is_open ≡ true) × (c.client.tran.reading ≡ false) × IsValid c.client

  -- What a use must come to.
  abbrev Stays : Use Object Bytes → Connection Addr Object Pac → Type 0
  Stays u c =
      (d : Connection Addr Object Pac) × (use_socket codec alive up u c ≡ some d)
      × IsDeaf d
      × TimedOut rt c.client.heap d.client.heap

  requests-Stays :
      (connected sent : ℕ) (method params : Object) (c : Connection Addr Object Pac)
      → IsDeaf c
      → Stays (requests connected sent method params) c
  unfolding use_socket send_request send_request_impl send_data write_data register new_future
      is_ready next_msgid
  requests-Stays connected sent method params c (up, deaf, v) =
      let s = record c.client { session = (next_msgid c.client.session).1 } in
      let id = c.client.session.msgid_rr in
      let t = (register id s).1 in
      (
        record c { client = t },
        ground (arith, up),
        (up, deaf, register-IsValid id s (Step-IsValid ⦃rt = rt⦄ numbered v)),
        TimedOut-allocate c.client.heap
            (new_future id c.client.session.self c.client.session.timeout) refl,
      )

  notifies-Stays :
      (connected sent : ℕ) (method params : Object) (c : Connection Addr Object Pac)
      → IsDeaf c
      → Stays (notifies connected sent method params) c
  unfolding use_socket send_notify send_notify_impl send_data write_data
  notifies-Stays connected sent method params c (up, deaf, v) =
      (c, ground (arith, up), (up, deaf, v), TimedOut-same c.client.heap)

  use_socket-Stays : (u : Use Object Bytes) (c : Connection Addr Object Pac) → IsDeaf c → Stays u c
  unfolding use_socket receive
  use_socket-Stays (requests connected sent method params) c h =
      requests-Stays connected sent method params c h
  use_socket-Stays (notifies connected sent method params) c h =
      notifies-Stays connected sent method params c h
  use_socket-Stays (receives err buf) c (up, deaf, v) =
      (c, ground (arith, deaf), (up, deaf, v), TimedOut-same c.client.heap)
  use_socket-Stays second c (up, deaf, v) =
      let same = step_timer_handler-tran c.client in
      (
        record c { client = step_timer_handler false c.client },
        refl,
        (
          ground (arith, same, up),
          ground (arith, same, deaf),
          step_timer_handler-IsValid false c.client v,
        ),
        TimedOut-step_timer_handler c.client v,
      )

  use_all-Stays :
      (us : List (Use Object Bytes)) (c : Connection Addr Object Pac)
      → IsDeaf c
      → (d : Connection Addr Object Pac) × (use_all codec alive up us c ≡ some d)
        × IsDeaf d
        × TimedOut rt c.client.heap d.client.heap
  unfolding use_all
  use_all-Stays [] c h = (c, refl, h, TimedOut-same c.client.heap)
  use_all-Stays (u ∷ us) c h =
      let (d, e, k, a) = use_socket-Stays u c h in
      let (l, f, m, b) = use_all-Stays us d k in
      (l, ground (arith, e, f), m, TimedOut-then c.client.heap d.client.heap l.client.heap a b)

  -- A read that fails leaves the socket so.
  failed_read :
      (err : ℕ) (buf : Bytes) (c : Connection Addr Object Pac)
      → err ≢ 0
      → c.client.tran.is_open ≡ true
      → IsValid c.client
      → (d : Connection Addr Object Pac) × (receive codec alive up err buf c ≡ some d)
        × IsDeaf d
        × (d.client.heap ≡ c.client.heap)
  unfolding receive on_datagram
  failed_read err buf c bad up_ v = elim (Bool-cases c.client.tran.reading) [
    | inl reads ↦
        let sock = record c.client.tran { reading = false } in
        (
          record {
            client = record c.client { tran = sock };
            pac = up.remove_nonparsed_buffer c.pac;
          },
          ground (arith, reads, bad),
          (up_, refl, Step-IsValid ⦃rt = rt⦄ (transport sock) v),
          refl,
        )
    | inr deaf ↦ (c, ground (arith, deaf), (up_, deaf, v), refl)
  ]

  -- After a read of a client's datagram socket that failed, the socket is never read again, whatever
  -- requests and notifications are sent over it, whatever the network delivers, and however often the
  -- timer goes round: every future of a request that is completed from then on is completed with the
  -- timeout error.
  pub read_error-TimedOut :
      (err : ℕ) (buf : Bytes) (us : List (Use Object Bytes)) (c : Connection Addr Object Pac)
      → err ≢ 0
      → c.client.tran.is_open ≡ true
      → IsValid c.client
      → (d : Connection Addr Object Pac) × (use_all codec alive up (receives err buf ∷ us) c
          ≡ some d)
        × (d.client.tran.is_open ≡ true)
        × (d.client.tran.reading ≡ false)
        × TimedOut rt c.client.heap d.client.heap
  unfolding use_all use_socket
  read_error-TimedOut err buf us c bad up_ v =
      let (d, e, deaf, same) = failed_read err buf c bad up_ v in
      let (l, f, (still_up, still_deaf, _), out) = use_all-Stays us d deaf in
      (
        l,
        ground (arith, e, f),
        still_up,
        still_deaf,
        subst (λ h. TimedOut rt h l.client.heap) same out,
      )
