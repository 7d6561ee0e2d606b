-- ===== src/TcpClient/Reliable.antt =====
-- The client side of src/msgpack/rpc/transport/tcp.cc where a flush of the loop finds nothing to run:
-- sending over a connection that is made and written to without an error, and one that is refused.
use msgpack_rpc_boost.Prelude.{
  ℕ, ◌≡◌, ◌≢◌, inl, inr, refl, true, false, none, some, Bool-cases, arith,
}
use msgpack_rpc_boost.Protocol.{Runtime}
use msgpack_rpc_boost.Session.{connect_failure}
use msgpack_rpc_boost.TcpClient.{
  ClientTransport, Client, Network, on_connect_success, on_connect, flush_idle, try_connect,
  connect, write_data, send_data,
}
use msgpack_rpc_boost.TcpClient.Laws.{connect_ends}

module _ {Addr Object : Type 0} ⦃rt : Runtime Object⦄ (net : Network Addr Object)
    -- The flush changes nothing.
    (quiet : (s : Client Addr Object) → net.flush s ≡ s) where
  flush_idle-quiet : (s : Client Addr Object) → flush_idle net s ≡ s
  unfolding flush_idle
  flush_idle-quiet s = ground (arith, quiet s)

  connect-first :
      (s : Client Addr Object)
      → net.attempt 1 ≡ 0
      → (sock : ClientTransport) × (connect net s ≡ some (none, record s { tran = sock }))
        × (sock.is_open ≡ true)
  unfolding connect try_connect on_connect on_connect_success
  connect-first s good =
      let armed = record s { tran = record s.tran { timer = true; connecting = 0 } } in
      let up = record armed.tran {
        connecting = 1;
        is_open = true;
        timer = false;
        reading = true;
      } in
      (up, ground (arith, good, flush_idle-quiet armed), refl)

  -- The message is sent, and the session is as it was.
  pub send_data-sent :
      {Bytes : Type 0} (buf : Bytes) (s : Client Addr Object)
      → net.attempt 1 ≡ 0
      → net.write ≡ 0
      → (sock : ClientTransport) × (send_data net buf s ≡ some (none, record s { tran = sock }))
        × (sock.is_open ≡ true)
  unfolding send_data write_data
  send_data-sent buf s good written = elim (Bool-cases s.tran.is_open) [
    | inl up ↦ (s.tran, ground (arith, flush_idle-quiet s), up)
    | inr down ↦
        let (sock, e, up) = connect-first s good in
        (sock, ground (arith, flush_idle-quiet s, e), up)
  ]

  -- No attempt succeeds, and the call throws.
  pub send_data-refused :
      {Bytes : Type 0} (buf : Bytes) (s : Client Addr Object)
      → ((n : ℕ) → net.attempt n ≢ 0)
      → s.tran.is_open ≡ false
      → (t : Client Addr Object) × (send_data net buf s ≡ some (some connect_failure, t))
  unfolding send_data
  send_data-refused buf s refused down =
      let (t, ends, _, _, _) = connect_ends net (λ u. ground (arith, quiet u)) s in
      elim ends [
        | inl (e, up) ↦ absurd (refused t.tran.connecting up.0)
        | inr (e, given) ↦ (t, ground (arith, flush_idle-quiet s, e))
      ]
