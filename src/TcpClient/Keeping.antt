-- ===== src/TcpClient/Keeping.antt =====
-- What attempts to connect in src/msgpack/rpc/transport/tcp.cc leave of the session, when the loop has
-- workers.
use msgpack_rpc_boost.Prelude.{
  ℕ, zero, suc, ◌+◌, ◌≡◌, ◌⊎◌, ◌∙◌, inl, inr, refl, true, false, not, ◌&&◌, Option, none, some,
  arith, ◌==◌, Bool-cases, Option-cases, if◌then◌else◌,
}
use msgpack_rpc_boost.Protocol.{Runtime}
use msgpack_rpc_boost.Session
use msgpack_rpc_boost.Session.{
  State, Failure, connect_failure, Called, future, threw, register, send_request_impl,
}
use msgpack_rpc_boost.Session.Equations.{on_connect_failed_lem}
use msgpack_rpc_boost.TcpClient.{
  ClientTransport, Client, Network, etimedout, may_retry, close, on_connect_success, on_connect,
  on_connect_failed, flush_idle, try_connect, connect,
}

module _ {Addr Object : Type 0} ⦃rt : Runtime Object⦄ (net : Network Addr Object)
    (on : net.running ≡ true) where
  -- What attempts to connect leave of the session: all of it, with the socket open, or what the session
  -- makes of a connection that failed, with the socket closed.
  abbrev Kept : Client Addr Object → Client Addr Object → Type 0
  Kept s t =
      ((sock : ClientTransport) × (t ≡ record s { tran = sock }) × (sock.is_open ≡ true))
      ⊎ ((sock : ClientTransport) × (t ≡ Session.on_connect_failed (record s { tran = sock }))
          × (sock.is_open ≡ false))

  abbrev tried : Client Addr Object → Client Addr Object
  tried s = record s { tran = record s.tran { connecting = s.tran.connecting + 1; is_open = true } }

  try_connect-Kept :
      (fuel : ℕ) (s t : Client Addr Object) → try_connect net fuel s ≡ some t → Kept s t
  unfolding try_connect on_connect on_connect_failed on_connect_success close flush_idle
  try_connect-Kept zero s t e = cc
  try_connect-Kept (suc fuel) s t e =
      let n = s.tran.connecting + 1 in
      elim (Bool-cases (net.attempt n == 0)) [
        | inl good ↦ inl (on_connect_success (tried s).tran, ground (arith, on, e, good), refl)
        | inr bad ↦
            elim (Bool-cases (not (net.attempt n == etimedout) && may_retry (tried s).tran)) [
              | inl again ↦ try_connect-Kept fuel (tried s) t (ground (arith, on, e, bad, again))
              | inr last ↦ inr (
                close (record (tried s).tran { timer = false }),
                ground (arith, on, e, bad, last),
                refl,
              )
            ]
      ]

  -- `connect` throws exactly when the session was told.
  pub connect-Kept :
      (s t : Client Addr Object) (o : Option Failure)
      → connect net s ≡ some (o, t)
      → ((o ≡ none)
          × ((sock : ClientTransport) × (t ≡ record s { tran = sock }) × (sock.is_open ≡ true)))
        ⊎ ((o ≡ some connect_failure)
            × ((sock : ClientTransport) × (t ≡ Session.on_connect_failed (record s { tran = sock }))
                × (sock.is_open ≡ false)))
  unfolding connect
  connect-Kept s t o e =
      let s0 = record s { tran = record s.tran { timer = true; connecting = 0 } } in
      elim (Option-cases (try_connect net (s.tran.reconnect_limit + 1) s0)) [
        | inl stuck ↦ absurd (ground (arith, e, stuck))
        | inr (u, ends) ↦
            let left : t ≡ u = ground (arith, e, ends) in
            let thrown : o ≡ (if u.tran.is_open then none else some connect_failure) =
              ground (arith, e, ends) in
            elim (try_connect-Kept (s.tran.reconnect_limit + 1) s0 u ends) [
              | inl (sock, f, up) ↦ inl (ground (arith, thrown, f, up), (sock, left ∙ f, up))
              | inr (sock, f, down) ↦
                  let closed : u.tran.is_open ≡ false =
                    ground (arith, f, down, on_connect_failed_lem (record s { tran = sock })) in
                  inr (ground (arith, thrown, closed), (sock, left ∙ f, down))
            ]
      ]
