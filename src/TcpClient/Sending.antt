-- ===== src/TcpClient/Sending.antt =====
-- What becomes of a message that src/msgpack/rpc/transport/tcp.cc sends, connecting first if it must.
use msgpack_rpc_boost.Prelude.{
  ◌≡◌, ◌≢◌, ◌⊎◌, inl, inr, refl, true, false, Option, none, some, [], arith, ◌==◌, Bool-cases,
}
use msgpack_rpc_boost.Protocol.{Runtime}
use msgpack_rpc_boost.Session.{Failure, connect_failure}
use msgpack_rpc_boost.Session.Equations.{on_system_error_lem}
use msgpack_rpc_boost.TcpClient.{
  Client, Network, close, flush_idle, on_system_error, write_data, send_data,
}
use msgpack_rpc_boost.TcpClient.Laws.{Steady, connect_ends}

module _ {Addr Object : Type 0} ⦃rt : Runtime Object⦄ (net : Network Addr Object) where
  -- The socket is closed and no request waits.
  abbrev pub Cleared : Client Addr Object → Type 0
  Cleared t = (t.tran.is_open ≡ false) × (t.session.reqtable ≡ [])

  -- How a send ends: written, with the socket open; not written, which is not reported, but the
  -- requests are told; or not connected, which is reported too.
  abbrev pub Outcome : Option Failure → Client Addr Object → Type 0
  Outcome o t =
      ((o ≡ none) × (net.write ≡ 0) × (t.tran.is_open ≡ true))
      ⊎ (((o ≡ none) × (net.write ≢ 0) × Cleared t) ⊎ ((o ≡ some connect_failure) × Cleared t))

  write_data-Outcome :
      (s : Client Addr Object) → s.tran.is_open ≡ true → Outcome none (write_data net s)
  unfolding write_data on_system_error close
  write_data-Outcome s up = elim (Bool-cases (net.write == 0)) [
    | inl good ↦ inl (refl, ground arith, ground arith)
    | inr bad ↦ inr (
        inl (
          refl,
          ground arith,
          (ground (arith, on_system_error_lem s), ground (arith, on_system_error_lem s)),
        ))
  ]

  -- If a flush of the loop leaves the transport alone, sending comes to an end in one of three ways.
  -- The message was written and the socket is open; or the write failed, the call reports nothing,
  -- the socket is closed, and no request is left in the table; or no connection could be made, the
  -- call throws the connection error, the socket is closed, and no request is left in the table.
  pub send_data_ends :
      {Bytes : Type 0}
      → Steady net
      → (buf : Bytes) (s : Client Addr Object)
      → (o : Option Failure) × (t : Client Addr Object) × (send_data net buf s ≡ some (o, t))
        × Outcome o t
  unfolding send_data
  send_data_ends steady buf s =
      let t = flush_idle net s in
      elim (Bool-cases t.tran.is_open) [
        | inl up ↦ (none, write_data net t, ground arith, write_data-Outcome t up)
        | inr down ↦
            let (u, ends, _, _, _) = connect_ends net steady t in
            elim ends [
              | inl (e, up) ↦ (none, write_data net u, ground arith, write_data-Outcome u up.1)
              | inr (e, given) ↦
                  (some connect_failure, u, ground arith, inr (inr (refl, (given.2, given.3))))
            ]
      ]
