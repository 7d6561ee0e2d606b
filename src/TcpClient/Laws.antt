-- ===== src/TcpClient/Laws.antt =====
-- How the attempts to connect of src/msgpack/rpc/transport/tcp.cc end.
use msgpack_rpc_boost.Prelude.{
  ℕ, zero, suc, ◌+◌, ◌≤◌, ◌<◌, ◌≡◌, ◌≢◌, ◌⊎◌, inl, inr, ◌∙◌, refl, ap, ◌&&◌, true, false, not,
  Option, none, some, [], arith, ◌==◌, Bool-cases,
}
use msgpack_rpc_boost.Protocol.{Runtime}
use msgpack_rpc_boost.Session
use msgpack_rpc_boost.Session.{State, Failure, connect_failure}
use msgpack_rpc_boost.Session.Equations.{on_connect_failed_lem}
use msgpack_rpc_boost.TcpClient.{
  ClientTransport, Client, Network, etimedout, may_retry, close, on_connect_success, on_connect,
  flush_idle, try_connect, connect,
}

module _ {Addr Object : Type 0} ⦃rt : Runtime Object⦄ (net : Network Addr Object) where
  -- How a series of attempts ends: the last attempt made is the `connecting`-th. It succeeded, and
  -- the socket is open and read from; or it failed and was not to be followed by another, and the
  -- socket is closed and no request is left waiting.
  abbrev pub Connected : Client Addr Object → Type 0
  Connected t =
      (net.attempt t.tran.connecting ≡ 0) × (t.tran.is_open ≡ true) × (t.tran.reading ≡ true)

  abbrev pub GivenUp : Client Addr Object → Type 0
  GivenUp t =
      (net.attempt t.tran.connecting ≢ 0)
      × ((net.attempt t.tran.connecting ≡ etimedout) ⊎ (may_retry t.tran ≡ false))
      × (t.tran.is_open ≡ false)
      × (t.session.reqtable ≡ [])

  -- A flush of the loop leaves the transport alone.
  abbrev pub Steady : Type 0
  Steady = (s : Client Addr Object) → (net.flush s).tran ≡ s.tran

  -- What the attempts from `s` on must come to.
  pub record Ends (s t : Client Addr Object) : Type 0 where
    pub outcome : Connected t ⊎ GivenUp t
    pub more : s.tran.connecting < t.tran.connecting
    pub few :
        (t.tran.connecting ≤ s.tran.connecting + 1) ⊎ (t.tran.connecting ≤ s.tran.reconnect_limit)
    pub limit : t.tran.reconnect_limit ≡ s.tran.reconnect_limit
    pub unarmed : t.tran.timer ≡ false

  flush_idle-tran : Steady → (s : Client Addr Object) → (flush_idle net s).tran ≡ s.tran
  unfolding flush_idle
  flush_idle-tran steady s = ground (arith, steady s)

  -- The state in which the next attempt finds its result.
  abbrev attempted : Client Addr Object → Client Addr Object
  attempted s =
      let t = flush_idle net s in
      record t { tran = record t.tran { connecting = t.tran.connecting + 1; is_open = true } }

  attempted-tran :
      Steady
      → (s : Client Addr Object)
      → ((attempted s).tran.connecting ≡ s.tran.connecting + 1)
        × ((attempted s).tran.reconnect_limit ≡ s.tran.reconnect_limit)
  attempted-tran steady s =
      let e = flush_idle-tran steady s in
      (
        ap (λ (t : ClientTransport). t.connecting + 1) e,
        ap (λ (t : ClientTransport). t.reconnect_limit) e,
      )

  -- The state that is left when no further attempt is made.
  abbrev over : Client Addr Object → Client Addr Object
  over u = Session.on_connect_failed (record u { tran = close (record u.tran { timer = false }) })

  over-GivenUp :
      (u : Client Addr Object)
      → ((net.attempt u.tran.connecting == 0) ≡ false)
      → (not (net.attempt u.tran.connecting == etimedout) && may_retry u.tran) ≡ false
      → GivenUp (over u)
        × ((over u).tran.connecting ≡ u.tran.connecting)
        × ((over u).tran.reconnect_limit ≡ u.tran.reconnect_limit)
        × ((over u).tran.timer ≡ false)
  unfolding close may_retry
  over-GivenUp u bad last =
      rw (on_connect_failed_lem (record u { tran = close (record u.tran { timer = false }) }))
        (ground arith)

  module _ (retry : Client Addr Object → Option (Client Addr Object)) (err : ℕ)
      (u : Client Addr Object) where
    on_connect-ok :
        (err == 0) ≡ true
        → on_connect retry err u ≡ some (record u { tran = on_connect_success u.tran })
    unfolding on_connect
    on_connect-ok h = rw (on_connect, h)

    on_connect-over :
        (err == 0) ≡ false
        → (not (err == etimedout) && may_retry u.tran) ≡ false
        → on_connect retry err u ≡ some (over u)
    unfolding on_connect
    on_connect-over h k = rw (on_connect, h, k)

    on_connect-again :
        (err == 0) ≡ false
        → (not (err == etimedout) && may_retry u.tran) ≡ true
        → on_connect retry err u ≡ retry u
    unfolding on_connect
    on_connect-again h k = rw (on_connect, h, k)

  may_retry-lt : (t : ClientTransport) → may_retry t ≡ true → t.connecting < t.reconnect_limit
  unfolding may_retry
  may_retry-lt t h = ground arith

  try_connect-Ends :
      Steady
      → (fuel : ℕ) (s : Client Addr Object) → s.tran.reconnect_limit + 1 ≤ fuel + s.tran.connecting
      → 1 ≤ fuel
      → (t : Client Addr Object) × (try_connect net fuel s ≡ some t) × Ends s t
  unfolding try_connect
  try_connect-Ends steady zero s h one = absurd (omega arith)
  try_connect-Ends steady (suc fuel) s h one =
      let u = attempted s in
      let err = net.attempt u.tran.connecting in
      let retry = try_connect net fuel in
      let (count, limit) = attempted-tran steady s in
      elim (Bool-cases (err == 0)) [
        | inl good ↦ (
          record u { tran = on_connect_success u.tran },
          on_connect-ok retry err u good,
          unfold on_connect_success in
              record {
                outcome = inl (ground arith, refl, refl);
                more = omega arith;
                few = inl (omega arith);
                limit = limit;
                unarmed = refl;
              },
        )
        | inr bad ↦ elim (Bool-cases (not (err == etimedout) && may_retry u.tran)) [
          | inr last ↦
              let (given, same, kept, off) = over-GivenUp u bad last in
              (
                over u,
                on_connect-over retry err u bad last,
                record {
                  outcome = inr given;
                  more = omega arith;
                  few = inl (omega arith);
                  limit = kept ∙ limit;
                  unarmed = off;
                },
              )
          | inl again ↦
              let lt = may_retry-lt u.tran (ground arith) in
              let (t, e, ends) = try_connect-Ends steady fuel u (omega arith) (omega arith) in
              (
                t,
                on_connect-again retry err u bad again ∙ e,
                record {
                  outcome = ends.outcome;
                  more = omega (arith, ends.more);
                  few = inr (omega (arith, ends.few));
                  limit = ends.limit ∙ limit;
                  unarmed = ends.unarmed;
                },
              )
        ]
      ]

  -- `connect` comes to an end (the fuel of one attempt more than the limit is enough), after at
  -- least one attempt and at most as many as the limit, or one if the limit is 0. Either it returns:
  -- the last attempt succeeded, and the socket is open and read from. Or it throws the connection
  -- error: the last attempt failed, and timed out or was the last one allowed; the socket is closed,
  -- and no request is left in the table.
  pub connect_ends :
      Steady
      → (s : Client Addr Object)
      → (t : Client Addr Object) × (((connect net s ≡ some (none, t)) × Connected t)
          ⊎ ((connect net s ≡ some (some connect_failure, t)) × GivenUp t))
        × (1 ≤ t.tran.connecting)
        × ((t.tran.connecting ≤ 1) ⊎ (t.tran.connecting ≤ s.tran.reconnect_limit))
        × (t.tran.timer ≡ false)
  unfolding connect
  connect_ends steady s =
      let armed = record s { tran = record s.tran { timer = true; connecting = 0 } } in
      let (t, e, ends) =
        try_connect-Ends steady (s.tran.reconnect_limit + 1) armed (omega arith) (omega arith) in
      (
        t,
        elim ends.outcome [
          | inl up ↦ inl (rw (connect, e, up.1) refl, up)
          | inr down ↦ inr (rw (connect, e, down.2) refl, down)
        ],
        omega (arith, ends.more),
        elim ends.few [ inl a ↦ inl (omega arith) | inr b ↦ inr b ],
        ends.unarmed,
      )
