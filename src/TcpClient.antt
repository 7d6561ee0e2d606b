-- ===== src/TcpClient.antt =====
-- src/msgpack/rpc/transport/tcp.cc, the client side, with `stream_handler::send_data` of
-- stream_handler.cc: connecting with retries, sending, and what an error does. The operating system
-- is `Network`: whether the loop has workers, what a flush of the loop runs, how the n-th attempt to
-- connect ends, how the write ends. An error code is a number, 0 for none. A socket is open after an
-- attempt to connect, also a failed one, as Boost.Asio documents for `connect`.
pub mod Laws
pub mod Sending
pub mod Keeping
pub mod Requests
pub mod Reliable
pub mod Calls
pub mod Threads
pub mod Windows
use msgpack_rpc_boost.Prelude.{
  ℕ, zero, suc, ◌+◌, ◌^◌, Bool, true, false, not, ◌&&◌, Option, none, some, List, [], if◌then◌else◌,
  ltb, ◌==◌,
}
use msgpack_rpc_boost.Protocol.{Runtime}
use msgpack_rpc_boost.Session
use msgpack_rpc_boost.Session.{State, Failure, connect_failure}

-- ETIMEDOUT
abbrev pub etimedout : ℕ
etimedout = 110

-- `reconnect_limit` is the pattern of an int; `timer` says that a wait of the timer is pending.
pub record ClientTransport : Type 0 where
  pub is_open : Bool
  pub reading : Bool
  pub timer : Bool
  pub connecting : ℕ
  pub connect_timeout : ℕ
  pub reconnect_limit : ℕ

abbrev pub Client : Type 0 → Type 0 → Type 0
Client Addr Object = State Addr ClientTransport Object

pub record Network (Addr Object : Type 0) : Type 0 where
  pub running : Bool
  pub flush : Client Addr Object → Client Addr Object
  pub attempt : ℕ → ℕ
  pub write : ℕ

-- tcp_builder, with its defaults, and the constructor of the transport.
pub record TcpBuilder : Type 0 where
  pub connect_timeout : ℕ
  pub reconnect_limit : ℕ

unfoldable pub tcp_builder : TcpBuilder
tcp_builder = record { connect_timeout = 10; reconnect_limit = 3 }

unfoldable pub client_transport : TcpBuilder → ClientTransport
client_transport b = record {
  is_open = false;
  reading = false;
  timer = false;
  connecting = 0;
  connect_timeout = b.connect_timeout;
  reconnect_limit = b.reconnect_limit;
}

-- `m_connecting < m_reconnect_limit`, between ints: a limit from 2 ^ 31 on is negative.
unfoldable pub may_retry : ClientTransport → Bool
may_retry t = ltb t.connecting t.reconnect_limit && ltb t.reconnect_limit (2 ^ 31)

unfoldable pub close : ClientTransport → ClientTransport
close t = record t { is_open = false; reading = false }

unfoldable pub on_connect_success : ClientTransport → ClientTransport
on_connect_success t = record t { timer = false; reading = true }

module _ {Addr Object : Type 0} ⦃rt : Runtime Object⦄ where
  -- `retry` is the call of `try_connect`; `none` means that the fuel ran out.
  unfoldable pub on_connect_failed :
      (Client Addr Object → Option (Client Addr Object))
      → ℕ
      → Client Addr Object
      → Option (Client Addr Object)
  unfolding may_retry close
  on_connect_failed retry err s =
      if not (err == etimedout) && may_retry s.tran
      then retry s
      else some
          (Session.on_connect_failed (record s { tran = close (record s.tran { timer = false }) }))

  unfoldable pub on_connect :
      (Client Addr Object → Option (Client Addr Object))
      → ℕ
      → Client Addr Object
      → Option (Client Addr Object)
  unfolding on_connect_failed on_connect_success
  on_connect retry err s =
      if err == 0
      then some (record s { tran = on_connect_success s.tran })
      else on_connect_failed retry err s

  unfoldable pub on_timeout : Bool → Client Addr Object → Option (Client Addr Object)
  unfolding on_connect_failed
  on_timeout expired s =
      if s.tran.is_open
      then some s
      else if expired
      then on_connect_failed (λ t. none) etimedout s
      else some s

  module _ (net : Network Addr Object) where
    -- `if (!is_running()) flush()`
    unfoldable pub flush_idle : Client Addr Object → Client Addr Object
    flush_idle s = if net.running then s else net.flush s

    unfoldable pub try_connect : ℕ → Client Addr Object → Option (Client Addr Object)
    unfolding flush_idle on_connect
    try_connect zero s = none
    try_connect (suc fuel) s =
        let t = flush_idle s in
        let n = t.tran.connecting + 1 in
        on_connect (try_connect fuel) (net.attempt n)
          (record t { tran = record t.tran { connecting = n; is_open = true } })

    -- The client, and the exception, if `connect` throws.
    unfoldable pub connect : Client Addr Object → Option (Option Failure × Client Addr Object)
    unfolding try_connect
    connect s =
        let t = record s { tran = record s.tran { timer = true; connecting = 0 } } in
        elim (try_connect (s.tran.reconnect_limit + 1) t) [
          | none ↦ none
          | some u ↦ some (if u.tran.is_open then none else some connect_failure, u)
        ]

    -- `client_socket::on_system_error`, while the session lives.
    unfoldable pub on_system_error : Client Addr Object → Client Addr Object
    unfolding close
    on_system_error s =
        let t = Session.on_system_error s in
        if t.tran.is_open then record t { tran = close t.tran } else t

    -- `stream_handler::send_data`
    unfoldable pub write_data : Client Addr Object → Client Addr Object
    unfolding on_system_error
    write_data s = if s.tran.is_open then (if net.write == 0 then s else on_system_error s) else s

    -- The two buffers are sent alike.
    unfoldable pub send_data :
        {Bytes : Type 0} → Bytes → Client Addr Object → Option (Option Failure × Client Addr Object)
    unfolding flush_idle connect write_data
    send_data buf s =
        let t = flush_idle s in
        if t.tran.is_open then some (none, write_data t) else elim (connect t) [
          | none ↦ none
          | some (some e, u) ↦ some (some e, u)
          | some (none, u) ↦ some (none, write_data u)
        ]
