-- ===== src/Udp.antt =====
-- src/msgpack/rpc/transport/udp.cc, with `dgram_handler::send_data` of dgram_handler.cc: the client's
-- socket, and the server's one socket. The operating system is `Network`: whether the loop has
-- workers, what a flush of the loop runs, and how a connect and a send end, 0 being no error.
pub mod Laws
pub mod Receiving
pub mod Peers
pub mod Reading
pub mod Deaf
pub mod Broadcast
use msgpack_rpc_boost.Prelude.{ℕ, Bool, true, false, Option, none, some, if◌then◌else◌, ◌==◌}
use msgpack_rpc_boost.Session.{State, Failure, system_failure}

pub record UdpSocket : Type 0 where
  pub is_open : Bool
  pub reading : Bool

abbrev pub Client : Type 0 → Type 0 → Type 0
Client Addr Object = State Addr UdpSocket Object

pub record Network (Addr Object : Type 0) : Type 0 where
  pub running : Bool
  pub flush : Client Addr Object → Client Addr Object
  pub connected : ℕ
  pub sent : ℕ

-- `client_socket::connect`, which closes the socket on an error and says nothing.
unfoldable pub connect : ℕ → UdpSocket → UdpSocket
connect err t =
    if err == 0
    then record { is_open = true; reading = true }
    else record { is_open = false; reading = false }

-- The constructor of the client's transport.
unfoldable pub client_transport : ℕ → UdpSocket
unfolding connect
client_transport err = connect err (record { is_open = false; reading = false })

module _ {Addr Object Bytes : Type 0} (net : Network Addr Object) where
  -- `dgram_handler::send_data`
  unfoldable pub write_data : Bytes → Client Addr Object → Option Failure × Client Addr Object
  write_data buf s =
      if s.tran.is_open then (if net.sent == 0 then none else some system_failure, s) else (none, s)

  -- `client_transport::send_data`; the two buffers are sent alike.
  unfoldable pub send_data : Bytes → Client Addr Object → Option Failure × Client Addr Object
  unfolding connect write_data
  send_data buf s =
      let t = if net.running then s else net.flush s in
      let u = if t.tran.is_open then t else record t { tran = connect net.connected t.tran } in
      write_data buf u

-- The server's transport: its socket and the endpoint that it is bound to.
pub record ServerTransport (Addr : Type 0) : Type 0 where
  pub reading : Bool
  pub local_endpoint : Addr

module _ {Addr : Type 0} where
  -- The constructor, with `server_socket::listen`.
  unfoldable pub server_transport : Addr → ServerTransport Addr
  server_transport lep = record { reading = true; local_endpoint = lep }

  unfoldable pub close : ServerTransport Addr → ServerTransport Addr
  close t = t

  -- It throws: `none` is a std::runtime_error.
  unfoldable pub get_connection_num : ServerTransport Addr → Option ℕ
  get_connection_num t = none

  unfoldable pub get_local_endpoint : ServerTransport Addr → Addr
  get_local_endpoint t = t.local_endpoint
