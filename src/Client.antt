-- ===== src/Client.antt =====
-- src/msgpack/rpc/client.cc: a client is a session that is created for an address. The session's number,
-- the builder's timeout and the futures of the program are arguments, as is what the resolver gives;
-- `none` is the exception of an address that cannot be made.
use msgpack_rpc_boost.Address.{Address, IpAddress, Text, resolve, address_of_string}
use msgpack_rpc_boost.Future.{SessionRef}
use msgpack_rpc_boost.Future.Heap.{Heap}
use msgpack_rpc_boost.Prelude.{ℕ, Option, none, some, List}
use msgpack_rpc_boost.Session.{State, create}
use msgpack_rpc_boost.TcpClient
use msgpack_rpc_boost.TcpClient.{tcp_builder, client_transport}

-- The timeout that a builder has by default.
abbrev pub builder_timeout : ℕ
builder_timeout = 30

module _ {Addr Object : Type 0} (self : SessionRef) (h : Heap Object) where
  -- With a builder: the transport that it makes, and its timeout.
  unfoldable pub client_built : {Tran : Type 0} → Tran → ℕ → Addr → State Addr Tran Object
  unfolding create
  client_built tran timeout addr = create self addr tran timeout h

  unfoldable pub client : Addr → TcpClient.Client Addr Object
  unfolding create client_transport tcp_builder
  client addr = create self addr (client_transport tcp_builder) builder_timeout h

  abbrev pub client_made : Option Addr → Option (TcpClient.Client Addr Object)
  client_made none = none
  client_made (some a) = some (client a)

module _ {Ip Object : Type 0} ⦃ip : IpAddress Ip⦄ (self : SessionRef) (h : Heap Object) where
  -- For a host and a port, which the resolver has looked up.
  unfoldable pub client_at : List (Address Ip) → Option (TcpClient.Client (Address Ip) Object)
  unfolding resolve client
  client_at endpoints = client_made self h (resolve endpoints)

  unfoldable pub client_named :
      (Text → Text → List (Address Ip)) → Text → Option (TcpClient.Client (Address Ip) Object)
  unfolding address_of_string client
  client_named resolver addr = client_made self h (address_of_string resolver addr)
