-- ===== src/TcpServer.antt =====
-- src/msgpack/rpc/transport/tcp.cc, the server side, with `stream_handler::stop` of
-- stream_handler.cc: the acceptor and the set of connections. Sockets are numbered as they are made,
-- and `sockets` has their states; the socket that waits for a client is `conn`.
pub mod Laws
pub mod Writing
pub mod Serving
use msgpack_rpc_boost.Prelude.{
  ℕ, zero, suc, Bool, true, false, ◌||◌, Option, none, some, List, [], ◌∷◌, ◌++◌, if◌then◌else◌,
  ◌==◌, length, set, not,
}

abbrev pub SocketRef : Type 0
SocketRef = ℕ

-- `cut_off` is a socket that is open although its peer is gone: it has no remote endpoint any more.
pub data Status : Type 0 where
  closed connected cut_off : Status

pub record ServerTransport (Addr : Type 0) : Type 0 where
  pub accepting : Bool
  pub conn : Option SocketRef
  pub connections : List SocketRef
  pub sockets : List Status
  pub local_endpoint : Addr

abbrev pub contains : SocketRef → List SocketRef → Bool
contains r [] = false
contains r (q ∷ qs) = (q == r) || contains r qs

-- `std::set::erase` and `insert`
unfoldable pub erase : SocketRef → List SocketRef → List SocketRef
erase r [] = []
erase r (q ∷ qs) = if q == r then erase r qs else q ∷ erase r qs

unfoldable pub insert : SocketRef → List SocketRef → List SocketRef
insert r qs = if contains r qs then qs else r ∷ qs

abbrev pub change : (Status → Status) → SocketRef → List Status → List Status
change f r [] = []
change f zero (x ∷ xs) = f x ∷ xs
change f (suc r) (x ∷ xs) = x ∷ change f r xs

-- A socket that is not open is left alone, and so is one whose `remote_endpoint()` throws ENOTCONN.
abbrev pub stopped : Status → Status
stopped closed = closed
stopped connected = closed
stopped cut_off = cut_off

unfoldable pub stop : SocketRef → List Status → List Status
stop r sockets = change stopped r sockets

unfoldable pub stop_all : List SocketRef → List Status → List Status
unfolding stop
stop_all [] sockets = sockets
stop_all (r ∷ rs) sockets = stop_all rs (stop r sockets)

module _ {Addr : Type 0} where
  -- `new server_socket(...)`, which waits for a client.
  unfoldable pub start_accept : ServerTransport Addr → ServerTransport Addr
  start_accept t = record t { conn = some (length t.sockets); sockets = t.sockets ++ closed ∷ [] }

  -- The constructor: the acceptor is bound and listens.
  unfoldable pub server_transport : Addr → ServerTransport Addr
  unfolding start_accept
  server_transport lep = start_accept (record {
    accepting = true;
    conn = none;
    connections = [];
    sockets = [];
    local_endpoint = lep;
  })

  -- `none` is a use of the null pointer that `close` leaves.
  unfoldable pub on_accept : Bool → ServerTransport Addr → Option (ServerTransport Addr)
  unfolding start_accept insert
  on_accept failed t = if failed then some (start_accept t) else elim t.conn [
    | none ↦ none
    | some c ↦ some (
        start_accept
          (record t { connections = insert c t.connections; sockets = set t.sockets c connected }))
  ]

  unfoldable pub on_system_error : SocketRef → ServerTransport Addr → ServerTransport Addr
  unfolding erase stop
  on_system_error conn t = record t {
    connections = erase conn t.connections;
    sockets = stop conn t.sockets;
  }

  unfoldable pub close : ServerTransport Addr → ServerTransport Addr
  unfolding stop_all
  close t = record t {
    accepting = false;
    conn = none;
    connections = [];
    sockets = stop_all t.connections t.sockets;
  }

  unfoldable pub get_connection_num : ServerTransport Addr → ℕ
  get_connection_num t = length t.connections

  unfoldable pub get_local_endpoint : ServerTransport Addr → Addr
  get_local_endpoint t = t.local_endpoint
