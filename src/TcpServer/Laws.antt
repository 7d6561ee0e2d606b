-- ===== src/TcpServer/Laws.antt =====
-- What the connections of src/msgpack/rpc/transport/tcp.cc have to do with the sockets, and what is left when
-- the server is closed.
use msgpack_rpc_boost.Prelude.{
  zero, suc, ◌<◌, ◌≡◌, Bool, true, false, Option, none, some, List, [], ◌∷◌, length,
}
use msgpack_rpc_boost.TcpServer.{
  ServerTransport, SocketRef, Status, closed, connected, cut_off, change, contains, on_accept,
  on_system_error,
}

-- What can happen to a listening server; `lost_peer` is a reset by the peer of a connection.
pub data Event : Type 0 where
  accepted : Event
  refused : Event
  lost_peer : SocketRef → Event
  broke : SocketRef → Event

abbrev pub status : List Status → SocketRef → Status
status [] r = closed
status (x ∷ xs) zero = x
status (x ∷ xs) (suc r) = status xs r

abbrev pub is_connected : Status → Bool
is_connected connected = true
is_connected _ = false

abbrev pub is_open : Status → Bool
is_open closed = false
is_open _ = true

abbrev reset : Status → Status
reset closed = closed
reset connected = cut_off
reset cut_off = cut_off

module _ {Addr : Type 0} where
  -- A connected socket is managed, a managed one is open, and the socket that waits is there.
  pub record IsManaged (t : ServerTransport Addr) : Type 0 where
    pub managed :
        (r : SocketRef) → is_connected (status t.sockets r) ≡ true → contains r t.connections ≡ true
    pub opened :
        (r : SocketRef) → contains r t.connections ≡ true → is_open (status t.sockets r) ≡ true
    pub waiting : (c : SocketRef) × (t.conn ≡ some c) × (c < length t.sockets)

  -- A step of a server that listens.
  pub react : Event → ServerTransport Addr → Option (ServerTransport Addr)
  react accepted t = on_accept false t
  react refused t = on_accept true t
  react (lost_peer r) t = some (record t { sockets = change reset r t.sockets })
  react (broke r) t = some (on_system_error r t)

  pub listens : List Event → ServerTransport Addr → Option (ServerTransport Addr)
  unfolding react
  listens [] t = some t
  listens (e ∷ es) t = elim (react e t) [ none ↦ none | some u ↦ listens es u ]
