-- ===== src/Udp/Reading.antt =====
-- The client's socket of src/msgpack/rpc/transport/udp.cc over `dgram_handler::on_read` of
-- dgram_handler.cc, and what a program and the network do with the session behind it. `alive` says
-- whether the session still lives; a read ends only where one is pending.
use msgpack_rpc_boost.Prelude.{
  ℕ, Bool, true, false, Option, none, some, List, [], ◌∷◌, if◌then◌else◌,
}
use msgpack_rpc_boost.Protocol.{Runtime, Codec}
use msgpack_rpc_boost.Session.{send_request, send_notify, step_timer_handler}
use msgpack_rpc_boost.Sockets.{client_socket}
use msgpack_rpc_boost.Stream.{on_message}
use msgpack_rpc_boost.Stream.Reading.{Unpacker, Handler, on_datagram}
use msgpack_rpc_boost.Udp.{Client, Network, send_data}

-- The client, and the unpacker of its socket.
pub record Connection (Addr Object Pac : Type 0) : Type 0 where
  pub client : Client Addr Object
  pub pac : Pac

-- `requests` and `notifies` have how a connect and the send end; `second` is the timer.
pub data Use (Object Bytes : Type 0) : Type 0 where
  requests notifies : ℕ → ℕ → Object → Object → Use Object Bytes
  receives : ℕ → Bytes → Use Object Bytes
  second : Use Object Bytes

-- A loop with workers, and how a connect and a send end.
abbrev pub network : {Addr Object : Type 0} → ℕ → ℕ → Network Addr Object
network connected sent = record {
  running = true;
  flush = λ s. s;
  connected = connected;
  sent = sent;
}

module _ {Addr Object Bytes Pac : Type 0} (codec : Codec Object Bytes) ⦃rt : Runtime Object⦄
    (alive : Bool) (up : Unpacker Object Bytes Pac) where
  -- `on_message`, with the virtual functions of the client's socket.
  unfoldable pub handle_reply : Object → Client Addr Object → Client Addr Object × Bool
  unfolding on_message client_socket
  handle_reply msg s = elim (on_message codec msg) [
    | none ↦ (s, true)
    | some m ↦ elim (client_socket alive none m s) [ none ↦ (s, true) | some t ↦ (t, false) ]
  ]

  abbrev after_read : Handler Pac (Client Addr Object) → Connection Addr Object Pac
  after_read k = record {
    client = record k.state { tran = record k.state.tran { reading = k.reading } };
    pac = k.pac;
  }

  -- `on_read`
  unfoldable pub receive :
      ℕ → Bytes → Connection Addr Object Pac → Option (Connection Addr Object Pac)
  unfolding on_datagram handle_reply
  receive err buf c =
      let h : Handler Pac (Client Addr Object) = record {
        reading = false;
        pac = c.pac;
        state = c.client;
      } in
      if c.client.tran.reading
      then elim (on_datagram up handle_reply err buf h) [
        | none ↦ none
        | some k ↦ some (after_read k)
      ]
      else some c

  unfoldable pub use_socket :
      Use Object Bytes → Connection Addr Object Pac → Option (Connection Addr Object Pac)
  unfolding send_request send_notify send_data receive
  use_socket (requests connected sent method params) c =
      let send = λ (e : Unit {0}). send_data (network connected sent) in
      some (record c { client = (send_request send codec tt method params none c.client).1 })
  use_socket (notifies connected sent method params) c =
      let send = λ (e : Unit {0}). send_data (network connected sent) in
      some (record c { client = (send_notify send codec tt method params none c.client).1 })
  use_socket (receives err buf) c = receive err buf c
  use_socket second c = some (record c { client = step_timer_handler false c.client })

  unfoldable pub use_all :
      List (Use Object Bytes) → Connection Addr Object Pac → Option (Connection Addr Object Pac)
  use_all [] c = some c
  use_all (u ∷ us) c =
      let rest = use_all us in elim (use_socket u c) [ none ↦ none | some d ↦ rest d ]
