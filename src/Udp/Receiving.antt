-- ===== src/Udp/Receiving.antt =====
-- The server's socket of src/msgpack/rpc/transport/udp.cc over dgram_handler.cc: one socket and one
-- unpacker for all peers. A peer's endpoint is a number, and stands for the `response_sender` that
-- answers to it; sending a datagram does not fail. A server that does not serve
-- has no dispatcher, and calls through a null pointer: `crashed`.
use msgpack_rpc_boost.Prelude.{
  ℕ, Bool, true, false, Option, none, some, List, ◌++◌, ◌&&◌, not, is_set, if◌then◌else◌,
}
use msgpack_rpc_boost.Protocol.{Runtime, Codec}
use msgpack_rpc_boost.Request.{SenderRef}
use msgpack_rpc_boost.Server.{ServerImpl}
use msgpack_rpc_boost.Sockets.{server_socket}
use msgpack_rpc_boost.Stream.{Incoming, requested, responded, notified, on_message}
use msgpack_rpc_boost.Stream.Reading.{Unpacker, Handler, on_datagram}

-- The server behind the socket, and what was sent, oldest first.
pub record Receiver (Object Bytes Tran : Type 0) : Type 0 where
  pub server : ServerImpl Object Tran
  pub sent : List (SenderRef × Bytes)
  pub crashed : Bool

-- `get_response_sender(ep)` keeps a copy of the endpoint.
unfoldable pub get_response_sender : SenderRef → SenderRef
get_response_sender ep = ep

-- `m_dp->dispatch(...)` of a server that has no dispatcher.
abbrev pub null_call :
    {Object Tran : Type 0} → Bool → Incoming Object → ServerImpl Object Tran → Bool
null_call alive (requested msgid method params) s = alive && not (is_set s.dp)
null_call alive (responded msgid result error) s = false
null_call alive (notified method params) s = alive && not (is_set s.dp)

module _ {Object Bytes Tran : Type 0} where
  -- What the replies leave, and whether the socket threw.
  abbrev pub replied :
      Receiver Object Bytes Tran
      → Option (List (SenderRef × Bytes))
      → Receiver Object Bytes Tran × Bool
  replied s none = (s, true)
  replied s (some replies) = (record s { sent = s.sent ++ replies }, false)

module _ {Object Bytes Tran : Type 0} (codec : Codec Object Bytes) ⦃rt : Runtime Object⦄
    (alive : Bool) where
  -- `on_message(msg, z, m_remote)`, with the server socket's virtual functions.
  unfoldable pub handle_message :
      SenderRef → Object → Receiver Object Bytes Tran → Receiver Object Bytes Tran × Bool
  unfolding on_message server_socket get_response_sender
  handle_message ep msg s = elim (on_message codec msg) [
    | none ↦ (s, true)
    | some m ↦
        if null_call alive m s.server
        then (record s { crashed = true }, true)
        else replied s (server_socket codec alive (get_response_sender ep) none m s.server)
  ]

  -- `on_read`, for a datagram from `remote`: `async_receive_from` has set `m_remote`. It does not end if
  -- the process does.
  unfoldable pub receive_from :
      {Pac : Type 0}
      → Unpacker Object Bytes Pac
      → SenderRef
      → ℕ
      → Bytes
      → Handler Pac (Receiver Object Bytes Tran)
      → Option (Handler Pac (Receiver Object Bytes Tran))
  unfolding on_datagram handle_message
  receive_from up remote err buf h = elim (on_datagram up (handle_message remote) err buf h) [
    | none ↦ none
    | some k ↦ if k.state.crashed then none else some k
  ]
