-- ===== src/Stream.antt =====
-- src/msgpack/rpc/transport/stream_handler.cc and stream_handler.h: a connected socket. What arrives
-- is unpacked, each object is taken for a message, and the message goes to the virtual function of
-- the client's or the server's socket. An exception is `none`.
pub mod Reading
pub mod Laws
pub mod Datagram
pub mod Chunks
use msgpack_rpc_boost.Prelude.{
  ℕ, zero, suc, ◌*◌, ◌≡◌, ◌<◌, Bool, true, false, Option, none, some, if◌then◌else◌, ltb, ◌==◌,
}
use msgpack_rpc_boost.Protocol.{
  Codec, MsgRpc, MsgRequest, MsgResponse, MsgNotify, is_request, is_response, is_notify,
}

-- The call that a message leads to.
pub data Incoming (Object : Type 0) : Type 0 where
  requested : ℕ → Object → Object → Incoming Object
  responded : ℕ → Object → Object → Incoming Object
  notified : Object → Object → Incoming Object

module _ {Object : Type 0} where
  abbrev from_request : Option (MsgRequest Object) → Option (Incoming Object)
  from_request none = none
  from_request (some m) = some (requested m.msgid m.method m.param)

  abbrev from_response : Option (MsgResponse Object) → Option (Incoming Object)
  from_response none = none
  from_response (some m) = some (responded m.msgid m.result m.error)

  abbrev from_notify : Option (MsgNotify Object) → Option (Incoming Object)
  from_notify none = none
  from_notify (some m) = some (notified m.method m.param)

  -- `none` is a msgpack::type_error: no message, of no known type, or malformed.
  unfoldable pub on_message :
      {Bytes : Type 0} → Codec Object Bytes → Object → Option (Incoming Object)
  unfolding is_request is_response is_notify
  on_message codec msg = elim (codec.convert_rpc msg) [
    | none ↦ none
    | some rpc ↦
        if is_request rpc
        then from_request (codec.convert_request msg)
        else if is_response rpc
        then from_response (codec.convert_response msg)
        else if is_notify rpc
        then from_notify (codec.convert_notify msg)
        else none
  ]
