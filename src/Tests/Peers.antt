-- ===== src/Tests/Peers.antt =====
-- A datagram with a request, received by the server's socket.
use msgpack_rpc_boost.Prelude.{
  ◌≡◌, refl, ◌<◌, true, false, some, List, [], ◌∷◌, ◌++◌, arith, length,
}
use msgpack_rpc_boost.Protocol.{msg_request}
use msgpack_rpc_boost.Stream.Reading.{Next, object, incomplete, Unpacker, Handler}
use msgpack_rpc_boost.Tests.Calls.{server, answer_back}
use msgpack_rpc_boost.Tests.Objects.{Obj, number, obj_runtime, obj_codec}
use msgpack_rpc_boost.Udp.Peers.{Replied, receive_from_replies}
use msgpack_rpc_boost.Udp.Receiving.{Receiver, receive_from}

abbrev pub next_object : List Obj → Next Obj (List Obj)
next_object [] = incomplete
next_object (o ∷ os) = object o os

pub next_object-consumes :
    (p q : List Obj) (o : Obj) → next_object p ≡ object o q → length q < length p
next_object-consumes [] q o e = cc
next_object-consumes (m ∷ ms) q o e = ground arith

abbrev pub objects : Unpacker Obj Obj (List Obj)
objects = record {
  buffer_consumed = λ buf p. p ++ buf ∷ [];
  next = next_object;
  message_size = length;
  remove_nonparsed_buffer = λ p. [];
  remaining = length;
  next_consumes = next_object-consumes;
}

abbrev bound : Handler (List Obj) (Receiver Obj Obj (Unit {0}))
bound = record {
  reading = true;
  pac = [];
  state = record { server = server; sent = []; crashed = false };
}

abbrev datagram : Obj
datagram = obj_codec.pack_request (msg_request (number 1) (number 2) 7)

receive_from_replies_example :
    (k : Handler (List Obj) (Receiver Obj Obj (Unit {0}))) × (receive_from obj_codec true objects 9
        0 datagram bound
      ≡ some k)
    × Replied obj_codec 9 bound.state k.state
receive_from_replies_example =
    receive_from_replies obj_codec true 9 objects answer_back 0 datagram bound refl refl
