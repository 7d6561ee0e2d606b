-- ===== src/Tests/Streams.antt =====
-- Two requests in one stream, of which the second came whole in this read.
use msgpack_rpc_boost.Prelude.{ℕ, List, true, Option, none, some, [], ◌∷◌}
use msgpack_rpc_boost.Protocol.{msg_request, msg_response}
use msgpack_rpc_boost.Request.{SenderRef}
use msgpack_rpc_boost.Stream.Reading.{Handler}
use msgpack_rpc_boost.TcpServer.Serving.{Asked}
use msgpack_rpc_boost.Tests.Calls.{server}
use msgpack_rpc_boost.Tests.Objects.{Obj, number, nil_object, obj_runtime, obj_codec}
use msgpack_rpc_boost.TcpServer.Writing.{ServerSocket}

abbrev asked : ℕ → Asked Obj
asked n = record { msgid = n; method = number 1; params = number n }

abbrev message : ℕ → Obj
message n = obj_codec.pack_request (msg_request (number 1) (number n) n)

-- The second write fails, of a socket that can still be closed.
abbrev on_socket : Option ℕ → Handler (List Obj) (ServerSocket Obj Obj (Unit {0}))
on_socket breaks = record {
  reading = true;
  pac = message 7 ∷ [];
  state = record {
    server = server;
    is_open = true;
    managed = true;
    breaks = breaks;
    has_endpoint = true;
    sent = [];
  };
}

abbrev failing : Handler (List Obj) (ServerSocket Obj Obj (Unit {0}))
failing = on_socket (some 1)

abbrev reading : Handler (List Obj) (ServerSocket Obj Obj (Unit {0}))
reading = on_socket none

abbrev replies : List (SenderRef × Obj)
replies =
    (5, obj_codec.pack_response (msg_response (number 7) nil_object 7))
    ∷ (5, obj_codec.pack_response (msg_response (number 8) nil_object 8))
    ∷ []
