-- ===== src/Tests/Datagrams.antt =====
-- A request over a UDP socket that is not read from.
use msgpack_rpc_boost.Prelude.{ℕ, ◌≡◌, refl, true, false, some, List, [], ◌∷◌, arith}
use msgpack_rpc_boost.Session.{create}
use msgpack_rpc_boost.Tests.Objects.{Obj, number, nil_object, obj_runtime, obj_codec}
use msgpack_rpc_boost.Tests.Peers.{objects}
use msgpack_rpc_boost.Session.TimedOut.{TimedOut}
use msgpack_rpc_boost.Udp.Deaf.{read_error-TimedOut}
use msgpack_rpc_boost.Udp.Reading.{Connection, Use, requests, receives, second, use_all}
use msgpack_rpc_boost.Protocol.{msg_response}
use msgpack_rpc_boost.Session.Invariant.{create-Reach-IsValid}
use msgpack_rpc_boost.Session.Steps.{start}

-- A connection that is read from, and what follows a read that failed: a request and a response to it.
abbrev connection : Connection ℕ Obj (List Obj)
connection = record {
  client =
      create 0 8000 (record { is_open = true; reading = true }) 30
        (record { futures = []; ran = []; posted = [] });
  pac = [];
}

abbrev later : List (Use Obj Obj)
later =
    requests 0 0 (number 1) (number 2)
    ∷ receives 0 (obj_codec.pack_response (msg_response (number 3) nil_object 1))
    ∷ second
    ∷ []

read_error-TimedOut_example :
    (d : Connection ℕ Obj (List Obj)) × (use_all obj_codec true objects
        (receives 111 nil_object ∷ later)
        connection
      ≡ some d)
    × (d.client.tran.is_open ≡ true)
    × (d.client.tran.reading ≡ false)
    × TimedOut obj_runtime connection.client.heap d.client.heap
unfolding create
read_error-TimedOut_example =
    read_error-TimedOut obj_codec true objects 111 nil_object later connection (ground arith) refl (
      create-Reach-IsValid 0 8000 (record { is_open = true; reading = true }) 30
        (record { futures = []; ran = []; posted = [] }) start)
