-- ===== src/Tests/Broadcasts.antt =====
-- A client whose builder wants broadcast, for address 255, which needs the option, as every address does
-- for this operating system.
use msgpack_rpc_boost.Client.{client_built}
use msgpack_rpc_boost.Future.Heap.{Heap}
use msgpack_rpc_boost.Prelude.{ℕ, ◌≡◌, refl, true, none, List, [], ◌∷◌, arith, All, if◌then◌else◌}
use msgpack_rpc_boost.Session.TimedOut.{TimedOut}
use msgpack_rpc_boost.Tests.Objects.{Obj, number, nil_object, obj_runtime, obj_codec}
use msgpack_rpc_boost.Udp.Broadcast.{
  UdpBuilder, udp_builder, set_broadcast, get_timeout, Os, build, Use, requests, notifies, second,
  use_all,
}
use msgpack_rpc_boost.Udp.Broadcast.Refused.{Refuses, build-Refused}

abbrev os : Os ℕ Obj Obj
os = record {
  running = true;
  flush = λ s. s;
  connects = λ o addr. if o.broadcast then 0 else 13;
  sends = λ o addr. 0;
}

abbrev builder : UdpBuilder
builder = set_broadcast true udp_builder

abbrev addr : ℕ
addr = 255

abbrev heap : Heap Obj
heap = record { futures = []; ran = []; posted = [] }

abbrev uses : List (Use Obj)
uses = requests (number 1) nil_object ∷ second ∷ notifies (number 2) nil_object ∷ []

os-Refuses : Refuses os addr
os-Refuses o off = ground (arith, off)

build-Refused_example :
    let s = client_built 0 heap (build os builder addr) (get_timeout builder) addr in
    let (failures, t) = use_all obj_codec os uses s in
    (t.tran.sent ≡ [])
    × All (λ failed. failed ≡ none) failures
    × (t.tran.options ≡ none)
    × TimedOut obj_runtime heap t.heap
build-Refused_example = build-Refused obj_codec os addr refl os-Refuses builder 0 heap uses
