-- ===== src/Tests/Calls.antt =====
-- A call and a notification, served by a dispatcher that answers every request with its parameters.
use msgpack_rpc_boost.Caller.Laws.{plain, notify_by, notify_by_served}
use msgpack_rpc_boost.Future.Heap.{Heap, deref}
use msgpack_rpc_boost.Future.Wait.{value, get_impl}
use msgpack_rpc_boost.Prelude.{ℕ, ◌≡◌, refl, false, none, some, List, [], ◌∷◌, arith}
use msgpack_rpc_boost.Protocol.{msg_request}
use msgpack_rpc_boost.Reqtable.Laws.{find}
use msgpack_rpc_boost.Request.{gives, gives_nil}
use msgpack_rpc_boost.Rpc.{exchange, serve_message, rpc_roundtrip}
use msgpack_rpc_boost.Server.{ServerImpl, Dispatcher}
use msgpack_rpc_boost.Session.{State, create, register}
use msgpack_rpc_boost.Session.Invariant.{IsValid, create-Reach-IsValid}
use msgpack_rpc_boost.Session.Steps.{start}
use msgpack_rpc_boost.Tests.Objects.{Obj, number, obj_runtime, obj_codec}

abbrev pub answer_back : Dispatcher Obj
answer_back r = gives r.params none ∷ gives_nil ∷ []

abbrev pub server : ServerImpl Obj (Unit {0})
server = record { dp = some answer_back; stran = none }

abbrev bare_heap : Heap Obj
bare_heap = record { futures = []; ran = []; posted = [] }

abbrev pub caller : State ℕ (List Obj) Obj
caller = create 4 8000 [] 30 bare_heap

pub caller-IsValid : IsValid caller
caller-IsValid = create-Reach-IsValid 4 8000 [] 30 bare_heap start

rpc_roundtrip_example :
    (u : State ℕ (List Obj) Obj) × (exchange obj_codec 0
        (obj_codec.pack_request (msg_request (number 1) (number 2) 7))
        server
        (register 7 caller).1
      ≡ some u)
    × (get_impl false (deref u.heap (register 7 caller).0) [] ≡ value (number 2))
    × (find 7 u.session.reqtable ≡ none)
rpc_roundtrip_example =
    rpc_roundtrip obj_codec caller 7 (number 1) (number 2) 0 server answer_back
      (gives (number 2) none) (gives_nil ∷ []) false [] caller-IsValid (omega arith) refl refl

notify_by_served_example :
    (buf : Obj) × (notify_by obj_codec plain (number 1) (number 2 ∷ []) caller
      ≡ (none, record caller { tran = buf ∷ [] }))
    × (serve_message obj_codec 0 buf server ≡ some [])
unfolding create
notify_by_served_example =
    notify_by_served obj_codec plain (number 1) (number 2 ∷ []) caller 0 server answer_back refl
