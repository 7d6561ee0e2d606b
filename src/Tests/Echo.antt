-- ===== src/Tests/Echo.antt =====
-- A call of the echo dispatcher, and one of a dispatcher that does not answer.
use msgpack_rpc_boost.Caller.Laws.{plain, auto_zone, call_by}
use msgpack_rpc_boost.Caller.Unanswered.{call_by_unanswered}
use msgpack_rpc_boost.EchoServer.{dispatch}
use msgpack_rpc_boost.EchoServer.Calls.{sum, call_by_echo}
use msgpack_rpc_boost.Exceptions.{RpcError}
use msgpack_rpc_boost.Future.Heap.{FutureRef, deref}
use msgpack_rpc_boost.Future.Wait.{value, threw, get_impl}
use msgpack_rpc_boost.Prelude.{ℕ, ◌≡◌, refl, false, none, some, List, [], ◌∷◌}
use msgpack_rpc_boost.Reqtable.Laws.{find}
use msgpack_rpc_boost.Rpc.{exchange}
use msgpack_rpc_boost.Server.{ServerImpl}
use msgpack_rpc_boost.Session.{State, future, create}
use msgpack_rpc_boost.Session.Expiry.{seconds}
use msgpack_rpc_boost.Tests.Calls.{caller, caller-IsValid}
use msgpack_rpc_boost.Tests.Objects.{Obj, number, text, obj_runtime, obj_codec, obj_conversions}

abbrev echo_server : ServerImpl Obj (Unit {0})
echo_server = record { dp = some (dispatch obj_conversions); stran = none }

call_by_echo_example :
    let called =
      call_by obj_codec (auto_zone (some 3)) (text "add") (number 1 ∷ number 2 ∷ []) caller in
    (r : FutureRef) × (buf : Obj) × (u : State ℕ (List Obj) Obj) × (called.0 ≡ future r)
    × (called.1.tran ≡ buf ∷ [])
    × (exchange obj_codec 0 buf echo_server called.1 ≡ some u)
    × (get_impl false (deref u.heap r) [] ≡ value (number 3))
unfolding create
call_by_echo_example =
    call_by_echo obj_codec obj_conversions (auto_zone (some 3)) (text "add")
      (number 1 ∷ number 2 ∷ []) caller 0 echo_server false [] caller-IsValid refl
      (sum 1 2 refl refl)

abbrev silent_server : ServerImpl Obj (Unit {0})
silent_server = record { dp = some (λ r. []); stran = none }

call_by_unanswered_example :
    let called = call_by obj_codec plain (text "timeout") [] caller in
    let t = called.1 in
    (r : FutureRef) × (buf : Obj) × (called.0 ≡ future r)
    × (t.tran ≡ buf ∷ [])
    × (exchange obj_codec 0 buf silent_server t ≡ some t)
    × (find caller.session.msgid_rr (seconds 30 t).session.reqtable ≡ some r)
    × (find caller.session.msgid_rr (seconds 31 t).session.reqtable ≡ none)
    × (get_impl false (deref (seconds 31 t).heap r) [] ≡ threw RpcError.timeout_error)
unfolding create
call_by_unanswered_example =
    call_by_unanswered obj_codec plain (text "timeout") [] caller 0 silent_server (λ r. []) false []
      caller-IsValid refl refl
