-- ===== src/Tests/Sessions.antt =====
-- A session with one request, whose timeout is 2 seconds, and what can happen to it.
use msgpack_rpc_boost.Exceptions.{timeout_object}
use msgpack_rpc_boost.Future.{new_future}
use msgpack_rpc_boost.Future.Heap.{Heap, deref, complete}
use msgpack_rpc_boost.Prelude.{ℕ, ◌≡◌, ◌≢◌, refl, true, none, some, [], ◌∷◌, arith}
use msgpack_rpc_boost.Reqtable.{Reqtable}
use msgpack_rpc_boost.Reqtable
use msgpack_rpc_boost.Reqtable.Laws.{find}
use msgpack_rpc_boost.Protocol.MsgId.{atomic_increment, increments, increments_distinct}
use msgpack_rpc_boost.Session.{
  State, create, register, on_response, on_connect_failed, on_system_error,
}
use msgpack_rpc_boost.Session.Expiry.{seconds, request_expires}
use msgpack_rpc_boost.Session.Failing.{AllFailed, failure-AllFailed}
use msgpack_rpc_boost.Session.Invariant.{IsValid, IsPending, create-Reach-IsValid}
use msgpack_rpc_boost.Session.Pending.{Step-IsPending}
use msgpack_rpc_boost.Session.Response.{answered, on_response_completes}
use msgpack_rpc_boost.Session.Steps.{Reach, start, next, registered, responded}
use msgpack_rpc_boost.SessionPool.Unique.{unique, holders, unique_after_timed_wait}
use msgpack_rpc_boost.Tests.Objects.{Obj, number, nil_object, obj_runtime}

abbrev bare_heap : Heap Obj
bare_heap = record { futures = []; ran = []; posted = [] }

abbrev begun : State ℕ (Unit {0}) Obj
begun = create 4 8000 tt 2 bare_heap

abbrev one_request : State ℕ (Unit {0}) Obj
one_request = (register 7 begun).1

abbrev one_request_path : Reach obj_runtime begun one_request
one_request_path = next start (registered 7)

one_request-IsValid : IsValid one_request
one_request-IsValid = create-Reach-IsValid 4 8000 tt 2 bare_heap one_request_path

create-Reach-IsValid_example : IsValid one_request
create-Reach-IsValid_example = create-Reach-IsValid 4 8000 tt 2 bare_heap one_request_path

on_response_completes_example :
    deref (on_response 7 (number 5) nil_object none one_request).heap 0
    ≡ some (answered (number 5) nil_object none (new_future 7 4 2))
unfolding register create new_future Reqtable.insert
on_response_completes_example =
    (on_response_completes one_request 7 (number 5) nil_object none 0 (new_future 7 4 2)
        one_request-IsValid refl refl).0
      0

failure-AllFailed_example :
    AllFailed obj_runtime one_request (on_connect_failed one_request)
    × AllFailed obj_runtime one_request (on_system_error one_request)
failure-AllFailed_example = failure-AllFailed one_request one_request-IsValid

-- One second of two has gone, and after the third round the request is over.
request_expires_example :
    (find 7 (seconds 1 one_request).session.reqtable ≡ some 0)
    × (deref (seconds 1 one_request).heap 0 ≡ some (record (new_future 7 4 2) { timeout = 1 }))
    × (find 7 (seconds 3 one_request).session.reqtable ≡ none)
    × (deref (seconds 3 one_request).heap 0
        ≡ some
            (answered nil_object timeout_object none (record (new_future 7 4 2) { timeout = 0 })))
unfolding register create new_future Reqtable.insert
request_expires_example =
    request_expires 1 one_request 7 0 (new_future 7 4 2) one_request-IsValid refl refl (omega arith)

one_request-IsPending : IsPending one_request
unfolding register create new_future Reqtable.insert
one_request-IsPending = (refl, tt)

abbrev answered_request : State ℕ (Unit {0}) Obj
answered_request = on_response 7 (number 5) nil_object none one_request

answered_request-IsPending : IsPending answered_request
answered_request-IsPending =
    Step-IsPending (responded 7 (number 5) nil_object none) one_request-IsValid
      one_request-IsPending

unique_after_timed_wait_example :
    let t = record one_request {
      heap = complete nil_object timeout_object none 0 one_request.heap;
    } in
    (unique 0 t.heap t.session.self ≡ true) × (t.session.reqtable ≡ (7, 0) ∷ [])
unfolding register create new_future Reqtable.insert holders
unique_after_timed_wait_example = unique_after_timed_wait one_request 7 0 [] refl refl refl

-- The counter wraps between the two calls.
increments_distinct_example : ◌≢◌ {A = ℕ} 4294967295 0
unfolding increments atomic_increment
increments_distinct_example =
    increments_distinct 3 4294967295 0 1 4294967295 0 (omega arith) (omega arith) (omega arith)
      (omega arith) refl refl
