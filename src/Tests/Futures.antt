-- ===== src/Tests/Futures.antt =====
-- A pending future, the events it can meet, and the waits on it.
use msgpack_rpc_boost.Exceptions.{RpcError}
use msgpack_rpc_boost.Future.{FutureImpl, new_future, is_ready}
use msgpack_rpc_boost.Future.Laws.{attached, completed, ticked, history, callback_exactly_once}
use msgpack_rpc_boost.Future.Wait.{expired, threw, get_impl}
use msgpack_rpc_boost.Future.WaitLaws.{no_method, get_impl-Reports, get_impl_loses}
use msgpack_rpc_boost.Prelude.{◌≡◌, refl, true, none, some, [], ◌∷◌, ◌++◌}
use msgpack_rpc_boost.Tests.Objects.{Obj, number, nil_object, obj_runtime}

abbrev pub pending : FutureImpl Obj
pending = new_future 7 4 2

abbrev pub done : Obj → FutureImpl Obj
done error = record {
  msgid = 7;
  session = none;
  timeout = 2;
  callback = none;
  result = number 5;
  error = error;
  zone = none;
}

-- Two completions, and a callback attached between them.
callback_exactly_once_example :
    (history
      ((ticked ∷ completed (number 5) nil_object none ∷ [])
        ++ attached 9 ∷ (completed nil_object (number 1) none ∷ []))
      pending).1
    ≡ 9 ∷ []
unfolding new_future is_ready
callback_exactly_once_example =
    callback_exactly_once (ticked ∷ completed (number 5) nil_object none ∷ [])
      (completed nil_object (number 1) none ∷ []) pending 9 refl refl refl refl refl

get_impl-Reports_example :
    get_impl true (some (done (number 1))) [] ≡ threw RpcError.no_method_error
unfolding is_ready
get_impl-Reports_example = get_impl-Reports true (done (number 1)) [] refl (no_method refl)

get_impl_loses_example :
    get_impl true (some pending) (expired (done nil_object) ∷ []) ≡ threw RpcError.timeout_error
unfolding is_ready new_future
get_impl_loses_example = get_impl_loses pending (done nil_object) [] refl refl refl
