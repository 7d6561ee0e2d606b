-- ===== src/Future.antt =====
-- src/msgpack/rpc/future.cc and future_impl.h: one future, its completion, its callback and the
-- waits on it. A shared pointer is a number, a callback and a zone are named by numbers, and a
-- method that changes the object returns it. Other threads show in a wait as the states in which it
-- finds the future when it holds the lock again.
pub mod Wait
pub mod WaitLaws
pub mod Heap
pub mod Handle
pub mod HandleLaws
pub mod HeapLaws
pub mod Commute
pub mod Laws
use msgpack_rpc_boost.Exceptions.{RpcError, timeout_object, throw_exception}
use msgpack_rpc_boost.Prelude.{
  ℕ, ◌-◌, ◌*◌, ◌%◌, ◌^◌, Bool, ltb, true, false, not, Option, none, some, List, [], ◌∷◌, ◌++◌,
  is_set, if◌then◌else◌,
}
use msgpack_rpc_boost.Protocol.{Runtime}

-- What a `shared_ptr<session_impl>`, a std::function and an owned zone are named by.
abbrev pub SessionRef : Type 0
SessionRef = ℕ

abbrev pub Callback : Type 0
Callback = ℕ

abbrev pub Zone : Type 0
Zone = ℕ

-- `session` is null once the future is ready; `timeout` is an unsigned int, in seconds.
pub record FutureImpl (Object : Type 0) : Type 0 where
  pub msgid : ℕ
  pub session : Option SessionRef
  pub timeout : ℕ
  pub callback : Option Callback
  pub result : Object
  pub error : Object
  pub zone : Option Zone

module _ {Object : Type 0} where
  -- The constructor; the timeout is the session's.
  unfoldable pub new_future : ⦃rt : Runtime Object⦄ → ℕ → SessionRef → ℕ → FutureImpl Object
  new_future ⦃rt⦄ msgid s timeout = record {
    msgid = msgid;
    session = some s;
    timeout = timeout;
    callback = none;
    result = rt.nil;
    error = rt.nil;
    zone = none;
  }

  unfoldable pub is_ready : FutureImpl Object → Bool
  is_ready f = not (is_set f.session)

  -- The future, and the callback that is run while the lock is held.
  unfoldable pub set_result :
      Object → Object → Option Zone → FutureImpl Object → FutureImpl Object × Option Callback
  set_result result error z f = (
    record f { result = result; error = error; zone = z; session = none; callback = none },
    f.callback,
  )

  -- The future, and the callback that is handed to the loop, which is so if it is ready already.
  unfoldable pub attach_callback :
      Callback → FutureImpl Object → FutureImpl Object × Option Callback
  attach_callback func f =
      if is_set f.session then (record f { callback = some func }, none) else (f, some func)

  -- True when the time is up.
  unfoldable pub step_timeout : FutureImpl Object → FutureImpl Object × Bool
  step_timeout f =
      if ltb 0 f.timeout then (record f { timeout = f.timeout - 1 }, false) else (f, true)
