-- ===== src/Future/Wait.antt =====
-- The waits of src/msgpack/rpc/future.cc, and `future::get_impl` over them. What other threads and
-- the clock do is a list: how each wait on the condition ended, or in what state each run of the
-- loop left the future. A wait whose list is used up is still blocked.
use msgpack_rpc_boost.Exceptions.{RpcError, timeout_object, throw_exception}
use msgpack_rpc_boost.Future.{FutureImpl, Callback, is_ready, set_result}
use msgpack_rpc_boost.Prelude.{
  ℕ, ◌*◌, ◌%◌, ◌^◌, Bool, Option, none, some, List, [], ◌∷◌, is_set, if◌then◌else◌,
}
use msgpack_rpc_boost.Protocol.{Runtime}

-- `notified f`: the wait was woken, and `f` is what the thread finds when it has the lock.
-- `expired f`: the time ran out, and `f` is what `set_result` finds when it has taken the lock.
pub data Wake (Object : Type 0) : Type 0 where
  notified : FutureImpl Object → Wake Object
  expired : FutureImpl Object → Wake Object

-- Each way a wait ends has the future, and the callback that ran on the way.
pub data WaitResult (Object : Type 0) : Type 0 where
  ready : FutureImpl Object → WaitResult Object
  timed_out : FutureImpl Object → Option Callback → WaitResult Object
  blocked : WaitResult Object

pub data GetResult (Object : Type 0) : Type 0 where
  value : Object → GetResult Object
  threw : RpcError Object → GetResult Object
  null_reference : GetResult Object
  still_waiting : GetResult Object

module _ {Object : Type 0} where
  -- `wait`, and `recv` with a list of the states that `run_once` leaves.
  unfoldable pub wait : FutureImpl Object → List (FutureImpl Object) → WaitResult Object
  wait f [] = if is_set f.session then blocked else ready f
  wait f (g ∷ gs) = let rest = wait g gs in if is_set f.session then rest else ready f

  unfoldable pub recv : FutureImpl Object → List (FutureImpl Object) → WaitResult Object
  unfolding wait
  recv f gs = wait f gs

  -- The states that the loop leaves are those in the wakes, where this thread runs the loop.
  abbrev pub after : Wake Object → FutureImpl Object
  after (notified f) = f
  after (expired f) = f

  abbrev pub states : List (Wake Object) → List (FutureImpl Object)
  states [] = []
  states (w ∷ ws) = after w ∷ states ws

  -- The argument of `timed_wait`, an unsigned int, in milliseconds.
  unfoldable pub join_ms : FutureImpl Object → ℕ
  join_ms f = (f.timeout * 1000) % 2 ^ 32

module _ {Object : Type 0} ⦃rt : Runtime Object⦄ where
  unfoldable pub timed_wait : FutureImpl Object → List (Wake Object) → WaitResult Object
  timed_wait f [] = if is_set f.session then blocked else ready f
  timed_wait f (notified g ∷ ws) =
      let rest = timed_wait g ws in if is_set f.session then rest else ready f
  timed_wait f (expired g ∷ ws) =
      if is_set f.session
      then (let (done, ran) = set_result rt.nil timeout_object none g in timed_out done ran)
      else ready f

  unfoldable pub join : Bool → FutureImpl Object → List (Wake Object) → WaitResult Object
  unfolding timed_wait recv
  join running f ws = if running then timed_wait f ws else recv f (states ws)

  abbrev pub outcome : WaitResult Object → GetResult Object
  outcome blocked = still_waiting
  outcome (ready f) = if rt.is_nil f.error then value f.result else threw (throw_exception f.error)
  outcome (timed_out f ran) =
      if rt.is_nil f.error then value f.result else threw (throw_exception f.error)

  -- A null pointer is no future at all.
  unfoldable pub get_impl :
      Bool → Option (FutureImpl Object) → List (Wake Object) → GetResult Object
  unfolding join is_ready
  get_impl running none ws = null_reference
  get_impl running (some f) ws = outcome (if is_ready f then ready f else join running f ws)
