-- ===== src/Session/Steps.antt =====
-- Everything that can happen to a session of src/msgpack/rpc/session.cc, as a relation: the handlers
-- of the loop, the calls of the program, and what a wait on a future does to it behind the table.
use msgpack_rpc_boost.Exceptions.{timeout_object}
use msgpack_rpc_boost.Future.{Callback, Zone}
use msgpack_rpc_boost.Future.Heap.{FutureRef, attach, complete}
use msgpack_rpc_boost.Prelude.{ℕ, Bool, Option, none}
use msgpack_rpc_boost.Protocol.{Runtime}
use msgpack_rpc_boost.Session.{
  State, next_msgid, set_timeout, register, on_response, on_connect_failed, on_system_error,
  step_timer_handler,
}

pub data Step {Addr Tran Object : Type 0} (rt : Runtime Object) (s : State Addr Tran Object)
    : State Addr Tran Object → Type 0 where
  numbered : Step rt s (record s { session = (next_msgid s.session).1 })
  registered : (msgid : ℕ) → Step rt s (register ⦃rt = rt⦄ msgid s).1
  responded :
      (msgid : ℕ) (result error : Object) (z : Option Zone)
      → Step rt s (on_response ⦃rt = rt⦄ msgid result error z s)
  lost_connection : Step rt s (on_connect_failed ⦃rt = rt⦄ s)
  system_error : Step rt s (on_system_error ⦃rt = rt⦄ s)
  timer : (aborted : Bool) → Step rt s (step_timer_handler ⦃rt = rt⦄ aborted s)
  configured : (sec : ℕ) → Step rt s (record s { session = set_timeout sec s.session })
  transport : (t : Tran) → Step rt s (record s { tran = t })
  attached : (c : Callback) (r : FutureRef) → Step rt s (record s { heap = attach c r s.heap })

-- A run of such steps. `gave_up` is `timed_wait` on a future when its time runs out.
pub data Reach {Addr Tran Object : Type 0} (rt : Runtime Object) (s : State Addr Tran Object)
    : State Addr Tran Object → Type 0 where
  start : Reach rt s s
  next : {t u : State Addr Tran Object} → Reach rt s t → Step rt t u → Reach rt s u
  gave_up :
      {t : State Addr Tran Object} (r : FutureRef)
      → Reach rt s t
      → Reach rt s (record t { heap = complete rt.nil (timeout_object ⦃rt = rt⦄) none r t.heap })
