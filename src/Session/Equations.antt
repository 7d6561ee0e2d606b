-- ===== src/Session/Equations.antt =====
-- The handlers of src/msgpack/rpc/session.cc in closed form, by what the table holds.
use msgpack_rpc_boost.Exceptions.{timeout_object, connect_object}
use msgpack_rpc_boost.Future.{Zone}
use msgpack_rpc_boost.Future.Heap.{Heap, FutureRef, complete, complete_all}
use msgpack_rpc_boost.Future.HeapLaws.{Once}
use msgpack_rpc_boost.Prelude.{ℕ, ◌≡◌, refl, true, false, Option, none, some, [], arith}
use msgpack_rpc_boost.Protocol.{Runtime}
use msgpack_rpc_boost.Reqtable
use msgpack_rpc_boost.Reqtable.Laws.{find, refs, take_lem, take_all_lem}
use msgpack_rpc_boost.Reqtable.Timeout.{step_timeout-split, waiting, due}
use msgpack_rpc_boost.Session.{
  State, on_response, on_connect_failed, on_system_error, step_timer_handler,
}

module _ {Addr Tran Object : Type 0} ⦃rt : Runtime Object⦄ (s : State Addr Tran Object) where
  pub on_response_unknown :
      (msgid : ℕ) (a e : Object) (z : Option Zone)
      → find msgid s.session.reqtable ≡ none
      → on_response msgid a e z s ≡ record s {
        session = record s.session { reqtable = Reqtable.erase msgid s.session.reqtable };
      }
  unfolding on_response
  on_response_unknown msgid a e z h = ground (arith, take_lem msgid s.session.reqtable)

  pub on_response_known :
      (msgid : ℕ) (a e : Object) (z : Option Zone) (r : FutureRef)
      → find msgid s.session.reqtable ≡ some r
      → on_response msgid a e z s ≡ record s {
        session = record s.session { reqtable = Reqtable.erase msgid s.session.reqtable };
        heap = complete a e z r s.heap;
      }
  unfolding on_response
  on_response_known msgid a e z r h = ground (arith, take_lem msgid s.session.reqtable)

  pub on_connect_failed_lem : on_connect_failed s ≡ record s {
    session = record s.session { reqtable = [] };
    heap = complete_all rt.nil connect_object (refs s.session.reqtable) s.heap;
  }
  unfolding on_connect_failed
  on_connect_failed_lem = rw (on_connect_failed, take_all_lem [] s.session.reqtable) refl

  pub on_system_error_lem : on_system_error s ≡ record s {
    session = record s.session { reqtable = [] };
    heap = complete_all rt.nil connect_object (refs s.session.reqtable) s.heap;
  }
  unfolding on_system_error
  on_system_error_lem = rw (on_system_error, take_all_lem [] s.session.reqtable) refl

  -- The futures as the sweep leaves them, before the due ones are completed.
  abbrev pub swept : Heap Object
  swept = (Reqtable.step_timeout [] s.session.reqtable s.heap).2

  pub step_timer_handler_lem :
      Once (refs s.session.reqtable)
      → step_timer_handler false s ≡ record s {
        session = record s.session { reqtable = waiting s.heap s.session.reqtable; armed = true };
        heap = complete_all rt.nil timeout_object (due s.heap s.session.reqtable) swept;
      }
  unfolding step_timer_handler
  step_timer_handler_lem o =
      let (kept, out) = step_timeout-split [] s.session.reqtable s.heap o in
      rw (step_timer_handler, kept, out) refl
