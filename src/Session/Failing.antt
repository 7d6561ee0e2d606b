-- ===== src/Session/Failing.antt =====
-- What the loss of the connection does to the requests of src/msgpack/rpc/session.cc.
use mathlib.Core.Option
use msgpack_rpc_boost.Exceptions.{connect_object}
use msgpack_rpc_boost.Future.{set_result}
use msgpack_rpc_boost.Future.Heap.{Heap, FutureRef, deref, complete, complete_all}
use msgpack_rpc_boost.Future.HeapLaws.{
  deref-complete_all, ran-complete_all, callback_at, calls, member,
}
use msgpack_rpc_boost.Prelude.{
  ◌≡◌, ◌∙◌, refl, none, List, [], ◌∷◌, ◌++◌, arith, if◌then◌else◌, Option-cases, inl, inr,
}
use msgpack_rpc_boost.Protocol.{Runtime}
use msgpack_rpc_boost.Reqtable.Entries.{refs-Once}
use msgpack_rpc_boost.Reqtable.Laws.{refs}
use msgpack_rpc_boost.Session.{State, on_connect_failed, on_system_error}
use msgpack_rpc_boost.Session.Equations.{on_connect_failed_lem, on_system_error_lem}
use msgpack_rpc_boost.Session.Invariant.{IsValid}
use msgpack_rpc_boost.Session.Response.{answered}

-- What must hold after all requests of `s` have failed with the connection error.
pub record AllFailed {Addr Tran Object : Type 0} (rt : Runtime Object)
    (s t : State Addr Tran Object) : Type 0 where
  pub emptied : t.session.reqtable ≡ []
  pub completed :
      (r : FutureRef)
      → deref t.heap r ≡ (
          if member r (refs s.session.reqtable)
          then Option.map (answered rt.nil (connect_object ⦃rt = rt⦄) none) (deref s.heap r)
          else deref s.heap r)
  pub called : t.heap.ran ≡ s.heap.ran ++ calls (callback_at s.heap) (refs s.session.reqtable)
  pub unposted : t.heap.posted ≡ s.heap.posted

posted-complete_all :
    {Object : Type 0} (a e : Object) (rs : List FutureRef) (h : Heap Object)
    → (complete_all a e rs h).posted ≡ h.posted
unfolding complete_all complete
posted-complete_all a e [] h = refl
posted-complete_all a e (r ∷ rs) h = elim (Option-cases (deref h r)) [
  | inl null ↦ posted-complete_all a e rs (complete a e none r h) ∙ ground arith
  | inr (f, found) ↦ posted-complete_all a e rs (complete a e none r h) ∙ ground arith
]

module _ {Addr Tran Object : Type 0} ⦃rt : Runtime Object⦄ where
  failed : State Addr Tran Object → State Addr Tran Object
  failed s = record s {
    session = record s.session { reqtable = [] };
    heap = complete_all rt.nil connect_object (refs s.session.reqtable) s.heap;
  }

  failed-AllFailed : (s : State Addr Tran Object) → IsValid s → AllFailed rt s (failed s)
  unfolding failed set_result
  failed-AllFailed s v =
      let rs = refs s.session.reqtable in
      record {
        emptied = refl;
        completed = λ r. deref-complete_all rt.nil connect_object rs r s.heap;
        called =
            ran-complete_all rt.nil connect_object rs s.heap
              (refs-Once s.heap s.session.reqtable v.distinct v.linked);
        unposted = posted-complete_all rt.nil connect_object rs s.heap;
      }

  -- When the connection cannot be made, or breaks, every request of a valid session fails: the
  -- table is empty, each future that was in it is completed with a nil result and the connection
  -- error, the registered callbacks run once each in the order of the table, and no other future
  -- changes.
  pub failure-AllFailed :
      (s : State Addr Tran Object)
      → IsValid s
      → AllFailed rt s (on_connect_failed s) × AllFailed rt s (on_system_error s)
  unfolding failed
  failure-AllFailed s v = (
    rw (on_connect_failed_lem s) (failed-AllFailed s v),
    rw (on_system_error_lem s) (failed-AllFailed s v),
  )
