-- ===== src/Session/Pending.antt =====
-- The comment of src/msgpack/rpc/session_pool.cc that a table "contains futures that references a
-- session", as an invariant of the steps of src/msgpack/rpc/session.cc.
use msgpack_rpc_boost.Exceptions.{timeout_object}
use msgpack_rpc_boost.Future.{Zone, step_timeout, new_future}
use msgpack_rpc_boost.Future.Heap.{Heap, FutureRef, complete, complete_all, allocate}
use msgpack_rpc_boost.Future.HeapLaws.{deref-complete, deref-complete_all, member}
use msgpack_rpc_boost.Prelude.{
  ℕ, ◌≡◌, ◌∙◌, Bool, true, false, Option, List, [], arith, ◌==◌, All-imp, All-both, Option-cases,
  inl, inr,
}
use msgpack_rpc_boost.Protocol.{Runtime}
use msgpack_rpc_boost.Reqtable
use msgpack_rpc_boost.Reqtable.{Reqtable}
use msgpack_rpc_boost.Reqtable.Entries.{
  Linked, session_at, All-insert, All-erase, All-waiting, All-find, refs-Once, erase-apart,
  waiting-not_due, due-is_due,
}
use msgpack_rpc_boost.Reqtable.Laws.{find}
use msgpack_rpc_boost.Reqtable.Timeout.{deref-step_timeout, waiting, due, is_due}
use msgpack_rpc_boost.Session.{
  State, next_msgid, set_timeout, register, on_response, step_timer_handler,
}
use msgpack_rpc_boost.Session.Equations.{
  on_response_unknown, on_response_known, on_connect_failed_lem, on_system_error_lem, swept,
  step_timer_handler_lem,
}
use msgpack_rpc_boost.Session.Invariant.{
  IsValid, IsPending, session_at-attach, session_at-allocate, deref-allocate_self,
}
use msgpack_rpc_boost.Session.Steps.{
  Step, numbered, registered, responded, lost_connection, system_error, timer, configured,
  transport, attached,
}

module _ {Object : Type 0} (h : Heap Object) (q : FutureRef) (a e : Object) where
  session_at-complete_ne :
      (z : Option Zone) (r : FutureRef)
      → (r == q) ≡ false
      → session_at (complete a e z r h) q ≡ session_at h q
  session_at-complete_ne z r n = ground (arith, deref-complete h r q a e z)

  session_at-complete_all_ne :
      (rs : List FutureRef)
      → member q rs ≡ false
      → session_at (complete_all a e rs h) q ≡ session_at h q
  session_at-complete_all_ne rs n = ground (arith, deref-complete_all a e rs q h)

module _ {Object : Type 0} (h : Heap Object) where
  session_at-step_timeout :
      (m : Reqtable) (q : FutureRef)
      → Reqtable.Laws.Distinct m
      → Linked h m
      → session_at (Reqtable.step_timeout [] m h).2 q ≡ session_at h q
  unfolding step_timeout
  session_at-step_timeout m q d l = ground (arith, deref-step_timeout [] m h q (refs-Once h m d l))

  not-member-due : (m : Reqtable) (q : FutureRef) → is_due h q ≡ false → member q (due h m) ≡ false
  not-member-due m q n = ground (arith, due-is_due h m q)

module _ {Addr Tran Object : Type 0} ⦃rt : Runtime Object⦄ where
  on_response-IsPending :
      (msgid : ℕ) (a e : Object) (z : Option Zone) (s : State Addr Tran Object)
      → IsValid s
      → IsPending s
      → IsPending (on_response msgid a e z s)
  on_response-IsPending msgid a e z s v p =
      let m = s.session.reqtable in
      let left = All-erase _ msgid m p in
      elim (Option-cases (find msgid m)) [
        | inl unknown ↦ rw (on_response_unknown s msgid a e z unknown) left
        | inr (r, found) ↦ rw (on_response_known s msgid a e z r found) (
            All-both _ _ _ (Reqtable.erase msgid m)
              (λ x n w. session_at-complete_ne s.heap x.1 a e z r n ∙ w)
              (erase-apart s.heap msgid r m (All-find _ msgid r m found v.linked) v.distinct
                v.linked)
              left)
      ]

  sweep-IsPending :
      (s : State Addr Tran Object)
      → IsValid s
      → IsPending s
      → IsPending (step_timer_handler false s)
  sweep-IsPending s v p =
      let m = s.session.reqtable in
      rw (step_timer_handler_lem s (refs-Once s.heap m v.distinct v.linked)) (
        All-both _ _ _ (waiting s.heap m)
          (λ x n w.
            session_at-complete_all_ne (swept s) x.1 rt.nil timeout_object (due s.heap m)
              (not-member-due s.heap m x.1 n)
            ∙ session_at-step_timeout s.heap m x.1 v.distinct v.linked
            ∙ w)
          (waiting-not_due s.heap m) (All-waiting _ s.heap m p))

  step_timer_handler-IsPending :
      (aborted : Bool) (s : State Addr Tran Object)
      → IsValid s
      → IsPending s
      → IsPending (step_timer_handler aborted s)
  unfolding step_timer_handler
  step_timer_handler-IsPending true s v p = p
  step_timer_handler-IsPending false s v p = sweep-IsPending s v p

  -- In a valid session whose table holds only pending futures of that session, every step keeps it
  -- so: no future is completed behind the table's back.
  pub Step-IsPending :
      {s t : State Addr Tran Object} → Step rt s t → IsValid s → IsPending s → IsPending t
  unfolding next_msgid set_timeout register new_future
  Step-IsPending numbered v p = p
  Step-IsPending {s} (registered msgid) v p =
      let f = new_future msgid s.session.self s.session.timeout in
      All-insert _ msgid (allocate f s.heap).0 s.session.reqtable
        (ground (arith, deref-allocate_self s.heap f))
        (All-imp _ _ s.session.reqtable (λ e. session_at-allocate s.heap e.1 f s.session.self) p)
  Step-IsPending {s} (responded msgid a e z) v p = on_response-IsPending msgid a e z s v p
  Step-IsPending {s} lost_connection v p = rw (on_connect_failed_lem s) tt
  Step-IsPending {s} system_error v p = rw (on_system_error_lem s) tt
  Step-IsPending {s} (timer aborted) v p = step_timer_handler-IsPending aborted s v p
  Step-IsPending (configured sec) v p = p
  Step-IsPending (transport t) v p = p
  Step-IsPending {s} (attached c r) v p =
      All-imp _ _ s.session.reqtable (λ e w. session_at-attach s.heap e.1 c r ∙ w) p
