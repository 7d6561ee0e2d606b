-- ===== src/Session/Invariant.antt =====
-- Two predicates on a session of src/msgpack/rpc/session.cc between two steps: that its table has each
-- id once and links every id to a future of that id, with a counter that is a 32-bit pattern; and
-- that the futures in the table are pending.
use msgpack_rpc_boost.Exceptions.{timeout_object}
use msgpack_rpc_boost.Future.{
  FutureImpl, SessionRef, Callback, Zone, set_result, step_timeout, attach_callback, new_future,
}
use msgpack_rpc_boost.Future.Heap.{Heap, FutureRef, deref, complete, complete_all, attach, allocate}
use msgpack_rpc_boost.Future.HeapLaws.{deref-complete, deref-complete_all, deref-attach}
use msgpack_rpc_boost.Prelude.{
  ℕ, ◌^◌, ◌<◌, ◌≡◌, ◌∙◌, Bool, true, false, Option, none, some, List, [], ◌∷◌, arith, All, All-imp,
  get_elem?-append, get_elem?-append_last, inl, inr, Option-cases,
}
use msgpack_rpc_boost.Protocol.{Runtime}
use msgpack_rpc_boost.Reqtable
use msgpack_rpc_boost.Reqtable.{Reqtable}
use msgpack_rpc_boost.Reqtable.Entries.{
  Entry, Linked, msgid_at, session_at, All-insert, All-erase, All-waiting, refs-Once,
  waiting-Distinct,
}
use msgpack_rpc_boost.Reqtable.Laws.{Distinct, find, insert-Distinct, erase-Distinct}
use msgpack_rpc_boost.Reqtable.Timeout.{deref-step_timeout, waiting, due}
use msgpack_rpc_boost.Session.{
  State, next_msgid, set_timeout, register, on_response, step_timer_handler, create,
}
use msgpack_rpc_boost.Session.Equations.{
  on_response_unknown, on_response_known, on_connect_failed_lem, on_system_error_lem, swept,
  step_timer_handler_lem,
}
use msgpack_rpc_boost.Session.Steps.{
  Step, numbered, registered, responded, lost_connection, system_error, timer, configured,
  transport, attached, Reach, start, next, gave_up,
}

module _ {Addr Tran Object : Type 0} where
  pub record IsValid (s : State Addr Tran Object) : Type 0 where
    pub distinct : Distinct s.session.reqtable
    pub linked : Linked s.heap s.session.reqtable
    pub counter : s.session.msgid_rr < 2 ^ 32

  -- Every future in the table still holds the session.
  abbrev pub IsPending : State Addr Tran Object → Type 0
  IsPending s = All (λ (e : Entry). session_at s.heap e.1 ≡ some s.session.self) s.session.reqtable

module _ {Object : Type 0} (h : Heap Object) (q : FutureRef) where
  pub msgid_at-complete :
      (a e : Object) (z : Option Zone) (r : FutureRef)
      → msgid_at (complete a e z r h) q ≡ msgid_at h q
  unfolding set_result
  msgid_at-complete a e z r = ground (arith, deref-complete h r q a e z)

  pub msgid_at-complete_all :
      (a e : Object) (rs : List FutureRef) → msgid_at (complete_all a e rs h) q ≡ msgid_at h q
  unfolding set_result
  msgid_at-complete_all a e rs = ground (arith, deref-complete_all a e rs q h)

  pub msgid_at-attach : (c : Callback) (r : FutureRef) → msgid_at (attach c r h) q ≡ msgid_at h q
  unfolding attach_callback
  msgid_at-attach c r = ground (arith, deref-attach h r q c)

  pub session_at-attach :
      (c : Callback) (r : FutureRef) → session_at (attach c r h) q ≡ session_at h q
  unfolding attach_callback
  session_at-attach c r = ground (arith, deref-attach h r q c)

  pub deref-allocate :
      (f g : FutureImpl Object) → deref h q ≡ some g → deref (allocate f h).1 q ≡ some g
  unfolding allocate
  deref-allocate f g e = get_elem?-append h.futures (f ∷ []) q g e

  pub msgid_at-allocate :
      (f : FutureImpl Object) (id : ℕ)
      → msgid_at h q ≡ some id
      → msgid_at (allocate f h).1 q ≡ some id
  msgid_at-allocate f id e = elim (Option-cases (deref h q)) [
    | inl null ↦ ground arith
    | inr (g, found) ↦ ground (arith, deref-allocate f g found)
  ]

  pub session_at-allocate :
      (f : FutureImpl Object) (s : SessionRef)
      → session_at h q ≡ some s
      → session_at (allocate f h).1 q ≡ some s
  session_at-allocate f s e = elim (Option-cases (deref h q)) [
    | inl null ↦ ground arith
    | inr (g, found) ↦ ground (arith, deref-allocate f g found)
  ]

pub deref-allocate_self :
    {Object : Type 0} (h : Heap Object) (f : FutureImpl Object)
    → deref (allocate f h).1 (allocate f h).0 ≡ some f
unfolding allocate
deref-allocate_self h f = get_elem?-append_last h.futures f

pub msgid_at-step_timeout :
    {Object : Type 0} (out : List FutureRef) (m : Reqtable) (h : Heap Object) (q : FutureRef)
    → Distinct m
    → Linked h m
    → msgid_at (Reqtable.step_timeout out m h).2 q ≡ msgid_at h q
unfolding step_timeout
msgid_at-step_timeout out m h q d l =
    ground (arith, deref-step_timeout out m h q (refs-Once h m d l))

-- A change of the heap that leaves the ids keeps the links.
Linked-heap :
    {Object : Type 0} (h k : Heap Object) (m : Reqtable)
    → ((q : FutureRef) → msgid_at k q ≡ msgid_at h q)
    → Linked h m
    → Linked k m
Linked-heap h k [] same l = tt
Linked-heap h k ((id, r) ∷ m) same l = (same r ∙ l.0, Linked-heap h k m same l.1)

module _ {Addr Tran Object : Type 0} ⦃rt : Runtime Object⦄ where
  pub register-IsValid :
      (msgid : ℕ) (s : State Addr Tran Object) → IsValid s → IsValid (register msgid s).1
  unfolding register new_future
  register-IsValid msgid s v =
      let f = new_future msgid s.session.self s.session.timeout in
      let r = (allocate f s.heap).0 in
      record {
        distinct = insert-Distinct msgid r s.session.reqtable v.distinct;
        linked =
            All-insert _ msgid r s.session.reqtable (ground (arith, deref-allocate_self s.heap f))
              (All-imp _ _ s.session.reqtable (λ e. msgid_at-allocate s.heap e.1 f e.0) v.linked);
        counter = v.counter;
      }

  on_response-IsValid :
      (msgid : ℕ) (a e : Object) (z : Option Zone) (s : State Addr Tran Object)
      → IsValid s
      → IsValid (on_response msgid a e z s)
  on_response-IsValid msgid a e z s v =
      let m = s.session.reqtable in
      let gone = erase-Distinct msgid m v.distinct in
      let left = All-erase _ msgid m v.linked in
      elim (Option-cases (find msgid m)) [
        | inl unknown ↦
            rw (on_response_unknown s msgid a e z unknown)
              (record { distinct = gone; linked = left; counter = v.counter })
        | inr (r, found) ↦ rw (on_response_known s msgid a e z r found) (record {
          distinct = gone;
          linked =
              Linked-heap s.heap (complete a e z r s.heap) (Reqtable.erase msgid m)
                (λ q. msgid_at-complete s.heap q a e z r) left;
          counter = v.counter;
        })
      ]

  pub step_timer_handler-IsValid :
      (aborted : Bool) (s : State Addr Tran Object)
      → IsValid s
      → IsValid (step_timer_handler aborted s)
  unfolding step_timer_handler
  step_timer_handler-IsValid true s v = record {
    distinct = v.distinct;
    linked = v.linked;
    counter = v.counter;
  }
  step_timer_handler-IsValid false s v =
      let m = s.session.reqtable in
      let out = due s.heap m in
      let h = complete_all rt.nil timeout_object out (swept s) in
      rw (step_timer_handler_lem s (refs-Once s.heap m v.distinct v.linked)) (record {
        distinct = waiting-Distinct s.heap m v.distinct;
        linked =
            Linked-heap s.heap h (waiting s.heap m)
              (λ q.
                msgid_at-complete_all (swept s) q rt.nil timeout_object out
                ∙ msgid_at-step_timeout [] m s.heap q v.distinct v.linked)
              (All-waiting _ s.heap m v.linked);
        counter = v.counter;
      })

  -- Each step keeps the invariant, and so does a wait that gives up.
  pub Step-IsValid : {s t : State Addr Tran Object} → Step rt s t → IsValid s → IsValid t
  unfolding next_msgid set_timeout
  Step-IsValid numbered v = record {
    distinct = v.distinct;
    linked = v.linked;
    counter = omega arith;
  }
  Step-IsValid {s} (registered msgid) v = register-IsValid msgid s v
  Step-IsValid {s} (responded msgid a e z) v = on_response-IsValid msgid a e z s v
  Step-IsValid {s} lost_connection v =
      rw (on_connect_failed_lem s) (record { distinct = tt; linked = tt; counter = v.counter })
  Step-IsValid {s} system_error v =
      rw (on_system_error_lem s) (record { distinct = tt; linked = tt; counter = v.counter })
  Step-IsValid {s} (timer aborted) v = step_timer_handler-IsValid aborted s v
  Step-IsValid (configured sec) v = record {
    distinct = v.distinct;
    linked = v.linked;
    counter = v.counter;
  }
  Step-IsValid (transport t) v = record {
    distinct = v.distinct;
    linked = v.linked;
    counter = v.counter;
  }
  Step-IsValid {s} (attached c r) v = record {
    distinct = v.distinct;
    linked =
        Linked-heap s.heap (attach c r s.heap) s.session.reqtable
          (λ q. msgid_at-attach s.heap q c r) v.linked;
    counter = v.counter;
  }

  pub Reach-IsValid : {s t : State Addr Tran Object} → IsValid s → Reach rt s t → IsValid t
  Reach-IsValid v start = v
  Reach-IsValid v (next path st) = Step-IsValid st (Reach-IsValid v path)
  Reach-IsValid v (gave_up {t} r path) =
      let w = Reach-IsValid v path in
      record {
        distinct = w.distinct;
        linked =
            Linked-heap t.heap (complete rt.nil timeout_object none r t.heap) t.session.reqtable
              (λ q. msgid_at-complete t.heap q rt.nil timeout_object none r) w.linked;
        counter = w.counter;
      }

  -- A new session is valid, and so is whatever a run of steps and of waits that give up makes of
  -- it: each id stands in the table once and names a future of that id, and the counter stays a
  -- 32-bit pattern.
  pub create-Reach-IsValid :
      (self : SessionRef) (addr : Addr) (tran : Tran) (timeout : ℕ) (h : Heap Object)
      {t : State Addr Tran Object}
      → Reach rt (create self addr tran timeout h) t
      → IsValid t
  unfolding create
  create-Reach-IsValid self addr tran timeout h path =
      Reach-IsValid (record { distinct = tt; linked = tt; counter = omega arith }) path
