-- ===== src/Session/Expiry.antt =====
-- How long a request of src/msgpack/rpc/session.cc waits: the step timer fires once a second.
use msgpack_rpc_boost.Exceptions.{timeout_object}
use msgpack_rpc_boost.Future.{FutureImpl, set_result, step_timeout}
use msgpack_rpc_boost.Future.Heap.{FutureRef, deref}
use msgpack_rpc_boost.Future.HeapLaws.{deref-complete_all}
use msgpack_rpc_boost.Prelude.{
  ℕ, zero, suc, ◌-◌, ◌≤◌, ◌≡◌, ◌∙◌, refl, true, false, none, some, [], arith, ltb,
}
use msgpack_rpc_boost.Protocol.{Runtime}
use msgpack_rpc_boost.Reqtable.Entries.{refs-Once, find-waiting, due-member, due-is_due}
use msgpack_rpc_boost.Reqtable.Laws.{find, member-refs}
use msgpack_rpc_boost.Reqtable.Timeout.{deref-step_timeout, due}
use msgpack_rpc_boost.Session.{State, step_timer_handler}
use msgpack_rpc_boost.Session.Equations.{swept, step_timer_handler_lem}
use msgpack_rpc_boost.Session.Invariant.{IsValid, step_timer_handler-IsValid}
use msgpack_rpc_boost.Session.Response.{answered}

module _ {Addr Tran Object : Type 0} ⦃rt : Runtime Object⦄ where
  -- `n` rounds of the timer.
  abbrev pub seconds : ℕ → State Addr Tran Object → State Addr Tran Object
  seconds zero s = s
  seconds (suc n) s = seconds n (step_timer_handler false s)

  module _ (s : State Addr Tran Object) (id : ℕ) (r : FutureRef) (f : FutureImpl Object)
      (v : IsValid s) (found : find id s.session.reqtable ≡ some r)
      (here : deref s.heap r ≡ some f) where
    deref-swept : deref (swept s) r ≡ some (step_timeout f).0
    deref-swept = ground (
      arith,
      deref-step_timeout [] s.session.reqtable s.heap r
          (refs-Once s.heap s.session.reqtable v.distinct v.linked),
      member-refs s.session.reqtable id r found,
    )

    second_left :
        ltb 0 f.timeout ≡ true
        → (find id (step_timer_handler false s).session.reqtable ≡ some r)
          × (deref (step_timer_handler false s).heap r
              ≡ some (record f { timeout = f.timeout - 1 }))
    second_left left =
        let m = s.session.reqtable in
        let out = due s.heap m in
        rw (step_timer_handler_lem s (refs-Once s.heap m v.distinct v.linked)) (
          ground (arith, find-waiting s.heap m id r v.distinct found),
          unfold step_timeout in
              ground (
                arith,
                deref-complete_all rt.nil timeout_object out r (swept s),
                deref-swept,
                due-is_due s.heap m r,
              ),
        )

    second_over :
        ltb 0 f.timeout ≡ false
        → (find id (step_timer_handler false s).session.reqtable ≡ none)
          × (deref (step_timer_handler false s).heap r
              ≡ some (answered rt.nil timeout_object none f))
    second_over over =
        let m = s.session.reqtable in
        let out = due s.heap m in
        rw (step_timer_handler_lem s (refs-Once s.heap m v.distinct v.linked)) (
          ground (arith, find-waiting s.heap m id r v.distinct found),
          unfold step_timeout set_result in
              ground (
                arith,
                deref-complete_all rt.nil timeout_object out r (swept s),
                deref-swept,
                due-member s.heap m id r found,
              ),
        )

  waits :
      (k : ℕ) (s : State Addr Tran Object) (id : ℕ) (r : FutureRef) (f : FutureImpl Object)
      → IsValid s
      → find id s.session.reqtable ≡ some r
      → deref s.heap r ≡ some f
      → k ≤ f.timeout
      → (find id (seconds k s).session.reqtable ≡ some r)
        × (deref (seconds k s).heap r ≡ some (record f { timeout = f.timeout - k }))
        × IsValid (seconds k s)
  waits zero s id r f v found here le = (found, here ∙ ground arith, v)
  waits (suc k) s id r f v found here le =
      let (found', here') = second_left s id r f v found here (ground arith) in
      let (last, left, w) =
        waits k (step_timer_handler false s) id r (record f { timeout = f.timeout - 1 })
          (step_timer_handler-IsValid false s v) found' here' (omega arith) in
      (last, left ∙ ground arith, w)

  after_last :
      (k : ℕ) (s : State Addr Tran Object)
      → seconds (suc k) s ≡ step_timer_handler false (seconds k s)
  after_last zero s = refl
  after_last (suc k) s = after_last k (step_timer_handler false s)

  -- A request of a valid session whose future has `f.timeout` seconds left stays in the table,
  -- pending and counted down, through that many rounds of the timer and any fewer; in the next
  -- round it leaves the table and its future is completed with a nil result and the timeout error.
  pub request_expires :
      (k : ℕ) (s : State Addr Tran Object) (id : ℕ) (r : FutureRef) (f : FutureImpl Object)
      → IsValid s
      → find id s.session.reqtable ≡ some r
      → deref s.heap r ≡ some f
      → k ≤ f.timeout
      → (find id (seconds k s).session.reqtable ≡ some r)
        × (deref (seconds k s).heap r ≡ some (record f { timeout = f.timeout - k }))
        × (find id (seconds (suc f.timeout) s).session.reqtable ≡ none)
        × (deref (seconds (suc f.timeout) s).heap r
            ≡ some (answered rt.nil timeout_object none (record f { timeout = 0 })))
  request_expires k s id r f v found here le =
      let (there, left, _) = waits k s id r f v found here le in
      let (last, zeroed, w) = waits f.timeout s id r f v found here (omega arith) in
      let over =
        second_over (seconds f.timeout s) id r (record f { timeout = f.timeout - f.timeout }) w last
          zeroed (ground arith) in
      (
        there,
        left,
        rw (after_last f.timeout s) over.0,
        rw (after_last f.timeout s) (over.1 ∙ ground arith),
      )
