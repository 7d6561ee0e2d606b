-- ===== src/Session/TimedOut.antt =====
-- Futures of src/msgpack/rpc/session.cc that only their time completes.
use msgpack_rpc_boost.Exceptions.{timeout_object}
use msgpack_rpc_boost.Future.{FutureImpl, is_ready, set_result, step_timeout}
use msgpack_rpc_boost.Future.Heap.{Heap, FutureRef, deref, allocate}
use msgpack_rpc_boost.Future.HeapLaws.{deref-complete_all, member}
use msgpack_rpc_boost.Prelude.{
  ◌≡◌, ◌⊎◌, inl, inr, refl, ap, ◌∙◌, true, false, some, [], arith, get_elem?-append_inv, Bool-cases,
  Option-cases,
}
use msgpack_rpc_boost.Protocol.{Runtime}
use msgpack_rpc_boost.Reqtable.Entries.{refs-Once}
use msgpack_rpc_boost.Reqtable.Timeout.{deref-step_timeout, due}
use msgpack_rpc_boost.Session.{State, step_timer_handler}
use msgpack_rpc_boost.Session.Equations.{swept, step_timer_handler_lem}
use msgpack_rpc_boost.Session.Invariant.{IsValid}

-- Each future that is ready in `k` was ready in `h` with that error, or has timed out.
abbrev pub TimedOut : {Object : Type 0} → Runtime Object → Heap Object → Heap Object → Type 0
TimedOut {Object} rt h k =
    (r : FutureRef) (f : FutureImpl Object)
    → deref k r ≡ some f
    → is_ready f ≡ true
    → ((g : FutureImpl Object) × (deref h r ≡ some g) × (is_ready g ≡ true) × (f.error ≡ g.error))
      ⊎ (f.error ≡ timeout_object ⦃rt = rt⦄)

module _ {Object : Type 0} ⦃rt : Runtime Object⦄ where
  pub TimedOut-same : (h : Heap Object) → TimedOut rt h h
  TimedOut-same h r f here ready = inl (f, here, ready, refl)

  pub TimedOut-then : (h k l : Heap Object) → TimedOut rt h k → TimedOut rt k l → TimedOut rt h l
  TimedOut-then h k l a b r f here ready = elim (b r f here ready) [
    | inr late ↦ inr late
    | inl (g, there, done, same) ↦ elim (a r g there done) [
      | inr late ↦ inr (same ∙ late)
      | inl (i, before, been, alike) ↦ inl (i, before, been, same ∙ alike)
    ]
  ]

  pub TimedOut-allocate :
      (h : Heap Object) (f : FutureImpl Object)
      → is_ready f ≡ false
      → TimedOut rt h (allocate f h).1
  unfolding allocate
  TimedOut-allocate h f pending r g here ready = elim (get_elem?-append_inv h.futures f r g here) [
    | inl before ↦ inl (g, before, ready, refl)
    | inr new ↦ absurd (ground (arith, new, ready, pending))
  ]

  pub step_timer_handler-tran :
      {Addr Tran : Type 0} (s : State Addr Tran Object) → (step_timer_handler false s).tran ≡ s.tran
  unfolding step_timer_handler
  step_timer_handler-tran s = refl

  module _ {Addr Tran : Type 0} (s : State Addr Tran Object) (v : IsValid s) where
    pub TimedOut-step_timer_handler : TimedOut rt s.heap (step_timer_handler false s).heap
    unfolding step_timeout set_result is_ready
    TimedOut-step_timer_handler r f here ready =
        let m = s.session.reqtable in
        let out = due s.heap m in
        let once = refs-Once s.heap m v.distinct v.linked in
        let after =
          ap (λ (t : State Addr Tran Object). deref t.heap r) (step_timer_handler_lem s once)
          ∙ deref-complete_all rt.nil timeout_object out r (swept s) in
        let ticked = deref-step_timeout [] m s.heap r once in
        elim (Bool-cases (member r out)) [
          | inl over ↦ inr (ground (arith, after, over, here))
          | inr waiting ↦ elim (Option-cases (deref s.heap r)) [
            | inl null ↦ absurd (ground (arith, after, waiting, ticked, null, here))
            | inr (g, before) ↦ inl (
              g,
              before,
              ground (arith, after, waiting, ticked, before, here, ready),
              ground (arith, after, waiting, ticked, before, here),
            )
          ]
        ]
