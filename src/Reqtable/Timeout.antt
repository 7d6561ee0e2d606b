-- ===== src/Reqtable/Timeout.antt =====
-- The sweep of the step timer over src/msgpack/rpc/reqtable.cc: which requests it gives up.
use mathlib.Core.List.{append_assoc, append-nil}
use mathlib.Core.Option
use msgpack_rpc_boost.Future.{step_timeout}
use msgpack_rpc_boost.Future.Heap.{Heap, FutureRef, deref, tick}
use msgpack_rpc_boost.Future.HeapLaws.{deref-tick, member, Once}
use msgpack_rpc_boost.Prelude.{
  ◌≡◌, refl, sym, Bool, false, none, some, List, [], ◌∷◌, ◌++◌, arith, ◌==◌, if◌then◌else◌, ltb,
  not, Option-cases, inl, inr,
}
use msgpack_rpc_boost.Reqtable
use msgpack_rpc_boost.Reqtable.{Reqtable}
use msgpack_rpc_boost.Reqtable.Laws.{refs}

module _ {Object : Type 0} where
  -- Whether the time of a future is up, as the sweep finds it.
  abbrev pub is_due : Heap Object → FutureRef → Bool
  is_due h r = elim (deref h r) [ none ↦ false | some f ↦ not (ltb 0 f.timeout) ]

  abbrev pub waiting : Heap Object → Reqtable → Reqtable
  waiting h [] = []
  waiting h ((id, r) ∷ m) = if is_due h r then waiting h m else (id, r) ∷ waiting h m

  abbrev pub due : Heap Object → Reqtable → List FutureRef
  due h [] = []
  due h ((id, r) ∷ m) = if is_due h r then r ∷ due h m else due h m

  tick-is_due : (r : FutureRef) (h : Heap Object) → (tick r h).1 ≡ is_due h r
  unfolding tick
  tick-is_due r h = elim (Option-cases (deref h r)) [
    | inl null ↦ ground arith
    | inr (f, found) ↦ ground arith
  ]

  is_due-other :
      (r q : FutureRef) (h : Heap Object) → (r == q) ≡ false → is_due (tick r h).0 q ≡ is_due h q
  is_due-other r q h n = ground (arith, deref-tick h r q)

  waiting-other :
      (r : FutureRef) (h : Heap Object) (m : Reqtable)
      → member r (refs m) ≡ false
      → (waiting (tick r h).0 m ≡ waiting h m) × (due (tick r h).0 m ≡ due h m)
  waiting-other r h [] n = (refl, refl)
  waiting-other r h ((id, q) ∷ m) n = ground (arith, waiting-other r h m, is_due-other r q h)

  -- The entries that stay are those whose time was not up when the sweep began, and those that are
  -- handed out are the others, in the order of the table.
  pub step_timeout-split :
      (out : List FutureRef) (m : Reqtable) (h : Heap Object)
      → Once (refs m)
      → ((Reqtable.step_timeout out m h).0 ≡ waiting h m)
        × ((Reqtable.step_timeout out m h).1 ≡ out ++ due h m)
  unfolding Reqtable.step_timeout
  step_timeout-split out [] h o = (refl, sym (append-nil out))
  step_timeout-split out ((id, r) ∷ m) h o = ground (
    arith,
    step_timeout-split (if is_due h r then out ++ r ∷ [] else out) m (tick r h).0 o.1,
    tick-is_due r h,
    waiting-other r h m,
    append_assoc out (r ∷ []) (due h m),
  )

  -- Every future in the table is counted down once, those whose time is up stay at 0, and no other
  -- future changes.
  pub deref-step_timeout :
      (out : List FutureRef) (m : Reqtable) (h : Heap Object) (q : FutureRef)
      → Once (refs m)
      → deref (Reqtable.step_timeout out m h).2 q ≡ (
          if member q (refs m) then Option.map (λ f. (step_timeout f).0) (deref h q) else deref h q)
  unfolding Reqtable.step_timeout
  deref-step_timeout out [] h q o = refl
  deref-step_timeout out ((id, r) ∷ m) h q o = ground (
    arith,
    deref-step_timeout (if (tick r h).1 then out ++ r ∷ [] else out) m (tick r h).0 q o.1,
    deref-tick h r q,
  )

  ran-tick :
      (r : FutureRef) (h : Heap Object)
      → ((tick r h).0.ran ≡ h.ran) × ((tick r h).0.posted ≡ h.posted)
  unfolding tick
  ran-tick r h = elim (Option-cases (deref h r)) [
    | inl null ↦ ground arith
    | inr (f, found) ↦ ground arith
  ]

  -- The sweep itself runs no callback.
  pub ran-step_timeout :
      (out : List FutureRef) (m : Reqtable) (h : Heap Object)
      → ((Reqtable.step_timeout out m h).2.ran ≡ h.ran)
        × ((Reqtable.step_timeout out m h).2.posted ≡ h.posted)
  unfolding Reqtable.step_timeout
  ran-step_timeout out [] h = (refl, refl)
  ran-step_timeout out ((id, r) ∷ m) h = ground (
    arith,
    ran-step_timeout (if (tick r h).1 then out ++ r ∷ [] else out) m (tick r h).0,
    ran-tick r h,
  )
