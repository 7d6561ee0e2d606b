-- ===== src/Future/HeapLaws.antt =====
-- What a write through one shared pointer leaves of the futures behind the others.
use mathlib.Core.List.{append_assoc, append-nil}
use mathlib.Core.Option
use msgpack_rpc_boost.Future.{Callback, Zone, set_result, step_timeout, attach_callback}
use msgpack_rpc_boost.Future.Heap.{
  Heap, FutureRef, deref, note, complete, complete_all, tick, attach,
}
use msgpack_rpc_boost.Prelude.{
  ◌≡◌, refl, sym, Bool, false, ◌||◌, Option, none, some, List, [], ◌∷◌, ◌++◌, ◌∙◌, arith,
  get_elem?-set, ◌==◌, if◌then◌else◌, Option-cases, inl, inr,
}

module _ {Object : Type 0} (h : Heap Object) (r q : FutureRef) where
  pub deref-complete :
      (a e : Object) (z : Option Zone)
      → deref (complete a e z r h) q
        ≡ (if r == q then Option.map (λ f. (set_result a e z f).0) (deref h q) else deref h q)
  unfolding complete set_result
  deref-complete a e z = elim (Option-cases (deref h r)) [
    | inl null ↦ ground arith
    | inr (f, found) ↦ ground (arith, get_elem?-set h.futures r q (set_result a e z f).0)
  ]

  pub deref-tick :
      deref (tick r h).0 q
      ≡ (if r == q then Option.map (λ f. (step_timeout f).0) (deref h q) else deref h q)
  unfolding tick
  deref-tick = elim (Option-cases (deref h r)) [
    | inl null ↦ ground arith
    | inr (f, found) ↦ ground (arith, get_elem?-set h.futures r q (step_timeout f).0)
  ]

  pub deref-attach :
      (c : Callback)
      → deref (attach c r h) q
        ≡ (if r == q then Option.map (λ f. (attach_callback c f).0) (deref h q) else deref h q)
  unfolding attach
  deref-attach c = elim (Option-cases (deref h r)) [
    | inl null ↦ ground arith
    | inr (f, found) ↦ ground (arith, get_elem?-set h.futures r q (attach_callback c f).0)
  ]

abbrev pub member : FutureRef → List FutureRef → Bool
member q [] = false
member q (r ∷ rs) = (r == q) || member q rs

-- The callbacks that completing each of these runs.
abbrev pub calls : (FutureRef → Option Callback) → List FutureRef → List (Callback × FutureRef)
calls c [] = []
calls c (r ∷ rs) = note (c r) r ++ calls c rs

-- No future twice.
abbrev pub Once : List FutureRef → Type 0
Once [] = Unit {0}
Once (r ∷ rs) = (member r rs ≡ false) × Once rs

module _ {Object : Type 0} where
  abbrev pub callback_at : Heap Object → FutureRef → Option Callback
  callback_at h r = elim (deref h r) [ none ↦ none | some f ↦ f.callback ]

  pub deref-complete_all :
      (a e : Object) (rs : List FutureRef) (q : FutureRef) (h : Heap Object)
      → deref (complete_all a e rs h) q ≡ (
          if member q rs
          then Option.map (λ f. (set_result a e none f).0) (deref h q)
          else deref h q)
  unfolding complete_all set_result
  deref-complete_all a e [] q h = refl
  deref-complete_all a e (r ∷ rs) q h =
      ground
        (arith, deref-complete_all a e rs q (complete a e none r h), deref-complete h r q a e none)

  callback_at-complete :
      (a e : Object) (z : Option Zone) (r q : FutureRef) (h : Heap Object)
      → callback_at (complete a e z r h) q ≡ (if r == q then none else callback_at h q)
  unfolding set_result
  callback_at-complete a e z r q h = ground (arith, deref-complete h r q a e z)

  pub ran-complete :
      (a e : Object) (z : Option Zone) (r : FutureRef) (h : Heap Object)
      → (complete a e z r h).ran ≡ h.ran ++ note (callback_at h r) r
  unfolding complete set_result
  ran-complete a e z r h = elim (Option-cases (deref h r)) [
    | inl null ↦ ground (arith, append-nil h.ran)
    | inr (f, found) ↦ ground arith
  ]

  calls-other :
      (a e : Object) (z : Option Zone) (r : FutureRef) (rs : List FutureRef) (h : Heap Object)
      → member r rs ≡ false
      → calls (callback_at (complete a e z r h)) rs ≡ calls (callback_at h) rs
  calls-other a e z r [] h n = refl
  calls-other a e z r (q ∷ rs) h n =
      ground (arith, calls-other a e z r rs h, callback_at-complete a e z r q h)

  pub ran-complete_all :
      (a e : Object) (rs : List FutureRef) (h : Heap Object)
      → Once rs
      → (complete_all a e rs h).ran ≡ h.ran ++ calls (callback_at h) rs
  unfolding complete_all
  ran-complete_all a e [] h o = sym (append-nil h.ran)
  ran-complete_all a e (r ∷ rs) h o =
      ran-complete_all a e rs (complete a e none r h) o.1
      ∙ rw (ran-complete a e none r h, calls-other a e none r rs h o.0)
          (append_assoc h.ran (note (callback_at h r) r) (calls (callback_at h) rs))
