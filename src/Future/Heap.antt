-- ===== src/Future/Heap.antt =====
-- The futures that shared pointers name, and the callbacks that have run, oldest first: what
-- src/msgpack/rpc/future.cc and session.cc change through a `shared_future`.
use msgpack_rpc_boost.Future.{FutureImpl, Callback, Zone, set_result, step_timeout, attach_callback}
use msgpack_rpc_boost.Prelude.{
  ℕ, Bool, false, Option, none, some, List, [], ◌∷◌, ◌++◌, get_elem?, set, length,
}

abbrev pub FutureRef : Type 0
FutureRef = ℕ

-- `posted` is what was handed to the loop, `ran` what was called in place.
pub record Heap (Object : Type 0) : Type 0 where
  pub futures : List (FutureImpl Object)
  pub ran : List (Callback × FutureRef)
  pub posted : List (Callback × FutureRef)

abbrev pub note : Option Callback → FutureRef → List (Callback × FutureRef)
note none r = []
note (some c) r = (c, r) ∷ []

module _ {Object : Type 0} where
  abbrev pub deref : Heap Object → FutureRef → Option (FutureImpl Object)
  deref h r = get_elem? h.futures r

  -- `new future_impl(...)`: the new pointer is the old number of futures.
  unfoldable pub allocate : FutureImpl Object → Heap Object → FutureRef × Heap Object
  allocate f h = (length h.futures, record h { futures = h.futures ++ f ∷ [] })

  -- `f->set_result(result, error, z)`
  unfoldable pub complete : Object → Object → Option Zone → FutureRef → Heap Object → Heap Object
  unfolding set_result
  complete result error z r h = elim (deref h r) [
    | none ↦ h
    | some f ↦
        let (f', c) = set_result result error z f in
        record h { futures = set h.futures r f'; ran = h.ran ++ note c r }
  ]

  -- The loops `for (it = all.begin(); ...) f->set_result(object(), error, auto_zone())`.
  unfoldable pub complete_all : Object → Object → List FutureRef → Heap Object → Heap Object
  complete_all result error [] h = h
  complete_all result error (r ∷ rs) h =
      complete_all result error rs (complete result error none r h)

  -- `f->step_timeout()`
  unfoldable pub tick : FutureRef → Heap Object → Heap Object × Bool
  unfolding step_timeout
  tick r h = elim (deref h r) [
    | none ↦ (h, false)
    | some f ↦ let (f', up) = step_timeout f in (record h { futures = set h.futures r f' }, up)
  ]

  -- `f.attach_callback(func)`
  unfoldable pub attach : Callback → FutureRef → Heap Object → Heap Object
  unfolding attach_callback
  attach func r h = elim (deref h r) [
    | none ↦ h
    | some f ↦
        let (f', c) = attach_callback func f in
        record h { futures = set h.futures r f'; posted = h.posted ++ note c r }
  ]
