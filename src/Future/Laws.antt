-- ===== src/Future/Laws.antt =====
-- Sequences of calls on one future of src/msgpack/rpc/future.cc, and the callbacks that they run.
use mathlib.Core.List.{append_assoc}
use msgpack_rpc_boost.Future.{
  FutureImpl, Callback, Zone, is_ready, set_result, attach_callback, step_timeout,
}
use msgpack_rpc_boost.Prelude.{
  ◌≡◌, refl, sym, Bool, true, false, ◌||◌, Option, none, some, List, [], ◌∷◌, ◌++◌, arith,
}

-- What can happen to one future, in any order and from any thread: each takes the future's lock.
pub data Event (Object : Type 0) : Type 0 where
  attached : Callback → Event Object
  completed : Object → Object → Option Zone → Event Object
  ticked : Event Object

abbrev called : Option Callback → List Callback
called none = []
called (some c) = c ∷ []

module _ {Object : Type 0} where
  -- The future after an event, and the callbacks that the event ran or handed to the loop.
  pub react : Event Object → FutureImpl Object → FutureImpl Object × List Callback
  unfolding set_result attach_callback step_timeout
  react (attached c) f = let (f', ran) = attach_callback c f in (f', called ran)
  react (completed r e z) f = let (f', ran) = set_result r e z f in (f', called ran)
  react ticked f = ((step_timeout f).0, [])

  pub history : List (Event Object) → FutureImpl Object → FutureImpl Object × List Callback
  history [] f = (f, [])
  history (e ∷ es) f =
      let (f', ran) = react e f in let (f'', later) = history es f' in (f'', ran ++ later)

  abbrev pub completes : List (Event Object) → Bool
  completes [] = false
  completes (completed r e z ∷ es) = true
  completes (_ ∷ es) = completes es

  abbrev pub attaches : List (Event Object) → Bool
  attaches [] = false
  attaches (attached c ∷ es) = true
  attaches (_ ∷ es) = attaches es

  history-append :
      (es ds : List (Event Object)) (f : FutureImpl Object)
      → (history (es ++ ds) f).1 ≡ (history es f).1 ++ (history ds (history es f).0).1
  unfolding history
  history-append [] ds f = refl
  history-append (e ∷ es) ds f =
      rw (history-append es ds (react e f).0) (sym (append_assoc (react e f).1 _ _))

  -- With no callback registered and none attached, no callback runs.
  history_quiet :
      (es : List (Event Object)) (f : FutureImpl Object)
      → attaches es ≡ false
      → f.callback ≡ none
      → ((history es f).1 ≡ [])
        × ((history es f).0.callback ≡ none)
        × (is_ready (history es f).0 ≡ (completes es || is_ready f))
  unfolding history react is_ready
  history_quiet [] f a c = ground arith
  history_quiet (attached d ∷ es) f a c = cc
  history_quiet (completed r e z ∷ es) f a c =
      ground (arith, history_quiet es (react (completed r e z) f).0)
  history_quiet (ticked ∷ es) f a c = ground (arith, history_quiet es (react ticked f).0)

  -- A registered callback runs at the first completion, and not again.
  history_registered :
      (es : List (Event Object)) (f : FutureImpl Object) (c : Callback)
      → attaches es ≡ false
      → completes es ≡ true
      → f.callback ≡ some c
      → (history es f).1 ≡ c ∷ []
  unfolding history react
  history_registered [] f c a d e = cc
  history_registered (attached b ∷ es) f c a d e = cc
  history_registered (completed r x z ∷ es) f c a d e =
      ground (arith, history_quiet es (react (completed r x z) f).0)
  history_registered (ticked ∷ es) f c a d e =
      ground (arith, history_registered es (react ticked f).0 c)

  -- A callback that is attached once, at any point among completions and ticks of the step timer,
  -- is called exactly once in all, in place or through the loop, if the future is completed at
  -- least once before or after; however many completions there are.
  pub callback_exactly_once :
      (es ds : List (Event Object)) (f : FutureImpl Object) (c : Callback)
      → f.callback ≡ none
      → is_ready f ≡ false
      → attaches es ≡ false
      → attaches ds ≡ false
      → (completes es || completes ds) ≡ true
      → (history (es ++ attached c ∷ ds) f).1 ≡ c ∷ []
  unfolding history react is_ready
  callback_exactly_once es ds f c n p a b d =
      let g = (history es f).0 in
      let before = history_quiet es f a n in
      rw (history-append es (attached c ∷ ds) f) (
        ground (
          arith,
          before,
          history_quiet ds (react (attached c) g).0,
          history_registered ds (react (attached c) g).0 c,
        ))

  -- Once a future is ready no event makes it pending again.
  pub is_ready-history :
      (es : List (Event Object)) (f : FutureImpl Object)
      → is_ready f ≡ true
      → is_ready (history es f).0 ≡ true
  unfolding history react is_ready
  is_ready-history [] f h = h
  is_ready-history (attached c ∷ es) f h =
      ground (arith, is_ready-history es (react (attached c) f).0)
  is_ready-history (completed r x z ∷ es) f h =
      ground (arith, is_ready-history es (react (completed r x z) f).0)
  is_ready-history (ticked ∷ es) f h = ground (arith, is_ready-history es (react ticked f).0)
