-- ===== src/Future/Commute.antt =====
-- Completing two futures of src/msgpack/rpc/future.cc in either order.
use mathlib.Core.List.{append-nil}
use msgpack_rpc_boost.Future.{FutureImpl, Callback, Zone, set_result}
use msgpack_rpc_boost.Future.Heap.{Heap, FutureRef, deref, note, complete}
use msgpack_rpc_boost.Future.HeapLaws.{callback_at}
use msgpack_rpc_boost.Prelude.{
  zero, suc, ℕ, ◌≡◌, ◌≢◌, ◌∙◌, refl, sym, ap, Option, none, some, List, [], ◌∷◌, ◌++◌, arith,
  Option-cases, inl, inr, set, get_elem?-set_ne,
}

set_comm {ℓ} :
    {A : Type ℓ} (i j : ℕ) (u v : A) (xs : List A)
    → i ≢ j
    → set (set xs i u) j v ≡ set (set xs j v) i u
set_comm i j u v [] n = refl
set_comm zero zero u v (x ∷ xs) n = absurd (n refl)
set_comm zero (suc j) u v (x ∷ xs) n = refl
set_comm (suc i) zero u v (x ∷ xs) n = refl
set_comm (suc i) (suc j) u v (x ∷ xs) n = ap (λ l. x ∷ l) (set_comm i j u v xs (λ e. n (ap suc e)))

module _ {Object : Type 0} where
  -- Another order of the callbacks that ran.
  abbrev pub ran_as : List (Callback × FutureRef) → Heap Object → Heap Object
  ran_as l h = record h { ran = l }

  pub complete_known :
      (a e : Object) (z : Option Zone) (r : FutureRef) (h : Heap Object) (f : FutureImpl Object)
      → deref h r ≡ some f
      → complete a e z r h ≡ record h {
        futures = set h.futures r (set_result a e z f).0;
        ran = h.ran ++ note (set_result a e z f).1 r;
      }
  unfolding complete
  complete_known a e z r h f found = rw (complete, found) refl

  complete_null :
      (a e : Object) (z : Option Zone) (r : FutureRef) (h : Heap Object)
      → deref h r ≡ none
      → complete a e z r h ≡ h
  unfolding complete
  complete_null a e z r h null = rw (complete, null) refl

  pub complete_ran :
      (a e : Object) (z : Option Zone) (r : FutureRef) (h : Heap Object)
      (l : List (Callback × FutureRef))
      → complete a e z r (ran_as l h) ≡ ran_as (l ++ note (callback_at h r) r) (complete a e z r h)
  unfolding set_result
  complete_ran a e z r h l = elim (Option-cases (deref h r)) [
    | inl null ↦
        let quiet : note (callback_at h r) r ≡ [] = ground (arith, null) in
        rw (complete_null a e z r h null, complete_null a e z r (ran_as l h) null, quiet)
          (ap (λ k. ran_as k h) (sym (append-nil l)))
    | inr (f, found) ↦
        let run : note (callback_at h r) r ≡ note f.callback r = ground (arith, found) in
        let done = λ (k : List (Callback × FutureRef)). record h {
          futures = set h.futures r (set_result a e z f).0;
          ran = k;
        } in
        complete_known a e z r (ran_as l h) f found
        ∙ ap (λ k. done (l ++ k)) (sym run)
        ∙ ap (ran_as (l ++ note (callback_at h r) r)) (sym (complete_known a e z r h f found))
  ]

  -- Two different futures are completed in either order, but for the order of the callbacks.
  pub complete_comm :
      (a e b d : Object) (z y : Option Zone) (r q : FutureRef) (f g : FutureImpl Object)
      (h : Heap Object)
      → r ≢ q
      → deref h r ≡ some f
      → deref h q ≡ some g
      → (complete b d y q (complete a e z r h)
          ≡ ran_as
              ((h.ran ++ note f.callback r) ++ note g.callback q)
              (complete a e z r (complete b d y q h)))
        × ((complete a e z r (complete b d y q h)).ran
            ≡ (h.ran ++ note g.callback q) ++ note f.callback r)
  unfolding set_result
  complete_comm a e b d z y r q f g h n found other =
      let f' = (set_result a e z f).0 in
      let g' = (set_result b d y g).0 in
      let h1 = record h { futures = set h.futures r f'; ran = h.ran ++ note f.callback r } in
      let h2 = record h { futures = set h.futures q g'; ran = h.ran ++ note g.callback q } in
      let then_g = get_elem?-set_ne h.futures r q f' n ∙ other in
      let then_f = get_elem?-set_ne h.futures q r g' (λ s. n (sym s)) ∙ found in
      let late = (h.ran ++ note f.callback r) ++ note g.callback q in
      rw (complete_known a e z r h f found, complete_known b d y q h g other)
        (
          complete_known b d y q h1 g then_g
              ∙ ap (λ fs. record h { futures = fs; ran = late }) (set_comm r q f' g' h.futures n)
              ∙ ap (ran_as late) (sym (complete_known a e z r h2 f then_f)),
          ap (λ (k : Heap Object). k.ran) (complete_known a e z r h2 f then_f),
        )
