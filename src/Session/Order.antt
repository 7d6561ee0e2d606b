-- ===== src/Session/Order.antt =====
-- Responses to a session of src/msgpack/rpc/session.cc may come in any order.
use mathlib.Core.List.{append_assoc, Permᴰ}
use mathlib.Core.List.Permᴰ as Perm
use msgpack_rpc_boost.Future.{FutureImpl, Callback}
use msgpack_rpc_boost.Future.Heap.{Heap, FutureRef, deref, note}
use msgpack_rpc_boost.Future.Commute.{ran_as, complete_comm}
use msgpack_rpc_boost.Prelude.{
  ℕ, ◌≡◌, ◌≢◌, ◌∙◌, refl, sym, ap, subst, true, Option, none, some, List, ◌++◌, arith, Option-cases,
  inl, inr,
}
use msgpack_rpc_boost.Protocol.{Runtime}
use msgpack_rpc_boost.Reqtable
use msgpack_rpc_boost.Reqtable.{Reqtable}
use msgpack_rpc_boost.Reqtable.Entries.{msgid_at, All-find}
use msgpack_rpc_boost.Reqtable.Laws.{find, find-erase, erase_comm}
use msgpack_rpc_boost.Session.{State}
use msgpack_rpc_boost.Session.Invariant.{IsValid, Step-IsValid}
use msgpack_rpc_boost.Session.Steps.{responded}
use msgpack_rpc_boost.Session.Replies.{
  Reply, differ, Differ, Differ-Permᴰ, reply, replies, completed, entry, with, reply_lem, ran_then,
  Same, Same-refl, Same-trans, replies-Same,
}

module _ {Object : Type 0} where
  found_future :
      (h : Heap Object) (r : FutureRef) (id : ℕ)
      → msgid_at h r ≡ some id
      → (f : FutureImpl Object) × (deref h r ≡ some f)
  found_future h r id e = elim (Option-cases (deref h r)) [
    | inl null ↦ absurd (ground (arith, null, e))
    | inr (f, there) ↦ (f, there)
  ]

perm_tail : {A : Type 0} (l a b : List A) → Permᴰ ((l ++ a) ++ b) ((l ++ b) ++ a)
perm_tail l a b =
    subst (λ k. Permᴰ k ((l ++ b) ++ a)) (sym (append_assoc l a b))
      (subst (Permᴰ (l ++ (a ++ b))) (sym (append_assoc l b a))
        (Perm.append_left l (Perm.append_comm a b)))

module _ {Addr Tran Object : Type 0} ⦃rt : Runtime Object⦄ where
  reply-reply :
      (x y : Reply Object) (s : State Addr Tran Object)
      → IsValid s
      → differ x y ≡ true
      → reply y (reply x s)
        ≡ with
            (Reqtable.erase y.msgid (Reqtable.erase x.msgid s.session.reqtable))
            (completed (entry y s) y (completed (entry x s) x s.heap))
            s
  reply-reply x y s v apart =
      let m = Reqtable.erase x.msgid s.session.reqtable in
      let h = completed (entry x s) x s.heap in
      let kept : find y.msgid m ≡ entry y s =
        ground (arith, find-erase y.msgid x.msgid s.session.reqtable v.distinct) in
      ap (reply y) (reply_lem x s)
      ∙ reply_lem y (with m h s)
      ∙ ap (λ o. with (Reqtable.erase y.msgid m) (completed o y h) s) kept

  -- Two responses with different ids, in a valid session.
  module _ (x y : Reply Object) (s : State Addr Tran Object) (v : IsValid s)
      (apart : differ x y ≡ true) where
    swapped_heap :
        (o p : Option FutureRef)
        → entry x s ≡ o
        → entry y s ≡ p
        → let k = completed o x (completed p y s.heap) in
          (l : List (Callback × FutureRef)) × (completed p y (completed o x s.heap) ≡ ran_as l k)
          × Permᴰ l k.ran
    swapped_heap none p e g =
        ((completed p y s.heap).ran, refl, Perm.refl (completed p y s.heap).ran)
    swapped_heap (some r) none e g =
        ((completed (some r) x s.heap).ran, refl, Perm.refl (completed (some r) x s.heap).ran)
    swapped_heap (some r) (some q) e g =
        let at_r = All-find _ x.msgid r s.session.reqtable e v.linked in
        let at_q = All-find _ y.msgid q s.session.reqtable g v.linked in
        let (f, here) = found_future s.heap r x.msgid at_r in
        let (k, there) = found_future s.heap q y.msgid at_q in
        let other : r ≢ q = λ same. ground (arith, at_r, at_q, apart, same) in
        let (swapped, ran) =
          complete_comm x.result x.error y.result y.error x.zone y.zone r q f k s.heap other here
            there in
        (
          (s.heap.ran ++ note f.callback r) ++ note k.callback q,
          swapped,
          subst (Permᴰ _) (sym ran) (perm_tail s.heap.ran (note f.callback r) (note k.callback q)),
        )

    swapped-Same : Same (reply y (reply x s)) (reply x (reply y s))
    swapped-Same =
        let m = s.session.reqtable in
        let other : differ y x ≡ true = ground arith in
        let (l, e, p) = swapped_heap (entry x s) (entry y s) refl refl in
        let back = reply-reply y x s v other in
        (
          l,
          reply-reply x y s v apart
              ∙ ap (λ h. with (Reqtable.erase y.msgid (Reqtable.erase x.msgid m)) h s) e
              ∙ ap
                  (λ k.
                    with k (ran_as l (completed (entry x s) x (completed (entry y s) y s.heap))) s)
                  (erase_comm y.msgid x.msgid m (λ same. ground (arith, apart, same)))
              ∙ ap (ran_then l) (sym back),
          subst (Permᴰ l) (ap (λ (t : State Addr Tran Object). t.heap.ran) (sym back)) p,
        )

  replies-Permᴰ :
      {xs ys : List (Reply Object)}
      → Permᴰ xs ys
      → (s : State Addr Tran Object) → IsValid s
      → Differ xs
      → Same (replies xs s) (replies ys s)
  replies-Permᴰ Permᴰ.nil s v d = Same-refl s
  replies-Permᴰ (Permᴰ.cons {a} {b} {l₁} {l₂} e p) s v (_, d) =
      subst (λ x. Same (replies l₁ (reply a s)) (replies l₂ (reply x s))) e
        (replies-Permᴰ p (reply a s) (Step-IsValid (responded a.msgid a.result a.error a.zone) v) d)
  replies-Permᴰ (Permᴰ.swap {a} {b} {a'} {b'} {l} e f) s v ((ab, _), _) =
      subst (λ x. Same (replies l (reply b (reply a s))) (replies l (reply b' (reply x s)))) f
        (subst (λ x. Same (replies l (reply b (reply a s))) (replies l (reply x (reply b s)))) e
          (replies-Same l (swapped-Same a b s v ab)))
  replies-Permᴰ (Permᴰ.trans p q) s v d =
      Same-trans (replies-Permᴰ p s v d) (replies-Permᴰ q s v (Differ-Permᴰ p d))

  -- Responses with different ids may come to a valid session in any order: the session, its transport
  -- and all futures end the same, whatever ids are in the table, and the same callbacks have run,
  -- only in another order.
  pub replies_any_order :
      {xs ys : List (Reply Object)} (s : State Addr Tran Object)
      → IsValid s
      → Differ xs
      → Permᴰ xs ys
      → let t = replies xs s in
        let u = replies ys s in
        (t.session ≡ u.session)
        × (t.tran ≡ u.tran)
        × (t.heap.futures ≡ u.heap.futures)
        × (t.heap.posted ≡ u.heap.posted)
        × Permᴰ t.heap.ran u.heap.ran
  replies_any_order {ys} s v d p =
      let (l, e, q) = replies-Permᴰ p s v d in
      (
        ap (λ (t : State Addr Tran Object). t.session) e,
        ap (λ (t : State Addr Tran Object). t.tran) e,
        ap (λ (t : State Addr Tran Object). t.heap.futures) e,
        ap (λ (t : State Addr Tran Object). t.heap.posted) e,
        subst (λ k. Permᴰ k (replies ys s).heap.ran)
            (sym (ap (λ (t : State Addr Tran Object). t.heap.ran) e)) q,
      )
