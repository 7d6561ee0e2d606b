-- ===== src/Session/Pipeline.antt =====
-- Many requests of src/msgpack/rpc/session.cc at once: each response finds its own future.
use msgpack_rpc_boost.Future.{FutureImpl}
use msgpack_rpc_boost.Future.Heap.{FutureRef, deref}
use msgpack_rpc_boost.Future.HeapLaws.{deref-complete}
use msgpack_rpc_boost.Prelude.{
  ℕ, ◌≡◌, ◌∙◌, refl, true, false, some, List, [], ◌∷◌, arith, ◌==◌, Option-cases, inl, inr, All,
  All-both, All-imp,
}
use msgpack_rpc_boost.Protocol.{Runtime}
use msgpack_rpc_boost.Reqtable.Entries.{msgid_at, All-find}
use msgpack_rpc_boost.Reqtable.Laws.{find, find-erase}
use msgpack_rpc_boost.Session.{State}
use msgpack_rpc_boost.Session.Equations.{on_response_unknown, on_response_known}
use msgpack_rpc_boost.Session.Invariant.{IsValid, Step-IsValid}
use msgpack_rpc_boost.Session.Replies.{Reply, differ, Differ, reply, replies, entry, reply_lem}
use msgpack_rpc_boost.Session.Response.{answered, on_response_completes}
use msgpack_rpc_boost.Session.Steps.{responded}

module _ {Addr Tran Object : Type 0} ⦃rt : Runtime Object⦄ where
  reply-IsValid : (x : Reply Object) (s : State Addr Tran Object) → IsValid s → IsValid (reply x s)
  reply-IsValid x s v = Step-IsValid (responded x.msgid x.result x.error x.zone) v

  -- A response changes no future of another id.
  deref-reply :
      (x : Reply Object) (s : State Addr Tran Object) (r : FutureRef) (id : ℕ)
      → IsValid s
      → msgid_at s.heap r ≡ some id
      → (x.msgid == id) ≡ false
      → deref (reply x s).heap r ≡ deref s.heap r
  deref-reply x s r id v at other = elim (Option-cases (entry x s)) [
    | inl unknown ↦ rw (on_response_unknown s x.msgid x.result x.error x.zone unknown) refl
    | inr (q, found) ↦
        let named = All-find _ x.msgid q s.session.reqtable found v.linked in
        rw (on_response_known s x.msgid x.result x.error x.zone q found)
          (ground (arith, deref-complete s.heap q r x.result x.error x.zone, named, at, other))
  ]

  entry-reply :
      (x y : Reply Object) (s : State Addr Tran Object)
      → IsValid s
      → differ x y ≡ true
      → entry y (reply x s) ≡ entry y s
  entry-reply x y s v apart =
      rw (reply_lem x s)
        (ground (arith, find-erase y.msgid x.msgid s.session.reqtable v.distinct, apart))

  deref-replies :
      (xs : List (Reply Object)) (s : State Addr Tran Object) (r : FutureRef)
      (f : FutureImpl Object)
      → IsValid s
      → deref s.heap r ≡ some f
      → All (λ (x : Reply Object). (x.msgid == f.msgid) ≡ false) xs
      → deref (replies xs s).heap r ≡ some f
  deref-replies [] s r f v here a = here
  deref-replies (x ∷ xs) s r f v here (other, a) =
      deref-replies xs (reply x s) r f (reply-IsValid x s v)
        (deref-reply x s r f.msgid v (ground (arith, here)) other ∙ here) a

  -- What becomes of the request that a response answers.
  abbrev pub Completed : State Addr Tran Object → State Addr Tran Object → Reply Object → Type 0
  Completed s t x =
      (r : FutureRef) (f : FutureImpl Object)
      → find x.msgid s.session.reqtable ≡ some r
      → deref s.heap r ≡ some f
      → deref t.heap r ≡ some (answered x.result x.error x.zone f)

  reply-Completed :
      (x : Reply Object) (s : State Addr Tran Object) → IsValid s → Completed s (reply x s) x
  reply-Completed x s v r f found here =
      (on_response_completes s x.msgid x.result x.error x.zone r f v found here).0 r ∙ ground arith

  -- Of the requests that a valid session waits for, any number at once, responses with different ids
  -- complete each its own future, with its own result and error, whatever their order: the responses
  -- before and after it leave that future alone.
  pub replies_complete :
      (xs : List (Reply Object)) (s : State Addr Tran Object)
      → IsValid s
      → Differ xs
      → All (Completed s (replies xs s)) xs
  replies_complete [] s v d = tt
  replies_complete (x ∷ xs) s v (apart, d) =
      let t = replies xs (reply x s) in
      let w = reply-IsValid x s v in
      (
        λ r f found here.
            let named = All-find _ x.msgid r s.session.reqtable found v.linked in
            deref-replies xs (reply x s) r (answered x.result x.error x.zone f) w
              (reply-Completed x s v r f found here)
              (All-imp _ _ xs (λ (y : Reply Object) far. ground (arith, named, here, far)) apart),
        All-both _ (Completed (reply x s) t) (Completed s t) xs
            (λ y far done r f found here.
              let named = All-find _ y.msgid r s.session.reqtable found v.linked in
              done r f (entry-reply x y s v far ∙ found)
                (deref-reply x s r y.msgid v named (ground (arith, far)) ∙ here))
            apart (replies_complete xs (reply x s) w d),
      )
