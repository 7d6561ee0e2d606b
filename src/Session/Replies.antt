-- ===== src/Session/Replies.antt =====
-- Several responses to a session of src/msgpack/rpc/session.cc, one after another, and what the order
-- of the callbacks has to do with it.
use mathlib.Core.List.{append-nil, Permᴰ}
use mathlib.Core.List.Permᴰ as Perm
use msgpack_rpc_boost.Future.{Callback, Zone}
use msgpack_rpc_boost.Future.Heap.{Heap, FutureRef, note, complete}
use msgpack_rpc_boost.Future.Commute.{ran_as, complete_ran}
use msgpack_rpc_boost.Future.HeapLaws.{callback_at}
use msgpack_rpc_boost.Prelude.{
  ℕ, ◌≡◌, ◌∙◌, refl, sym, ap, subst, Bool, true, not, Option, none, some, List, [], ◌∷◌, ◌++◌,
  arith, ◌==◌, Option-cases, inl, inr, All,
}
use msgpack_rpc_boost.Protocol.{Runtime}
use msgpack_rpc_boost.Reqtable
use msgpack_rpc_boost.Reqtable.{Reqtable}
use msgpack_rpc_boost.Reqtable.Laws.{find}
use msgpack_rpc_boost.Session.{State, on_response}
use msgpack_rpc_boost.Session.Equations.{on_response_unknown, on_response_known}

-- A response, as it comes over the wire.
pub record Reply (Object : Type 0) : Type 0 where
  pub msgid : ℕ
  pub result : Object
  pub error : Object
  pub zone : Option Zone

module _ {Object : Type 0} where
  abbrev pub differ : Reply Object → Reply Object → Bool
  differ x y = not (x.msgid == y.msgid)

  -- No two of them answer the same request.
  abbrev pub Differ : List (Reply Object) → Type 0
  Differ [] = Unit {0}
  Differ (x ∷ xs) = All (λ (y : Reply Object). differ x y ≡ true) xs × Differ xs

  All-Permᴰ :
      (P : Reply Object → Type 0) {xs ys : List (Reply Object)} → Permᴰ xs ys → All P xs → All P ys
  All-Permᴰ P Permᴰ.nil a = tt
  All-Permᴰ P (Permᴰ.cons e d) (p, a) = (subst P e p, All-Permᴰ P d a)
  All-Permᴰ P (Permᴰ.swap e f) (p, (q, a)) = (subst P f q, (subst P e p, a))
  All-Permᴰ P (Permᴰ.trans d e) a = All-Permᴰ P e (All-Permᴰ P d a)

  abbrev Apart : Reply Object → List (Reply Object) → Type 0
  Apart x xs = All (λ (y : Reply Object). differ x y ≡ true) xs

  pub Differ-Permᴰ : {xs ys : List (Reply Object)} → Permᴰ xs ys → Differ xs → Differ ys
  Differ-Permᴰ Permᴰ.nil a = tt
  Differ-Permᴰ (Permᴰ.cons {l₂} e d) (p, a) =
      (subst (λ x. Apart x l₂) e (All-Permᴰ _ d p), Differ-Permᴰ d a)
  Differ-Permᴰ (Permᴰ.swap {a} {b} {a'} {b'} {l} e f) ((ab, ax), (bx, r)) =
      let ba : differ b a ≡ true = ground arith in
      (
        (
          subst (λ x. differ x b' ≡ true) f (subst (λ x. differ b x ≡ true) e ba),
          subst (λ x. Apart x l) f bx,
        ),
        (subst (λ x. Apart x l) e ax, r),
      )
  Differ-Permᴰ (Permᴰ.trans d e) a = Differ-Permᴰ e (Differ-Permᴰ d a)

module _ {Object : Type 0} where
  -- The future of an entry, if there is one, completed.
  abbrev pub completed : Option FutureRef → Reply Object → Heap Object → Heap Object
  completed none x h = h
  completed (some r) x h = complete x.result x.error x.zone r h

  -- The callbacks that a response runs.
  abbrev called : Option FutureRef → Heap Object → List (Callback × FutureRef)
  called none h = []
  called (some r) h = note (callback_at h r) r

  completed_ran :
      (o : Option FutureRef) (x : Reply Object) (h : Heap Object) (l : List (Callback × FutureRef))
      → completed o x (ran_as l h) ≡ ran_as (l ++ called o h) (completed o x h)
  completed_ran none x h l = ap (λ k. ran_as k h) (sym (append-nil l))
  completed_ran (some r) x h l = complete_ran x.result x.error x.zone r h l

module _ {Addr Tran Object : Type 0} ⦃rt : Runtime Object⦄ where
  abbrev pub reply : Reply Object → State Addr Tran Object → State Addr Tran Object
  reply x s = on_response x.msgid x.result x.error x.zone s

  -- Responses one after another.
  abbrev pub replies : List (Reply Object) → State Addr Tran Object → State Addr Tran Object
  replies [] s = s
  replies (x ∷ xs) s = replies xs (reply x s)

  abbrev pub ran_then :
      List (Callback × FutureRef) → State Addr Tran Object → State Addr Tran Object
  ran_then l s = record s { heap = ran_as l s.heap }

  abbrev pub entry : Reply Object → State Addr Tran Object → Option FutureRef
  entry x s = find x.msgid s.session.reqtable

  abbrev pub with : Reqtable → Heap Object → State Addr Tran Object → State Addr Tran Object
  with m h s = record s { session = record s.session { reqtable = m }; heap = h }

  pub reply_lem :
      (x : Reply Object) (s : State Addr Tran Object)
      → reply x s
        ≡ with (Reqtable.erase x.msgid s.session.reqtable) (completed (entry x s) x s.heap) s
  reply_lem x s = elim (Option-cases (entry x s)) [
    | inl unknown ↦
        on_response_unknown s x.msgid x.result x.error x.zone unknown
        ∙ ap (λ o. with (Reqtable.erase x.msgid s.session.reqtable) (completed o x s.heap) s)
            (sym unknown)
    | inr (r, found) ↦
        on_response_known s x.msgid x.result x.error x.zone r found
        ∙ ap (λ o. with (Reqtable.erase x.msgid s.session.reqtable) (completed o x s.heap) s)
            (sym found)
  ]

  reply_ran :
      (x : Reply Object) (l : List (Callback × FutureRef)) (s : State Addr Tran Object)
      → reply x (ran_then l s) ≡ ran_then (l ++ called (entry x s) s.heap) (reply x s)
  reply_ran x l s =
      let o = entry x s in
      reply_lem x (ran_then l s)
      ∙ ap (λ h. with (Reqtable.erase x.msgid s.session.reqtable) h s) (completed_ran o x s.heap l)
      ∙ ap (ran_then (l ++ called o s.heap)) (sym (reply_lem x s))

  -- The same, but for the order in which callbacks ran.
  abbrev pub Same : State Addr Tran Object → State Addr Tran Object → Type 0
  Same s t = (l : List (Callback × FutureRef)) × (s ≡ ran_then l t) × Permᴰ l t.heap.ran

  pub Same-refl : (s : State Addr Tran Object) → Same s s
  Same-refl s = (s.heap.ran, refl, Perm.refl s.heap.ran)

  pub Same-trans : {s t u : State Addr Tran Object} → Same s t → Same t u → Same s u
  Same-trans {u} (l, e, p) (k, f, q) = (
    l,
    e ∙ ap (ran_then l) f,
    Permᴰ.trans p (subst (λ (x : State Addr Tran Object). Permᴰ x.heap.ran u.heap.ran) (sym f) q),
  )

  -- What a response adds to the callbacks that ran.
  ran-reply :
      (x : Reply Object) (s : State Addr Tran Object)
      → (reply x s).heap.ran ≡ s.heap.ran ++ called (entry x s) s.heap
  ran-reply x s = ap (λ (t : State Addr Tran Object). t.heap.ran) (reply_ran x s.heap.ran s)

  reply-Same :
      (x : Reply Object) {s t : State Addr Tran Object} → Same s t → Same (reply x s) (reply x t)
  reply-Same x {s} {t} (l, e, p) = (
    l ++ called (entry x t) t.heap,
    ap (reply x) e ∙ reply_ran x l t,
    subst (Permᴰ (l ++ called (entry x t) t.heap)) (sym (ran-reply x t))
        (Perm.append_right (called (entry x t) t.heap) p),
  )

  pub replies-Same :
      (xs : List (Reply Object)) {s t : State Addr Tran Object}
      → Same s t
      → Same (replies xs s) (replies xs t)
  replies-Same [] e = e
  replies-Same (x ∷ xs) e = replies-Same xs (reply-Same x e)
