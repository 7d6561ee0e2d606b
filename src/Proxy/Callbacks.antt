-- ===== src/Proxy/Callbacks.antt =====
-- The callback of the proxy of test/async_server.cc, once its future is completed.
use mathlib.Core.List.{append-nil}
use msgpack_rpc_boost.EchoServer.{Conversions}
use msgpack_rpc_boost.Future.{FutureImpl, Callback}
use msgpack_rpc_boost.Future.Handle.{get}
use msgpack_rpc_boost.Future.Heap.{FutureRef, deref}
use msgpack_rpc_boost.Prelude.{
  ℕ, ◌≡◌, ◌∙◌, refl, ap, true, Option, none, some, List, [], ◌∷◌, ◌++◌, arith, length, get_elem?,
  if◌then◌else◌, Bool-cases, Option-cases, inl, inr,
}
use msgpack_rpc_boost.Protocol.{Runtime, Codec, msg_response}
use msgpack_rpc_boost.Proxy.{Proxy, gotten, drop, callback, run_callbacks, catch_up, take_reply}
use msgpack_rpc_boost.Request.{RequestImpl, SenderRef, Answer, result}
use msgpack_rpc_boost.Request.Laws.{result_of, error_of}
use msgpack_rpc_boost.Rpc.{take_message, get_impl-answered}
use msgpack_rpc_boost.Session.{State}
use msgpack_rpc_boost.Session.Response.{answered}

drop-append {ℓ} : {A : Type ℓ} (xs ys : List A) → drop (length xs) (xs ++ ys) ≡ ys
drop-append [] ys = refl
drop-append (x ∷ xs) ys = drop-append xs ys

module _ {Bytes Object : Type 0} (codec : Codec Object Bytes) ⦃rt : Runtime Object⦄
    (cv : Conversions rt) (to_int : Object → Option ℕ) where
  -- What the proxy sends in return, for an answer of the backend.
  abbrev pub relayed : Answer Object → SenderRef → ℕ → List (SenderRef × Bytes)
  relayed a peer msgid =
      elim (if rt.is_nil (error_of codec a) then to_int (result_of codec a) else none) [
        | none ↦ []
        | some i ↦ (peer, codec.pack_response (msg_response (cv.from_int i) rt.nil msgid)) ∷ []
      ]

module _ {Addr Bytes Object : Type 0} (codec : Codec Object Bytes) ⦃rt : Runtime Object⦄
    (cv : Conversions rt) (to_int : Object → Option ℕ) where
  -- The callback of a future that the answer has completed.
  pub callback-answered :
      (a : Answer Object) (f : FutureImpl Object) (r : FutureRef) (req : RequestImpl Object)
      (peer : SenderRef) (p : Proxy Addr Bytes Object)
      → deref p.backend.heap r ≡ some (answered (result_of codec a) (error_of codec a) none f)
      → req.ms ≡ some peer
      → callback codec cv to_int r req p
        ≡ record p { sent = p.sent ++ relayed codec cv to_int a peer req.msgid }
  unfolding callback get result
  callback-answered a f r req peer p there asked =
      let got = get_impl-answered codec true (result_of codec a) (error_of codec a) f [] in
      elim (Bool-cases (rt.is_nil (error_of codec a))) [
        | inr wrong ↦ rw there (ground (arith, got, wrong, append-nil p.sent))
        | inl good ↦ elim (Option-cases (to_int (result_of codec a))) [
          | inl other ↦ rw there (ground (arith, got, good, other, append-nil p.sent))
          | inr (i, int) ↦ rw there (ground (arith, got, good, int, asked))
        ]
      ]

  callback-kept :
      (f : FutureRef) (req : RequestImpl Object) (p : Proxy Addr Bytes Object)
      → ((callback codec cv to_int f req p).backend ≡ p.backend)
        × ((callback codec cv to_int f req p).bound ≡ p.bound)
  unfolding callback
  callback-kept f req p =
      let found = gotten (get to_int true (deref p.backend.heap f) []) in
      elim (Option-cases found) [
        | inl nothing ↦ (ground (arith, nothing), ground (arith, nothing))
        | inr (i, int) ↦ (ground (arith, int), ground (arith, int))
      ]

  -- A reply that completes one future, whose callback has a request.
  pub take_reply_lem :
      (p : Proxy Addr Bytes Object) (buf : Bytes) (st : State Addr (List Bytes) Object)
      (c : Callback) (r : FutureRef) (req : RequestImpl Object)
      → take_message codec buf p.backend ≡ some st
      → st.heap.ran ≡ p.backend.heap.ran ++ (c, r) ∷ []
      → get_elem? p.bound c ≡ some req
      → take_reply codec cv to_int buf p
        ≡ some (callback codec cv to_int r req (record p { backend = st }))
  unfolding take_reply catch_up run_callbacks
  take_reply_lem p buf st c r req received ran bound =
      let new =
        ap (λ l. drop (length p.backend.heap.ran) l) ran
        ∙ drop-append p.backend.heap.ran ((c, r) ∷ []) in
      rw (take_reply, received, new, run_callbacks, bound) refl

  -- Callbacks ask nobody and bind nothing.
  pub run_callbacks-kept :
      (l : List (Callback × FutureRef)) (p : Proxy Addr Bytes Object)
      → ((run_callbacks codec cv to_int l p).backend ≡ p.backend)
        × ((run_callbacks codec cv to_int l p).bound ≡ p.bound)
  unfolding run_callbacks callback
  run_callbacks-kept [] p = (refl, refl)
  run_callbacks-kept ((c, f) ∷ more) p = elim (Option-cases (get_elem? p.bound c)) [
    | inl unbound ↦
        let (e, b) = run_callbacks-kept more p in
        (ground (arith, unbound, e), ground (arith, unbound, b))
    | inr (req, bound_to) ↦
        let q = callback codec cv to_int f req p in
        let (e, b) = run_callbacks-kept more q in
        let (same, alike) = callback-kept f req p in
        (ground (arith, bound_to, e, same), ground (arith, bound_to, b, alike))
  ]
