-- ===== src/Session/Response.antt =====
-- What a response does to a session of src/msgpack/rpc/session.cc.
use msgpack_rpc_boost.Future.{FutureImpl, Zone, set_result}
use msgpack_rpc_boost.Future.Heap.{FutureRef, deref, note}
use msgpack_rpc_boost.Future.HeapLaws.{deref-complete, ran-complete}
use msgpack_rpc_boost.Prelude.{
  ℕ, ◌≡◌, ◌∙◌, refl, Option, none, some, [], ◌∷◌, ◌++◌, arith, ◌==◌, if◌then◌else◌, Option-cases,
  inl, inr,
}
use msgpack_rpc_boost.Protocol.{Runtime}
use msgpack_rpc_boost.Reqtable
use msgpack_rpc_boost.Reqtable.{Reqtable}
use msgpack_rpc_boost.Reqtable.Laws.{find, find-erase}
use msgpack_rpc_boost.Session.{State, on_response}
use msgpack_rpc_boost.Session.Equations.{on_response_unknown, on_response_known}
use msgpack_rpc_boost.Session.Invariant.{IsValid}

-- What a future becomes when it is completed: it lets go of its session and of its callback, and
-- keeps its id and what is left of its time.
abbrev pub answered :
    {Object : Type 0} → Object → Object → Option Zone → FutureImpl Object → FutureImpl Object
answered result error z f = record {
  msgid = f.msgid;
  session = none;
  timeout = f.timeout;
  callback = none;
  result = result;
  error = error;
  zone = z;
}

erase_unknown : (k : ℕ) (m : Reqtable) → find k m ≡ none → Reqtable.erase k m ≡ m
unfolding Reqtable.erase
erase_unknown k [] h = refl
erase_unknown k ((id, r) ∷ m) h = ground (arith, erase_unknown k m)

module _ {Addr Tran Object : Type 0} ⦃rt : Runtime Object⦄ where
  -- A response with an unknown id changes nothing.
  on_response_ignored :
      (s : State Addr Tran Object) (msgid : ℕ) (a e : Object) (z : Option Zone)
      → find msgid s.session.reqtable ≡ none
      → on_response msgid a e z s ≡ s
  on_response_ignored s msgid a e z h =
      on_response_unknown s msgid a e z h ∙ rw (erase_unknown msgid s.session.reqtable h)

  gone :
      (s : State Addr Tran Object) (msgid : ℕ)
      → IsValid s
      → find msgid (Reqtable.erase msgid s.session.reqtable) ≡ none
  gone s msgid v = ground (arith, find-erase msgid msgid s.session.reqtable v.distinct)

  -- A response whose id is in the table of a valid session completes the future that is entered
  -- there, with the response's result and error, and no other future changes; that future's
  -- callback, if there is one, runs then and no other does; and the table loses exactly that id.
  pub on_response_completes :
      (s : State Addr Tran Object) (msgid : ℕ) (result error : Object) (z : Option Zone)
      (r : FutureRef) (f : FutureImpl Object)
      → IsValid s
      → find msgid s.session.reqtable ≡ some r
      → deref s.heap r ≡ some f
      → let t = on_response msgid result error z s in
        ((q : FutureRef)
          → deref t.heap q ≡ (if r == q then some (answered result error z f) else deref s.heap q))
        × (t.heap.ran ≡ s.heap.ran ++ note f.callback r)
        × ((k : ℕ)
            → find k t.session.reqtable ≡ (if msgid == k then none else find k s.session.reqtable))
  unfolding set_result
  on_response_completes s msgid result error z r f v found here =
      rw (on_response_known s msgid result error z r found) (
        λ q. ground (arith, deref-complete s.heap r q result error z),
        ground (arith, ran-complete result error z r s.heap),
        λ k. find-erase k msgid s.session.reqtable v.distinct,
      )

  -- A response is taken once: after it, another one with the same id changes nothing at all, so a
  -- duplicate or late response cannot complete a future again.
  pub on_response_once :
      (s : State Addr Tran Object) (msgid : ℕ) (a b e d : Object) (z y : Option Zone)
      → IsValid s
      → on_response msgid b d y (on_response msgid a e z s) ≡ on_response msgid a e z s
  on_response_once s msgid a b e d z y v =
      let t = on_response msgid a e z s in
      on_response_ignored t msgid b d y (elim (Option-cases (find msgid s.session.reqtable)) [
        | inl unknown ↦ rw (on_response_unknown s msgid a e z unknown) (gone s msgid v)
        | inr (r, found) ↦ rw (on_response_known s msgid a e z r found) (gone s msgid v)
      ])
