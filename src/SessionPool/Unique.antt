-- ===== src/SessionPool/Unique.antt =====
-- src/msgpack/rpc/session_pool.cc drops a session when its pointer is unique, and says that the
-- request table is empty then, since the futures in it hold the session. Here are the pointers
-- counted.
use msgpack_rpc_boost.Exceptions.{timeout_object}
use msgpack_rpc_boost.Future.{FutureImpl, SessionRef, set_result}
use msgpack_rpc_boost.Future.Heap.{Heap, FutureRef, deref, complete}
use msgpack_rpc_boost.Prelude.{
  ℕ, zero, suc, ◌+◌, ◌≤◌, ◌≡◌, refl, Bool, true, false, Option, none, some, List, [], ◌∷◌, arith,
  ◌==◌, if◌then◌else◌, All, get_elem?, set, Option-cases, inl, inr,
}
use msgpack_rpc_boost.Protocol.{Runtime}
use msgpack_rpc_boost.Reqtable.{Reqtable}
use msgpack_rpc_boost.Reqtable.Entries.{Entry, session_at}
use msgpack_rpc_boost.Session.{State}
use msgpack_rpc_boost.Session.Invariant.{IsPending}

abbrev pub holds_session : SessionRef → Option SessionRef → Bool
holds_session s none = false
holds_session s (some t) = t == s

-- The futures that hold a session.
unfoldable pub holders : {Object : Type 0} → SessionRef → List (FutureImpl Object) → ℕ
holders s [] = 0
holders s (f ∷ fs) = (if holds_session s f.session then 1 else 0) + holders s fs

-- The pool's entry, the futures, and `outside` further pointers, which clients and handlers keep.
unfoldable pub use_count : {Object : Type 0} → ℕ → SessionRef → Heap Object → ℕ
unfolding holders
use_count outside s h = 1 + outside + holders s h.futures

unfoldable pub unique : {Object : Type 0} → ℕ → Heap Object → SessionRef → Bool
unfolding use_count
unique outside h s = use_count outside s h == 1

holders-ge-one :
    {Object : Type 0} (s : SessionRef) (fs : List (FutureImpl Object)) (r : FutureRef)
    (f : FutureImpl Object)
    → get_elem? fs r ≡ some f
    → f.session ≡ some s
    → 1 ≤ holders s fs
unfolding holders
holders-ge-one s [] r f e h = cc
holders-ge-one s (g ∷ fs) zero f e h = ground arith
holders-ge-one s (g ∷ fs) (suc r) f e h = ground (arith, holders-ge-one s fs r f e h)

holders-set :
    {Object : Type 0} (s : SessionRef) (fs : List (FutureImpl Object)) (r : FutureRef)
    (f g : FutureImpl Object)
    → get_elem? fs r ≡ some f
    → f.session ≡ some s
    → g.session ≡ none
    → holders s (set fs r g) + 1 ≡ holders s fs
unfolding holders
holders-set s [] r f g e h n = cc
holders-set s (x ∷ fs) zero f g e h n = ground arith
holders-set s (x ∷ fs) (suc r) f g e h n = ground (arith, holders-set s fs r f g e h n)

unique-eq-nil :
    {Object : Type 0} (outside : ℕ) (h : Heap Object) (s : SessionRef) (m : Reqtable)
    → All (λ (e : Entry). session_at h e.1 ≡ some s) m
    → unique outside h s ≡ true
    → m ≡ []
unfolding unique
unique-eq-nil outside h s [] p u = refl
unique-eq-nil outside h s ((id, r) ∷ m) p u = elim (Option-cases (deref h r)) [
  | inl null ↦ ground arith
  | inr (f, found) ↦ ground (arith, holders-ge-one s h.futures r f found)
]

-- While the table holds only pending futures of the session, a unique pointer to the session means
-- an empty request table: dropping the session loses no request.
pub unique-reqtable :
    {Addr Tran Object : Type 0} (outside : ℕ) (s : State Addr Tran Object)
    → IsPending s
    → unique outside s.heap s.session.self ≡ true
    → s.session.reqtable ≡ []
unique-reqtable outside s p u = unique-eq-nil outside s.heap s.session.self s.session.reqtable p u

-- After a wait has given up on the only future that held the session, the pointer in the pool is
-- unique, although the request is still in the table, which the wait does not touch.
pub unique_after_timed_wait :
    {Addr Tran Object : Type 0} ⦃rt : Runtime Object⦄ (s : State Addr Tran Object) (id : ℕ)
    (r : FutureRef) (m : Reqtable)
    → s.session.reqtable ≡ (id, r) ∷ m
    → session_at s.heap r ≡ some s.session.self
    → holders s.session.self s.heap.futures ≡ 1
    → let t = record s { heap = complete rt.nil timeout_object none r s.heap } in
      (unique 0 t.heap t.session.self ≡ true) × (t.session.reqtable ≡ (id, r) ∷ m)
unfolding unique complete
unique_after_timed_wait ⦃rt⦄ s id r m e h one = elim (Option-cases (deref s.heap r)) [
  | inl null ↦ ground arith
  | inr (f, found) ↦ (
    ground (
      arith,
      holders-set s.session.self s.heap.futures r f (set_result rt.nil timeout_object none f).0
          found,
    ),
    e,
  )
]
