-- ===== src/Reqtable/Entries.antt =====
-- Predicates on every entry of the table of src/msgpack/rpc/reqtable.cc, and the entries as links to
-- the futures: an entry's id is the id of the future that it names.
use msgpack_rpc_boost.Future.{SessionRef}
use msgpack_rpc_boost.Future.Heap.{Heap, FutureRef, deref}
use msgpack_rpc_boost.Future.HeapLaws.{member, Once}
use msgpack_rpc_boost.Prelude.{
  ℕ, ◌≡◌, refl, true, false, Option, none, some, [], ◌∷◌, arith, ◌==◌, if◌then◌else◌, All,
}
use msgpack_rpc_boost.Reqtable.{Reqtable, insert, erase}
use msgpack_rpc_boost.Reqtable.Laws.{find, has_key, Distinct, refs, find-eq-none}
use msgpack_rpc_boost.Reqtable.Timeout.{waiting, due, is_due}

abbrev pub Entry : Type 0
Entry = ℕ × FutureRef

module _ {ℓ} (P : Entry → Type ℓ) where
  pub All-insert :
      (id : ℕ) (r : FutureRef) (m : Reqtable) → P (id, r) → All P m → All P (insert id r m)
  unfolding insert
  All-insert id r [] p a = (p, tt)
  All-insert id r ((j, q) ∷ m) p a = ground (arith, All-insert id r m p a.1)

  pub All-erase : (id : ℕ) (m : Reqtable) → All P m → All P (erase id m)
  unfolding erase
  All-erase id [] a = tt
  All-erase id ((j, q) ∷ m) a = ground (arith, All-erase id m a.1)

  pub All-waiting :
      {Object : Type 0} (h : Heap Object) (m : Reqtable) → All P m → All P (waiting h m)
  All-waiting h [] a = tt
  All-waiting h ((j, q) ∷ m) a = ground (arith, All-waiting h m a.1)

  pub All-find : (id : ℕ) (r : FutureRef) (m : Reqtable) → find id m ≡ some r → All P m → P (id, r)
  All-find id r [] e a = cc
  All-find id r ((j, q) ∷ m) e a = ground (arith, All-find id r m)

not-member_of_apart :
    (r : FutureRef) (m : Reqtable)
    → All (λ (e : Entry). (r == e.1) ≡ false) m
    → member r (refs m) ≡ false
not-member_of_apart r [] a = refl
not-member_of_apart r ((j, q) ∷ m) a = ground (arith, not-member_of_apart r m a.1)

module _ {Object : Type 0} where
  abbrev pub msgid_at : Heap Object → FutureRef → Option ℕ
  msgid_at h r = elim (deref h r) [ none ↦ none | some f ↦ some f.msgid ]

  abbrev pub session_at : Heap Object → FutureRef → Option SessionRef
  session_at h r = elim (deref h r) [ none ↦ none | some f ↦ f.session ]

  abbrev pub Linked : Heap Object → Reqtable → Type 0
  Linked h m = All (λ (e : Entry). msgid_at h e.1 ≡ some e.0) m

  -- The future of an id that is not in the table is in no entry.
  apart :
      (h : Heap Object) (id : ℕ) (r : FutureRef) (m : Reqtable)
      → msgid_at h r ≡ some id
      → has_key id m ≡ false
      → Linked h m
      → All (λ (e : Entry). (r == e.1) ≡ false) m
  apart h id r [] e n l = tt
  apart h id r ((j, q) ∷ m) e n l = ground (arith, apart h id r m)

  pub erase-apart :
      (h : Heap Object) (id : ℕ) (r : FutureRef) (m : Reqtable)
      → msgid_at h r ≡ some id
      → Distinct m
      → Linked h m
      → All (λ (e : Entry). (r == e.1) ≡ false) (erase id m)
  unfolding erase
  erase-apart h id r [] e d l = tt
  erase-apart h id r ((j, q) ∷ m) e d l =
      ground (arith, apart h id r m, erase-apart h id r m e d.1 l.1)

  pub refs-Once : (h : Heap Object) (m : Reqtable) → Distinct m → Linked h m → Once (refs m)
  refs-Once h [] d l = tt
  refs-Once h ((id, r) ∷ m) d l =
      (not-member_of_apart r m (apart h id r m l.0 d.0 l.1), refs-Once h m d.1 l.1)

  pub due-is_due :
      (h : Heap Object) (m : Reqtable) (q : FutureRef)
      → member q (due h m) ≡ true
      → is_due h q ≡ true
  due-is_due h [] q e = cc
  due-is_due h ((id, r) ∷ m) q e = ground (arith, due-is_due h m q)

  pub waiting-not_due :
      (h : Heap Object) (m : Reqtable) → All (λ (e : Entry). is_due h e.1 ≡ false) (waiting h m)
  waiting-not_due h [] = tt
  waiting-not_due h ((id, r) ∷ m) = ground (arith, waiting-not_due h m)

  has_key-waiting :
      (k : ℕ) (h : Heap Object) (m : Reqtable)
      → has_key k m ≡ false
      → has_key k (waiting h m) ≡ false
  has_key-waiting k h [] e = refl
  has_key-waiting k h ((id, r) ∷ m) e = ground (arith, has_key-waiting k h m)

  pub waiting-Distinct : (h : Heap Object) (m : Reqtable) → Distinct m → Distinct (waiting h m)
  waiting-Distinct h [] d = tt
  waiting-Distinct h ((id, r) ∷ m) d =
      ground (arith, waiting-Distinct h m d.1, has_key-waiting id h m d.0)

  pub find-waiting :
      (h : Heap Object) (m : Reqtable) (k : ℕ) (r : FutureRef)
      → Distinct m
      → find k m ≡ some r
      → find k (waiting h m) ≡ (if is_due h r then none else some r)
  find-waiting h [] k r d e = cc
  find-waiting h ((id, q) ∷ m) k r d e =
      ground (arith, find-waiting h m k r d.1, find-eq-none k (waiting h m), has_key-waiting k h m)

  pub due-member :
      (h : Heap Object) (m : Reqtable) (k : ℕ) (r : FutureRef)
      → find k m ≡ some r
      → is_due h r ≡ true
      → member r (due h m) ≡ true
  due-member h [] k r e d = cc
  due-member h ((id, q) ∷ m) k r e d = ground (arith, due-member h m k r)
