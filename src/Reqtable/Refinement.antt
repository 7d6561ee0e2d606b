-- ===== src/Reqtable/Refinement.antt =====
-- src/msgpack/rpc/reqtable.cc as a map: the abstract table is a partial function from message ids to
-- futures, and a call is given the futures too, which the sweep of the timer counts down.
use mathlib.Core.Option
use msgpack_rpc_boost.Future.{step_timeout}
use msgpack_rpc_boost.Future.Heap.{Heap, FutureRef, deref}
use msgpack_rpc_boost.Future.HeapLaws.{member, Once}
use msgpack_rpc_boost.Prelude.{
  ℕ, ◌≡◌, refl, fun_ext, true, Option, none, some, List, [], ◌∷◌, arith, ◌==◌, if◌then◌else◌, map,
  sym, ap, subst, ◌&&◌, ==_iff, ◌∙◌, ◌↔◌, Bool-cases, inl, inr, length,
}
use msgpack_rpc_boost.Reqtable
use msgpack_rpc_boost.Reqtable.{Reqtable, insert, erase, take, take_all, size}
use msgpack_rpc_boost.Reqtable.Entries.{waiting-Distinct}
use msgpack_rpc_boost.Reqtable.Laws.{
  find, has_key, Distinct, refs, given, find-insert, insert-Distinct, find-erase, erase-Distinct,
  take_lem, take_all_lem, member-refs, find-eq-none,
}
use msgpack_rpc_boost.Reqtable.Timeout.{
  is_due, waiting, due, step_timeout-split, deref-step_timeout,
}

-- The calls of the table.
pub data Call : Type 0 where
  inserts : ℕ → FutureRef → Call
  erases takes : ℕ → Call
  takes_all sweeps counts : Call

-- What a call hands out: futures, or a number.
pub record Out : Type 0 where
  pub futures : List FutureRef
  pub number : ℕ

abbrev hands : List FutureRef → Out
hands l = record { futures = l; number = 0 }

abbrev pub View : Type 0
View = ℕ → Option FutureRef

abbrev pub view : Reqtable → View
view m k = find k m

-- The abstract table has this future.
abbrev pub Has : View → FutureRef → Type 0
Has v r = (k : ℕ) × (v k ≡ some r)

abbrev keys : Reqtable → List ℕ
keys = map λ e. e.0

find-some-of_member :
    (m : Reqtable) (r : FutureRef) → Distinct m → member r (refs m) ≡ true → Has (view m) r
find-some-of_member [] r d h = cc
find-some-of_member ((id, q) ∷ m) r d h = elim (Bool-cases (q == r)) [
  | inl here ↦ (id, ground arith)
  | inr other ↦
      let (k, found) = find-some-of_member m r d.1 (ground arith) in
      (k, ground (arith, find-eq-none id m d.0))
]

member-keys : (k : ℕ) (m : Reqtable) → member k (keys m) ≡ has_key k m
member-keys k [] = refl
member-keys k ((id, r) ∷ m) = ground (arith, member-keys k m)

keys-Once : (m : Reqtable) → Distinct m → Once (keys m)
keys-Once [] d = tt
keys-Once ((id, r) ∷ m) d = (member-keys id m ∙ d.0, keys-Once m d.1)

length-keys : (m : Reqtable) → length (keys m) ≡ length m
length-keys [] = refl
length-keys ((id, r) ∷ m) = ground (arith, length-keys m)

found-of_key : (k : ℕ) (m : Reqtable) → has_key k m ≡ true → (r : FutureRef) × (find k m ≡ some r)
found-of_key k [] h = cc
found-of_key k ((id, r) ∷ m) h = elim (Bool-cases (id == k)) [
  | inl here ↦ (r, ground arith)
  | inr other ↦ let (q, found) = found-of_key k m (ground arith) in (q, ground arith)
]

key-of_found : (k : ℕ) (m : Reqtable) (r : FutureRef) → find k m ≡ some r → has_key k m ≡ true
key-of_found k [] r h = cc
key-of_found k ((id, q) ∷ m) r h = ground (arith, key-of_found k m r)

module _ {Object : Type 0} where
  -- The table and the futures after a call, and what the call hands out.
  pub perform : Call → Reqtable × Heap Object → (Reqtable × Heap Object) × Out
  perform (inserts id r) (m, h) = ((insert id r m, h), hands [])
  perform (erases id) (m, h) = ((erase id m, h), hands [])
  perform (takes id) (m, h) = let (found, rest) = take id m in ((rest, h), hands (given found))
  perform takes_all (m, h) = let (all, rest) = take_all [] m in ((rest, h), hands all)
  perform sweeps (m, h) =
      let (kept, out, h') = Reqtable.step_timeout [] m h in ((kept, h'), hands out)
  perform counts (m, h) = ((m, h), record { futures = []; number = size m })

  abbrev unless_due : Heap Object → Option FutureRef → Option FutureRef
  unless_due h none = none
  unless_due h (some r) = if is_due h r then none else some r

  abbrev pub expected : Call → Heap Object → View → View
  expected (inserts id r) h v = λ k. if id == k then some r else v k
  expected (erases id) h v = λ k. if id == k then none else v k
  expected (takes id) h v = λ k. if id == k then none else v k
  expected takes_all h v = λ k. none
  expected sweeps h v = λ k. unless_due h (v k)
  expected counts h v = v

  -- What a call must hand out, and what it does to the futures: the future under the id; every future
  -- of the table; those whose time is up, where the others are counted down; the number of ids.
  abbrev pub Answers : Call → Heap Object → View → Heap Object → Out → Type 0
  Answers (inserts id r) h v h' out = (out ≡ hands []) × (h' ≡ h)
  Answers (erases id) h v h' out = (out ≡ hands []) × (h' ≡ h)
  Answers (takes id) h v h' out = (out ≡ hands (given (v id))) × (h' ≡ h)
  Answers takes_all h v h' out =
      ((r : FutureRef) → (member r out.futures ≡ true) ↔ Has v r) × (h' ≡ h)
  Answers sweeps h v h' out =
      ((r : FutureRef) → (member r out.futures ≡ true) ↔ (Has v r × (is_due h r ≡ true)))
      × ((r : FutureRef) → Has v r → deref h' r ≡ Option.map (λ f. (step_timeout f).0) (deref h r))
  Answers counts h v h' out =
      ((ks : List ℕ) × Once ks
        × (out.number ≡ length ks)
        × ((k : ℕ) → (member k ks ≡ true) ↔ ((r : FutureRef) × (v k ≡ some r))))
      × (h' ≡ h)

  find-waiting :
      (h : Heap Object) (k : ℕ) (m : Reqtable)
      → Distinct m
      → find k (waiting h m) ≡ unless_due h (find k m)
  find-waiting h k [] d = refl
  find-waiting h k ((id, r) ∷ m) d = ground (arith, find-waiting h k m d.1, find-eq-none k m)

  member-due :
      (h : Heap Object) (m : Reqtable) (r : FutureRef)
      → member r (due h m) ≡ (member r (refs m) && is_due h r)
  member-due h [] r = refl
  member-due h ((id, q) ∷ m) r = elim (Bool-cases (q == r)) [
    | inl same ↦ ground (arith, member-due h m r, same, ap (is_due h) ((==_iff q r).0 same))
    | inr other ↦ ground (arith, member-due h m r, other)
  ]

  sweeps-Answers :
      (m : Reqtable) (h : Heap Object)
      → Distinct m
      → Once (refs m)
      → Answers sweeps h (view m) (perform sweeps (m, h)).0.1 (perform sweeps (m, h)).1
  unfolding perform
  sweeps-Answers m h d once =
      let (kept, out) = step_timeout-split [] m h once in
      (
        λ r.
            let same = ap (member r) out ∙ member-due h m r in
            (
              λ here. (
                find-some-of_member m r d (ground (arith, same, here)),
                ground (arith, same, here),
              ),
              λ ((k, found), up). ground (arith, same, member-refs m k r found, up),
            ),
        λ r (k, found). deref-step_timeout [] m h r once ∙ ground (arith, member-refs m k r found),
      )

  -- The list of entries, with each id and each future once, refines the abstract table: every call
  -- leaves the table that the abstract call leaves, and keeps the ids distinct. It hands out what it
  -- must, a future or none for `take`, exactly the futures of the table for `take_all`, exactly those
  -- whose time is up for `step_timeout`, which counts down every future of the table, and for `size`
  -- the number of ids; and no other call changes a future.
  pub perform-refines :
      (c : Call) (m : Reqtable) (h : Heap Object)
      → Distinct m
      → Once (refs m)
      → (view (perform c (m, h)).0.0 ≡ expected c h (view m))
        × Answers c h (view m) (perform c (m, h)).0.1 (perform c (m, h)).1
        × Distinct (perform c (m, h)).0.0
  unfolding perform size
  perform-refines (inserts id r) m h d once =
      (fun_ext λ k. find-insert k id r m, (refl, refl), insert-Distinct id r m d)
  perform-refines (erases id) m h d once =
      (fun_ext λ k. find-erase k id m d, (refl, refl), erase-Distinct id m d)
  perform-refines (takes id) m h d once =
      rw (take_lem id m) (fun_ext λ k. find-erase k id m d, (refl, refl), erase-Distinct id m d)
  perform-refines takes_all m h d once =
      rw (take_all_lem [] m)
        (refl, (λ r. (find-some-of_member m r d, λ (k, found). member-refs m k r found), refl), tt)
  perform-refines sweeps m h d once =
      let (kept, out) = step_timeout-split [] m h once in
      (
        fun_ext λ k. ap (find k) kept ∙ find-waiting h k m d,
        sweeps-Answers m h d once,
        subst Distinct (sym kept) (waiting-Distinct h m d),
      )
  perform-refines counts m h d once = (
    refl,
    (
      (
        keys m,
        keys-Once m d,
        sym (length-keys m),
        λ k. (
          λ here. found-of_key k m (sym (member-keys k m) ∙ here),
          λ (r, found). member-keys k m ∙ key-of_found k m r found,
        ),
      ),
      refl,
    ),
    d,
  )
