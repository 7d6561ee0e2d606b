-- ===== src/Session/Handout.antt =====
-- Where a future is while the threads of src/msgpack/rpc/session.cc run: in the table, in the hands of
-- one thread, or completed.
use msgpack_rpc_boost.Exceptions.{timeout_object}
use msgpack_rpc_boost.Future.{Zone, Callback}
use msgpack_rpc_boost.Future.Heap.{Heap, FutureRef, deref, allocate, attach, complete, tick}
use msgpack_rpc_boost.Future.HeapLaws.{member}
use msgpack_rpc_boost.Prelude.{
  ℕ, ◌+◌, ◌≡◌, ◌∙◌, refl, true, Option, none, List, [], ◌∷◌, ◌++◌, arith, ◌==◌, if◌then◌else◌,
  length, length-append, length-set, Option-cases, inl, inr, ltb, Bool-cases,
}
use msgpack_rpc_boost.Protocol.{Runtime}
use msgpack_rpc_boost.Reqtable
use msgpack_rpc_boost.Reqtable.{Reqtable}
use msgpack_rpc_boost.Reqtable.Laws.{find, refs, given, take_all_lem}
use msgpack_rpc_boost.Session.Threads.{
  Shared, remove, issue, take_one, take_all, sweep, finish, Move, issued, took, took_all, swept,
  finished, attached, gave_up, Runs, begins, moves,
}

abbrev pub count : FutureRef → List FutureRef → ℕ
count r [] = 0
count r (q ∷ qs) = (if q == r then 1 else 0) + count r qs

count-append :
    (r : FutureRef) (xs ys : List FutureRef) → count r (xs ++ ys) ≡ count r xs + count r ys
count-append r [] ys = omega arith
count-append r (x ∷ xs) ys = omega (arith, count-append r xs ys)

count-remove :
    (r q : FutureRef) (xs : List FutureRef)
    → member r xs ≡ true
    → count q (remove r xs) + (if r == q then 1 else 0) ≡ count q xs
count-remove r q [] h = cc
count-remove r q (x ∷ xs) h = ground (arith, count-remove r q xs)

count-insert :
    (q : FutureRef) (id : ℕ) (r : FutureRef) (m : Reqtable)
    → find id m ≡ none
    → count q (refs (Reqtable.insert id r m)) ≡ count q (refs m) + (if r == q then 1 else 0)
unfolding Reqtable.insert
count-insert q id r [] n = omega arith
count-insert q id r ((j, p) ∷ m) n = ground (arith, count-insert q id r m)

count-take :
    (q : FutureRef) (id : ℕ) (m : Reqtable)
    → count q (refs (Reqtable.take id m).1) + count q (given (Reqtable.take id m).0)
      ≡ count q (refs m)
unfolding Reqtable.take
count-take q id [] = refl
count-take q id ((j, p) ∷ m) = ground (arith, count-take q id m)

count-step_timeout :
    {Object : Type 0} (q : FutureRef) (out : List FutureRef) (m : Reqtable) (h : Heap Object)
    → count q (refs (Reqtable.step_timeout out m h).0) + count q (Reqtable.step_timeout out m h).1
      ≡ count q out + count q (refs m)
unfolding Reqtable.step_timeout
count-step_timeout q out [] h = omega arith
count-step_timeout q out ((j, p) ∷ m) h = elim (Bool-cases (tick p h).1) [
  | inl up ↦
      ground
        (arith, count-step_timeout q (out ++ p ∷ []) m (tick p h).0, count-append q out (p ∷ []))
  | inr no_up ↦ ground (arith, count-step_timeout q out m (tick p h).0)
]

-- How many futures there are, which only `issue` changes.
module _ {Object : Type 0} (h : Heap Object) (r : FutureRef) where
  length-complete :
      (a e : Object) (z : Option Zone) → length (complete a e z r h).futures ≡ length h.futures
  unfolding complete
  length-complete a e z = elim (Option-cases (deref h r)) [
    | inl null ↦ ground arith
    | inr (f, found) ↦ rw (complete, found) (length-set h.futures r _)
  ]

  length-tick : length (tick r h).0.futures ≡ length h.futures
  unfolding tick
  length-tick = elim (Option-cases (deref h r)) [
    | inl null ↦ ground arith
    | inr (f, found) ↦ rw (tick, found) (length-set h.futures r _)
  ]

  length-attach : (c : Callback) → length (attach c r h).futures ≡ length h.futures
  unfolding attach
  length-attach c = elim (Option-cases (deref h r)) [
    | inl null ↦ ground arith
    | inr (f, found) ↦ rw (attach, found) (length-set h.futures r _)
  ]

length-step_timeout :
    {Object : Type 0} (out : List FutureRef) (m : Reqtable) (h : Heap Object)
    → length (Reqtable.step_timeout out m h).2.futures ≡ length h.futures
unfolding Reqtable.step_timeout
length-step_timeout out [] h = refl
length-step_timeout out ((j, p) ∷ m) h =
    length-step_timeout (if (tick p h).1 then out ++ p ∷ [] else out) m (tick p h).0
    ∙ length-tick h p

module _ {Object : Type 0} where
  -- In how many places a future is.
  abbrev pub places : FutureRef → Shared Object → ℕ
  places q s = count q (refs s.table) + count q s.flight + count q s.done

  -- Every future that was made is in one place, and no other pointer is anywhere.
  abbrev pub HandedOut : Shared Object → Type 0
  HandedOut s = (q : FutureRef) → places q s ≡ (if ltb q (length s.heap.futures) then 1 else 0)

  module _ {rt : Runtime Object} where
    Move-HandedOut : {s t : Shared Object} → Move rt s t → HandedOut s → HandedOut t
    unfolding issue take_one take_all sweep finish allocate
    Move-HandedOut {s} (issued id f free) v q =
        let n = length s.heap.futures in
        ground (arith, v q, count-insert q id n s.table, length-append s.heap.futures (f ∷ []))
    Move-HandedOut {s} (took id) v q = ground (
      arith,
      v q,
      count-take q id s.table,
      count-append q (given (Reqtable.take id s.table).0) s.flight,
    )
    Move-HandedOut {s} took_all v q =
        ground (arith, v q, take_all_lem [] s.table, count-append q (refs s.table) s.flight)
    Move-HandedOut {s} swept v q = ground (
      arith,
      v q,
      count-step_timeout q [] s.table s.heap,
      length-step_timeout [] s.table s.heap,
      count-append q (Reqtable.step_timeout [] s.table s.heap).1 s.flight,
    )
    Move-HandedOut {s} (finished r a e z here) v q =
        ground (arith, v q, length-complete s.heap r a e z, count-remove r q s.flight here)
    Move-HandedOut {s} (attached c r) v q = ground (arith, v q, length-attach s.heap r c)
    Move-HandedOut {s} (gave_up r) v q =
        ground (arith, v q, length-complete s.heap r rt.nil (timeout_object ⦃rt = rt⦄) none)

    -- However the threads of the loop interleave between the table's lock and the futures' locks, if
    -- no id is used again while it is in the table, every future that was made is at any time in
    -- exactly one place: in the table, in the hands of one thread, or completed by one thread. So
    -- none is lost, and none is completed by two handlers.
    pub places-Runs :
        {s : Shared Object}
        → Runs rt s
        → (q : FutureRef) → places q s ≡ (if ltb q (length s.heap.futures) then 1 else 0)
    places-Runs begins q = ground arith
    places-Runs (moves path m) q = Move-HandedOut m (places-Runs path) q
