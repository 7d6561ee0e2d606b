-- ===== src/Session/Threads.antt =====
-- The handlers of src/msgpack/rpc/session.cc on several threads of the loop. The request table locks
-- its mutex in each of its calls, and a future its own in `set_result`, so a handler is two steps:
-- it takes futures out of the table, and completes them later, while other threads go on. The list
-- `flight` has the futures that some thread has taken and not completed yet, `done` has those that
-- were completed, latest first.
use msgpack_rpc_boost.Exceptions.{timeout_object}
use msgpack_rpc_boost.Future.{Callback, FutureImpl, Zone}
use msgpack_rpc_boost.Future.Heap.{Heap, FutureRef, allocate, attach, complete}
use msgpack_rpc_boost.Prelude.{ℕ, ◌≡◌, true, Option, none, List, [], ◌∷◌, ◌++◌, ◌==◌, if◌then◌else◌}
use msgpack_rpc_boost.Protocol.{Runtime}
use msgpack_rpc_boost.Reqtable
use msgpack_rpc_boost.Reqtable.{Reqtable}
use msgpack_rpc_boost.Reqtable.Laws.{find, given}
use msgpack_rpc_boost.Future.HeapLaws.{member}

pub record Shared (Object : Type 0) : Type 0 where
  pub table : Reqtable
  pub heap : Heap Object
  pub flight : List FutureRef
  pub done : List FutureRef

-- A thread is done with one of the futures that it took.
abbrev pub remove : FutureRef → List FutureRef → List FutureRef
remove r [] = []
remove r (q ∷ qs) = if q == r then qs else q ∷ remove r qs

module _ {Object : Type 0} where
  -- `send_request_impl`: the future is made, then entered, by one thread, and nobody else has it.
  unfoldable pub issue : ℕ → FutureImpl Object → Shared Object → Shared Object
  unfolding allocate
  issue msgid f s =
      let (r, h) = allocate f s.heap in
      record s { table = Reqtable.insert msgid r s.table; heap = h }

  -- `m_reqtable.take(msgid)` of `on_response`.
  unfoldable pub take_one : ℕ → Shared Object → Shared Object
  take_one msgid s =
      let (found, rest) = Reqtable.take msgid s.table in
      record s { table = rest; flight = given found ++ s.flight }

  -- `m_reqtable.take_all(&all)` of the two error handlers.
  unfoldable pub take_all : Shared Object → Shared Object
  take_all s =
      let (all, rest) = Reqtable.take_all [] s.table in
      record s { table = rest; flight = all ++ s.flight }

  -- `m_reqtable.step_timeout(&timedout)` of the timer.
  unfoldable pub sweep : Shared Object → Shared Object
  sweep s =
      let (kept, out, h) = Reqtable.step_timeout [] s.table s.heap in
      record s { table = kept; flight = out ++ s.flight; heap = h }

  -- `f->set_result(...)` by a thread that has taken `f`.
  unfoldable pub finish : FutureRef → Object → Object → Option Zone → Shared Object → Shared Object
  finish r result error z s = record s {
    heap = complete result error z r s.heap;
    flight = remove r s.flight;
    done = r ∷ s.done;
  }

-- What one thread does at once. An id is free when it is issued: it is used again only after
-- 2 ^ 32 more requests. `gave_up` is a wait that runs out, which takes nothing from the table.
pub data Move {Object : Type 0} (rt : Runtime Object) (s : Shared Object)
    : Shared Object → Type 0 where
  issued :
      (msgid : ℕ) (f : FutureImpl Object) → find msgid s.table ≡ none → Move rt s (issue msgid f s)
  took : (msgid : ℕ) → Move rt s (take_one msgid s)
  took_all : Move rt s (take_all s)
  swept : Move rt s (sweep s)
  finished :
      (r : FutureRef) (result error : Object) (z : Option Zone)
      → member r s.flight ≡ true
      → Move rt s (finish r result error z s)
  attached : (c : Callback) (r : FutureRef) → Move rt s (record s { heap = attach c r s.heap })
  gave_up :
      (r : FutureRef)
      → Move rt s (record s { heap = complete rt.nil (timeout_object ⦃rt = rt⦄) none r s.heap })

abbrev pub fresh : {Object : Type 0} → Shared Object
fresh = record {
  table = [];
  heap = record { futures = []; ran = []; posted = [] };
  flight = [];
  done = [];
}

-- Moves of any threads, in any order.
pub data Runs {Object : Type 0} (rt : Runtime Object) : Shared Object → Type 0 where
  begins : Runs rt fresh
  moves : {s t : Shared Object} → Runs rt s → Move rt s t → Runs rt t
