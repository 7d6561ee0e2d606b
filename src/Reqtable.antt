-- ===== src/Reqtable.antt =====
-- src/msgpack/rpc/reqtable.cc: the requests that wait for an answer, by message id. The map is the
-- list of its entries, in the order in which it iterates; each method holds the table's mutex
-- throughout, so it is one step.
pub mod Laws
pub mod Entries
pub mod Timeout
pub mod Refinement
use msgpack_rpc_boost.Future.Heap.{Heap, FutureRef, tick}
use msgpack_rpc_boost.Prelude.{
  ℕ, Bool, true, false, Option, none, some, List, [], ◌∷◌, ◌++◌, ◌==◌, if◌then◌else◌, length,
}

abbrev pub Reqtable : Type 0
Reqtable = List (ℕ × FutureRef)

-- `m_map[msgid] = f`: an entry under that id is overwritten.
unfoldable pub insert : ℕ → FutureRef → Reqtable → Reqtable
insert msgid f [] = (msgid, f) ∷ []
insert msgid f ((id, r) ∷ m) = if id == msgid then (msgid, f) ∷ m else (id, r) ∷ insert msgid f m

unfoldable pub erase : ℕ → Reqtable → Reqtable
erase msgid [] = []
erase msgid ((id, r) ∷ m) = if id == msgid then m else (id, r) ∷ erase msgid m

-- The pointer that is found, or null, and the table without it.
unfoldable pub take : ℕ → Reqtable → Option FutureRef × Reqtable
take msgid [] = (none, [])
take msgid ((id, r) ∷ m) =
    let (found, rest) = take msgid m in if id == msgid then (some r, m) else (found, (id, r) ∷ rest)

-- The loop pushes each pointer onto `all` and erases its entry.
unfoldable pub take_all : List FutureRef → Reqtable → List FutureRef × Reqtable
take_all all [] = (all, [])
take_all all ((id, r) ∷ m) = take_all (all ++ r ∷ []) m

-- The entries that stay, the pointers whose time was up, behind those in `timedout`, and the
-- futures, each counted down.
unfoldable pub step_timeout :
    {Object : Type 0}
    → List FutureRef
    → Reqtable
    → Heap Object
    → Reqtable × List FutureRef × Heap Object
step_timeout timedout [] h = ([], timedout, h)
step_timeout timedout ((id, r) ∷ m) h =
    let (h', up) = tick r h in
    let (kept, out, h'') = step_timeout (if up then timedout ++ r ∷ [] else timedout) m h' in
    (if up then kept else (id, r) ∷ kept, out, h'')

unfoldable pub size : Reqtable → ℕ
size m = length m
