-- ===== src/Tests/Tables.antt =====
-- A sweep over a table of two requests, of which the second one's time is up.
use msgpack_rpc_boost.Future.{new_future}
use msgpack_rpc_boost.Future.Heap.{Heap}
use msgpack_rpc_boost.Prelude.{◌≡◌, refl, [], ◌∷◌}
use msgpack_rpc_boost.Reqtable.{Reqtable}
use msgpack_rpc_boost.Reqtable.Laws.{Distinct}
use msgpack_rpc_boost.Reqtable.Refinement.{
  sweeps, perform, expected, Answers, view, perform-refines,
}
use msgpack_rpc_boost.Tests.Objects.{Obj, obj_runtime}

abbrev two_entries : Reqtable
two_entries = (7, 0) ∷ (8, 1) ∷ []

abbrev two_futures : Heap Obj
two_futures = record { futures = new_future 7 4 2 ∷ new_future 8 4 0 ∷ []; ran = []; posted = [] }

perform-refines_example :
    let ((m, h), out) = perform sweeps (two_entries, two_futures) in
    (view m ≡ expected sweeps two_futures (view two_entries))
    × Answers sweeps two_futures (view two_entries) h out
    × Distinct m
perform-refines_example =
    perform-refines sweeps two_entries two_futures (refl, (refl, tt)) (refl, (refl, tt))
