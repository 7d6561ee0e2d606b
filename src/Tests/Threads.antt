-- ===== src/Tests/Threads.antt =====
-- A request that one thread makes, and another takes and completes.
use msgpack_rpc_boost.Future.{new_future}
use msgpack_rpc_boost.Prelude.{◌≡◌, refl, none, length, ltb, if◌then◌else◌}
use msgpack_rpc_boost.Reqtable
use msgpack_rpc_boost.Session.Handout.{places, places-Runs}
use msgpack_rpc_boost.Session.Threads.{
  Shared, fresh, issue, take_one, finish, begins, moves, issued, took, finished,
}
use msgpack_rpc_boost.Tests.Objects.{Obj, number, nil_object, obj_runtime}

abbrev entered : Shared Obj
entered = issue 7 (new_future 7 4 2) fresh

abbrev over : Shared Obj
over = finish 0 (number 5) nil_object none (take_one 7 entered)

places-Runs_example : places 0 over ≡ (if ltb 0 (length over.heap.futures) then 1 else 0)
unfolding issue take_one finish Reqtable.insert Reqtable.take
places-Runs_example =
    places-Runs {rt = obj_runtime}
      (moves (moves (moves begins (issued 7 (new_future 7 4 2) refl)) (took 7))
        (finished 0 (number 5) nil_object none refl))
      0
