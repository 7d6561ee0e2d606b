-- ===== src/Tests/Handles.antt =====
-- Waits through the pointer of a future, and requests through handles of sessions.
use msgpack_rpc_boost.Future.Handle.{wait, forget}
use msgpack_rpc_boost.Future.HandleLaws.{unless_waiting, wait-get_impl}
use msgpack_rpc_boost.Future.Wait.{Wake, notified, expired, get_impl}
use msgpack_rpc_boost.Protocol.MsgId.{atomic_increment, increments}
use msgpack_rpc_boost.Session.{session_impl}
use msgpack_rpc_boost.Session.Handle.{SessionHandle, Sessions}
use msgpack_rpc_boost.Session.Handle.Ids.{use_all-increments}
use msgpack_rpc_boost.Session.Handle.Uses.{Use, requests, sets_timeout, use_all, ids_of}
use msgpack_rpc_boost.Prelude.{ℕ, refl, none, ◌≡◌, true, false, some, List, [], ◌∷◌}
use msgpack_rpc_boost.Tests.Futures.{pending}
use msgpack_rpc_boost.Tests.Objects.{Obj, nil_object, obj_runtime, obj_codec}

abbrev waits : List (Wake Obj)
waits = notified pending ∷ expired pending ∷ []

wait-get_impl_example :
    (wait true true (some pending) waits ≡ forget (get_impl true (some pending) waits))
    × (wait false true (some pending) waits ≡ unless_waiting (get_impl true (some pending) waits))
wait-get_impl_example = wait-get_impl true (some pending) waits

-- Two sessions, the second of which is about to use its last id before the wrap-around.
abbrev sessions : Sessions ℕ (Unit {0}) Obj
sessions = record {
  sessions =
      (session_impl 0 8000, tt) ∷ (record (session_impl 1 9000) { msgid_rr = 4294967295 }, tt) ∷ [];
  heap = record { futures = []; ran = []; posted = [] };
}

abbrev first : SessionHandle
first = record { pimpl = 0 }

abbrev other : SessionHandle
other = record { pimpl = 1 }

abbrev again : SessionHandle
again = record { pimpl = 1 }

abbrev done : List (SessionHandle × Use (Unit {0}) Obj)
done =
    (other, requests tt nil_object nil_object)
    ∷ (first, requests tt nil_object nil_object)
    ∷ (other, sets_timeout 3)
    ∷ (again, requests tt nil_object nil_object)
    ∷ []

use_all-increments_example :
    (ids : List (ℕ × ℕ)) × (q : Sessions ℕ (Unit {0}) Obj) × (use_all obj_codec
        (λ (e : Unit {0}) buf st. (none, st))
        done
        sessions
      ≡ some (ids, q))
    × (ids_of 1 ids ≡ 4294967295 ∷ 0 ∷ [])
unfolding session_impl increments atomic_increment
use_all-increments_example =
    use_all-increments obj_codec (λ (e : Unit {0}) buf st. (none, st)) (λ e buf st. refl) done
      sessions 1 4294967295
      ((4294967295, refl), ((1, refl), ((4294967295, refl), ((4294967295, refl), tt)))) refl
