-- ===== src/Tests/Order.antt =====
-- Two requests, answered in the other order.
use mathlib.Core.List.{Permᴰ}
use msgpack_rpc_boost.Prelude.{All, ℕ, ◌≡◌, refl, none, List, [], ◌∷◌}
use msgpack_rpc_boost.Session.{State, register}
use msgpack_rpc_boost.Session.Invariant.{IsValid, register-IsValid}
use msgpack_rpc_boost.Session.Order.{replies_any_order}
use msgpack_rpc_boost.Session.Pipeline.{Completed, replies_complete}
use msgpack_rpc_boost.Session.Replies.{Reply, replies}
use msgpack_rpc_boost.Tests.Calls.{caller, caller-IsValid}
use msgpack_rpc_boost.Tests.Objects.{Obj, number, nil_object, obj_runtime}

abbrev first : Reply Obj
first = record { msgid = 7; result = number 1; error = nil_object; zone = none }

abbrev second : Reply Obj
second = record { msgid = 8; result = number 2; error = nil_object; zone = none }

abbrev pub waiting : State ℕ (List Obj) Obj
waiting = (register 8 (register 7 caller).1).1

pub waiting-IsValid : IsValid waiting
waiting-IsValid =
    register-IsValid 8 (register 7 caller).1 (register-IsValid 7 caller caller-IsValid)

replies_any_order_example :
    let t = replies (first ∷ second ∷ []) waiting in
    let u = replies (second ∷ first ∷ []) waiting in
    (t.session ≡ u.session)
    × (t.tran ≡ u.tran)
    × (t.heap.futures ≡ u.heap.futures)
    × (t.heap.posted ≡ u.heap.posted)
    × Permᴰ t.heap.ran u.heap.ran
replies_any_order_example =
    replies_any_order {xs = first ∷ second ∷ []} {ys = second ∷ first ∷ []} waiting waiting-IsValid
      ((refl, tt), (tt, tt)) (Permᴰ.swap refl refl)

replies_complete_example :
    All (Completed waiting (replies (second ∷ first ∷ []) waiting)) (second ∷ first ∷ [])
replies_complete_example =
    replies_complete (second ∷ first ∷ []) waiting waiting-IsValid ((refl, tt), (tt, tt))
