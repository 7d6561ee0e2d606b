-- ===== src/Tests/Copies.antt =====
-- Answers to two requests through copies of them, and to one request from two threads.
use msgpack_rpc_boost.Prelude.{
  ℕ, ◌≤◌, ◌≡◌, refl, none, some, List, [], ◌∷◌, length, get_elem?, All, if◌then◌else◌,
}
use msgpack_rpc_boost.Protocol.{msg_response}
use msgpack_rpc_boost.Request.{RequestImpl, Answer, gives, gives_nil, fails}
use msgpack_rpc_boost.Request.Handle.{RequestHandle, RequestRef, Requests, Sent}
use msgpack_rpc_boost.Request.Handle.Sharing.{answer_all, responses_of, answer_all-first}
use msgpack_rpc_boost.Request.Threads.{run, shared}
use msgpack_rpc_boost.Request.Threads.Counts.{any_ended}
use msgpack_rpc_boost.Request.Threads.Keeping.{Sends}
use msgpack_rpc_boost.Request.Threads.Often.{responses, run-Often}
use msgpack_rpc_boost.Tests.Objects.{Obj, number, nil_object, obj_runtime, obj_codec}

abbrev asked : RequestImpl Obj
asked = record { ms = some 0; msgid = 7; method = number 1; params = number 2; zone = none }

abbrev requests : Requests Obj
requests = record asked { msgid = 6 } ∷ asked ∷ []

abbrev first : RequestHandle
first = record { pimpl = 0 }

abbrev second : RequestHandle
second = record { pimpl = 1 }

abbrev copy : RequestHandle
copy = record { pimpl = 1 }

abbrev given : List (RequestHandle × Answer Obj)
given = (second, fails (number 9) none) ∷ (first, gives_nil) ∷ (copy, gives (number 5) none) ∷ []

answer_all-first_example :
    (t : Requests Obj) × (l : List (RequestRef × Sent Obj)) × (answer_all obj_codec given requests
      ≡ some (t, l))
    × (responses_of 1 l ≡ (0, obj_codec.pack_response (msg_response nil_object (number 9) 7)) ∷ [])
    × (get_elem? t 1 ≡ some (record asked { ms = none }))
answer_all-first_example =
    answer_all-first obj_codec given requests 1 asked
      ((asked, refl), ((record asked { msgid = 6 }, refl), ((asked, refl), tt))) refl

abbrev offers : List (Obj × Obj)
offers = (number 1, nil_object) ∷ (nil_object, number 2) ∷ []

run-Often_example :
    let s = run obj_codec (0 ∷ 0 ∷ 1 ∷ 0 ∷ 0 ∷ 1 ∷ []) (shared asked offers) in
    ((if any_ended s.calls then 1 else 0) ≤ length s.sent)
    × (length s.sent ≤ 2)
    × All (Sends obj_codec 0 7 offers) s.sent
    × ((js : List ℕ) × ((run obj_codec js (shared asked offers)).sent
          ≡ responses obj_codec asked 0 offers))
run-Often_example = run-Often obj_codec asked 0 offers (0 ∷ 0 ∷ 1 ∷ 0 ∷ 0 ∷ 1 ∷ []) refl
