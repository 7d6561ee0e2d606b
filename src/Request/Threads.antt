-- ===== src/Request/Threads.antt =====
-- `call` of src/msgpack/rpc/request.h on several threads, whose requests share one request_impl, which
-- has no lock: the threads come between the steps of `call` and of `send_data` of request_impl.h.
pub mod Counts
pub mod Keeping
pub mod Answering
pub mod Often
use msgpack_rpc_boost.Prelude.{
  ℕ, Option, none, some, List, [], ◌∷◌, ◌++◌, get_elem?, set, if◌then◌else◌,
}
use msgpack_rpc_boost.Protocol.{Codec, msg_response}
use msgpack_rpc_boost.Request.{RequestImpl, SenderRef, is_sent}

-- Where a thread is: before `call`; after the response is packed; after the pointer to the sender is
-- copied; after the sender took the response; and at the end.
pub data Stage (Object Bytes : Type 0) : Type 0 where
  begins : Object → Object → Stage Object Bytes
  packed : Bytes → Stage Object Bytes
  grasps : SenderRef → Bytes → Stage Object Bytes
  resets ended : Stage Object Bytes

-- The shared request, the threads, and what was sent.
pub record Shared (Object Bytes : Type 0) : Type 0 where
  pub request : RequestImpl Object
  pub calls : List (Stage Object Bytes)
  pub sent : List (SenderRef × Bytes)

module _ {Object Bytes : Type 0} (codec : Codec Object Bytes) where
  -- What a thread does next: where it is then, the request, and what it sends.
  unfoldable pub advance :
      Stage Object Bytes
      → RequestImpl Object
      → Stage Object Bytes × RequestImpl Object × List (SenderRef × Bytes)
  unfolding is_sent msg_response
  advance (begins res err) r = (
    if is_sent r then ended else packed (codec.pack_response (msg_response res err r.msgid)),
    r,
    [],
  )
  advance (packed buf) r = elim r.ms [ none ↦ (ended, r, []) | some ms ↦ (grasps ms buf, r, []) ]
  advance (grasps ms buf) r = (resets, r, (ms, buf) ∷ [])
  advance resets r = (ended, record r { ms = none }, [])
  advance ended r = (ended, r, [])

  unfoldable pub step : ℕ → Shared Object Bytes → Shared Object Bytes
  unfolding advance
  step i s = elim (get_elem? s.calls i) [
    | none ↦ s
    | some c ↦
        let (c', r, out) = advance c s.request in
        record { request = r; calls = set s.calls i c'; sent = s.sent ++ out }
  ]

  -- The threads in the order in which they come to run.
  unfoldable pub run : List ℕ → Shared Object Bytes → Shared Object Bytes
  unfolding step
  run [] s = s
  run (i ∷ is) s = run is (step i s)

-- The threads before they call, each with its result and error.
unfoldable pub callers :
    {Object Bytes : Type 0} → List (Object × Object) → List (Stage Object Bytes)
callers [] = []
callers ((res, err) ∷ l) = begins res err ∷ callers l

unfoldable pub shared :
    {Object Bytes : Type 0} → RequestImpl Object → List (Object × Object) → Shared Object Bytes
unfolding callers
shared r l = record { request = r; calls = callers l; sent = [] }
