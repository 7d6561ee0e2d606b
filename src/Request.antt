-- ===== src/Request.antt =====
-- src/msgpack/rpc/request.h, request.cc and request_impl.h: a request at the server, which can be
-- answered while its sender is there. A `shared_message_sendable` is a number, and a method returns
-- the object and what it handed to a sender.
pub mod Handle
pub mod Laws
pub mod Threads
use msgpack_rpc_boost.Future.{Zone}
use msgpack_rpc_boost.Prelude.{
  ℕ, Bool, true, false, not, Option, none, some, List, [], ◌∷◌, ◌++◌, is_set, if◌then◌else◌,
}
use msgpack_rpc_boost.Protocol.{Runtime, Codec, msg_response}

abbrev pub SenderRef : Type 0
SenderRef = ℕ

pub record RequestImpl (Object : Type 0) : Type 0 where
  pub ms : Option SenderRef
  pub msgid : ℕ
  pub method : Object
  pub params : Object
  pub zone : Option Zone

-- What a dispatcher can call on its request.
pub data Answer (Object : Type 0) : Type 0 where
  gives : Object → Option Zone → Answer Object
  gives_nil : Answer Object
  fails : Object → Option Zone → Answer Object
  fails_with : Object → Object → Option Zone → Answer Object

module _ {Object : Type 0} where
  unfoldable pub is_sent : RequestImpl Object → Bool
  is_sent r = not (is_set r.ms)

  unfoldable pub send_data :
      {Bytes : Type 0} → Bytes → RequestImpl Object → RequestImpl Object × List (SenderRef × Bytes)
  send_data buf r = elim r.ms [
    | none ↦ (r, [])
    | some ms ↦ (record r { ms = none }, (ms, buf) ∷ [])
  ]

module _ {Object Bytes : Type 0} (codec : Codec Object Bytes) where
  -- `call`, with a zone to keep alive and without: the two buffers are packed alike.
  unfoldable pub call :
      Object
      → Object
      → Option Zone
      → RequestImpl Object
      → RequestImpl Object × List (SenderRef × Bytes)
  unfolding is_sent send_data msg_response
  call res err z r =
      if is_sent r
      then (r, [])
      else send_data (codec.pack_response (msg_response res err r.msgid)) r

  module _ ⦃rt : Runtime Object⦄ where
    unfoldable pub result :
        Object → Option Zone → RequestImpl Object → RequestImpl Object × List (SenderRef × Bytes)
    unfolding call
    result res z r = call res rt.nil z r

    unfoldable pub result_nil : RequestImpl Object → RequestImpl Object × List (SenderRef × Bytes)
    unfolding call
    result_nil r = call rt.nil rt.nil none r

    unfoldable pub error :
        Object → Option Zone → RequestImpl Object → RequestImpl Object × List (SenderRef × Bytes)
    unfolding call
    error err z r = call rt.nil err z r

    unfoldable pub error_result :
        Object
        → Object
        → Option Zone
        → RequestImpl Object
        → RequestImpl Object × List (SenderRef × Bytes)
    unfolding call
    error_result err res z r = call res err z r

    unfoldable pub answer :
        Answer Object → RequestImpl Object → RequestImpl Object × List (SenderRef × Bytes)
    unfolding result result_nil error error_result
    answer (gives res z) r = result res z r
    answer gives_nil r = result_nil r
    answer (fails err z) r = error err z r
    answer (fails_with err res z) r = error_result err res z r

    -- The calls that a dispatcher makes, one after another, and all that is sent.
    unfoldable pub answers :
        List (Answer Object) → RequestImpl Object → RequestImpl Object × List (SenderRef × Bytes)
    unfolding answer
    answers [] r = (r, [])
    answers (a ∷ more) r =
        let (r', sent) = answer a r in let (r'', later) = answers more r' in (r'', sent ++ later)
