-- ===== src/Request/Laws.antt =====
-- How often src/msgpack/rpc/request.h answers a request.
use msgpack_rpc_boost.Prelude.{◌≡◌, refl, none, some, List, [], ◌∷◌, arith}
use msgpack_rpc_boost.Protocol.{Runtime, Codec, msg_response}
use msgpack_rpc_boost.Request.{
  RequestImpl, SenderRef, Answer, gives, gives_nil, fails, fails_with, answer, answers,
}

module _ {Object Bytes : Type 0} (codec : Codec Object Bytes) ⦃rt : Runtime Object⦄ where
  -- The result and the error of the response that an answer stands for.
  abbrev pub result_of : Answer Object → Object
  result_of (gives res z) = res
  result_of gives_nil = rt.nil
  result_of (fails err z) = rt.nil
  result_of (fails_with err res z) = res

  abbrev pub error_of : Answer Object → Object
  error_of (gives res z) = rt.nil
  error_of gives_nil = rt.nil
  error_of (fails err z) = err
  error_of (fails_with err res z) = err

  -- With no sender nothing is ever sent.
  pub answers_unsent :
      (more : List (Answer Object)) (r : RequestImpl Object)
      → r.ms ≡ none
      → answers codec more r ≡ (r, [])
  unfolding answers
  answers_unsent [] r h = refl
  answers_unsent (gives res z ∷ more) r h = ground (arith, answers_unsent more r)
  answers_unsent (gives_nil ∷ more) r h = ground (arith, answers_unsent more r)
  answers_unsent (fails err z ∷ more) r h = ground (arith, answers_unsent more r)
  answers_unsent (fails_with err res z ∷ more) r h = ground (arith, answers_unsent more r)

  first :
      (a : Answer Object) (r : RequestImpl Object) (peer : SenderRef)
      → r.ms ≡ some peer
      → answer codec a r ≡ (
        record r { ms = none },
        (peer, codec.pack_response (msg_response (result_of a) (error_of a) r.msgid)) ∷ [],
      )
  unfolding answer
  first (gives res z) r peer h = ground arith
  first gives_nil r peer h = ground arith
  first (fails err z) r peer h = ground arith
  first (fails_with err res z) r peer h = ground arith

  -- A request that still has its sender is answered once: of any calls of `result`, `result_nil`
  -- and `error`, exactly the first sends a response, with the request's id and that call's result
  -- and error, to the request's sender.
  pub answers_once :
      (a : Answer Object) (more : List (Answer Object)) (r : RequestImpl Object) (peer : SenderRef)
      → r.ms ≡ some peer
      → (answers codec (a ∷ more) r).1
        ≡ (peer, codec.pack_response (msg_response (result_of a) (error_of a) r.msgid)) ∷ []
  unfolding answers
  answers_once a more r peer h =
      rw (answers, first a r peer h, answers_unsent more (record r { ms = none }) refl) refl
