-- ===== src/Proxy.antt =====
-- `myproxy` of test/async_server.cc: a dispatcher that asks another server, and answers its own request
-- in the callback of that call's future. A callback is the place of the request that is bound to it in
-- `bound`. The session of the backend is got before the first request; `down` says that its transport can
-- not connect, and then the transport fails what waits in the session's table, and the call throws.
pub mod Callbacks
pub mod Relaying
use msgpack_rpc_boost.Caller.{call}
use msgpack_rpc_boost.EchoServer.{Conversions}
use msgpack_rpc_boost.Future.{Callback}
use msgpack_rpc_boost.Future.Handle.{Got, got, get}
use msgpack_rpc_boost.Future.Heap.{FutureRef, deref, attach}
use msgpack_rpc_boost.Prelude.{
  ℕ, zero, suc, Bool, true, false, Option, none, some, List, [], ◌∷◌, ◌++◌, length, get_elem?,
  if◌then◌else◌,
}
use msgpack_rpc_boost.Protocol.{Runtime, Codec}
use msgpack_rpc_boost.Request.{RequestImpl, SenderRef, result}
use msgpack_rpc_boost.Rpc.{take_message}
use msgpack_rpc_boost.Session
use msgpack_rpc_boost.Session.{State, Sender, future, connect_failure, on_connect_failed}

-- What the proxy has sent to those that asked it, oldest first.
pub record Proxy (Addr Bytes Object : Type 0) : Type 0 where
  pub backend : State Addr (List Bytes) Object
  pub bound : List (RequestImpl Object)
  pub sent : List (SenderRef × Bytes)

abbrev pub drop {ℓ} : {A : Type ℓ} → ℕ → List A → List A
drop zero xs = xs
drop (suc n) [] = []
drop (suc n) (x ∷ xs) = drop n xs

abbrev pub gotten : {Object : Type 0} → Got ℕ Object → Option ℕ
gotten (got i) = some i
gotten _ = none

module _ {Addr Bytes Object : Type 0} where
  -- `f.attach_callback`, with the request bound to the callback.
  unfoldable pub bind_request :
      FutureRef → RequestImpl Object → Proxy Addr Bytes Object → Proxy Addr Bytes Object
  unfolding attach
  bind_request f req p = record p {
    backend = record p.backend { heap = attach (length p.bound) f p.backend.heap };
    bound = p.bound ++ req ∷ [];
  }

module _ {Addr Bytes Object : Type 0} (codec : Codec Object Bytes) ⦃rt : Runtime Object⦄
    (cv : Conversions rt)
    -- `as<int>`, where `none` is a msgpack::type_error.
    (to_int : Object → Option ℕ) where
  -- `req.result(i)`
  abbrev pub reply_with :
      Option ℕ → RequestImpl Object → Proxy Addr Bytes Object → Proxy Addr Bytes Object
  reply_with none req p = p
  reply_with (some i) req p = record p {
    sent = p.sent ++ (result codec (cv.from_int i) none req).1;
  }

  -- `callback`, where an exception of `f.get<int>()` ends in `callback_real`.
  unfoldable pub callback :
      FutureRef → RequestImpl Object → Proxy Addr Bytes Object → Proxy Addr Bytes Object
  unfolding get result
  callback f req p = reply_with (gotten (get to_int true (deref p.backend.heap f) [])) req p

  -- The callbacks that a change of the futures has run.
  unfoldable pub run_callbacks :
      List (Callback × FutureRef) → Proxy Addr Bytes Object → Proxy Addr Bytes Object
  unfolding callback
  run_callbacks [] p = p
  run_callbacks ((c, f) ∷ more) p =
      run_callbacks more (elim (get_elem? p.bound c) [ none ↦ p | some req ↦ callback f req p ])

  -- The callbacks that ran since the futures were those of `p`.
  unfoldable pub catch_up :
      State Addr (List Bytes) Object → Proxy Addr Bytes Object → Proxy Addr Bytes Object
  unfolding run_callbacks
  catch_up st p =
      run_callbacks (drop (length p.backend.heap.ran) st.heap.ran) (record p { backend = st })

  -- `send_data` of the backend's transport.
  unfoldable pub reach : Bool → Sender (Unit {0}) Bytes Addr (List Bytes) Object
  unfolding on_connect_failed
  reach down env buf st =
      if down
      then (some connect_failure, on_connect_failed st)
      else (none, record st { tran = buf ∷ st.tran })

  -- What `dispatch` leaves, and whether it threw.
  unfoldable pub dispatch :
      Bool → RequestImpl Object → Proxy Addr Bytes Object → Proxy Addr Bytes Object × Bool
  unfolding bind_request catch_up reach call
  dispatch down req p = elim (cv.to_string req.method) [
    | none ↦ (p, true)
    | some method ↦ elim (cv.to_ints req.params) [
      | none ↦ (p, true)
      | some (a, b) ↦
          let (called, st) =
            call codec (reach down) tt (cv.from_string method) (cv.from_int a ∷ cv.from_int b ∷ [])
              p.backend in
          elim called [
            | future f ↦ (bind_request f req (record p { backend = st }), false)
            | Session.threw e ↦ (catch_up st p, true)
          ]
    ]
  ]

  -- A reply of the backend, with the callback of its future.
  unfoldable pub take_reply : Bytes → Proxy Addr Bytes Object → Option (Proxy Addr Bytes Object)
  unfolding catch_up
  take_reply buf p = elim (take_message codec buf p.backend) [
    | none ↦ none
    | some st ↦ some (catch_up st p)
  ]

  -- The loop runs what `attach_callback` handed to it.
  unfoldable pub run_posted : Proxy Addr Bytes Object → Proxy Addr Bytes Object
  unfolding run_callbacks
  run_posted p =
      run_callbacks p.backend.heap.posted
        (record p { backend = record p.backend { heap = record p.backend.heap { posted = [] } } })
