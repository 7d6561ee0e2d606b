-- ===== src/Tests/Proxies.antt =====
-- A request to a proxy whose backend serves the echo dispatcher.
use msgpack_rpc_boost.EchoServer
use msgpack_rpc_boost.Prelude.{ℕ, ◌≡◌, refl, true, false, none, some, [], ◌∷◌}
use msgpack_rpc_boost.Protocol.{msg_response}
use msgpack_rpc_boost.Proxy.{Proxy, dispatch, take_reply}
use msgpack_rpc_boost.Proxy.Relaying.{dispatch-relays}
use msgpack_rpc_boost.Request.{RequestImpl, gives}
use msgpack_rpc_boost.Rpc.{serve_message}
use msgpack_rpc_boost.Server.{ServerImpl}
use msgpack_rpc_boost.Session.{create}
use msgpack_rpc_boost.Tests.Calls.{caller, caller-IsValid}
use msgpack_rpc_boost.Tests.Objects.{
  Obj, number, text, pair, nil_object, value, obj_runtime, obj_codec, obj_conversions,
}

abbrev proxied : ServerImpl Obj (Unit {0})
proxied = record { dp = some (EchoServer.dispatch obj_conversions); stran = none }

abbrev proxy : Proxy ℕ Obj Obj
proxy = record { backend = caller; bound = []; sent = [] }

abbrev front : RequestImpl Obj
front = record {
  ms = some 5;
  msgid = 9;
  method = text "add";
  params = pair (number 1) (pair (number 2) nil_object);
  zone = none;
}

dispatch-relays_example :
    let q = (dispatch obj_codec obj_conversions value false front proxy).0 in
    let (lost, failed) = dispatch obj_codec obj_conversions value true front proxy in
    ((failed ≡ true) × (lost.bound ≡ []) × (lost.backend.tran ≡ []))
    × (buf : Obj) × (reply : Obj) × ((dispatch obj_codec obj_conversions value false front proxy).1
        ≡ false)
    × (q.backend.tran ≡ buf ∷ [])
    × (q.sent ≡ [])
    × (serve_message obj_codec 6 buf proxied ≡ some ((6, reply) ∷ []))
    × ((u : Proxy ℕ Obj Obj) × (take_reply obj_codec obj_conversions value reply q ≡ some u)
        × (u.sent ≡ (5, obj_codec.pack_response (msg_response (number 3) nil_object 9)) ∷ []))
unfolding create EchoServer.dispatch
dispatch-relays_example =
    dispatch-relays obj_codec obj_conversions value front proxy "add" 1 2 5 6 proxied
      (EchoServer.dispatch obj_conversions) (gives (number 3) none) [] refl refl refl caller-IsValid
      refl refl
