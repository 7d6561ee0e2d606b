-- ===== src/Tests/Requests.antt =====
-- A request over TCP: the second attempt to connect succeeds, and the write fails.
use msgpack_rpc_boost.Future.{new_future}
use msgpack_rpc_boost.Prelude.{ℕ, ◌⊎◌, refl, true, [], ltb, if◌then◌else◌}
use msgpack_rpc_boost.Session.{create, register, send_request_impl}
use msgpack_rpc_boost.Session.Invariant.{IsValid, create-Reach-IsValid}
use msgpack_rpc_boost.Session.Steps.{start}
use msgpack_rpc_boost.TcpClient.{Network, client_transport, tcp_builder}
use msgpack_rpc_boost.TcpClient.Requests.{sender, Sent, Failed, send_request_impl_ends}
use msgpack_rpc_boost.Tests.Objects.{Obj, nil_object, obj_runtime}
use msgpack_rpc_boost.Tests.Transports.{client}

abbrev broken_pipe : Network ℕ Obj
broken_pipe = record {
  running = true;
  flush = λ s. s;
  attempt = λ n. if ltb n 2 then 111 else 0;
  write = 32;
}

client-IsValid : IsValid client
client-IsValid =
    create-Reach-IsValid 0 8000 (client_transport tcp_builder) 30
      (record { futures = []; ran = []; posted = [] }) start

send_request_impl_ends_example :
    let called = (send_request_impl (sender broken_pipe) tt 7 nil_object client).0 in
    let t = (send_request_impl (sender broken_pipe) tt 7 nil_object client).1 in
    let r = (register 7 client).0 in
    Sent broken_pipe 7 r (new_future 7 0 30) called t ⊎ Failed broken_pipe r called t true []
unfolding create
send_request_impl_ends_example =
    send_request_impl_ends broken_pipe refl (λ s. refl) client 7 nil_object true [] client-IsValid
