-- ===== src/Tests/Transports.antt =====
-- A network that refuses two attempts to connect, an unpacker of bytes that are objects, and a
-- server that two clients meet.
use msgpack_rpc_boost.Prelude.{
  ℕ, zero, suc, ◌≤◌, ◌<◌, ◌≡◌, ◌≢◌, ◌⊎◌, refl, Bool, true, false, none, some, List, [], ◌∷◌, ◌++◌,
  arith, length, ltb, if◌then◌else◌,
}
use msgpack_rpc_boost.Session.{connect_failure, create}
use msgpack_rpc_boost.Stream.Laws.{GoesOn, IsTooLarge, IsBroken, on_read_ends}
use msgpack_rpc_boost.Stream.Reading.{Next, object, incomplete, Unpacker, Handler, on_read, failed}
use msgpack_rpc_boost.TcpClient.{Client, Network, connect, client_transport, tcp_builder}
use msgpack_rpc_boost.TcpClient.Laws.{Connected, GivenUp, connect_ends}
use msgpack_rpc_boost.Tests.Objects.{Obj, obj_runtime}

abbrev attempts : ℕ → ℕ
attempts n = if ltb n 3 then 111 else 0

abbrev network : Network ℕ Obj
network = record { running = true; flush = λ s. s; attempt = attempts; write = 0 }

abbrev pub client : Client ℕ Obj
client =
    create 0 8000 (client_transport tcp_builder) 30 (record { futures = []; ran = []; posted = [] })

connect_ends_example :
    (t : Client ℕ Obj) × (((connect network client ≡ some (none, t)) × Connected network t)
      ⊎ ((connect network client ≡ some (some connect_failure, t)) × GivenUp network t))
    × (1 ≤ t.tran.connecting)
    × ((t.tran.connecting ≤ 1) ⊎ (t.tran.connecting ≤ client.tran.reconnect_limit))
    × (t.tran.timer ≡ false)
connect_ends_example = connect_ends network (λ s. refl) client

-- An unpacker whose buffer is a list of objects.
abbrev next_number : List ℕ → Next ℕ (List ℕ)
next_number [] = incomplete
next_number (n ∷ ns) = object n ns

next_number-consumes : (p q : List ℕ) (n : ℕ) → next_number p ≡ object n q → length q < length p
next_number-consumes [] q n e = cc
next_number-consumes (m ∷ ms) q n e = ground arith

abbrev numbers : Unpacker ℕ (List ℕ) (List ℕ)
numbers = record {
  buffer_consumed = λ buf p. p ++ buf;
  next = next_number;
  message_size = length;
  remove_nonparsed_buffer = λ p. [];
  remaining = length;
  next_consumes = next_number-consumes;
}

-- It keeps what it takes, and throws at 0.
abbrev keep : ℕ → List ℕ → List ℕ × Bool
keep zero s = (s, true)
keep (suc n) s = (suc n ∷ s, false)

abbrev cleared : List ℕ → List ℕ
cleared s = []

abbrev socket : Handler (List ℕ) (List ℕ)
socket = record { reading = true; pac = 1 ∷ []; state = [] }

on_read_ends_example :
    (k : Handler (List ℕ) (List ℕ)) × (on_read numbers keep cleared 0 (2 ∷ 3 ∷ []) socket ≡ some k)
    × (((◌≡◌ {A = ℕ} 0 0)
          × (GoesOn numbers keep cleared (1 ∷ 2 ∷ 3 ∷ []) [] k
              ⊎ (IsTooLarge numbers keep cleared (1 ∷ 2 ∷ 3 ∷ []) [] k
                  ⊎ IsBroken numbers keep cleared (1 ∷ 2 ∷ 3 ∷ []) [] k)))
        ⊎ ((◌≢◌ {A = ℕ} 0 0) × (k ≡ failed numbers keep cleared (1 ∷ []) [])))
on_read_ends_example = on_read_ends numbers keep cleared 0 (2 ∷ 3 ∷ []) socket
