-- ===== src/Udp/Broadcast.antt =====
-- The builder of src/msgpack/rpc/transport/udp.h, and the client's socket of udp.cc with its options. The
-- operating system is `Os`: how a connect and a send end, 0 being no error, on a socket that has these
-- options. A socket that is opened anew has none set.
pub mod Refused
use msgpack_rpc_boost.Client.{builder_timeout}
use msgpack_rpc_boost.Prelude.{
  ℕ, Bool, true, false, Option, none, some, List, [], ◌∷◌, ◌++◌, if◌then◌else◌, ◌==◌,
}
use msgpack_rpc_boost.Protocol.{Runtime, Codec}
use msgpack_rpc_boost.Session.{
  State, Failure, system_failure, Called, future, threw, get_address, send_request, send_notify,
  step_timer_handler,
}

-- `builder` of transport.h, with what udp_builder adds.
pub record UdpBuilder : Type 0 where
  pub timeout : ℕ
  pub broadcast : Bool

unfoldable pub udp_builder : UdpBuilder
udp_builder = record { timeout = builder_timeout; broadcast = false }

unfoldable pub set_timeout : ℕ → UdpBuilder → UdpBuilder
set_timeout sec b = record b { timeout = sec }

unfoldable pub get_timeout : UdpBuilder → ℕ
get_timeout b = b.timeout

unfoldable pub set_broadcast : Bool → UdpBuilder → UdpBuilder
set_broadcast val b = record b { broadcast = val }

unfoldable pub get_broadcast : UdpBuilder → Bool
get_broadcast b = b.broadcast

-- `builder::base::copy`
unfoldable pub copy : UdpBuilder → UdpBuilder
copy b = b

-- The options of a socket.
pub record Options : Type 0 where
  pub reuse_address : Bool
  pub broadcast : Bool

abbrev pub no_options : Options
no_options = record { reuse_address = false; broadcast = false }

-- The socket with its options, if it is open, and all that was sent, oldest first.
pub record ClientSocket (Bytes : Type 0) : Type 0 where
  pub options : Option Options
  pub reading : Bool
  pub broadcast : Bool
  pub sent : List Bytes

abbrev pub Client : Type 0 → Type 0 → Type 0 → Type 0
Client Addr Bytes Object = State Addr (ClientSocket Bytes) Object

pub record Os (Addr Bytes Object : Type 0) : Type 0 where
  pub running : Bool
  pub flush : Client Addr Bytes Object → Client Addr Bytes Object
  pub connects : Options → Addr → ℕ
  pub sends : Options → Addr → ℕ

-- The constructor of the socket.
unfoldable pub new_socket : {Bytes : Type 0} → Bool → ClientSocket Bytes
new_socket broadcast = record { options = none; reading = false; broadcast = broadcast; sent = [] }

-- `set_option`, twice at most.
unfoldable pub set_options : Bool → Options → Options
set_options broadcast o =
    let p = record o { reuse_address = true } in
    if broadcast then record p { broadcast = true } else p

module _ {Addr Bytes Object : Type 0} (os : Os Addr Bytes Object) where
  -- `client_socket::connect`, which opens the socket if it is closed.
  unfoldable pub connect : Addr → ClientSocket Bytes → ClientSocket Bytes
  unfolding set_options
  connect addr t =
      let o : Options = elim t.options [ none ↦ no_options | some o ↦ o ] in
      if os.connects o addr == 0
      then record t { options = some (set_options t.broadcast o); reading = true }
      else record t { options = none; reading = false }

  -- `udp_builder::build`, with the constructor of the client's transport.
  unfoldable pub build : UdpBuilder → Addr → ClientSocket Bytes
  unfolding connect new_socket get_broadcast
  build b addr = connect addr (new_socket (get_broadcast b))

  -- `dgram_handler::send_data`, to the endpoint that the socket is connected to.
  unfoldable pub write_data :
      Bytes → Client Addr Bytes Object → Option Failure × Client Addr Bytes Object
  write_data buf s = elim s.tran.options [
    | none ↦ (none, s)
    | some o ↦
        if os.sends o s.session.addr == 0
        then (none, record s { tran = record s.tran { sent = s.tran.sent ++ buf ∷ [] } })
        else (some system_failure, s)
  ]

  unfoldable pub send_data :
      Bytes → Client Addr Bytes Object → Option Failure × Client Addr Bytes Object
  unfolding connect write_data get_address
  send_data buf s =
      let t = if os.running then s else os.flush s in
      let u : Client Addr Bytes Object = elim t.tran.options [
        | none ↦ record t { tran = connect (get_address t.session) t.tran }
        | some o ↦ t
      ] in
      write_data buf u

-- What a program does with its session, and a round of the timer.
pub data Use (Object : Type 0) : Type 0 where
  requests notifies : Object → Object → Use Object
  second : Use Object

-- What a request throws.
abbrev pub thrown : Called → Option Failure
thrown (future r) = none
thrown (threw e) = some e

module _ {Addr Bytes Object : Type 0} (codec : Codec Object Bytes) ⦃rt : Runtime Object⦄
    (os : Os Addr Bytes Object) where
  -- What a call throws, and the session after it.
  unfoldable pub use_session :
      Use Object → Client Addr Bytes Object → Option Failure × Client Addr Bytes Object
  unfolding send_request send_notify send_data step_timer_handler
  use_session (requests method params) s =
      let send = λ (e : Unit {0}). send_data os in
      let (called, t) = send_request send codec tt method params none s in (thrown called, t)
  use_session (notifies method params) s =
      send_notify (λ (e : Unit {0}). send_data os) codec tt method params none s
  use_session second s = (none, step_timer_handler false s)

  -- A run, and all that was thrown.
  unfoldable pub use_all :
      List (Use Object)
      → Client Addr Bytes Object
      → List (Option Failure) × Client Addr Bytes Object
  unfolding use_session
  use_all [] s = ([], s)
  use_all (u ∷ us) s =
      let (failed, t) = use_session u s in
      let (failures, v) = use_all us t in (failed ∷ failures, v)
