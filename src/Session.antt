-- ===== src/Session.antt =====
-- src/msgpack/rpc/session.cc, session.h and session_impl.h: one session with its request table, its
-- transport's state and the futures of its requests. The transport is an argument (`Sender`): the
-- session calls it to send, and it calls back `on_connect_failed` and `on_system_error`. A handler
-- of the loop is one function.
pub mod Steps
pub mod Equations
pub mod Invariant
pub mod Response
pub mod Replies
pub mod Order
pub mod Pipeline
pub mod Expiry
pub mod Failing
pub mod Pending
pub mod Threads
pub mod TimedOut
pub mod Handout
pub mod Handle
use msgpack_rpc_boost.Exceptions.{timeout_object, connect_object}
use msgpack_rpc_boost.Future.{SessionRef, Zone, new_future}
use msgpack_rpc_boost.Future.Heap.{Heap, FutureRef, allocate, complete, complete_all}
use msgpack_rpc_boost.Prelude.{
  ℕ, Bool, true, false, Option, none, some, List, [], ◌∷◌, if◌then◌else◌,
}
use msgpack_rpc_boost.Protocol.{Runtime, Codec, msg_request, msg_notify}
use msgpack_rpc_boost.Protocol.MsgId.{atomic_increment}
use msgpack_rpc_boost.Reqtable
use msgpack_rpc_boost.Reqtable.{Reqtable}

-- `self` is what `shared_from_this()` gives, `armed` says that a wait of the step timer is pending.
pub record SessionImpl (Addr : Type 0) : Type 0 where
  pub self : SessionRef
  pub addr : Addr
  pub msgid_rr : ℕ
  pub reqtable : Reqtable
  pub timeout : ℕ
  pub armed : Bool

pub record State (Addr Tran Object : Type 0) : Type 0 where
  pub session : SessionImpl Addr
  pub tran : Tran
  pub heap : Heap Object

-- What a send throws: `rpc::connect_error`, or an error of the operating system.
pub data Failure : Type 0 where
  connect_failure system_failure : Failure

-- What a call gives back.
pub data Called : Type 0 where
  future : FutureRef → Called
  threw : Failure → Called

-- `m_tran->send_data`, with what the network does as its first argument.
abbrev pub Sender : Type 0 → Type 0 → Type 0 → Type 0 → Type 0 → Type 0
Sender Env Bytes Addr Tran Object =
    Env → Bytes → State Addr Tran Object → Option Failure × State Addr Tran Object

module _ {Addr : Type 0} where
  unfoldable pub set_timeout : ℕ → SessionImpl Addr → SessionImpl Addr
  set_timeout sec s = record s { timeout = sec }

  unfoldable pub get_timeout : SessionImpl Addr → ℕ
  get_timeout s = s.timeout

  unfoldable pub get_address : SessionImpl Addr → Addr
  get_address s = s.addr

  unfoldable pub next_msgid : SessionImpl Addr → ℕ × SessionImpl Addr
  unfolding atomic_increment
  next_msgid s = let (id, next) = atomic_increment s.msgid_rr in (id, record s { msgid_rr = next })

  -- The wait of one second.
  unfoldable pub arm_step_timer : SessionImpl Addr → SessionImpl Addr
  arm_step_timer s = record s { armed = true }

  unfoldable pub disarm_step_timer : SessionImpl Addr → SessionImpl Addr
  disarm_step_timer s = record s { armed = false }

  -- The constructor.
  unfoldable pub session_impl : SessionRef → Addr → SessionImpl Addr
  unfolding arm_step_timer
  session_impl self addr = arm_step_timer (record {
    self = self;
    addr = addr;
    msgid_rr = 1;
    reqtable = [];
    timeout = 30;
    armed = false;
  })

module _ {Addr Tran Object : Type 0} where
  -- `create`, with `build`: the transport that the builder makes, and the builder's timeout.
  unfoldable pub create : SessionRef → Addr → Tran → ℕ → Heap Object → State Addr Tran Object
  unfolding session_impl set_timeout
  create self addr tran timeout h = record {
    session = set_timeout timeout (session_impl self addr);
    tran = tran;
    heap = h;
  }

  module _ ⦃rt : Runtime Object⦄ where
    -- `send_request_impl` up to the send: the new future, entered in the table.
    unfoldable pub register : ℕ → State Addr Tran Object → FutureRef × State Addr Tran Object
    unfolding allocate new_future
    register msgid st =
        let s = st.session in
        let (f, h) = allocate (new_future msgid s.self s.timeout) st.heap in
        (
          f,
          record st {
            session = record s { reqtable = Reqtable.insert msgid f s.reqtable };
            heap = h;
          },
        )

    unfoldable pub on_response :
        ℕ → Object → Object → Option Zone → State Addr Tran Object → State Addr Tran Object
    on_response msgid result error z st =
        let (f, rest) = Reqtable.take msgid st.session.reqtable in
        let st' = record st { session = record st.session { reqtable = rest } } in
        elim f [ none ↦ st' | some r ↦ record st' { heap = complete result error z r st.heap } ]

    -- A session takes no notification.
    unfoldable pub on_notify :
        Object → Object → Option Zone → State Addr Tran Object → State Addr Tran Object
    on_notify method params z st = st

    unfoldable pub on_connect_failed : State Addr Tran Object → State Addr Tran Object
    unfolding connect_object
    on_connect_failed st =
        let (all, rest) = Reqtable.take_all [] st.session.reqtable in
        record st {
          session = record st.session { reqtable = rest };
          heap = complete_all rt.nil connect_object all st.heap;
        }

    unfoldable pub on_system_error : State Addr Tran Object → State Addr Tran Object
    unfolding connect_object
    on_system_error st =
        let (all, rest) = Reqtable.take_all [] st.session.reqtable in
        record st {
          session = record st.session { reqtable = rest };
          heap = complete_all rt.nil connect_object all st.heap;
        }

    -- The wait that ended is no longer pending; an aborted one does nothing.
    unfoldable pub step_timer_handler : Bool → State Addr Tran Object → State Addr Tran Object
    unfolding arm_step_timer timeout_object
    step_timer_handler aborted st =
        let s = record st.session { armed = false } in
        let (kept, timedout, h) = Reqtable.step_timeout [] s.reqtable st.heap in
        if aborted then record st { session = s } else record st {
          session = arm_step_timer (record s { reqtable = kept });
          heap = complete_all rt.nil timeout_object timedout h;
        }

    module _ {Env Bytes : Type 0} (send_data : Sender Env Bytes Addr Tran Object) where
      unfoldable pub send_request_impl :
          Env → ℕ → Bytes → State Addr Tran Object → Called × State Addr Tran Object
      unfolding register
      send_request_impl env msgid buf st =
          let (f, st') = register msgid st in
          let (failed, st'') = send_data env buf st' in
          (elim failed [ none ↦ future f | some e ↦ threw e ], st'')

      unfoldable pub send_notify_impl :
          Env → Bytes → State Addr Tran Object → Option Failure × State Addr Tran Object
      send_notify_impl env buf st = send_data env buf st

      -- The two buffers, with a zone to keep alive and without, are packed alike.
      unfoldable pub send_request :
          Codec Object Bytes
          → Env
          → Object
          → Object
          → Option Zone
          → State Addr Tran Object
          → Called × State Addr Tran Object
      unfolding next_msgid msg_request send_request_impl
      send_request codec env method params msglife st =
          let (msgid, s) = next_msgid st.session in
          let buf = codec.pack_request (msg_request method params msgid) in
          send_request_impl env msgid buf (record st { session = s })

      unfoldable pub send_notify :
          Codec Object Bytes
          → Env
          → Object
          → Object
          → Option Zone
          → State Addr Tran Object
          → Option Failure × State Addr Tran Object
      unfolding msg_notify send_notify_impl
      send_notify codec env method params msglife st =
          send_notify_impl env (codec.pack_notify (msg_notify method params)) st
