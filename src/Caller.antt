-- ===== src/Caller.antt =====
-- src/msgpack/rpc/caller.h: the overloads of `call`, `call_apply`, `notify` and `notify_apply`, over
-- the `send_request` and `send_notify` of session.h. The overloads for one to sixteen arguments are
-- one function of the list of arguments. `auto_zone` is a unique pointer, null or not.
pub mod Laws
pub mod Unanswered
use msgpack_rpc_boost.Future.{Zone}
use msgpack_rpc_boost.Prelude.{Option, none, some, List, []}
use msgpack_rpc_boost.Protocol.{Runtime, Codec}
use msgpack_rpc_boost.Session.{State, Sender, Called, Failure, send_request, send_notify}

-- `msglife.release()`: the zone, and the null pointer left behind.
unfoldable pub release : Option Zone → Option Zone × Option Zone
release z = (z, none)

module _ {Env Bytes Addr Tran Object : Type 0} ⦃rt : Runtime Object⦄ (codec : Codec Object Bytes)
    (send_data : Sender Env Bytes Addr Tran Object) (env : Env) (name : Object) where
  unfoldable pub call_apply_with_shared_zone :
      Option Zone → Object → State Addr Tran Object → Called × State Addr Tran Object
  call_apply_with_shared_zone msglife params st =
      send_request send_data codec env name params msglife st

  unfoldable pub call_apply_with_auto_zone :
      Option Zone → Object → State Addr Tran Object → Called × State Addr Tran Object
  unfolding release
  call_apply_with_auto_zone msglife params st =
      let slife = (release msglife).0 in send_request send_data codec env name params slife st

  unfoldable pub call_apply : Object → State Addr Tran Object → Called × State Addr Tran Object
  call_apply params st = send_request send_data codec env name params none st

  -- The call of no argument, too.
  unfoldable pub call : List Object → State Addr Tran Object → Called × State Addr Tran Object
  call args st = send_request send_data codec env name (rt.from_tuple args) none st

  unfoldable pub call_with_auto_zone :
      Option Zone → List Object → State Addr Tran Object → Called × State Addr Tran Object
  unfolding release
  call_with_auto_zone msglife args st =
      let slife = (release msglife).0 in
      send_request send_data codec env name (rt.from_tuple args) slife st

  unfoldable pub call_with_shared_zone :
      Option Zone → List Object → State Addr Tran Object → Called × State Addr Tran Object
  call_with_shared_zone msglife args st =
      send_request send_data codec env name (rt.from_tuple args) msglife st

  unfoldable pub notify_apply_with_shared_zone :
      Option Zone → Object → State Addr Tran Object → Option Failure × State Addr Tran Object
  notify_apply_with_shared_zone msglife params st =
      send_notify send_data codec env name params msglife st

  unfoldable pub notify_apply_with_auto_zone :
      Option Zone → Object → State Addr Tran Object → Option Failure × State Addr Tran Object
  unfolding release
  notify_apply_with_auto_zone msglife params st =
      let slife = (release msglife).0 in send_notify send_data codec env name params slife st

  unfoldable pub notify_apply :
      Object → State Addr Tran Object → Option Failure × State Addr Tran Object
  notify_apply params st = send_notify send_data codec env name params none st

  -- The notification of no argument, too.
  unfoldable pub notify :
      List Object → State Addr Tran Object → Option Failure × State Addr Tran Object
  notify args st = send_notify send_data codec env name (rt.from_tuple args) none st

  unfoldable pub notify_with_auto_zone :
      Option Zone → List Object → State Addr Tran Object → Option Failure × State Addr Tran Object
  unfolding release
  notify_with_auto_zone msglife args st =
      let slife = (release msglife).0 in
      send_notify send_data codec env name (rt.from_tuple args) slife st

  unfoldable pub notify_with_shared_zone :
      Option Zone → List Object → State Addr Tran Object → Option Failure × State Addr Tran Object
  notify_with_shared_zone msglife args st =
      send_notify send_data codec env name (rt.from_tuple args) msglife st
