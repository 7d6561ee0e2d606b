-- ===== src/Exceptions.antt =====
-- src/msgpack/rpc/exception.h and exception.cc: the exceptions that a request ends in, and how
-- `throw_exception` chooses one by the error object. The library's ostream for objects is a
-- parameter of `what`.
use Prim.Native.String.{String, ◌++◌}
use msgpack_rpc_boost.Prelude.{ℕ, Bool, true, false, Option, none, some, ◌==◌, if◌then◌else◌}
use msgpack_rpc_boost.Protocol
use msgpack_rpc_boost.Protocol.{Runtime}

-- The classes below std::runtime_error; `remote_error` keeps the error of the future it holds.
pub data RpcError (Object : Type 0) : Type 0 where
  timeout_error : RpcError Object
  connect_error : RpcError Object
  no_method_error : RpcError Object
  argument_error : RpcError Object
  remote_error : Object → RpcError Object

module _ {Object : Type 0} where
  -- Whether a `catch (call_error&)` takes it.
  unfoldable pub is_call_error : RpcError Object → Bool
  is_call_error RpcError.no_method_error = true
  is_call_error RpcError.argument_error = true
  is_call_error _ = false

  unfoldable pub what : (Object → String) → RpcError Object → String
  what show RpcError.timeout_error = "request timed out"
  what show RpcError.connect_error = "connection failed"
  what show RpcError.no_method_error = "method not found"
  what show RpcError.argument_error = "argument mismatch"
  what show (RpcError.remote_error e) = "remote error: " ++ show e

-- `err.type == BIN && err.via.bin.ptr == ptr`, and the same for a number.
abbrev pub holds : Option ℕ → ℕ → Bool
holds none n = false
holds (some m) n = m == n

module _ {Object : Type 0} ⦃rt : Runtime Object⦄ where
  -- TIMEOUT_ERROR and CONNECT_ERROR: raw references to the two literals, of 17 bytes each.
  unfoldable pub timeout_object : Object
  timeout_object = rt.raw_ref rt.timeout_error_ptr 17

  unfoldable pub connect_object : Object
  connect_object = rt.raw_ref rt.connect_error_ptr 17

  unfoldable pub throw_exception : Object → RpcError Object
  throw_exception err =
      if holds (rt.bin_ptr err) rt.timeout_error_ptr
      then RpcError.timeout_error
      else if holds (rt.bin_ptr err) rt.connect_error_ptr
      then RpcError.connect_error
      else if holds (rt.via_u64 err) Protocol.no_method_error
      then RpcError.no_method_error
      else if holds (rt.via_u64 err) Protocol.argument_error
      then RpcError.argument_error
      else RpcError.remote_error err
