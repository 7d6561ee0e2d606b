-- ===== src/EchoServer/Calls.antt =====
-- What a client gets from the dispatcher of unittest/echo_server.h, through the whole library: the
-- calls of unittest/unittest.cpp.
use Prim.Native.String.{String}
use msgpack_rpc_boost.Caller.Laws.{Overload, call_by, call_by_served}
use msgpack_rpc_boost.EchoServer.{Conversions, dispatch}
use msgpack_rpc_boost.Exceptions.{RpcError, throw_exception}
use msgpack_rpc_boost.Future.Heap.{FutureRef, deref}
use msgpack_rpc_boost.Future.Wait.{GetResult, Wake, value, threw, get_impl}
use msgpack_rpc_boost.Prelude.{
  ℕ, ◌+◌, ◌%◌, ◌^◌, ◌≡◌, ◌≢◌, ◌∙◌, Bool, none, some, List, [], ◌∷◌, arith, if◌then◌else◌,
}
use msgpack_rpc_boost.Protocol.{Runtime, Codec}
use msgpack_rpc_boost.Request.{RequestImpl, SenderRef, Answer, gives, fails}
use msgpack_rpc_boost.Request.Laws.{result_of, error_of}
use msgpack_rpc_boost.Rpc.{exchange, request_of}
use msgpack_rpc_boost.Server.{ServerImpl}
use msgpack_rpc_boost.Session.{State, future}
use msgpack_rpc_boost.Session.Invariant.{IsValid}
use text.Mathlib.TextEquality.{eq_iff}

-- What a call of a method by a name, with parameters, must come to at the client.
pub data Expected {Object : Type 0} (rt : Runtime Object) (cv : Conversions rt)
    (method params : Object) : GetResult Object → Type 0 where
  sum :
      (a b : ℕ)
      → cv.to_string method ≡ some "add"
      → cv.to_ints params ≡ some (a, b)
      → Expected rt cv method params (value (cv.from_int ((a + b) % 2 ^ 32)))
  same :
      (msg : String)
      → cv.to_string method ≡ some "echo"
      → cv.to_one_string params ≡ some msg
      → Expected rt cv method params (value (cv.from_string msg))
  same_huge :
      (msg : Object)
      → cv.to_string method ≡ some "echo_huge"
      → cv.to_raw params ≡ some msg
      → Expected rt cv method params (value msg)
  failure :
      cv.to_string method ≡ some "err"
      → cv.to_nothing params ≡ some tt
      → Expected rt cv method params (threw (RpcError.remote_error (cv.from_string "always fail")))
  bad_addends :
      cv.to_string method ≡ some "add"
      → cv.to_ints params ≡ none
      → Expected rt cv method params (threw RpcError.argument_error)
  bad_message :
      cv.to_string method ≡ some "echo"
      → cv.to_one_string params ≡ none
      → Expected rt cv method params (threw RpcError.argument_error)
  bad_huge :
      cv.to_string method ≡ some "echo_huge"
      → cv.to_raw params ≡ none
      → Expected rt cv method params (threw RpcError.argument_error)
  bad_nothing :
      cv.to_string method ≡ some "err"
      → cv.to_nothing params ≡ none
      → Expected rt cv method params (threw RpcError.argument_error)
  bad_name :
      cv.to_string method ≡ none → Expected rt cv method params (threw RpcError.argument_error)
  unknown :
      (name : String)
      → cv.to_string method ≡ some name
      → name ≢ "add"
      → name ≢ "echo"
      → name ≢ "echo_huge"
      → name ≢ "err"
      → name ≢ "timeout"
      → Expected rt cv method params (threw RpcError.no_method_error)

-- What the client reports for an error object.
abbrev raised : {Object : Type 0} ⦃rt : Runtime Object⦄ → Object → GetResult Object
raised e = threw (throw_exception e)

module _ {Object : Type 0} ⦃rt : Runtime Object⦄ (cv : Conversions rt) where
  raised-number :
      (raised (rt.from_u64 1) ≡ threw RpcError.no_method_error)
      × (raised (rt.from_u64 2) ≡ threw RpcError.argument_error)
  unfolding throw_exception
  raised-number = (
    ground (arith, rt.bin_ptr-from_u64 1, rt.via_u64-from_u64 1),
    ground (arith, rt.bin_ptr-from_u64 2, rt.via_u64-from_u64 2),
  )

  raised-string :
      (t : String) → raised (cv.from_string t) ≡ threw (RpcError.remote_error (cv.from_string t))
  unfolding throw_exception
  raised-string t = ground (arith, cv.bin_ptr-from_string t, cv.via_u64-from_string t)

module _ {Object Bytes : Type 0} (codec : Codec Object Bytes) ⦃rt : Runtime Object⦄
    (cv : Conversions rt) where
  -- What the client reports for an answer.
  abbrev reported : Answer Object → GetResult Object
  reported a =
      if rt.is_nil (error_of codec a)
      then value (result_of codec a)
      else threw (throw_exception (error_of codec a))

  reported_bad : reported (fails (rt.from_u64 2) none) ≡ threw RpcError.argument_error
  reported_bad = ground (arith, rt.is_nil-from_u64 2, raised-number cv)

  pub dispatch-Expected :
      (r : RequestImpl Object) {g : GetResult Object}
      → Expected rt cv r.method r.params g
      → (a : Answer Object) × (dispatch cv r ≡ a ∷ []) × (reported a ≡ g)
  unfolding dispatch
  dispatch-Expected r (sum a b m p) =
      (gives (cv.from_int ((a + b) % 2 ^ 32)) none, ground arith, ground arith)
  dispatch-Expected r (same msg m p) = (gives (cv.from_string msg) none, ground arith, ground arith)
  dispatch-Expected r (same_huge msg m p) = (gives msg none, ground arith, ground arith)
  dispatch-Expected r (failure m p) = (
    fails (cv.from_string "always fail") none,
    ground arith,
    ground (arith, cv.is_nil-from_string "always fail", raised-string cv "always fail"),
  )
  dispatch-Expected r (bad_addends m p) = (fails (rt.from_u64 2) none, ground arith, reported_bad)
  dispatch-Expected r (bad_message m p) = (fails (rt.from_u64 2) none, ground arith, reported_bad)
  dispatch-Expected r (bad_huge m p) = (fails (rt.from_u64 2) none, ground arith, reported_bad)
  dispatch-Expected r (bad_nothing m p) = (fails (rt.from_u64 2) none, ground arith, reported_bad)
  dispatch-Expected r (bad_name m) = (fails (rt.from_u64 2) none, ground arith, reported_bad)
  dispatch-Expected r (unknown name m a b c d e) = (
    fails (rt.from_u64 1) none,
    ground (
      arith,
      eq_iff name "add",
      eq_iff name "echo",
      eq_iff name "echo_huge",
      eq_iff name "err",
      eq_iff name "timeout",
    ),
    ground (arith, rt.is_nil-from_u64 1, raised-number cv),
  )

  -- A call of the echo dispatcher by any overload, on a valid session whose transport takes the
  -- message: the call gives a future and sends one message, and once that is served and the reply
  -- taken `get` on the future comes to what the method's name and the parameters ask for. It returns
  -- the sum, or the message; it throws the remote error of "err", the argument error if the name or
  -- the parameters do not convert, and the missing method error if there is no such method.
  pub call_by_echo :
      {Addr STran : Type 0} (o : Overload) (name : Object) (args : List Object)
      (s : State Addr (List Bytes) Object) (peer : SenderRef) (svr : ServerImpl Object STran)
      (running : Bool) (ws : List (Wake Object)) {g : GetResult Object}
      → IsValid s
      → svr.dp ≡ some (dispatch cv)
      → Expected rt cv name (rt.from_tuple args) g
      → let t = (call_by codec o name args s).1 in
        (r : FutureRef) × (buf : Bytes) × (u : State Addr (List Bytes) Object) × ((call_by codec o
            name args s).0
          ≡ future r)
        × (t.tran ≡ buf ∷ s.tran)
        × (exchange codec peer buf svr t ≡ some u)
        × (get_impl running (deref u.heap r) ws ≡ g)
  call_by_echo o name args s peer svr running ws v served expected =
      let req = request_of codec peer s.session.msgid_rr name (rt.from_tuple args) in
      let (a, answered, gives_g) = dispatch-Expected req expected in
      let (r, buf, u, called, sent, back, got) =
        call_by_served codec o name args s peer svr (dispatch cv) a [] running ws v served
          answered in
      (r, buf, u, called, sent, back, got ∙ gives_g)
