-- ===== src/Tests/Objects.antt =====
-- Small objects in place of msgpack's, with a codec that loses nothing.
use Prim.Native.String.{String}
use msgpack_rpc_boost.EchoServer.{Conversions}
use msgpack_rpc_boost.Prelude.{ℕ, refl, Bool, true, false, Option, none, some, List, [], ◌∷◌, arith}
use msgpack_rpc_boost.Protocol.{Runtime, Codec, MsgRpc, MsgRequest, MsgResponse, MsgNotify}

pub data Obj : Type 0 where
  nil_object : Obj
  raw_reference : ℕ → ℕ → Obj
  number : ℕ → Obj
  text : String → Obj
  pair : Obj → Obj → Obj
  request_message : ℕ → ℕ → Obj → Obj → Obj
  response_message : ℕ → ℕ → Obj → Obj → Obj
  notify_message : ℕ → Obj → Obj → Obj

abbrev pub pairs : List Obj → Obj
pairs [] = nil_object
pairs (o ∷ os) = pair o (pairs os)

abbrev is_nil_object : Obj → Bool
is_nil_object nil_object = true
is_nil_object _ = false

abbrev pointer : Obj → Option ℕ
pointer (raw_reference p n) = some p
pointer _ = none

abbrev pub value : Obj → Option ℕ
value (number n) = some n
value _ = none

instance abbrev pub obj_runtime : Runtime Obj
obj_runtime = record {
  nil = nil_object;
  is_nil = is_nil_object;
  raw_ref = raw_reference;
  bin_ptr = pointer;
  from_u64 = number;
  via_u64 = value;
  from_tuple = pairs;
  timeout_error_ptr = 1000;
  connect_error_ptr = 2000;
  is_nil-nil = refl;
  is_nil-raw_ref = λ p n. refl;
  bin_ptr-raw_ref = λ p n. refl;
  is_nil-from_u64 = λ n. refl;
  bin_ptr-from_u64 = λ n. refl;
  via_u64-from_u64 = λ n. refl;
  literals_differ = omega arith;
}

abbrev to_rpc : Obj → Option MsgRpc
to_rpc (request_message t id m p) = some (record { type = t })
to_rpc (response_message t id e r) = some (record { type = t })
to_rpc (notify_message t m p) = some (record { type = t })
to_rpc _ = none

abbrev to_request : Obj → Option (MsgRequest Obj)
to_request (request_message t id m p) =
    some (record { type = t; msgid = id; method = m; param = p })
to_request _ = none

abbrev to_response : Obj → Option (MsgResponse Obj)
to_response (response_message t id e r) =
    some (record { type = t; msgid = id; error = e; result = r })
to_response _ = none

abbrev to_notify : Obj → Option (MsgNotify Obj)
to_notify (notify_message t m p) = some (record { type = t; method = m; param = p })
to_notify _ = none

abbrev pub obj_codec : Codec Obj Obj
obj_codec = record {
  pack_request = λ m. request_message m.type m.msgid m.method m.param;
  pack_response = λ m. response_message m.type m.msgid m.error m.result;
  pack_notify = λ m. notify_message m.type m.method m.param;
  unpack = some;
  convert_rpc = to_rpc;
  convert_request = to_request;
  convert_response = to_response;
  convert_notify = to_notify;
  unpack-pack_request =
      λ m lt id. (request_message m.type m.msgid m.method m.param, refl, refl, refl);
  unpack-pack_response =
      λ m lt id. (response_message m.type m.msgid m.error m.result, refl, refl, refl);
  unpack-pack_notify = λ m lt. (notify_message m.type m.method m.param, refl, refl, refl);
}

abbrev to_text : Obj → Option String
to_text (text t) = some t
to_text _ = none

abbrev to_two_numbers : Obj → Option (ℕ × ℕ)
to_two_numbers (pair (number a) (pair (number b) nil_object)) = some (a, b)
to_two_numbers _ = none

abbrev to_one_text : Obj → Option String
to_one_text (pair (text t) nil_object) = some t
to_one_text _ = none

abbrev to_one : Obj → Option Obj
to_one (pair o nil_object) = some o
to_one _ = none

abbrev to_none : Obj → Option (Unit {0})
to_none nil_object = some tt
to_none _ = none

abbrev pub obj_conversions : Conversions obj_runtime
obj_conversions = record {
  to_string = to_text;
  to_ints = to_two_numbers;
  to_one_string = to_one_text;
  to_raw = to_one;
  to_nothing = to_none;
  from_int = number;
  from_string = text;
  is_nil-from_string = λ t. refl;
  bin_ptr-from_string = λ t. refl;
  via_u64-from_string = λ t. refl;
}
