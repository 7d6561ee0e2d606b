-- ===== src/Protocol.antt =====
-- src/msgpack/rpc/protocol.h: the messages and their type tags. An object of the msgpack library is
-- a value of a type parameter; its packer, its conversions and its constants are `Codec` and
-- `Runtime` below, what the code relies on being their laws.
pub mod MsgId
use msgpack_rpc_boost.Prelude.{
  ℕ, ◌<◌, ◌^◌, ◌≡◌, ◌≢◌, Bool, true, false, Option, none, some, List, ◌==◌,
}

abbrev pub request_type : ℕ
request_type = 0

abbrev pub response_type : ℕ
response_type = 1

abbrev pub notify_type : ℕ
notify_type = 2

abbrev pub unknown_type : ℕ
unknown_type = 0xff

-- The error numbers that a dispatcher sends.
abbrev pub no_method_error : ℕ
no_method_error = 0x01

abbrev pub argument_error : ℕ
argument_error = 0x02

-- `message_type_t` is one byte.
pub record MsgRpc : Type 0 where
  pub type : ℕ

unfoldable pub is_request : MsgRpc → Bool
is_request m = m.type == request_type

unfoldable pub is_response : MsgRpc → Bool
is_response m = m.type == response_type

unfoldable pub is_notify : MsgRpc → Bool
is_notify m = m.type == notify_type

unfoldable pub is_unknown : MsgRpc → Bool
is_unknown m = m.type == unknown_type

pub record MsgRequest (Object : Type 0) : Type 0 where
  pub type : ℕ
  pub msgid : ℕ
  pub method : Object
  pub param : Object

pub record MsgResponse (Object : Type 0) : Type 0 where
  pub type : ℕ
  pub msgid : ℕ
  pub error : Object
  pub result : Object

pub record MsgNotify (Object : Type 0) : Type 0 where
  pub type : ℕ
  pub method : Object
  pub param : Object

-- The constructors that set the tag.
unfoldable pub msg_request : {Object : Type 0} → Object → Object → ℕ → MsgRequest Object
msg_request method param msgid = record {
  type = request_type;
  msgid = msgid;
  method = method;
  param = param;
}

unfoldable pub msg_response : {Object : Type 0} → Object → Object → ℕ → MsgResponse Object
msg_response result error msgid = record {
  type = response_type;
  msgid = msgid;
  error = error;
  result = result;
}

unfoldable pub msg_notify : {Object : Type 0} → Object → Object → MsgNotify Object
msg_notify method param = record { type = notify_type; method = method; param = param }

-- What the code takes from msgpack's `object`: the nil object, raw references, unsigned numbers, and
-- the addresses of the two string literals of exception.cc, which differ.
pub record Runtime (Object : Type 0) : Type 0 where
  pub nil : Object
  pub is_nil : Object → Bool
  -- object(type::raw_ref(ptr, size))
  pub raw_ref : ℕ → ℕ → Object
  -- `via.bin.ptr`, of an object whose type is BIN
  pub bin_ptr : Object → Option ℕ
  -- an unsigned number packed as an object, and `via.u64` of a POSITIVE_INTEGER
  pub from_u64 : ℕ → Object
  pub via_u64 : Object → Option ℕ
  -- the tuple of the arguments of a call, as the object that it packs to
  pub from_tuple : List Object → Object
  pub timeout_error_ptr : ℕ
  pub connect_error_ptr : ℕ
  pub is_nil-nil : is_nil nil ≡ true
  pub is_nil-raw_ref : (p n : ℕ) → is_nil (raw_ref p n) ≡ false
  pub bin_ptr-raw_ref : (p n : ℕ) → bin_ptr (raw_ref p n) ≡ some p
  pub is_nil-from_u64 : (n : ℕ) → is_nil (from_u64 n) ≡ false
  pub bin_ptr-from_u64 : (n : ℕ) → bin_ptr (from_u64 n) ≡ none
  pub via_u64-from_u64 : (n : ℕ) → via_u64 (from_u64 n) ≡ some n
  pub literals_differ : timeout_error_ptr ≢ connect_error_ptr

-- msgpack::pack, the unpacking of one whole message, and `object::convert`, where `none` is a
-- msgpack::type_error. A packed message of this protocol unpacks to an object that converts back.
pub record Codec (Object Bytes : Type 0) : Type 0 where
  pub pack_request : MsgRequest Object → Bytes
  pub pack_response : MsgResponse Object → Bytes
  pub pack_notify : MsgNotify Object → Bytes
  pub unpack : Bytes → Option Object
  pub convert_rpc : Object → Option MsgRpc
  pub convert_request : Object → Option (MsgRequest Object)
  pub convert_response : Object → Option (MsgResponse Object)
  pub convert_notify : Object → Option (MsgNotify Object)
  pub unpack-pack_request :
      (m : MsgRequest Object)
      → m.type < 2 ^ 8
      → m.msgid < 2 ^ 32
      → (o : Object) × (unpack (pack_request m) ≡ some o)
        × (convert_rpc o ≡ some (record { type = m.type }))
        × (convert_request o ≡ some m)
  pub unpack-pack_response :
      (m : MsgResponse Object)
      → m.type < 2 ^ 8
      → m.msgid < 2 ^ 32
      → (o : Object) × (unpack (pack_response m) ≡ some o)
        × (convert_rpc o ≡ some (record { type = m.type }))
        × (convert_response o ≡ some m)
  pub unpack-pack_notify :
      (m : MsgNotify Object)
      → m.type < 2 ^ 8
      → (o : Object) × (unpack (pack_notify m) ≡ some o)
        × (convert_rpc o ≡ some (record { type = m.type }))
        × (convert_notify o ≡ some m)
