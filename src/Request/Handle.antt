-- ===== src/Request/Handle.antt =====
-- The class `request` of src/msgpack/rpc/request.h and request.cc: a shared pointer to a request_impl, with
-- calls that go through it. The copies of a request share what they point to. `none` is a use of a
-- pointer to no request.
pub mod Sharing
use msgpack_rpc_boost.Future.{Zone}
use msgpack_rpc_boost.Prelude.{ℕ, Bool, true, false, Option, none, some, List, [], get_elem?, set}
use msgpack_rpc_boost.Protocol.{Runtime, Codec, msg_response}
use msgpack_rpc_boost.Request
use msgpack_rpc_boost.Request.{RequestImpl, SenderRef, Answer, gives, gives_nil, fails, fails_with}

abbrev pub RequestRef : Type 0
RequestRef = ℕ

pub record RequestHandle : Type 0 where
  pub pimpl : RequestRef

-- The requests that a server was given, and what a call through a handle sends.
abbrev pub Requests : Type 0 → Type 0
Requests Object = List (RequestImpl Object)

abbrev pub Sent : Type 0 → Type 0
Sent Bytes = List (SenderRef × Bytes)

module _ {Object : Type 0} where
  -- `m_pimpl->f()` of what does not change the request, and of what may.
  unfoldable pub ask :
      {A : Type 0} → (RequestImpl Object → A) → RequestHandle → Requests Object → Option A
  ask f s p = elim (get_elem? p s.pimpl) [ none ↦ none | some r ↦ some (f r) ]

  unfoldable pub through :
      {Bytes : Type 0}
      → (RequestImpl Object → RequestImpl Object × Sent Bytes)
      → RequestHandle
      → Requests Object
      → Option (Requests Object × Sent Bytes)
  through f s p = elim (get_elem? p s.pimpl) [
    | none ↦ none
    | some r ↦ let (r', sent) = f r in some (set p s.pimpl r', sent)
  ]

  unfoldable pub method : RequestHandle → Requests Object → Option Object
  unfolding ask
  method s p = ask (λ r. r.method) s p

  unfoldable pub params : RequestHandle → Requests Object → Option Object
  unfolding ask
  params s p = ask (λ r. r.params) s p

  unfoldable pub zone : RequestHandle → Requests Object → Option (Option Zone)
  unfolding ask
  zone s p = ask (λ r. r.zone) s p

  unfoldable pub is_sent : RequestHandle → Requests Object → Option Bool
  unfolding ask Request.is_sent
  is_sent s p = ask Request.is_sent s p

  unfoldable pub get_msgid : RequestHandle → Requests Object → Option ℕ
  unfolding ask
  get_msgid s p = ask (λ r. r.msgid) s p

  unfoldable pub send_data :
      {Bytes : Type 0}
      → Bytes
      → RequestHandle
      → Requests Object
      → Option (Requests Object × Sent Bytes)
  unfolding through Request.send_data
  send_data buf s p = through (Request.send_data buf) s p

module _ {Object Bytes : Type 0} (codec : Codec Object Bytes) ⦃rt : Runtime Object⦄ where
  -- `call`: three methods of the same request_impl.
  unfoldable pub call :
      Object → Object → RequestHandle → Requests Object → Option (Requests Object × Sent Bytes)
  unfolding is_sent get_msgid send_data
  call res err s p = elim (is_sent s p) [
    | none ↦ none
    | some true ↦ some (p, [])
    | some false ↦ elim (get_msgid s p) [
      | none ↦ none
      | some id ↦ send_data (codec.pack_response (msg_response res err id)) s p
    ]
  ]

  -- What a dispatcher calls: `result`, `result_nil` and the two forms of `error`.
  unfoldable pub answer :
      Answer Object → RequestHandle → Requests Object → Option (Requests Object × Sent Bytes)
  unfolding call
  answer (gives res z) s p = call res rt.nil s p
  answer gives_nil s p = call rt.nil rt.nil s p
  answer (fails err z) s p = call rt.nil err s p
  answer (fails_with err res z) s p = call res err s p

  -- `request::type<Result>::result`, and that of `request::type<void>`, which is given nothing.
  unfoldable pub type_result :
      Option (Object × Option Zone)
      → RequestHandle
      → Requests Object
      → Option (Requests Object × Sent Bytes)
  unfolding answer
  type_result none s p = answer gives_nil s p
  type_result (some (res, z)) s p = answer (gives res z) s p
