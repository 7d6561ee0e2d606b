-- ===== src/Session/Handle/Uses.antt =====
-- What a program does with its handles of src/msgpack/rpc/session.h, as a list: requests,
-- notifications, and settings of the timeout.
use msgpack_rpc_boost.Future.{SessionRef}
use msgpack_rpc_boost.Prelude.{
  ℕ, suc, Option, none, some, List, [], ◌∷◌, ◌++◌, get_elem?, ◌==◌, if◌then◌else◌,
}
use msgpack_rpc_boost.Protocol.{Runtime, Codec}
use msgpack_rpc_boost.Session
use msgpack_rpc_boost.Session.{Sender}
use msgpack_rpc_boost.Session.Handle.{
  SessionHandle, Sessions, set_timeout, send_request, send_notify,
}

-- What a program does through a handle, with what the network does then.
pub data Use (Env Object : Type 0) : Type 0 where
  requests notifies : Env → Object → Object → Use Env Object
  sets_timeout : ℕ → Use Env Object

-- The number of requests that go to one session.
abbrev pub requests_to :
    {Env Object : Type 0} → SessionRef → List (SessionHandle × Use Env Object) → ℕ
requests_to r [] = 0
requests_to r ((s, requests env method params) ∷ us) =
    if s.pimpl == r then suc (requests_to r us) else requests_to r us
requests_to r ((s, u) ∷ us) = requests_to r us

-- The ids of one session, out of all that were given.
abbrev pub ids_of : SessionRef → List (SessionRef × ℕ) → List ℕ
ids_of r [] = []
ids_of r ((q, id) ∷ l) = if q == r then id ∷ ids_of r l else ids_of r l

-- The counter of a session, if it is there.
abbrev pub counter : {Addr Tran Object : Type 0} → Sessions Addr Tran Object → SessionRef → Option ℕ
counter p r = elim (get_elem? p.sessions r) [ none ↦ none | some (impl, tran) ↦ some impl.msgid_rr ]

module _ {Addr Tran Object Env Bytes : Type 0} (codec : Codec Object Bytes) ⦃rt : Runtime Object⦄
    (send_data : Sender Env Bytes Addr Tran Object) where
  -- What one use leaves, and the id of its request.
  abbrev pub given :
      SessionRef
      → Option ((ℕ × Session.Called) × Sessions Addr Tran Object)
      → Option (List (SessionRef × ℕ) × Sessions Addr Tran Object)
  given r none = none
  given r (some ((id, called), q)) = some ((r, id) ∷ [], q)

  abbrev pub silent :
      {A : Type 0}
      → Option (A × Sessions Addr Tran Object)
      → Option (List (SessionRef × ℕ) × Sessions Addr Tran Object)
  silent none = none
  silent (some (a, q)) = some ([], q)

  unfoldable pub use_handle :
      SessionHandle
      → Use Env Object
      → Sessions Addr Tran Object
      → Option (List (SessionRef × ℕ) × Sessions Addr Tran Object)
  unfolding send_request send_notify set_timeout
  use_handle s (requests env method params) p =
      given s.pimpl (send_request send_data codec env method params s p)
  use_handle s (notifies env method params) p =
      silent (send_notify send_data codec env method params s p)
  use_handle s (sets_timeout sec) p = silent (set_timeout sec s p)

  unfoldable pub use_all :
      List (SessionHandle × Use Env Object)
      → Sessions Addr Tran Object
      → Option (List (SessionRef × ℕ) × Sessions Addr Tran Object)
  use_all [] p = some ([], p)
  use_all ((s, u) ∷ us) p =
      let rest = use_all us in
      elim (use_handle s u p) [
        | none ↦ none
        | some (l, q) ↦ elim (rest q) [ none ↦ none | some (m, t) ↦ some (l ++ m, t) ]
      ]
