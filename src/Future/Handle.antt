-- ===== src/Future/Handle.antt =====
-- The class `future` of src/msgpack/rpc/future.h and future.cc: a method's name and a shared pointer,
-- with calls that go through the pointer. `none` in the place of an object's state is the null
-- pointer, and a result `none` a use of it; waits are as in Future/Wait.
use Prim.Native.String.{String}
use msgpack_rpc_boost.Exceptions.{RpcError}
use msgpack_rpc_boost.Future
use msgpack_rpc_boost.Future.{FutureImpl, Zone}
use msgpack_rpc_boost.Future.Heap.{Heap, FutureRef, deref}
use msgpack_rpc_boost.Future.Wait
use msgpack_rpc_boost.Future.Wait.{
  Wake, WaitResult, ready, timed_out, blocked, GetResult, value, threw, null_reference,
  still_waiting, join, get_impl,
}
use msgpack_rpc_boost.Prelude.{
  ℕ, Bool, true, false, not, Option, none, some, List, [], ◌==◌, ltb, is_set, if◌then◌else◌,
}
use msgpack_rpc_boost.Protocol.{Runtime}

pub record FutureHandle : Type 0 where
  pub method : String
  pub pimpl : Option FutureRef

-- The three constructors.
unfoldable pub future : FutureHandle
future = record { method = ""; pimpl = none }

unfoldable pub future_of : FutureRef → FutureHandle
future_of r = record { method = ""; pimpl = some r }

unfoldable pub future_of_method : String → FutureRef → FutureHandle
future_of_method m r = record { method = m; pimpl = some r }

unfoldable pub method : FutureHandle → String
method f = f.method

unfoldable pub is_nil : FutureHandle → Bool
is_nil f = not (is_set f.pimpl)

-- Pointers are compared, and a null pointer comes first.
abbrev pub ref_less : Option FutureRef → Option FutureRef → Bool
ref_less none none = false
ref_less none (some r) = true
ref_less (some q) none = false
ref_less (some q) (some r) = ltb q r

abbrev pub ref_same : Option FutureRef → Option FutureRef → Bool
ref_same none none = true
ref_same (some q) (some r) = q == r
ref_same _ _ = false

unfoldable pub less_future : FutureHandle → FutureHandle → Bool
less_future f g = ref_less f.pimpl g.pimpl

unfoldable pub same_future : FutureHandle → FutureHandle → Bool
same_future f g = ref_same f.pimpl g.pimpl

-- What `as<T>` makes of a `get`.
pub data Got (T Object : Type 0) : Type 0 where
  got : T → Got T Object
  type_error : Got T Object
  not_got : GetResult Object → Got T Object

-- How `wait` comes out.
pub data Waited (Object : Type 0) : Type 0 where
  returned : Waited Object
  rethrew : RpcError Object → Waited Object
  null_future : Waited Object
  waiting : Waited Object

module _ {Object : Type 0} where
  -- What the pointer points to.
  abbrev pub impl : Heap Object → FutureHandle → Option (FutureImpl Object)
  impl h f = elim f.pimpl [ none ↦ none | some r ↦ deref h r ]

  unfoldable pub msgid : Option (FutureImpl Object) → ℕ
  msgid none = 0
  msgid (some f) = f.msgid

  unfoldable pub is_ready : Option (FutureImpl Object) → Option Bool
  unfolding Future.is_ready
  is_ready none = none
  is_ready (some f) = some (Future.is_ready f)

  unfoldable pub result : Option (FutureImpl Object) → Option Object
  result none = none
  result (some f) = some f.result

  unfoldable pub error : Option (FutureImpl Object) → Option Object
  error none = none
  error (some f) = some f.error

  unfoldable pub zone : Option (FutureImpl Object) → Option (Option Zone)
  zone none = none
  zone (some f) = some f.zone

  abbrev pub forget : GetResult Object → Waited Object
  forget (value o) = returned
  forget (threw e) = rethrew e
  forget null_reference = null_future
  forget still_waiting = waiting

  -- The object after a wait, if the wait is over.
  abbrev pub settled : WaitResult Object → Option (FutureImpl Object)
  settled blocked = none
  settled (ready f) = some f
  settled (timed_out f ran) = some f

  module _ ⦃rt : Runtime Object⦄ where
    -- The wait that `get` and `wait` begin with.
    unfoldable pub waited_for : Bool → FutureImpl Object → List (Wake Object) → WaitResult Object
    unfolding join Future.is_ready
    waited_for running f ws = if Future.is_ready f then ready f else join running f ws

    -- `if (rethrow) get_impl()`, on the object as the wait left it.
    abbrev pub then_get : Bool → Bool → Option (FutureImpl Object) → Waited Object
    then_get rethrow running none = waiting
    then_get rethrow running (some g) =
        if rethrow then forget (get_impl running (some g) []) else returned

    unfoldable pub wait :
        Bool → Bool → Option (FutureImpl Object) → List (Wake Object) → Waited Object
    unfolding waited_for get_impl
    wait rethrow running none ws = if rethrow then forget (get_impl running none ws) else returned
    wait rethrow running (some f) ws = then_get rethrow running (settled (waited_for running f ws))

    unfoldable pub timed_wait :
        Option (FutureImpl Object) → List (Wake Object) → Option (WaitResult Object)
    unfolding Future.Wait.timed_wait
    timed_wait none ws = none
    timed_wait (some f) ws = some (Future.Wait.timed_wait f ws)

    module _ {T : Type 0} (convert : Object → Option T) where
      abbrev pub converted : Option T → Got T Object
      converted none = type_error
      converted (some t) = got t

      abbrev pub as_type : GetResult Object → Got T Object
      as_type (value o) = converted (convert o)
      as_type g = not_got g

      -- `get<T>()`
      unfoldable pub get : Bool → Option (FutureImpl Object) → List (Wake Object) → Got T Object
      unfolding get_impl
      get running f ws = as_type (get_impl running f ws)

      -- `*z = std::move(zone())`: the zone, and the object without it.
      unfoldable pub move_zone :
          Option (FutureImpl Object) → Option Zone × Option (FutureImpl Object)
      move_zone none = (none, none)
      move_zone (some f) = (f.zone, some (record f { zone = none }))

      abbrev pub with_zone :
          GetResult Object
          → Option (FutureImpl Object)
          → Got T Object × Option Zone × Option (FutureImpl Object)
      with_zone (value o) f = let (z, f') = move_zone f in (converted (convert o), z, f')
      with_zone g f = (not_got g, none, f)

      -- `get<T>(auto_zone*)`: also the zone that the caller gets, and the object afterwards.
      unfoldable pub get_zone :
          Bool
          → Option (FutureImpl Object)
          → List (Wake Object)
          → Got T Object × Option Zone × Option (FutureImpl Object)
      unfolding get_impl waited_for move_zone
      get_zone running none ws = with_zone (get_impl running none ws) none
      get_zone running (some f) ws =
          with_zone (get_impl running (some f) ws) (settled (waited_for running f ws))
