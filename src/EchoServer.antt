-- ===== src/EchoServer.antt =====
-- unittest/echo_server.h: the dispatcher that the unit tests serve. What msgpack's `convert` makes
-- of an object is `Conversions`, where `none` is a msgpack::type_error; an `int` is its 32-bit
-- pattern.
pub mod Calls
use Prim.Native.String.{String}
use msgpack_rpc_boost.Prelude.{
  ℕ, ◌+◌, ◌%◌, ◌^◌, ◌≡◌, Bool, true, false, Option, none, some, List, [], ◌∷◌, if◌then◌else◌,
}
use msgpack_rpc_boost.Protocol
use msgpack_rpc_boost.Protocol.{Runtime}
use msgpack_rpc_boost.Request.{RequestImpl, Answer, gives, fails}
use text.Mathlib.Text.{◌==◌ as str_eq}

-- A string packs to an object that is neither nil nor a raw reference nor a number.
pub record Conversions {Object : Type 0} (rt : Runtime Object) : Type 0 where
  pub to_string : Object → Option String
  pub to_ints : Object → Option (ℕ × ℕ)
  pub to_one_string : Object → Option String
  pub to_raw : Object → Option Object
  pub to_nothing : Object → Option (Unit {0})
  pub from_int : ℕ → Object
  pub from_string : String → Object
  pub is_nil-from_string : (t : String) → rt.is_nil (from_string t) ≡ false
  pub bin_ptr-from_string : (t : String) → rt.bin_ptr (from_string t) ≡ none
  pub via_u64-from_string : (t : String) → rt.via_u64 (from_string t) ≡ none

module _ {Object : Type 0} ⦃rt : Runtime Object⦄ (cv : Conversions rt) where
  unfoldable pub add : ℕ → ℕ → List (Answer Object)
  add a1 a2 = gives (cv.from_int ((a1 + a2) % 2 ^ 32)) none ∷ []

  unfoldable pub echo : String → List (Answer Object)
  echo msg = gives (cv.from_string msg) none ∷ []

  unfoldable pub echo_huge : Object → List (Answer Object)
  echo_huge msg = gives msg none ∷ []

  unfoldable pub err : List (Answer Object)
  err = fails (cv.from_string "always fail") none ∷ []

  -- A handler on the converted parameters, or `catch (msgpack::type_error&)`.
  abbrev pub handle : {A : Type 0} → Option A → (A → List (Answer Object)) → List (Answer Object)
  handle none f = fails (rt.from_u64 Protocol.argument_error) none ∷ []
  handle (some a) f = f a

  -- The chain of tests on the method's name.
  unfoldable pub dispatch_method : String → Object → List (Answer Object)
  unfolding add echo echo_huge err
  dispatch_method method params =
      if str_eq method "add"
      then handle (cv.to_ints params) (λ p. add p.0 p.1)
      else if str_eq method "echo"
      then handle (cv.to_one_string params) echo
      else if str_eq method "echo_huge"
      then handle (cv.to_raw params) echo_huge
      else if str_eq method "err"
      then handle (cv.to_nothing params) (λ u. err)
      else if str_eq method "timeout"
      then []
      else fails (rt.from_u64 Protocol.no_method_error) none ∷ []

  unfoldable pub dispatch : RequestImpl Object → List (Answer Object)
  unfolding dispatch_method
  dispatch req = handle (cv.to_string req.method) (λ m. dispatch_method m req.params)
