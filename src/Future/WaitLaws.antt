-- ===== src/Future/WaitLaws.antt =====
-- What a caller of `get`, `wait` and `timed_wait` of src/msgpack/rpc/future.cc can rely on.
use msgpack_rpc_boost.Exceptions.{RpcError, timeout_object, connect_object, throw_exception}
use msgpack_rpc_boost.Future.{FutureImpl, Callback, is_ready, set_result}
use msgpack_rpc_boost.Future.Wait.{
  Wake, notified, expired, WaitResult, ready, timed_out, blocked, GetResult, value, threw,
  timed_wait, join_ms, get_impl,
}
use msgpack_rpc_boost.Prelude.{
  ℕ, ◌*◌, ◌≤◌, ◌≡◌, ◌≢◌, ◌↔◌, ◌⊎◌, inl, inr, refl, Bool, true, false, Option, some, List, [], ◌∷◌,
  arith,
}
use msgpack_rpc_boost.Protocol.{Runtime}

module _ {Object : Type 0} ⦃rt : Runtime Object⦄ where
  -- What the result of a wait promises: `true` means ready, and `false` that the future was
  -- completed with the timeout error.
  abbrev pub Settled : WaitResult Object → Type 0
  Settled (ready f) = is_ready f ≡ true
  Settled (timed_out f c) = (is_ready f ≡ true) × (f.result ≡ rt.nil) × (f.error ≡ timeout_object)
  Settled blocked = Unit {0}

  abbrev pub expires : List (Wake Object) → Bool
  expires [] = false
  expires (notified f ∷ ws) = expires ws
  expires (expired f ∷ ws) = true

  timed_wait-Settled : (f : FutureImpl Object) (ws : List (Wake Object)) → Settled (timed_wait f ws)
  unfolding timed_wait set_result is_ready
  timed_wait-Settled f [] = ground arith
  timed_wait-Settled f (notified g ∷ ws) = ground (arith, timed_wait-Settled g ws)
  timed_wait-Settled f (expired g ∷ ws) = ground arith

  timed_wait-ne-blocked :
      (f : FutureImpl Object) (ws : List (Wake Object))
      → expires ws ≡ true
      → timed_wait f ws ≢ blocked
  unfolding timed_wait set_result
  timed_wait-ne-blocked f [] h = cc
  timed_wait-ne-blocked f (notified g ∷ ws) h = ground (arith, timed_wait-ne-blocked g ws h)
  timed_wait-ne-blocked f (expired g ∷ ws) h = ground arith

  -- A timed wait during which the time runs out at some point is not blocked for ever: it ends
  -- with a ready future, or it has completed the future itself, with a nil result and the timeout
  -- error.
  pub timed_wait_ends :
      (f : FutureImpl Object) (ws : List (Wake Object))
      → expires ws ≡ true
      → ((g : FutureImpl Object) × (timed_wait f ws ≡ ready g) × (is_ready g ≡ true))
        ⊎ ((g : FutureImpl Object) × (c : Option Callback) × (timed_wait f ws ≡ timed_out g c)
            × (is_ready g ≡ true)
            × (g.result ≡ rt.nil)
            × (g.error ≡ timeout_object))
  timed_wait_ends f ws h =
      ends (timed_wait f ws) (timed_wait-Settled f ws) (timed_wait-ne-blocked f ws h)
    where
      ends :
          (r : WaitResult Object)
          → Settled r
          → r ≢ blocked
          → ((g : FutureImpl Object) × (r ≡ ready g) × (is_ready g ≡ true))
            ⊎ ((g : FutureImpl Object) × (c : Option Callback) × (r ≡ timed_out g c)
                × (is_ready g ≡ true)
                × (g.result ≡ rt.nil)
                × (g.error ≡ timeout_object))
      ends (ready g) s n = inl (g, refl, s)
      ends (timed_out g c) s n = inr (g, c, refl, s.0, s.1, s.2)
      ends blocked s n = absurd (n refl)

-- What `get` must report of a completed future, by the error object that came with the result.
pub data Reports {Object : Type 0} (rt : Runtime Object) (f : FutureImpl Object)
    : GetResult Object → Type 0 where
  success : rt.is_nil f.error ≡ true → Reports rt f (value f.result)
  no_answer : f.error ≡ timeout_object ⦃rt = rt⦄ → Reports rt f (threw RpcError.timeout_error)
  no_connection : f.error ≡ connect_object ⦃rt = rt⦄ → Reports rt f (threw RpcError.connect_error)
  no_method : f.error ≡ rt.from_u64 1 → Reports rt f (threw RpcError.no_method_error)
  bad_argument : f.error ≡ rt.from_u64 2 → Reports rt f (threw RpcError.argument_error)
  other_number :
      (n : ℕ)
      → n ≢ 1
      → n ≢ 2
      → f.error ≡ rt.from_u64 n
      → Reports rt f (threw (RpcError.remote_error f.error))

module _ {Object : Type 0} ⦃rt : Runtime Object⦄ where
  -- `get` on a ready future waits for nothing, returns the result if the error is nil, and
  -- otherwise throws the exception that belongs to the error object: timeout and connection errors
  -- by the library's own objects, error numbers 1 and 2 as missing method and bad argument, any
  -- other number as a remote error.
  pub get_impl-Reports :
      (running : Bool) (f : FutureImpl Object) (ws : List (Wake Object)) {g : GetResult Object}
      → is_ready f ≡ true
      → Reports rt f g
      → get_impl running (some f) ws ≡ g
  unfolding get_impl throw_exception timeout_object connect_object
  get_impl-Reports running f ws h (success e) = ground arith
  get_impl-Reports running f ws h (no_answer e) =
      ground (
        arith,
        rt.is_nil-raw_ref rt.timeout_error_ptr 17,
        rt.bin_ptr-raw_ref rt.timeout_error_ptr 17,
      )
  get_impl-Reports running f ws h (no_connection e) = ground (
    arith,
    rt.is_nil-raw_ref rt.connect_error_ptr 17,
    rt.bin_ptr-raw_ref rt.connect_error_ptr 17,
    rt.literals_differ,
  )
  get_impl-Reports running f ws h (no_method e) =
      ground (arith, rt.is_nil-from_u64 1, rt.bin_ptr-from_u64 1, rt.via_u64-from_u64 1)
  get_impl-Reports running f ws h (bad_argument e) =
      ground (arith, rt.is_nil-from_u64 2, rt.bin_ptr-from_u64 2, rt.via_u64-from_u64 2)
  get_impl-Reports running f ws h (other_number n p q e) =
      ground (arith, rt.is_nil-from_u64 n, rt.bin_ptr-from_u64 n, rt.via_u64-from_u64 n)

  -- A result that arrives while the time of a wait runs out is lost: the wait does not look at the
  -- future again, so `get` throws the timeout error although the future it completes was ready with
  -- a result and a nil error.
  pub get_impl_loses :
      (f g : FutureImpl Object) (ws : List (Wake Object))
      → is_ready f ≡ false
      → is_ready g ≡ true
      → rt.is_nil g.error ≡ true
      → get_impl true (some f) (expired g ∷ ws) ≡ threw RpcError.timeout_error
  unfolding get_impl throw_exception timeout_object set_result
  get_impl_loses f g ws h k e =
      ground (
        arith,
        rt.is_nil-raw_ref rt.timeout_error_ptr 17,
        rt.bin_ptr-raw_ref rt.timeout_error_ptr 17,
      )

-- `join` waits for the future's remaining seconds, in milliseconds, exactly when these are at most
-- 4294967; above that the unsigned product wraps, and the wait is shorter.
pub join_ms_exact :
    {Object : Type 0} (f : FutureImpl Object)
    → (join_ms f ≡ f.timeout * 1000) ↔ (f.timeout ≤ 4294967)
unfolding join_ms
join_ms_exact f = (λ e. omega arith, λ h. omega arith)
