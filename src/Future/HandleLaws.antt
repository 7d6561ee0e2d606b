-- ===== src/Future/HandleLaws.antt =====
-- How `wait`, `get` and `get` with a zone of src/msgpack/rpc/future.h and future.cc belong together.
use msgpack_rpc_boost.Future
use msgpack_rpc_boost.Future.{FutureImpl, Zone, set_result}
use msgpack_rpc_boost.Future.Handle.{
  Waited, returned, waiting, forget, wait, waited_for, settled, then_get, get, get_zone,
}
use msgpack_rpc_boost.Future.Wait
use msgpack_rpc_boost.Future.Wait.{
  Wake, notified, expired, WaitResult, ready, timed_out, blocked, GetResult, value, threw,
  null_reference, still_waiting, join, recv, timed_wait, get_impl, outcome, states,
}
use msgpack_rpc_boost.Prelude.{
  ◌≡◌, ◌∙◌, refl, ap, sym, Bool, true, false, Option, none, some, List, [], ◌∷◌, arith,
}
use msgpack_rpc_boost.Protocol.{Runtime}

module _ {Object : Type 0} ⦃rt : Runtime Object⦄ where
  -- A wait that is over leaves a ready future.
  abbrev Over : WaitResult Object → Type 0
  Over blocked = Unit {0}
  Over (ready g) = Future.is_ready g ≡ true
  Over (timed_out g ran) = Future.is_ready g ≡ true

  wait-Over : (f : FutureImpl Object) (gs : List (FutureImpl Object)) → Over (Wait.wait f gs)
  unfolding Wait.wait Future.is_ready
  wait-Over f [] = ground arith
  wait-Over f (g ∷ gs) = ground (arith, wait-Over g gs)

  timed_wait-Over : (f : FutureImpl Object) (ws : List (Wake Object)) → Over (timed_wait f ws)
  unfolding timed_wait Future.is_ready set_result
  timed_wait-Over f [] = ground arith
  timed_wait-Over f (notified g ∷ ws) = ground (arith, timed_wait-Over g ws)
  timed_wait-Over f (expired g ∷ ws) = ground arith

  waited_for-Over :
      (running : Bool) (f : FutureImpl Object) (ws : List (Wake Object))
      → Over (waited_for running f ws)
  unfolding waited_for recv
  waited_for-Over true f ws = ground (arith, timed_wait-Over f ws)
  waited_for-Over false f ws = ground (arith, wait-Over f (states ws))

  get_impl-some :
      (running : Bool) (f : FutureImpl Object) (ws : List (Wake Object))
      → get_impl running (some f) ws ≡ outcome (waited_for running f ws)
  unfolding get_impl waited_for
  get_impl-some running f ws = refl

  get_impl-Over :
      (running : Bool) (g : FutureImpl Object) (ws : List (Wake Object))
      → Future.is_ready g ≡ true
      → get_impl running (some g) ws ≡ outcome (ready g)
  unfolding get_impl
  get_impl-Over running g ws h = ground arith

  -- A wait gives up waiting only where `get` does.
  abbrev pub unless_waiting : GetResult Object → Waited Object
  unless_waiting still_waiting = waiting
  unless_waiting g = returned

  then_get-Over :
      (running : Bool) (r : WaitResult Object)
      → Over r
      → (then_get true running (settled r) ≡ forget (outcome r))
        × (then_get false running (settled r) ≡ unless_waiting (outcome r))
  then_get-Over running blocked o = (refl, refl)
  then_get-Over running (ready g) o = (ap forget (get_impl-Over running g [] o), ground arith)
  then_get-Over running (timed_out g ran) o =
      (ap forget (get_impl-Over running g [] o), ground arith)

  -- `wait(true)` does what `get` does, but for the value: it waits as long, and throws the same
  -- exceptions in the same cases, that of the null future included. `wait(false)` waits as long and
  -- throws nothing.
  pub wait-get_impl :
      (running : Bool) (f : Option (FutureImpl Object)) (ws : List (Wake Object))
      → (wait true running f ws ≡ forget (get_impl running f ws))
        × (wait false running f ws ≡ unless_waiting (get_impl running f ws))
  unfolding wait
  wait-get_impl running none ws = unfold get_impl in (refl, refl)
  wait-get_impl running (some f) ws =
      let both = then_get-Over running (waited_for running f ws) (waited_for-Over running f ws) in
      rw (get_impl-some running f ws) both

  -- Getting with a zone, when a result is there.
  taken :
      (r : WaitResult Object) {o : Object}
      → Over r
      → outcome r ≡ value o
      → (g : FutureImpl Object) × (settled r ≡ some g)
        × (Future.is_ready g ≡ true)
        × (outcome (ready g) ≡ value o)
  taken blocked v e = cc
  taken (ready g) v e = (g, refl, v, e)
  taken (timed_out g ran) v e = (g, refl, v, e)

  -- When `get` has a result, `get` with a zone gives the same value, or the same type error, and moves
  -- the zone of the completed object out to the caller, in both cases; asked again, it gives the same
  -- once more, with no zone, and changes nothing.
  pub get_zone-get :
      {T : Type 0} (convert : Object → Option T) (running again : Bool) (f : FutureImpl Object)
      (ws later : List (Wake Object)) (o : Object)
      → get_impl running (some f) ws ≡ value o
      → let (g, z, left) = get_zone convert running (some f) ws in
        (g ≡ get convert running (some f) ws)
        × ((k : FutureImpl Object) × (settled (waited_for running f ws) ≡ some k)
            × (z ≡ k.zone)
            × (left ≡ some (record k { zone = none })))
        × (get_zone convert again left later ≡ (g, none, left))
  unfolding get_zone
  get_zone-get convert running again f ws later o e =
      let (k, over, done, out) =
        taken (waited_for running f ws) (waited_for-Over running f ws)
          (sym (get_impl-some running f ws) ∙ e) in
      let moved = record k { zone = none } in
      let same : get_impl again (some moved) later ≡ value o =
        get_impl-Over again moved later done ∙ out in
      let still : waited_for again moved later ≡ ready moved =
        unfold waited_for Future.is_ready in ground arith in
      (
        unfold get in rw (get_zone, e),
        (k, over, rw (get_zone, e, over) refl, rw (get_zone, e, over) refl),
        rw (get_zone, e, over) (rw (get_zone, same, still) refl),
      )
