-- ===== src/Loop/Laws.antt =====
-- The life of a loop of src/msgpack/rpc/loop.cc: starting, stopping, and starting again.
use msgpack_rpc_boost.Loop.{
  IoService, LoopImpl, ThreadRef, is_running, add_worker, start, join, end_loop, submit, flush,
  run_once, run_io, run,
}
use msgpack_rpc_boost.Prelude.{
  ℕ, zero, suc, ◌+◌, ◌<◌, ◌≡◌, ◌∙◌, refl, true, false, none, some, List, [], ◌∷◌, ◌++◌, arith, ltb,
  length, length-append, Bool-cases, Option-cases, inl, inr,
}

-- What can be done with a loop, by any thread. An exception leaves it as it was.
pub data Use (Handler : Type 0) : Type 0 where
  starts runs : ℕ → Use Handler
  runs_once flushes ends works : Use Handler
  joins : ThreadRef → Use Handler
  submits : Handler → Use Handler

module _ {Io Handler W : Type 0} (ios : IoService Io Handler W) where
  -- A loop and the state that its handlers change; `works` is a worker on its `io_service::run`.
  unfoldable pub use_loop : Use Handler → LoopImpl Io × W → LoopImpl Io × W
  use_loop (starts n) (l, w) = elim (start n l) [ none ↦ (l, w) | some m ↦ (m, w) ]
  use_loop (runs n) (l, w) = elim (run ios n l w) [ none ↦ (l, w) | some p ↦ p ]
  use_loop runs_once (l, w) = run_once ios l w
  use_loop flushes (l, w) = flush ios l w
  use_loop ends (l, w) = (end_loop ios l, w)
  use_loop works (l, w) = run_io ios l w
  use_loop (joins self) (l, w) = ((join self l).1, w)
  use_loop (submits f) (l, w) = (submit ios f l, w)

  unfoldable pub use_all : List (Use Handler) → LoopImpl Io × W → LoopImpl Io × W
  use_all [] p = p
  use_all (u ∷ us) p = use_all us (use_loop u p)

  Stopped : W → LoopImpl Io × W → Type 0
  Stopped w p = (ios.is_stopped p.0.io ≡ true) × (p.1 ≡ w)

  io-add_worker : (n : ℕ) (l : LoopImpl Io) → (add_worker n l).io ≡ l.io
  unfolding add_worker
  io-add_worker zero l = refl
  io-add_worker (suc n) l =
      io-add_worker n
        (record l { workers = l.workers ++ l.next_thread ∷ []; next_thread = l.next_thread + 1 })

  run_io-Stopped : (l : LoopImpl Io) (w v : W) → Stopped w (l, v) → Stopped w (run_io ios l v)
  unfolding Stopped run_io
  run_io-Stopped l w v (h, e) = rw (ios.run-stopped l.io v h) (h, e)

  start-io :
      (n : ℕ) (l : LoopImpl Io) {m : LoopImpl Io}
      → start n l ≡ some m
      → ios.is_stopped l.io ≡ true
      → ios.is_stopped m.io ≡ true
  unfolding start
  start-io n l e h = ground (arith, io-add_worker n l)

  use_loop-Stopped :
      (u : Use Handler) (p : LoopImpl Io × W) (w : W) → Stopped w p → Stopped w (use_loop u p)
  unfolding Stopped use_loop run_once flush end_loop join submit run
  use_loop-Stopped (starts n) (l, v) w (h, e) = elim (Option-cases (start n l)) [
    | inl refused ↦ rw (use_loop, refused) (h, e)
    | inr (m, begun) ↦ rw (use_loop, begun) (start-io n l begun h, e)
  ]
  use_loop-Stopped (runs n) (l, v) w (h, e) = elim (Option-cases (start n l)) [
    | inl refused ↦ elim (Bool-cases (is_running l)) [
      | inl on ↦ rw (use_loop, run, on) (run_io-Stopped l w v (h, e))
      | inr off ↦ rw (use_loop, run, off, refused) (h, e)
    ]
    | inr (m, begun) ↦ elim (Bool-cases (is_running l)) [
      | inl on ↦ rw (use_loop, run, on) (run_io-Stopped l w v (h, e))
      | inr off ↦ rw (use_loop, run, off, begun) (run_io-Stopped m w v (start-io n l begun h, e))
    ]
  ]
  use_loop-Stopped runs_once (l, v) w (h, e) = rw (ios.run_one-stopped l.io v h) (h, e)
  use_loop-Stopped flushes (l, v) w (h, e) = rw (ios.poll-stopped l.io v h) (h, e)
  use_loop-Stopped ends (l, v) w (h, e) = (ios.is_stopped-stop l.io, e)
  use_loop-Stopped works (l, v) w s = run_io-Stopped l w v s
  use_loop-Stopped (joins self) (l, v) w s = s
  use_loop-Stopped (submits f) (l, v) w (h, e) = (ios.is_stopped-post f l.io ∙ h, e)

  -- Once `end` was called, no handler runs any more, whatever is done with the loop in any order:
  -- neither what was queued nor what is submitted later, also if the loop is started or run again, for
  -- nothing in the library resets the service.
  pub use_all-end_loop :
      (us : List (Use Handler)) (l : LoopImpl Io) (w : W) → (use_all us (end_loop ios l, w)).1 ≡ w
  unfolding use_all Stopped end_loop
  use_all-end_loop us l w = (stays us (end_loop ios l, w) (ios.is_stopped-stop l.io, refl)).1
    where
      stays :
          (us : List (Use Handler)) (p : LoopImpl Io × W) → Stopped w p → Stopped w (use_all us p)
      stays [] p h = h
      stays (u ∷ us) p h = stays us (use_loop u p) (use_loop-Stopped u p w h)

module _ {Io : Type 0} where
  length-add_worker :
      (n : ℕ) (l : LoopImpl Io) → length (add_worker n l).workers ≡ length l.workers + n
  unfolding add_worker
  length-add_worker zero l = omega arith
  length-add_worker (suc n) l =
      let ts = l.workers ++ l.next_thread ∷ [] in
      omega (
        arith,
        length-add_worker n (record l { workers = ts; next_thread = l.next_thread + 1 }),
        length-append {0} l.workers (l.next_thread ∷ []),
      )

  is_running_iff : (l : LoopImpl Io) → is_running l ≡ ltb 0 (length l.workers)
  unfolding is_running
  is_running_iff l = elim l.workers [ [] ↦ ground arith | t ∷ ts ↦ ground arith ]

  -- Starting a loop that has no workers gives it as many as asked for; starting it once more throws;
  -- after `join`, whichever thread calls it, no worker is left, and the loop can be started again.
  pub start-join :
      (num again : ℕ) (self : ThreadRef) (l : LoopImpl Io)
      → is_running l ≡ false
      → 0 < num
      → 0 < again
      → (m : LoopImpl Io) × (start num l ≡ some m)
        × (length m.workers ≡ num)
        × (is_running m ≡ true)
        × (start again m ≡ none)
        × (is_running (join self m).1 ≡ false)
        × ((k : LoopImpl Io) × (start again (join self m).1 ≡ some k) × (length k.workers ≡ again))
  unfolding start join
  start-join num again self l idle some_new some_more =
      let m = add_worker num l in
      let rest = record m { workers = [] } in
      (
        m,
        ground arith,
        ground (arith, length-add_worker num l, is_running_iff l),
        ground (arith, length-add_worker num l, is_running_iff l, is_running_iff m),
        ground (arith, length-add_worker num l, is_running_iff l, is_running_iff m),
        ground (arith, is_running_iff rest),
        (
          add_worker again rest,
          ground (arith, is_running_iff rest),
          ground (arith, length-add_worker again rest),
        ),
      )
