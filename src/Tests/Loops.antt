-- ===== src/Tests/Loops.antt =====
-- A loop over a queue of numbers, which its handlers add up.
use msgpack_rpc_boost.Loop.{IoService, LoopImpl, end_loop}
use msgpack_rpc_boost.Loop.Laws.{submits, runs, runs_once, joins, use_all, use_all-end_loop}
use msgpack_rpc_boost.Prelude.{
  ℕ, ◌+◌, ◌≡◌, refl, Bool, true, false, List, [], ◌∷◌, ◌++◌, arith, if◌then◌else◌,
}

pub record Queue : Type 0 where
  pub queued : List ℕ
  pub stopped : Bool

abbrev total : List ℕ → ℕ
total [] = 0
total (n ∷ ns) = n + total ns

abbrev run_queue : Queue → ℕ → Queue × ℕ
run_queue q w = if q.stopped then (q, w) else (record q { queued = [] }, w + total q.queued)

abbrev first : List ℕ → ℕ
first [] = 0
first (n ∷ ns) = n

abbrev others : List ℕ → List ℕ
others [] = []
others (n ∷ ns) = ns

abbrev run_first : Queue → ℕ → Queue × ℕ
run_first q w =
    if q.stopped then (q, w) else (record q { queued = others q.queued }, w + first q.queued)

pub run_queue-stopped : (q : Queue) (w : ℕ) → q.stopped ≡ true → run_queue q w ≡ (q, w)
run_queue-stopped q w h = ground arith

pub run_first-stopped : (q : Queue) (w : ℕ) → q.stopped ≡ true → run_first q w ≡ (q, w)
run_first-stopped q w h = ground arith

abbrev pub queue_service : IoService Queue ℕ ℕ
queue_service = record {
  post = λ n q. record q { queued = q.queued ++ n ∷ [] };
  stop = λ q. record q { stopped = true };
  is_stopped = λ q. q.stopped;
  run = run_queue;
  run_one = run_first;
  poll = run_queue;
  is_stopped-stop = λ q. refl;
  is_stopped-post = λ n q. refl;
  run-stopped = run_queue-stopped;
  run_one-stopped = run_first-stopped;
  poll-stopped = run_queue-stopped;
}

abbrev pub idle : LoopImpl Queue
idle = record { io = record { queued = 4 ∷ []; stopped = false }; workers = []; next_thread = 1 }

use_all-end_loop_example :
    (use_all queue_service
      (submits 3 ∷ runs 2 ∷ joins 0 ∷ runs_once ∷ [])
      (end_loop queue_service idle, 10)).1
    ≡ 10
use_all-end_loop_example =
    use_all-end_loop queue_service (submits 3 ∷ runs 2 ∷ joins 0 ∷ runs_once ∷ []) idle 10
