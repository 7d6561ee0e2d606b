-- ===== src/Loop.antt =====
-- src/msgpack/rpc/loop.cc and loop.h: the workers over one io_service of Boost.Asio. The io_service is
-- `IoService`, over the state `W` that its handlers change; a thread is a number.
pub mod Laws
use msgpack_rpc_boost.Prelude.{
  ℕ, zero, suc, ◌+◌, ◌≡◌, Bool, true, false, not, Option, none, some, List, [], ◌∷◌, ◌++◌, ltb,
  ◌==◌, if◌then◌else◌,
}

-- `run` works until there is nothing to do, `run_one` runs one handler, `poll` the handlers that are
-- ready. As Boost documents it, a stopped service runs nothing until it is reset, and takes posts.
pub record IoService (Io Handler W : Type 0) : Type 0 where
  pub post : Handler → Io → Io
  pub stop : Io → Io
  pub is_stopped : Io → Bool
  pub run : Io → W → Io × W
  pub run_one : Io → W → Io × W
  pub poll : Io → W → Io × W
  pub is_stopped-stop : (io : Io) → is_stopped (stop io) ≡ true
  pub is_stopped-post : (f : Handler) (io : Io) → is_stopped (post f io) ≡ is_stopped io
  pub run-stopped : (io : Io) (w : W) → is_stopped io ≡ true → run io w ≡ (io, w)
  pub run_one-stopped : (io : Io) (w : W) → is_stopped io ≡ true → run_one io w ≡ (io, w)
  pub poll-stopped : (io : Io) (w : W) → is_stopped io ≡ true → poll io w ≡ (io, w)

abbrev pub ThreadRef : Type 0
ThreadRef = ℕ

-- `next_thread` numbers the threads.
pub record LoopImpl (Io : Type 0) : Type 0 where
  pub io : Io
  pub workers : List ThreadRef
  pub next_thread : ℕ

-- How a thread is left: its end was waited for, or it goes on by itself.
pub data Left : Type 0 where
  joined detached : ThreadRef → Left

abbrev pub is_empty : List ThreadRef → Bool
is_empty [] = true
is_empty (t ∷ ts) = false

-- A thread that joins itself gets a thread_resource_error.
abbrev pub leave : ThreadRef → List ThreadRef → List Left
leave self [] = []
leave self (t ∷ ts) = (if t == self then detached t else joined t) ∷ leave self ts

module _ {Io : Type 0} where
  unfoldable pub is_running : LoopImpl Io → Bool
  is_running l = not (is_empty l.workers)

  -- The threads are started one after another, each on `io_service::run`.
  unfoldable pub add_worker : ℕ → LoopImpl Io → LoopImpl Io
  add_worker zero l = l
  add_worker (suc num) l =
      add_worker num
        (record l { workers = l.workers ++ l.next_thread ∷ []; next_thread = l.next_thread + 1 })

  -- `none` is a std::runtime_error, which leaves the loop as it is.
  unfoldable pub start : ℕ → LoopImpl Io → Option (LoopImpl Io)
  unfolding is_running add_worker
  start num l =
      let started = add_worker num l in
      if ltb 0 num then (if is_running l then none else some started) else some l

  -- `self` is the thread that calls.
  unfoldable pub join : ThreadRef → LoopImpl Io → List Left × LoopImpl Io
  join self l = (leave self l.workers, record l { workers = [] })

  module _ {Handler W : Type 0} (ios : IoService Io Handler W) where
    unfoldable pub end_loop : LoopImpl Io → LoopImpl Io
    end_loop l = record l { io = ios.stop l.io }

    unfoldable pub submit : Handler → LoopImpl Io → LoopImpl Io
    submit callback l = record l { io = ios.post callback l.io }

    unfoldable pub flush : LoopImpl Io → W → LoopImpl Io × W
    flush l w = let (io, v) = ios.poll l.io w in (record l { io = io }, v)

    unfoldable pub run_once : LoopImpl Io → W → LoopImpl Io × W
    run_once l w = let (io, v) = ios.run_one l.io w in (record l { io = io }, v)

    -- `m_io_service.run()`, by the calling thread or by a worker.
    unfoldable pub run_io : LoopImpl Io → W → LoopImpl Io × W
    run_io l w = let (io, v) = ios.run l.io w in (record l { io = io }, v)

    unfoldable pub run : ℕ → LoopImpl Io → W → Option (LoopImpl Io × W)
    run num l w =
        if is_running l
        then some (run_io l w)
        else elim (start num l) [ none ↦ none | some m ↦ some (run_io m w) ]
