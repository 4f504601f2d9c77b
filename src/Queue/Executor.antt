-- ===== src/Queue/Executor.antt =====
-- utils/concurrency/worker_executor.h: the executor that queues jobs for its workers.
use mathlib.Core.List.{append-nil, append_assoc}
use red_giant.Prelude.{
  ℕ, zero, suc, ap, ◌∙◌, ◌<◌, ◌≡◌, ◌≢◌, true, Option, none, some, List, [], ◌∷◌, ◌++◌, arith,
  if◌then◌else◌, ◌==◌, length,
}
use red_giant.Queue.{MessageQueue, Progress, waits, returns, empty_queue, pop, push, flush, size}

-- `threads` is the number of the worker threads that were started and not yet joined.
pub record WorkerExecutor (Job : Type 0) : Type 0 where
  pub thread_num : ℕ
  pub queue : MessageQueue Job
  pub threads : ℕ

module _ {Job : Type 0} where
  unfoldable pub worker_executor : ℕ → ℕ → WorkerExecutor Job
  worker_executor thread_num queue_size = record {
    thread_num = thread_num;
    queue = empty_queue queue_size;
    threads = 0;
  }

  -- The object after `start`; the threads run `work_round` from then on.
  unfoldable pub start : WorkerExecutor Job → WorkerExecutor Job
  start e = if e.threads == 0 then record e { threads = e.thread_num } else e

  -- After `join` no thread is left.
  unfoldable pub stop : WorkerExecutor Job → WorkerExecutor Job
  stop e = if e.threads == 0 then e else record e { queue = flush e.queue; threads = 0 }

  -- What `push` returns is dropped.
  unfoldable pub schedule : Job → WorkerExecutor Job → Progress (WorkerExecutor Job)
  schedule job e = elim (push job e.queue) [
    | waits ↦ waits
    | returns r ↦ returns (record e { queue = r.1 })
  ]

  unfoldable pub get_queue_size : WorkerExecutor Job → ℕ
  get_queue_size e = size e.queue

  -- One round of the loop of `work`: the worker `w` executes a job, which may change both; `next`
  -- collects the jobs that are handed on, where there is a next executor;
  -- `none` leaves the loop.
  unfoldable pub work_round :
      {W : Type 0}
      → (Job → W → Job × W)
      → W × MessageQueue Job × List Job
      → Progress (Option (W × MessageQueue Job × List Job))
  work_round execute (w, q, next) = elim (pop q) [
    | waits ↦ waits
    | returns r ↦ elim r.0 [
      | none ↦ returns none
      | some job ↦ returns (some ((execute job w).1, r.1, next ++ (execute job w).0 ∷ []))
    ]
  ]

  -- An executor that has been stopped takes no job any more, not even when it is started again:
  -- its threads leave their loops at once, and `schedule` drops the job and does not say so.
  pub start-stop :
      {W : Type 0} (execute : Job → W → Job × W) (w : W) (next : List Job) (job : Job)
      (e : WorkerExecutor Job)
      → e.threads ≢ 0
      → ((start (stop e)).threads ≡ e.thread_num)
        × (schedule job (start (stop e)) ≡ returns (start (stop e)))
        × (work_round execute (w, (start (stop e)).queue, next) ≡ returns none)
  unfolding start stop schedule work_round push pop flush
  start-stop execute w next job e h = ground arith

  -- A second `start` changes nothing, nor does a second `stop`.
  pub start-stop_again :
      (e : WorkerExecutor Job)
      → e.thread_num ≢ 0
      → (start (start e) ≡ start e) × (stop (stop e) ≡ stop e) × ((stop e).threads ≡ 0)
  unfolding start stop
  start-stop_again e h = ground arith

  -- The jobs of a list, one after the other, and what the worker then is.
  abbrev pub executed : {W : Type 0} → (Job → W → Job × W) → List Job → W → List Job × W
  executed execute [] w = ([], w)
  executed execute (job ∷ l) w = (
    (execute job w).0 ∷ (executed execute l (execute job w).1).0,
    (executed execute l (execute job w).1).1,
  )

  -- The loop of `work` until it waits or ends; `none`: the fuel ran out.
  unfoldable pub work_loop :
      {W : Type 0}
      → (Job → W → Job × W)
      → ℕ
      → W × MessageQueue Job × List Job
      → Option (W × MessageQueue Job × List Job)
  work_loop execute zero s = none
  work_loop execute (suc fuel) s = elim (work_round execute s) [
    | waits ↦ some s
    | returns r ↦ elim r [ none ↦ some s | some s' ↦ work_loop execute fuel s' ]
  ]

  -- A worker alone on a queue that is alive executes the jobs in it in their order, hands them on
  -- in that order, and then waits at the empty queue.
  pub work_loop-executed :
      {W : Type 0} (execute : Job → W → Job × W) (fuel : ℕ) (w : W) (jobs next : List Job)
      (max_size : ℕ)
      → length jobs < fuel
      → work_loop execute fuel (w, record { queue = jobs; max_size = max_size; alive = true }, next)
        ≡ some
            ((executed execute jobs w).1, empty_queue max_size, next ++ (executed execute jobs w).0)
  unfolding work_loop work_round pop
  work_loop-executed execute zero w jobs next m h = absurd (omega arith)
  work_loop-executed execute (suc fuel) w [] next m h = cc (append-nil next)
  work_loop-executed execute (suc fuel) w (job ∷ l) next m h =
      let (job', w') = execute job w in
      work_loop-executed execute fuel w' l (next ++ job' ∷ []) m (omega arith)
      ∙ ap (λ (n : List Job). some ((executed execute l w').1, empty_queue m, n))
          (append_assoc next (job' ∷ []) (executed execute l w').0)
