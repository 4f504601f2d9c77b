-- ===== src/Queue/Pool.antt =====
-- utils/concurrency/thread_pool_executor.h: threads that queue their ids while they are free, and
-- to which jobs are handed directly, one step at a time. A thread holds its mutex within a step
-- only, since `wait` leaves it.
use red_giant.Prelude.{
  ℕ, suc, ◌≡◌, Bool, true, false, Option, none, some, List, [], ◌∷◌, ◌++◌, if◌then◌else◌, ◌==◌, ltb,
}
use red_giant.Queue.{MessageQueue, returns, empty_queue, pop, push, flush}

-- Where a thread is in `run`: it pushes its id, it is about to take the lock, it waits, it has been
-- woken, it runs a job, or it has left the loop.
pub data Place (Job : Type 0) : Type 0 where
  pushing locking waiting awake ended : Place Job
  running : Job → Place Job

-- `due` counts the calls of `notify_one` that are still to come.
pub record ThreadExecutor (Job : Type 0) : Type 0 where
  pub place : Place Job
  pub active : Bool
  pub job : Option Job
  pub due : ℕ

-- `handed` are the calls of `schedule` that have popped an id and not yet set the job.
pub record ThreadPool (Job : Type 0) : Type 0 where
  pub queue : MessageQueue ℕ
  pub executors : ℕ → ThreadExecutor Job
  pub handed : List (ℕ × Job)
  pub executed : List Job

-- What a step is due to: a thread or a caller goes on, the thread wakes unasked, or it is stopped.
pub data Cause : Type 0 where
  asked : Cause
  unasked stopping : ℕ → Cause

abbrev pub IsAsked : Cause → Type 0
IsAsked asked = Unit
IsAsked (unasked i) = ⊥
IsAsked (stopping i) = Unit

abbrev pub Spares : ℕ → Cause → Type 0
Spares i asked = Unit
Spares i (unasked k) = (k == i) ≡ false
Spares i (stopping k) = (k == i) ≡ false

module _ {Job : Type 0} where
  -- `ThreadExecutor(id, queue)`, before and after `start`.
  abbrev pub thread_executor : ThreadExecutor Job
  thread_executor = record { place = ended; active = false; job = none; due = 0 }

  unfoldable pub start_thread : ThreadExecutor Job → ThreadExecutor Job
  start_thread e = if e.active then e else record e { active = true; place = pushing }

  -- `stop`: `notify_all` wakes the thread if it waits.
  unfoldable pub wake : Place Job → Place Job
  wake waiting = awake
  wake p = p

  unfoldable pub stop_thread : ThreadExecutor Job → ThreadExecutor Job
  unfolding wake
  stop_thread e = if e.active then record e { active = false; place = wake e.place } else e

  -- `ThreadExecutor::schedule`, up to the notification.
  unfoldable pub schedule_thread : Job → ThreadExecutor Job → ThreadExecutor Job
  schedule_thread job e = record e { job = some job; due = suc e.due }

  -- The parts of `run`: up to `wait`, and after it.
  unfoldable pub enter_wait : ThreadExecutor Job → ThreadExecutor Job
  enter_wait e = if e.active then record e { place = waiting } else record e { place = ended }

  unfoldable pub get_signaled : ThreadExecutor Job → ThreadExecutor Job
  get_signaled e =
      if e.active
      then elim e.job [
        | none ↦ record e { place = pushing }
        | some job ↦ record e { job = none; place = running job }
      ]
      else record e { place = ended }

  -- `ThreadPoolExecutor(thread_num)` after `start`.
  unfoldable pub start_pool : ℕ → ThreadPool Job
  unfolding start_thread
  start_pool thread_num = record {
    queue = empty_queue thread_num;
    executors = λ i. if ltb i thread_num then start_thread thread_executor else thread_executor;
    handed = [];
    executed = [];
  }

  -- The executor at one id changes.
  abbrev pub with_executor : ℕ → ThreadExecutor Job → ThreadPool Job → ThreadPool Job
  with_executor i e s = record s { executors = λ j. if i == j then e else s.executors j }

  -- The steps of the threads, of the callers of `schedule`, and of `stop`. An executor that was
  -- destroyed stays where it was; a caller that has popped its id before must not use it any more.
  pub data Step (s : ThreadPool Job) : Cause → ThreadPool Job → Type 0 where
    announces :
        (i : ℕ) (q' : MessageQueue ℕ)
        → (s.executors i).place ≡ pushing
        → push i s.queue ≡ returns (true, q')
        → Step s asked
            (with_executor i (record (s.executors i) { place = locking }) (record s { queue = q' }))
    announce_fails :
        (i : ℕ) (q' : MessageQueue ℕ)
        → (s.executors i).place ≡ pushing
        → push i s.queue ≡ returns (false, q')
        → Step s asked
            (with_executor i (record (s.executors i) { place = ended }) (record s { queue = q' }))
    enters :
        (i : ℕ)
        → (s.executors i).place ≡ locking
        → Step s asked (with_executor i (enter_wait (s.executors i)) s)
    signaled :
        (i : ℕ)
        → (s.executors i).place ≡ awake
        → Step s asked (with_executor i (get_signaled (s.executors i)) s)
    finishes :
        (i : ℕ) (job : Job)
        → (s.executors i).place ≡ running job
        → Step s asked (
            with_executor i
              (record (s.executors i) { place = pushing })
              (record s { executed = s.executed ++ job ∷ [] }))
    -- `ThreadPoolExecutor::schedule`; it waits while no id is in the queue.
    schedules :
        (i : ℕ) (job : Job) (q' : MessageQueue ℕ)
        → pop s.queue ≡ returns (some i, q')
        → Step s asked (record s { queue = q'; handed = (i, job) ∷ s.handed })
    drops :
        (job : Job) (q' : MessageQueue ℕ)
        → pop s.queue ≡ returns (none, q')
        → Step s asked (record s { queue = q' })
    hands_over :
        (a b : List (ℕ × Job)) (i : ℕ) (job : Job)
        → s.handed ≡ a ++ ((i, job) ∷ b)
        → Step s asked
            (with_executor i (schedule_thread job (s.executors i)) (record s { handed = a ++ b }))
    notifies :
        (i n : ℕ)
        → (s.executors i).due ≡ suc n
        → Step s asked (
            with_executor i
              (record (s.executors i) { due = n; place = wake (s.executors i).place })
              s)
    -- `wait` returns although nobody has notified the thread.
    wakes_unasked :
        (i : ℕ)
        → (s.executors i).place ≡ waiting
        → Step s (unasked i) (with_executor i (record (s.executors i) { place = awake }) s)
    -- `ThreadPoolExecutor::stop`: it flushes the queue, and the destructors stop the threads.
    flushes : Step s asked (record s { queue = flush s.queue })
    stops :
        (i : ℕ)
        → s.queue.alive ≡ false
        → Step s (stopping i) (with_executor i (stop_thread (s.executors i)) s)

  -- What is reachable while no thread wakes unasked.
  pub data Reachable (thread_num : ℕ) : ThreadPool Job → Type 0 where
    start : Reachable thread_num (start_pool thread_num)
    step :
        (s s' : ThreadPool Job) (c : Cause)
        → Reachable thread_num s
        → IsAsked c
        → Step s c s'
        → Reachable thread_num s'

  -- Any number of steps, none of which wakes the thread `i` unasked or stops it.
  pub data Steps (i : ℕ) (s : ThreadPool Job) : ThreadPool Job → Type 0 where
    here : Steps i s s
    further :
        (t u : ThreadPool Job) (c : Cause) → Steps i s t → Spares i c → Step t c u → Steps i s u
