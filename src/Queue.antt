-- ===== src/Queue.antt =====
-- utils/concurrency/message_queue.h and worker_executor.h: a bounded queue between threads, and
-- the workers that take their jobs from one.
pub mod Threads
pub mod Order
pub mod Wakeup
pub mod Executor
pub mod Pool
pub mod Tokens
pub mod Fitting
pub mod Lost
pub mod Free
use red_giant.Prelude.{
  ℕ, Bool, true, false, Option, none, some, List, [], ◌∷◌, ◌++◌, if◌then◌else◌, ◌==◌, ◌||◌, leb,
  length,
}

pub record MessageQueue (T : Type 0) : Type 0 where
  pub queue : List T
  pub max_size : ℕ
  pub alive : Bool

-- What a method does once it has the lock: it waits, or it returns.
pub data Progress (A : Type 0) : Type 0 where
  waits : Progress A
  returns : A → Progress A

module _ {T : Type 0} where
  -- `MessageQueue(max_size)`
  abbrev pub empty_queue : ℕ → MessageQueue T
  empty_queue max_size = record { queue = []; max_size = max_size; alive = true }

  -- `none` is -1; the item that was popped is 0 with the item.
  unfoldable pub pop : MessageQueue T → Progress (Option T × MessageQueue T)
  pop q = elim q.alive [
    | false ↦ returns (none, q)
    | true ↦ elim q.queue [ [] ↦ waits | item ∷ l ↦ returns (some item, record q { queue = l }) ]
  ]

  -- `push` for an item that is copied or moved; `true` is 0, and `false` is -1.
  unfoldable pub push : T → MessageQueue T → Progress (Bool × MessageQueue T)
  push item q = elim q.alive [
    | false ↦ returns (false, q)
    | true ↦ elim ((q.max_size == 0) || leb q.max_size (length q.queue)) [
      | true ↦ waits
      | false ↦ returns (true, record q { queue = q.queue ++ item ∷ [] })
    ]
  ]

  unfoldable pub flush : MessageQueue T → MessageQueue T
  flush q = if q.alive then record q { alive = false } else q

  abbrev pub size : MessageQueue T → ℕ
  size q = length q.queue
