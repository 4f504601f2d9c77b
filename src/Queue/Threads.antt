-- ===== src/Queue/Threads.antt =====
-- The threads that call a message queue, one step at a time. A call that has the lock tests its
-- condition, and then waits, or returns and owes a notification, which it sends after it has left
-- the lock, so that other threads can come between.
use red_giant.Prelude.{ℕ, suc, ◌+◌, ◌≡◌, true, false, none, some, List, [], ◌∷◌, ◌++◌}
use red_giant.Queue.{MessageQueue, waits, returns, empty_queue, pop, push, flush}

pub record System (T : Type 0) : Type 0 where
  pub q : MessageQueue T
  -- Threads in `pop` that are to test the condition, and those that wait on `cond_empty_`.
  pub pops : ℕ
  pub waiting_pops : ℕ
  -- Threads in `push` with their items, and those that wait on `cond_full_`.
  pub pushes : List T
  pub waiting_pushes : List T
  -- The calls of `notify_one` on either condition, and of `notify_all` on both, that are due.
  pub due_empty : ℕ
  pub due_full : ℕ
  pub due_all : ℕ
  -- What was pushed, and what was popped, in this order.
  pub pushed : List T
  pub popped : List T

abbrev pub idle : {T : Type 0} → ℕ → System T
idle max_size = record {
  q = empty_queue max_size;
  pops = 0;
  waiting_pops = 0;
  pushes = [];
  waiting_pushes = [];
  due_empty = 0;
  due_full = 0;
  due_all = 0;
  pushed = [];
  popped = [];
}

pub data Step {T : Type 0} (s : System T) : System T → Type 0 where
  call_pop : Step s (record s { pops = suc s.pops })
  call_push : (item : T) → Step s (record s { pushes = item ∷ s.pushes })
  pop_waits :
      (n : ℕ)
      → s.pops ≡ suc n
      → pop s.q ≡ waits
      → Step s (record s { pops = n; waiting_pops = suc s.waiting_pops })
  pop_fails :
      (n : ℕ) (q' : MessageQueue T)
      → s.pops ≡ suc n
      → pop s.q ≡ returns (none, q')
      → Step s (record s { q = q'; pops = n })
  pop_returns :
      (n : ℕ) (item : T) (q' : MessageQueue T)
      → s.pops ≡ suc n
      → pop s.q ≡ returns (some item, q')
      → Step s
          (record s { q = q'; pops = n; due_full = suc s.due_full; popped = s.popped ++ item ∷ [] })
  push_waits :
      (a b : List T) (item : T)
      → s.pushes ≡ a ++ (item ∷ b)
      → push item s.q ≡ waits
      → Step s (record s { pushes = a ++ b; waiting_pushes = item ∷ s.waiting_pushes })
  push_fails :
      (a b : List T) (item : T) (q' : MessageQueue T)
      → s.pushes ≡ a ++ (item ∷ b)
      → push item s.q ≡ returns (false, q')
      → Step s (record s { q = q'; pushes = a ++ b })
  push_returns :
      (a b : List T) (item : T) (q' : MessageQueue T)
      → s.pushes ≡ a ++ (item ∷ b)
      → push item s.q ≡ returns (true, q')
      → Step s (record s {
        q = q';
        pushes = a ++ b;
        due_empty = suc s.due_empty;
        pushed = s.pushed ++ item ∷ [];
      })
  -- `flush`: only the call that finds the queue alive notifies.
  flush_alive : s.q.alive ≡ true → Step s (record s { q = flush s.q; due_all = suc s.due_all })
  flush_again : s.q.alive ≡ false → Step s (record s { q = flush s.q })
  -- A notification that is due wakes one waiting thread, or none where none waits.
  notify_empty :
      (n m : ℕ)
      → s.due_empty ≡ suc n
      → s.waiting_pops ≡ suc m
      → Step s (record s { due_empty = n; waiting_pops = m; pops = suc s.pops })
  notify_no_pop :
      (n : ℕ) → s.due_empty ≡ suc n → s.waiting_pops ≡ 0 → Step s (record s { due_empty = n })
  notify_full :
      (n : ℕ) (a b : List T) (item : T)
      → s.due_full ≡ suc n
      → s.waiting_pushes ≡ a ++ (item ∷ b)
      → Step s (record s { due_full = n; waiting_pushes = a ++ b; pushes = item ∷ s.pushes })
  notify_no_push :
      (n : ℕ) → s.due_full ≡ suc n → s.waiting_pushes ≡ [] → Step s (record s { due_full = n })
  notify_all :
      (n : ℕ)
      → s.due_all ≡ suc n
      → Step s (record s {
        due_all = n;
        waiting_pops = 0;
        pops = s.pops + s.waiting_pops;
        waiting_pushes = [];
        pushes = s.pushes ++ s.waiting_pushes;
      })
  -- A condition variable may also wake a thread unasked.
  wake_pop :
      (m : ℕ) → s.waiting_pops ≡ suc m → Step s (record s { waiting_pops = m; pops = suc s.pops })
  wake_push :
      (a b : List T) (item : T)
      → s.waiting_pushes ≡ a ++ (item ∷ b)
      → Step s (record s { waiting_pushes = a ++ b; pushes = item ∷ s.pushes })

pub data Reachable {T : Type 0} (max_size : ℕ) : System T → Type 0 where
  start : Reachable max_size (idle max_size)
  step : (s s' : System T) → Reachable max_size s → Step s s' → Reachable max_size s'
