-- ===== src/Tests/Queues.antt =====
-- The theorems on the message queue and its workers at concrete inputs.
use red_giant.Prelude.{ℕ, ◌+◌, ◌≡◌, refl, true, some, none, [], ◌∷◌, arith}
use red_giant.Queue.{returns, push, empty_queue}
use red_giant.Queue.Threads.{System, Reachable, start, step, idle, call_push, push_returns}
use red_giant.Queue.Order.{IsOrdered, reachable-IsOrdered}
use red_giant.Queue.Wakeup.{IsAwake, reachable-IsAwake}
use red_giant.Queue.Executor
use red_giant.Queue.Executor.{
  WorkerExecutor, worker_executor, schedule, work_round, work_loop, executed, start-stop,
  work_loop-executed,
}

abbrev called : System ℕ
called = record (idle 2) { pushes = 7 ∷ [] }

abbrev one_pushed : System ℕ
one_pushed = record (idle 2) {
  q = record { queue = 7 ∷ []; max_size = 2; alive = true };
  due_empty = 1;
  pushed = 7 ∷ [];
}

push_seven : push 7 (empty_queue 2) ≡ returns (true, one_pushed.q)
unfolding push
push_seven = refl

one_pushed-Reachable : Reachable 2 one_pushed
one_pushed-Reachable =
    step called one_pushed (step (idle 2) called start (call_push 7))
      (push_returns [] [] 7 one_pushed.q refl push_seven)

reachable-IsOrdered_example : IsOrdered 2 one_pushed
reachable-IsOrdered_example = reachable-IsOrdered 2 one_pushed one_pushed-Reachable

reachable-IsAwake_example : IsAwake one_pushed
reachable-IsAwake_example = reachable-IsAwake 2 one_pushed one_pushed-Reachable

abbrev count : ℕ → ℕ → ℕ × ℕ
count job w = (job, w + job)

abbrev running : WorkerExecutor ℕ
running = record { thread_num = 2; queue = empty_queue 5; threads = 2 }

start-stop_example :
    ((Executor.start (Executor.stop running)).threads ≡ 2)
    × (schedule 3 (Executor.start (Executor.stop running))
        ≡ returns (Executor.start (Executor.stop running)))
    × (work_round count (0, (Executor.start (Executor.stop running)).queue, []) ≡ returns none)
start-stop_example = start-stop count 0 [] 3 running (omega arith)

work_loop-executed_example :
    work_loop count 3 (0, record { queue = 4 ∷ 5 ∷ []; max_size = 5; alive = true }, [])
    ≡ some (9, empty_queue 5, 4 ∷ 5 ∷ [])
work_loop-executed_example = work_loop-executed count 3 0 (4 ∷ 5 ∷ []) [] 5 (omega arith)
