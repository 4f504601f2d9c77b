-- ===== src/Tests/Pools.antt =====
-- The theorems on the thread pool at concrete inputs.
use red_giant.Prelude.{◌≡◌, ℕ, refl, true, [], ◌∷◌}
use red_giant.Queue.{MessageQueue, pop, push, empty_queue}
use red_giant.Queue.Pool.{
  ThreadPool, Reachable, start, step, start_pool, start_thread, with_executor, locking,
  schedule_thread, enter_wait, wake, announces, schedules, Steps, here, further, hands_over,
  notifies, Step, asked, unasked, awake, wakes_unasked, get_signaled,
}
use red_giant.Queue.Lost.{IsLost, early_notice-IsLost}
use red_giant.Queue.Tokens.{tokens}
use red_giant.Queue.Free.{IsFree, reachable-IsFree}

-- A pool of two threads: the id of the first is taken, its job set and notified before the thread waits.
abbrev two_threads : ThreadPool ℕ
two_threads = start_pool 2

abbrev one_id : MessageQueue ℕ
one_id = record { queue = 0 ∷ []; max_size = 2; alive = true }

abbrev offered : ThreadPool ℕ
offered =
    with_executor 0 (record (two_threads.executors 0) { place = locking })
      (record two_threads { queue = one_id })

abbrev taken : ThreadPool ℕ
taken = record offered { queue = empty_queue 2; handed = (0, 7) ∷ [] }

abbrev job_set : ThreadPool ℕ
job_set = with_executor 0 (schedule_thread 7 (taken.executors 0)) (record taken { handed = [] })

abbrev notified : ThreadPool ℕ
notified =
    with_executor 0
      (record (job_set.executors 0) { due = 0; place = wake (job_set.executors 0).place }) job_set

abbrev lost : ThreadPool ℕ
lost = with_executor 0 (enter_wait (notified.executors 0)) notified

offered-Reachable : Reachable 2 offered
unfolding start_pool start_thread push
offered-Reachable = step two_threads offered asked start tt (announces 0 one_id refl refl)

notified-Reachable : Reachable 2 notified
unfolding start_pool start_thread push pop schedule_thread wake
notified-Reachable =
    step job_set notified asked
      (step taken job_set asked
        (step offered taken asked offered-Reachable tt (schedules 0 7 (empty_queue 2) refl)) tt
        (hands_over [] [] 0 7 refl))
      tt (notifies 0 0 refl)

reachable-IsFree_example : IsFree 0 offered
reachable-IsFree_example = reachable-IsFree 2 0 offered offered-Reachable

-- The other thread pushes its id.
abbrev other_id : MessageQueue ℕ
other_id = record { queue = 1 ∷ []; max_size = 2; alive = true }

abbrev other_offered : ThreadPool ℕ
other_offered =
    with_executor 1 (record (lost.executors 1) { place = locking })
      (record lost { queue = other_id })

other_announces : Steps 0 lost other_offered
unfolding start_pool start_thread push schedule_thread enter_wait wake
other_announces = further lost other_offered asked here tt (announces 1 other_id refl refl)

early_notice-IsLost_example : IsLost 0 7 other_offered
unfolding start_pool start_thread schedule_thread wake
early_notice-IsLost_example =
    early_notice-IsLost 2 0 7 notified other_offered notified-Reachable refl refl refl refl
      other_announces

-- A thread that wakes unasked finds no job and pushes its id again: it is on offer twice.
abbrev waits_there : ThreadPool ℕ
waits_there = with_executor 0 (enter_wait (offered.executors 0)) offered

abbrev woken : ThreadPool ℕ
woken = with_executor 0 (record (waits_there.executors 0) { place = awake }) waits_there

abbrev back : ThreadPool ℕ
back = with_executor 0 (get_signaled (woken.executors 0)) woken

abbrev two_ids : MessageQueue ℕ
two_ids = record { queue = 0 ∷ 0 ∷ []; max_size = 2; alive = true }

abbrev twice : ThreadPool ℕ
twice =
    with_executor 0 (record (back.executors 0) { place = locking })
      (record back { queue = two_ids })

wakes : Step waits_there (unasked 0) woken
unfolding start_pool start_thread enter_wait
wakes = wakes_unasked 0 refl

offered_again : Step back asked twice
unfolding start_pool start_thread enter_wait get_signaled push
offered_again = announces 0 two_ids refl refl

twice-tokens : tokens 0 twice ≡ 2
unfolding start_pool
twice-tokens = refl
