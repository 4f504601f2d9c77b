-- ===== src/DocumentIndex/Maintain.antt =====
-- index/index_manager.h and index_manager.cc: the thread that maintains an index from time to time.
use native.Mathlib.Nat.{lt-div-mul-add}
use red_giant.Prelude.{
  ℕ, suc, ◌+◌, ◌-◌, ◌*◌, ◌/◌, ◌≤◌, ◌<◌, ◌≡◌, Bool, true, false, arith, if◌then◌else◌, ltb, Option,
  some, none, ◌==◌,
}
use red_giant.Feature.Spaces.{Status}

-- `threads` counts the maintaining threads that were started and not joined.
pub record IndexManager : Type 0 where
  pub maintain_active : Bool
  pub threads : ℕ

-- `IndexManager()`
abbrev pub idle_manager : IndexManager
idle_manager = record { maintain_active = false; threads = 0 }

-- `none`: a new thread is assigned to `maintain_thread_` before the old one was joined, which ends
-- the program.
unfoldable pub start_maintain : IndexManager → Option (Status × IndexManager)
start_maintain i =
    if i.maintain_active
    then some (Status.failure, i)
    else if i.threads == 0
    then some (Status.success, record { maintain_active = true; threads = suc i.threads })
    else none

-- `stop_maintain` up to the release of the mutex, and after it: `join` ends the thread that was
-- started. Another caller may come between the two.
unfoldable pub stop_maintain : IndexManager → Status × IndexManager
stop_maintain i =
    if i.maintain_active
    then (Status.success, record i { maintain_active = false })
    else (Status.failure, i)

unfoldable pub join_maintain : IndexManager → IndexManager
join_maintain i = record i { threads = i.threads - 1 }

-- The time of the next round, after `do_maintain` was done at `now`: times are numbers, and the
-- interval is not 0.
unfoldable pub next_time : ℕ → ℕ → ℕ → ℕ
next_time interval now next =
    let next1 = next + interval in
    if ltb next1 now then next1 + (now - next1 + interval) / interval * 2 * interval else next1

double : (q i : ℕ) → q * 2 * i ≡ q * i + q * i
double q i = omega arith

-- After a round that took long, the next one lies in the future, and otherwise it keeps its pace.
pub next_time-future :
    (interval now next : ℕ)
    → 0 < interval
    → (now ≤ next_time interval now next)
      × (now ≤ next + interval → next_time interval now next ≡ next + interval)
unfolding next_time
next_time-future interval now next h =
    let late = now - (next + interval) + interval in
    ground (arith, double (late / interval) interval, lt-div-mul-add {a = late} {b = interval} h)
