-- ===== src/Queue/Lost.antt =====
-- A job that is set before its thread waits, and notified before that too, is lost.
use red_giant.Prelude.{ℕ, ◌≡◌, true, ap, some, arith, ◌==◌, Bool-cases, inl, inr}
use red_giant.Queue.Pool.{
  waiting, locking, ThreadPool, Cause, Spares, Reachable, with_executor, wakes_unasked, flushes,
  stops, Step, Steps, here, further, announces, announce_fails, enters, signaled, finishes,
  schedules, drops, hands_over, notifies, wake, enter_wait, get_signaled, schedule_thread,
}
use red_giant.Queue.Tokens.{
  count_handed, tokens, tokens-announces, tokens-schedules, tokens-push_fails, tokens-drops,
  count_handed-middle, flush-same,
}
use red_giant.Queue.Free.{reachable-unoffered}

module _ {Job : Type 0} where
  -- The thread waits with a job that nobody will wake it for.
  pub record IsLost (i : ℕ) (job : Job) (s : ThreadPool Job) : Type 0 where
    pub waits_there : (s.executors i).place ≡ waiting
    pub unnoticed : (s.executors i).job ≡ some job
    pub no_notice : (s.executors i).due ≡ 0
    pub not_offered : tokens i s ≡ 0

  Step-IsLost :
      (i : ℕ) (job : Job) (s s' : ThreadPool Job) (c : Cause)
      → Spares i c
      → Step s c s'
      → IsLost i job s
      → IsLost i job s'
  unfolding enter_wait get_signaled schedule_thread wake
  Step-IsLost i job s s' _ o (announces k q' h e) l = elim (Bool-cases (k == i)) [
    | inl c ↦ absurd (ground (arith, h))
    | inr c ↦ ground (arith, tokens-announces k i s.queue q' e)
  ]
  Step-IsLost i job s s' _ o (announce_fails k q' h e) l = elim (Bool-cases (k == i)) [
    | inl c ↦ absurd (ground (arith, h))
    | inr c ↦ ground (arith, tokens-push_fails k s.queue q' e)
  ]
  Step-IsLost i job s s' _ o (enters k h) l = elim (Bool-cases (k == i)) [
    | inl c ↦ absurd (ground (arith, h))
    | inr c ↦ ground arith
  ]
  Step-IsLost i job s s' _ o (signaled k h) l = elim (Bool-cases (k == i)) [
    | inl c ↦ absurd (ground (arith, h))
    | inr c ↦ ground arith
  ]
  Step-IsLost i job s s' _ o (finishes k j h) l = elim (Bool-cases (k == i)) [
    | inl c ↦ absurd (ground (arith, h))
    | inr c ↦ ground arith
  ]
  Step-IsLost i job s s' _ o (schedules k j q' e) l =
      ground (arith, tokens-schedules k i s.queue q' e)
  Step-IsLost i job s s' _ o (drops j q' e) l = ground (arith, tokens-drops s.queue q' e)
  Step-IsLost i job s s' _ o (hands_over a b k j h) l = elim (Bool-cases (k == i)) [
    | inl c ↦ absurd (ground (arith, h, ap (count_handed i) h, count_handed-middle i a b (k, j)))
    | inr c ↦ ground (arith, ap (count_handed i) h, count_handed-middle i a b (k, j))
  ]
  Step-IsLost i job s s' _ o (notifies k n h) l = elim (Bool-cases (k == i)) [
    | inl c ↦ absurd (ground (arith, h))
    | inr c ↦ ground arith
  ]
  Step-IsLost i job s s' _ o (wakes_unasked k h) l = ground (arith, o)
  Step-IsLost i job s s' _ o flushes l = ground (arith, flush-same s.queue)
  Step-IsLost i job s s' _ o (stops k h) l = ground (arith, o)

  Steps-IsLost :
      (i : ℕ) (job : Job) (s s' : ThreadPool Job) → Steps i s s' → IsLost i job s → IsLost i job s'
  Steps-IsLost i job s s' here l = l
  Steps-IsLost i job s s' (further t v c r o u) l =
      Step-IsLost i job t s' c o u (Steps-IsLost i job s t r l)

  -- A thread that was offered, has been given a job, and was notified of it, all while it is still on
  -- its way to `wait`, loses the job: it enters `wait`, and whatever the other threads, the callers
  -- and `stop` do from there on, it waits with the job, is not notified, and is not on offer, unless
  -- it wakes unasked or is stopped itself. No thread must have woken unasked before.
  pub early_notice-IsLost :
      (n i : ℕ) (job : Job) (s s' : ThreadPool Job)
      → Reachable n s
      → (s.executors i).place ≡ locking
      → (s.executors i).active ≡ true
      → (s.executors i).job ≡ some job
      → (s.executors i).due ≡ 0
      → Steps i (with_executor i (enter_wait (s.executors i)) s) s'
      → IsLost i job s'
  unfolding enter_wait
  early_notice-IsLost n i job s s' r p a j d t =
      Steps-IsLost i job (with_executor i (enter_wait (s.executors i)) s) s' t
        (ground (arith, p, a, j, d, reachable-unoffered n i job s r j))
