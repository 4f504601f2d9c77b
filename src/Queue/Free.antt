-- ===== src/Queue/Free.antt =====
-- While no thread wakes unasked, a thread is on offer at most once, and then has no job: no job that
-- is handed over takes the place of another.
use mathlib.Core.Path.{subst}
use red_giant.Prelude.{
  ℕ, suc, ◌+◌, ◌≡◌, ◌⊎◌, refl, ap, sym, ◌∙◌, Bool, true, false, none, some, [], ◌∷◌, ◌++◌, arith,
  if◌then◌else◌, ◌==◌, ltb, Bool-cases, inl, inr, ◌≤◌,
}
use red_giant.Queue.Pool.{
  pushing, locking, waiting, awake, ended, running, ThreadExecutor, ThreadPool, Step, announces,
  announce_fails, enters, signaled, finishes, schedules, drops, hands_over, notifies, Reachable,
  start, step, Cause, IsAsked, wakes_unasked, flushes, stops, stop_thread, wake, enter_wait,
  get_signaled, schedule_thread, start_pool, start_thread,
}
use red_giant.Queue.Tokens.{
  count_handed, tokens, tokens-announces, tokens-schedules, tokens-push_fails, tokens-drops,
  count_handed-middle, push-alive, pop-alive, flush-same,
}
use red_giant.Queue.{flush}
use red_giant.Queue.Fitting.{
  Fits, IsFitting, AllFit, with_executor-AllFit, unchanged-IsFitting, Fits-at, schedule-Fits,
  notify-Fits, stop-Halts, flush-Fits, announce-Fits, announce_fails-Fits, finish-Fits, Woken-some,
  run-Fits, Fits-once,
}

module _ {Job : Type 0} where
  enter_wait-IsFitting :
      (e : ThreadExecutor Job) (t : ℕ) (alive : Bool)
      → Fits e.active locking e.job t e.due alive
      → IsFitting (enter_wait e) t alive
  unfolding enter_wait
  enter_wait-IsFitting e t alive f = elim (Bool-cases e.active) [
    | inl h ↦ rw (enter_wait, h) (subst (λ a. Fits a locking e.job t e.due alive) h f)
    | inr h ↦ rw (enter_wait, h) (subst (λ a. Fits a locking e.job t e.due alive) h f)
  ]

  get_signaled-IsFitting :
      (e : ThreadExecutor Job) (t : ℕ) (alive : Bool)
      → Fits e.active awake e.job t e.due alive
      → IsFitting (get_signaled e) t alive
  unfolding get_signaled
  get_signaled-IsFitting e t alive f = elim (Bool-cases e.active) [
    | inl h ↦
        let (job, j, k, n) =
          Woken-some e.job t e.due (subst (λ a. Fits a awake e.job t e.due alive) h f) in
        rw (get_signaled, h, j) (run-Fits e.active job t e.due alive h k n)
    | inr h ↦ rw (get_signaled, h) (subst (λ a. Fits a awake e.job t e.due alive) h f)
  ]

  stop_thread-IsFitting :
      (e : ThreadExecutor Job) (t : ℕ) (alive : Bool)
      → alive ≡ false
      → IsFitting e t alive
      → IsFitting (stop_thread e) t alive
  unfolding stop_thread
  stop_thread-IsFitting e t alive l f = elim (Bool-cases e.active) [
    | inl h ↦
        rw (stop_thread, h, l)
          (stop-Halts e.place e.job t e.due (subst (λ a. Fits a e.place e.job t e.due alive) h f))
    | inr h ↦ rw (stop_thread, h) (subst (λ a. Fits a e.place e.job t e.due alive) h f)
  ]

  Step-AllFit : (s s' : ThreadPool Job) (c : Cause) → IsAsked c → Step s c s' → AllFit s → AllFit s'
  unfolding schedule_thread
  Step-AllFit s s' _ o (announces k q' h e) f =
      let (a, b) = push-alive k s.queue q' e in
      let x = s.executors k in
      let u = record s { queue = q' } in
      with_executor-AllFit k (record x { place = locking }) u
        (unchanged-IsFitting (record x { place = locking }) (suc (tokens k s)) (tokens k u) true
          q'.alive (ground (arith, tokens-announces k k s.queue q' e)) (sym b)
          (announce-Fits x.active x.job (tokens k s) x.due s.queue.alive (Fits-at k pushing s f h)
            a))
        (λ i o.
          unchanged-IsFitting (s.executors i) (tokens i s) (tokens i u) s.queue.alive q'.alive
            (ground (arith, tokens-announces k i s.queue q' e)) (a ∙ sym b) (f i))
  Step-AllFit s s' _ o (announce_fails k q' h e) f =
      let q = tokens-push_fails k s.queue q' e in
      let x = s.executors k in
      let u = record s { queue = q' } in
      let same : (y : ThreadExecutor Job) (i : ℕ)
          → IsFitting y (tokens i s) s.queue.alive
          → IsFitting y (tokens i u) q'.alive =
        λ y i.
          unchanged-IsFitting y (tokens i s) (tokens i u) s.queue.alive q'.alive (ground (arith, q))
            (ground (arith, q)) in
      with_executor-AllFit k (record x { place = ended }) u
        (same (record x { place = ended }) k
          (announce_fails-Fits x.active x.job (tokens k s) x.due s.queue.alive
            (Fits-at k pushing s f h)))
        (λ i o. same (s.executors i) i (f i))
  Step-AllFit s s' _ o (enters k h) f =
      with_executor-AllFit k (enter_wait (s.executors k)) s
        (enter_wait-IsFitting (s.executors k) (tokens k s) s.queue.alive (Fits-at k locking s f h))
        (λ i o. f i)
  Step-AllFit s s' _ o (signaled k h) f =
      with_executor-AllFit k (get_signaled (s.executors k)) s
        (get_signaled-IsFitting (s.executors k) (tokens k s) s.queue.alive (Fits-at k awake s f h))
        (λ i o. f i)
  Step-AllFit s s' _ o (finishes k j h) f =
      let x = s.executors k in
      with_executor-AllFit k (record x { place = pushing })
        (record s { executed = s.executed ++ j ∷ [] })
        (finish-Fits x.active j x.job (tokens k s) x.due s.queue.alive
          (Fits-at k (running j) s f h))
        (λ i o. f i)
  Step-AllFit s s' _ o (schedules k j q' e) f = λ i.
      let u = record s { queue = q'; handed = (k, j) ∷ s.handed } in
      unchanged-IsFitting (s.executors i) (tokens i s) (tokens i u) s.queue.alive q'.alive
        (ground (arith, tokens-schedules k i s.queue q' e)) (sym (pop-alive k s.queue q' e)) (f i)
  Step-AllFit s s' _ o (drops j q' e) f = λ i.
      let q = tokens-drops s.queue q' e in
      unchanged-IsFitting (s.executors i) (tokens i s) (tokens i (record s { queue = q' }))
        s.queue.alive q'.alive (ground (arith, q)) (ground (arith, q)) (f i)
  Step-AllFit s s' _ o (hands_over a b k j h) f =
      let left = record s { handed = a ++ b } in
      let l = s.queue.alive in
      let fewer : (i : ℕ) → tokens i s ≡ tokens i left + (if k == i then 1 else 0) =
        λ i. omega (arith, ap (count_handed i) h, count_handed-middle i a b (k, j)) in
      let e = s.executors k in
      with_executor-AllFit k (schedule_thread j e) left
        (schedule-Fits e.active e.place j e.job (tokens k left) e.due l (
          unchanged-IsFitting e (tokens k s) (suc (tokens k left)) l l (ground (arith, fewer k))
            refl (f k)))
        (λ i o.
          unchanged-IsFitting (s.executors i) (tokens i s) (tokens i left) l l
            (ground (arith, fewer i)) refl (f i))
  Step-AllFit s s' _ o (notifies k n h) f =
      let e = s.executors k in
      with_executor-AllFit k (record e { due = n; place = wake e.place }) s
        (notify-Fits e.active e.place e.job (tokens k s) n s.queue.alive
          (subst (λ d. Fits e.active e.place e.job (tokens k s) d s.queue.alive) h (f k)))
        (λ i o. f i)
  Step-AllFit s s' _ o (wakes_unasked k h) f = absurd o
  Step-AllFit s s' _ o flushes f = λ i.
      let e = s.executors i in
      let (q, l) = flush-same s.queue in
      unchanged-IsFitting e (tokens i s) (tokens i (record s { queue = flush s.queue })) false
        (flush s.queue).alive (ground (arith, q)) (sym l)
        (flush-Fits e.active e.place e.job (tokens i s) e.due s.queue.alive (f i))
  Step-AllFit s s' _ o (stops k h) f =
      with_executor-AllFit k (stop_thread (s.executors k)) s
        (stop_thread-IsFitting (s.executors k) (tokens k s) s.queue.alive h (f k)) (λ i o. f i)

  -- A thread is on offer once at most, then without a job, and, if it was not stopped, before its
  -- `wait` or at it.
  pub record IsFree (i : ℕ) (s : ThreadPool Job) : Type 0 where
    pub once : tokens i s ≤ 1
    pub unused : tokens i s ≡ 1 → (s.executors i).job ≡ none
    pub ready :
        tokens i s ≡ 1
        → ((s.executors i).place ≡ locking)
          ⊎ ((s.executors i).place ≡ waiting)
          ⊎ ((s.executors i).active ≡ false)

  reachable-AllFit : (n : ℕ) (s : ThreadPool Job) → Reachable n s → AllFit s
  unfolding start_pool start_thread
  reachable-AllFit n s start i = elim (Bool-cases (ltb i n)) [
    | inl e ↦ rw e (refl, refl, refl)
    | inr e ↦ rw e (omega arith)
  ]
  reachable-AllFit n s (step s0 s' c r o t) i = Step-AllFit s0 s c o t (reachable-AllFit n s0 r) i

  -- As long as no thread wakes from `wait` without a notification, whatever else the threads of a
  -- pool, its callers and `stop` do, each thread is on offer once at most, and then it has no job
  -- and, unless it was stopped, is before its `wait` or at it. So no job that is handed over takes
  -- the place of another.
  pub reachable-IsFree : (n i : ℕ) (s : ThreadPool Job) → Reachable n s → IsFree i s
  reachable-IsFree n i s r =
      let e = s.executors i in
      let (o, j, p) =
        Fits-once e.active e.place e.job (tokens i s) e.due s.queue.alive
          (reachable-AllFit n s r i) in
      record { once = o; unused = j; ready = p }

  -- A thread that was given a job on its way to `wait` is not on offer.
  pub reachable-unoffered :
      (n i : ℕ) (job : Job) (s : ThreadPool Job)
      → Reachable n s
      → (s.executors i).job ≡ some job
      → tokens i s ≡ 0
  reachable-unoffered n i job s r j =
      let f = reachable-IsFree n i s r in ground (arith, f.once, f.unused, j)
