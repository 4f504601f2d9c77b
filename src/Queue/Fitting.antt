-- ===== src/Queue/Fitting.antt =====
-- What the threads of a pool have at each place, where none has woken unasked: whether they are on
-- offer, have a job, and are still to be notified.
use mathlib.Core.Path.{subst}
use red_giant.Prelude.{
  ℕ, suc, ◌≡◌, ◌⊎◌, refl, Bool, true, false, Option, none, some, arith, ◌==◌, Bool-cases, inl, inr,
  ◌≤◌,
}
use red_giant.Queue.Pool.{
  Place, pushing, locking, waiting, awake, ended, running, ThreadExecutor, ThreadPool,
  with_executor, wake,
}
use red_giant.Queue.Tokens.{tokens}
use red_giant.Wand.Fuel.{==→≡}

module _ {Job : Type 0} where
  -- A thread on its way to `wait`, or there: it is on offer, or has been given a job.
  abbrev pub Waits : Option Job → ℕ → ℕ → Type 0
  Waits none tokens due = (tokens ≡ 1) × (due ≡ 0)
  Waits (some job) tokens due = (tokens ≡ 0) × (due ≤ 1)

  abbrev pub Woken : Option Job → ℕ → ℕ → Type 0
  Woken none tokens due = ⊥
  Woken (some job) tokens due = (tokens ≡ 0) × (due ≡ 0)

  -- What a thread that was not stopped has at a place: its job, how often it is on offer, and the
  -- notifications that are due.
  abbrev pub Works : Place Job → Option Job → ℕ → ℕ → Type 0
  Works pushing job tokens due = (job ≡ none) × (tokens ≡ 0) × (due ≡ 0)
  Works (running j) job tokens due = (job ≡ none) × (tokens ≡ 0) × (due ≡ 0)
  Works ended job tokens due = (job ≡ none) × (tokens ≡ 0) × (due ≡ 0)
  Works locking job tokens due = Waits job tokens due
  Works waiting job tokens due = Waits job tokens due
  Works awake job tokens due = Woken job tokens due

  -- A job excludes an offer.
  abbrev pub Holds : Option Job → ℕ → Type 0
  Holds none tokens = tokens ≤ 1
  Holds (some job) tokens = tokens ≡ 0

  -- The same for one that was stopped; it pushes its id in vain.
  abbrev pub Halts : Place Job → Option Job → ℕ → Bool → Type 0
  Halts pushing job tokens alive = (job ≡ none) × (tokens ≡ 0) × (alive ≡ false)
  Halts (running j) job tokens alive = (job ≡ none) × (tokens ≡ 0) × (alive ≡ false)
  Halts ended job tokens alive = Holds job tokens
  Halts locking job tokens alive = Holds job tokens
  Halts waiting job tokens alive = Holds job tokens
  Halts awake job tokens alive = Holds job tokens

  abbrev pub Fits : Bool → Place Job → Option Job → ℕ → ℕ → Bool → Type 0
  Fits true p j t n alive = Works p j t n
  Fits false p j t n alive = Halts p j t alive

  abbrev pub IsFitting : ThreadExecutor Job → ℕ → Bool → Type 0
  IsFitting e t alive = Fits e.active e.place e.job t e.due alive

  abbrev pub AllFit : ThreadPool Job → Type 0
  AllFit s = (i : ℕ) → IsFitting (s.executors i) (tokens i s) s.queue.alive

  -- Every executor fits after one has changed.
  pub with_executor-AllFit :
      (k : ℕ) (e : ThreadExecutor Job) (s : ThreadPool Job)
      → IsFitting e (tokens k s) s.queue.alive
      → ((i : ℕ) → (k == i) ≡ false → IsFitting (s.executors i) (tokens i s) s.queue.alive)
      → AllFit (with_executor k e s)
  with_executor-AllFit k e s h a i = elim (Bool-cases (k == i)) [
    | inl c ↦ rw c (subst (λ j. IsFitting e (tokens j s) s.queue.alive) (==→≡ k i c) h)
    | inr c ↦ rw c (a i c)
  ]

  -- An executor that has not changed fits a queue with as many of its ids.
  pub unchanged-IsFitting :
      (e : ThreadExecutor Job) (t t' : ℕ) (a a' : Bool)
      → t ≡ t'
      → a ≡ a'
      → IsFitting e t a
      → IsFitting e t' a'
  unchanged-IsFitting e t t' a a' h k f =
      subst (IsFitting e t') k (subst (λ u. IsFitting e u a) h f)

  -- The executor at a place that is known.
  pub Fits-at :
      (i : ℕ) (p : Place Job) (s : ThreadPool Job)
      → AllFit s
      → (s.executors i).place ≡ p
      → Fits
          (s.executors i).active
          p
          (s.executors i).job
          (tokens i s)
          (s.executors i).due
          s.queue.alive
  Fits-at i p s f h =
      subst
        (λ q.
          Fits (s.executors i).active q (s.executors i).job (tokens i s) (s.executors i).due
            s.queue.alive)
        h (f i)

  pub Holds-zero : (j : Option Job) (t : ℕ) → t ≡ 0 → Holds j t
  Holds-zero none t h = omega (arith, h)
  Holds-zero (some job) t h = h

  Holds-schedule : (job : Job) (j : Option Job) (t : ℕ) → Holds j (suc t) → Holds (some job) t
  Holds-schedule job none t h = omega (arith, h)
  Holds-schedule job (some k) t h = absurd (omega (arith, h))

  -- A thread that is on offer waits for a job, and has it afterwards.
  pub schedule-Fits :
      (a : Bool) (p : Place Job) (job : Job) (j : Option Job) (t n : ℕ) (alive : Bool)
      → Fits a p j (suc t) n alive
      → Fits a p (some job) t (suc n) alive
  schedule-Fits true pushing job j t n l f = absurd (omega (arith, f.1))
  schedule-Fits true (running k) job j t n l f = absurd (omega (arith, f.1))
  schedule-Fits true ended job j t n l f = absurd (omega (arith, f.1))
  schedule-Fits true locking job none t n l f = (omega (arith, f.0), omega (arith, f.1))
  schedule-Fits true waiting job none t n l f = (omega (arith, f.0), omega (arith, f.1))
  schedule-Fits true locking job (some k) t n l f = absurd (omega (arith, f.0))
  schedule-Fits true waiting job (some k) t n l f = absurd (omega (arith, f.0))
  schedule-Fits true awake job none t n l f = absurd f
  schedule-Fits true awake job (some k) t n l f = absurd (omega (arith, f.0))
  schedule-Fits false pushing job j t n l f = absurd (omega (arith, f.1))
  schedule-Fits false (running k) job j t n l f = absurd (omega (arith, f.1))
  schedule-Fits false ended job j t n l f = Holds-schedule job j t f
  schedule-Fits false locking job j t n l f = Holds-schedule job j t f
  schedule-Fits false waiting job j t n l f = Holds-schedule job j t f
  schedule-Fits false awake job j t n l f = Holds-schedule job j t f

  pub notify-Fits :
      (a : Bool) (p : Place Job) (j : Option Job) (t n : ℕ) (alive : Bool)
      → Fits a p j t (suc n) alive
      → Fits a (wake p) j t n alive
  unfolding wake
  notify-Fits true pushing j t n l f = absurd (omega (arith, f.2))
  notify-Fits true (running k) j t n l f = absurd (omega (arith, f.2))
  notify-Fits true ended j t n l f = absurd (omega (arith, f.2))
  notify-Fits true locking none t n l f = absurd (omega (arith, f.1))
  notify-Fits true waiting none t n l f = absurd (omega (arith, f.1))
  notify-Fits true locking (some k) t n l f = (f.0, omega (arith, f.1))
  notify-Fits true waiting (some k) t n l f = (f.0, omega (arith, f.1))
  notify-Fits true awake none t n l f = absurd f
  notify-Fits true awake (some k) t n l f = absurd (omega (arith, f.1))
  notify-Fits false pushing j t n l f = f
  notify-Fits false (running k) j t n l f = f
  notify-Fits false ended j t n l f = f
  notify-Fits false locking j t n l f = f
  notify-Fits false waiting j t n l f = f
  notify-Fits false awake j t n l f = f

  pub stop-Halts :
      (p : Place Job) (j : Option Job) (t n : ℕ) → Works p j t n → Halts (wake p) j t false
  unfolding wake
  stop-Halts pushing j t n f = (f.0, f.1, refl)
  stop-Halts (running k) j t n f = (f.0, f.1, refl)
  stop-Halts ended j t n f = Holds-zero j t f.1
  stop-Halts locking none t n f = omega (arith, f.0)
  stop-Halts waiting none t n f = omega (arith, f.0)
  stop-Halts locking (some k) t n f = f.0
  stop-Halts waiting (some k) t n f = f.0
  stop-Halts awake none t n f = absurd f
  stop-Halts awake (some k) t n f = f.0

  pub flush-Fits :
      (a : Bool) (p : Place Job) (j : Option Job) (t n : ℕ) (alive : Bool)
      → Fits a p j t n alive
      → Fits a p j t n false
  flush-Fits true p j t n l f = f
  flush-Fits false pushing j t n l f = (f.0, f.1, refl)
  flush-Fits false (running k) j t n l f = (f.0, f.1, refl)
  flush-Fits false ended j t n l f = f
  flush-Fits false locking j t n l f = f
  flush-Fits false waiting j t n l f = f
  flush-Fits false awake j t n l f = f

  pub announce-Fits :
      (a : Bool) (j : Option Job) (t n : ℕ) (alive : Bool)
      → Fits a pushing j t n alive
      → alive ≡ true
      → Fits a locking j (suc t) n true
  announce-Fits true none t n l f h = (omega (arith, f.1), f.2)
  announce-Fits true (some k) t n l f h = absurd (ground (arith, f.0))
  announce-Fits false j t n l f h = absurd (ground (arith, f.2, h))

  pub announce_fails-Fits :
      (a : Bool) (j : Option Job) (t n : ℕ) (alive : Bool)
      → Fits a pushing j t n alive
      → Fits a ended j t n alive
  announce_fails-Fits true j t n l f = f
  announce_fails-Fits false j t n l f = Holds-zero j t f.1

  pub finish-Fits :
      (a : Bool) (job : Job) (j : Option Job) (t n : ℕ) (alive : Bool)
      → Fits a (running job) j t n alive
      → Fits a pushing j t n alive
  finish-Fits true job j t n l f = f
  finish-Fits false job j t n l f = f

  pub Woken-some :
      (j : Option Job) (t n : ℕ) → Woken j t n → (job : Job) × (j ≡ some job) × (t ≡ 0) × (n ≡ 0)
  Woken-some none t n w = absurd w
  Woken-some (some job) t n w = (job, refl, w.0, w.1)

  pub run-Fits :
      (a : Bool) (job : Job) (t n : ℕ) (alive : Bool)
      → a ≡ true
      → t ≡ 0
      → n ≡ 0
      → Fits a (running job) none t n alive
  run-Fits true job t n l h k o = (refl, k, o)
  run-Fits false job t n l h k o = absurd (ground (arith, h))

  pub Holds-once : (j : Option Job) (t : ℕ) → Holds j t → (t ≤ 1) × (t ≡ 1 → j ≡ none)
  Holds-once none t h = (h, λ k. refl)
  Holds-once (some job) t h = (omega (arith, h), λ k. absurd (omega (arith, h, k)))

  -- What follows from the table: a thread is on offer once at most, then without a job, and, if it
  -- was not stopped, before its `wait` or at it.
  pub Fits-once :
      (a : Bool) (p : Place Job) (j : Option Job) (t n : ℕ) (alive : Bool)
      → Fits a p j t n alive
      → (t ≤ 1) × (t ≡ 1 → j ≡ none) × (t ≡ 1 → (p ≡ locking) ⊎ (p ≡ waiting) ⊎ (a ≡ false))
  Fits-once true pushing j t n l f =
      (omega (arith, f.1), λ h. f.0, λ h. absurd (omega (arith, f.1, h)))
  Fits-once true (running k) j t n l f =
      (omega (arith, f.1), λ h. f.0, λ h. absurd (omega (arith, f.1, h)))
  Fits-once true ended j t n l f =
      (omega (arith, f.1), λ h. f.0, λ h. absurd (omega (arith, f.1, h)))
  Fits-once true locking none t n l f = (omega (arith, f.0), λ h. refl, λ h. inl refl)
  Fits-once true waiting none t n l f = (omega (arith, f.0), λ h. refl, λ h. inr (inl refl))
  Fits-once true locking (some k) t n l f =
      (omega (arith, f.0), λ h. absurd (omega (arith, f.0, h)), λ h. inl refl)
  Fits-once true waiting (some k) t n l f =
      (omega (arith, f.0), λ h. absurd (omega (arith, f.0, h)), λ h. inr (inl refl))
  Fits-once true awake none t n l f = absurd f
  Fits-once true awake (some k) t n l f =
      (omega (arith, f.0), λ h. absurd (omega (arith, f.0, h)), λ h. absurd (omega (arith, f.0, h)))
  Fits-once false pushing j t n l f = (omega (arith, f.1), λ h. f.0, λ h. inr (inr refl))
  Fits-once false (running k) j t n l f = (omega (arith, f.1), λ h. f.0, λ h. inr (inr refl))
  Fits-once false ended j t n l f = let o = Holds-once j t f in (o.0, o.1, λ h. inr (inr refl))
  Fits-once false locking j t n l f = let o = Holds-once j t f in (o.0, o.1, λ h. inr (inr refl))
  Fits-once false waiting j t n l f = let o = Holds-once j t f in (o.0, o.1, λ h. inr (inr refl))
  Fits-once false awake j t n l f = let o = Holds-once j t f in (o.0, o.1, λ h. inr (inr refl))
