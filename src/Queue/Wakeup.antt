-- ===== src/Queue/Wakeup.antt =====
-- No wakeup is lost: a thread waits in `pop` only if every item in the queue has another thread
-- that will test the condition, and in `push` only if every free place has; and after a flush all
-- threads are woken.
use red_giant.Prelude.{
  ℕ, suc, ◌+◌, ◌≤◌, ◌≡◌, ◌≢◌, refl, ap, ◌∙◌, true, false, List, [], ◌∷◌, ◌++◌, arith, length,
  length-append,
}
use red_giant.Queue.Threads.{
  System, Step, call_pop, call_push, pop_waits, pop_fails, pop_returns, push_waits, push_fails,
  push_returns, flush_alive, flush_again, notify_empty, notify_no_pop, notify_full, notify_no_push,
  notify_all, wake_pop, wake_push, Reachable, start, step,
}
use red_giant.Queue.Order.{
  pop-some, pop-none, pop_waits_lem, push-true, push-false, push_waits_lem, flush_lem,
}

module _ {T : Type 0} where
  -- The items that no thread was woken for yet are fewer than the notifications and the threads
  -- that are on their way; so are the free places; and a flush has woken, or will wake, them all.
  pub record IsAwake (s : System T) : Type 0 where
    pub pops_awake : s.q.alive ≡ true → s.waiting_pops ≢ 0 → length s.q.queue ≤ s.pops + s.due_empty
    pub pushes_awake :
        s.q.alive ≡ true
        → length s.waiting_pushes ≢ 0
        → s.q.max_size ≤ length s.q.queue + (length s.pushes + s.due_full)
    pub flushed :
        s.q.alive ≡ false → s.due_all ≡ 0 → (s.waiting_pops ≡ 0) × (length s.waiting_pushes ≡ 0)

  between :
      (a b : List T) (x : T) (l : List T) → l ≡ a ++ (x ∷ b) → length l ≡ suc (length (a ++ b))
  between a b x l e = omega (arith, ap length e, length-append a (x ∷ b), length-append a b)

  Step-IsAwake : (s s' : System T) → Step s s' → IsAwake s → IsAwake s'
  Step-IsAwake s s' call_pop o = record {
    pops_awake = λ a w. omega (arith, o.pops_awake a w);
    pushes_awake = o.pushes_awake;
    flushed = o.flushed;
  }
  Step-IsAwake s s' (call_push x) o = record {
    pops_awake = o.pops_awake;
    pushes_awake = λ a w. omega (arith, o.pushes_awake a w);
    flushed = o.flushed;
  }
  Step-IsAwake s s' (pop_waits n e p) o =
      let f = pop_waits_lem s.q p in
      record {
        pops_awake = λ a w. omega (arith, ap length f.0);
        pushes_awake = o.pushes_awake;
        flushed = λ a d. absurd (ground (arith, f.1));
      }
  Step-IsAwake s s' (pop_fails n q' e p) o =
      let f = pop-none s.q q' p in
      record {
        pops_awake = λ a w. absurd (ground (arith, f));
        pushes_awake = λ a w. absurd (ground (arith, f));
        flushed = λ a d. o.flushed f.1 d;
      }
  Step-IsAwake s s' (pop_returns n x q' e p) o =
      let f = pop-some s.q q' x p in
      record {
        pops_awake = λ a w. omega (arith, o.pops_awake f.2 w, ap length f.0, e);
        pushes_awake = λ a w. omega (arith, o.pushes_awake f.2 w, ap length f.0, f.1);
        flushed = λ a d. absurd (ground (arith, f.3));
      }
  Step-IsAwake s s' (push_waits a b x e p) o =
      let f = push_waits_lem s.q x p in
      record {
        pops_awake = o.pops_awake;
        pushes_awake = λ g w. omega (arith, f.0);
        flushed = λ g d. absurd (ground (arith, f.1));
      }
  Step-IsAwake s s' (push_fails a b x q' e p) o =
      let f = push-false s.q q' x p in
      record {
        pops_awake = λ g w. absurd (ground (arith, f));
        pushes_awake = λ g w. absurd (ground (arith, f));
        flushed = λ g d. o.flushed f.1 d;
      }
  Step-IsAwake s s' (push_returns a b x q' e p) o =
      let f = push-true s.q q' x p in
      let l = ap length f.0 ∙ length-append s.q.queue (x ∷ []) in
      record {
        pops_awake = λ g w. omega (arith, o.pops_awake f.3 w, l);
        pushes_awake = λ g w. omega (arith, o.pushes_awake f.3 w, l, f.1, between a b x s.pushes e);
        flushed = λ g d. absurd (ground (arith, f.4));
      }
  Step-IsAwake s s' (flush_alive h) o = record {
    pops_awake = λ g w. absurd (ground (arith, flush_lem s.q));
    pushes_awake = λ g w. absurd (ground (arith, flush_lem s.q));
    flushed = λ g d. absurd (omega arith);
  }
  Step-IsAwake s s' (flush_again h) o = record {
    pops_awake = λ g w. absurd (ground (arith, flush_lem s.q));
    pushes_awake = λ g w. absurd (ground (arith, flush_lem s.q));
    flushed = λ g d. o.flushed h d;
  }
  Step-IsAwake s s' (notify_empty n k e f) o = record {
    pops_awake = λ g w. omega (arith, o.pops_awake g (λ z. absurd (omega arith)), e);
    pushes_awake = o.pushes_awake;
    flushed = λ g d. absurd (omega (arith, (o.flushed g d).0));
  }
  Step-IsAwake s s' (notify_no_pop n e f) o = record {
    pops_awake = λ g w. absurd (w f);
    pushes_awake = o.pushes_awake;
    flushed = o.flushed;
  }
  Step-IsAwake s s' (notify_full n a b x e f) o =
      let l = between a b x s.waiting_pushes f in
      record {
        pops_awake = o.pops_awake;
        pushes_awake =
            λ g w. omega (arith, o.pushes_awake g (λ z. absurd (omega (arith, l, z))), e);
        flushed = λ g d. absurd (omega (arith, l, (o.flushed g d).1));
      }
  Step-IsAwake s s' (notify_no_push n e f) o = record {
    pops_awake = o.pops_awake;
    pushes_awake = λ g w. absurd (w (ap length f));
    flushed = o.flushed;
  }
  Step-IsAwake s s' (notify_all n e) o = record {
    pops_awake = λ g w. absurd (w refl);
    pushes_awake = λ g w. absurd (w refl);
    flushed = λ g d. (refl, refl);
  }
  Step-IsAwake s s' (wake_pop k e) o = record {
    pops_awake = λ g w. omega (arith, o.pops_awake g (λ z. absurd (omega arith)));
    pushes_awake = o.pushes_awake;
    flushed = λ g d. absurd (omega (arith, (o.flushed g d).0));
  }
  Step-IsAwake s s' (wake_push a b x e) o =
      let l = between a b x s.waiting_pushes e in
      record {
        pops_awake = o.pops_awake;
        pushes_awake = λ g w. omega (arith, o.pushes_awake g (λ z. absurd (omega (arith, l, z))));
        flushed = λ g d. absurd (omega (arith, l, (o.flushed g d).1));
      }

  -- Whatever the threads do, no wakeup is lost: while the queue is alive, a thread waits in `pop`
  -- only if the items are no more than the other threads in `pop` and the notifications that are
  -- due, and in `push` only if the free places are no more than the threads in `push` and the
  -- notifications that are due; once a flush has sent its notifications no thread waits at all.
  pub reachable-IsAwake : (max_size : ℕ) (s : System T) → Reachable max_size s → IsAwake s
  reachable-IsAwake m s start = record {
    pops_awake = λ a w. absurd (w refl);
    pushes_awake = λ a w. absurd (w refl);
    flushed = λ a d. (refl, refl);
  }
  reachable-IsAwake m s (step r s1 before move) =
      Step-IsAwake r s move (reachable-IsAwake m r before)
