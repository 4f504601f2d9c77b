-- ===== src/Queue/Order.antt =====
-- The items come out of a message queue in the order in which they went in, and there are never
-- more of them in it than its size allows.
use mathlib.Core.List.{append_assoc}
use red_giant.Prelude.{
  ℕ, ◌≤◌, ◌<◌, ◌≡◌, refl, ap, ◌∙◌, true, false, none, some, [], ◌∷◌, ◌++◌, arith, length,
  length-append,
}
use red_giant.Queue.{MessageQueue, waits, returns, pop, push, flush}
use red_giant.Queue.Threads.{
  System, Step, call_pop, call_push, pop_waits, pop_fails, pop_returns, push_waits, push_fails,
  push_returns, flush_alive, flush_again, notify_empty, notify_no_pop, notify_full, notify_no_push,
  notify_all, wake_pop, wake_push, Reachable, start, step,
}

module _ {T : Type 0} where
  pub record IsOrdered (max_size : ℕ) (s : System T) : Type 0 where
    pub in_order : s.pushed ≡ s.popped ++ s.q.queue
    pub bounded : length s.q.queue ≤ max_size
    pub same_max : s.q.max_size ≡ max_size

  -- What the methods do to the queue when they return.
  pub pop-some :
      (q q' : MessageQueue T) (item : T)
      → pop q ≡ returns (some item, q')
      → (q.queue ≡ item ∷ q'.queue)
        × (q'.max_size ≡ q.max_size)
        × (q.alive ≡ true)
        × (q'.alive ≡ true)
  unfolding pop
  pop-some q q' item e = ground arith

  pub pop-none : (q q' : MessageQueue T) → pop q ≡ returns (none, q') → (q' ≡ q) × (q.alive ≡ false)
  unfolding pop
  pop-none q q' e = ground arith

  pub pop_waits_lem : (q : MessageQueue T) → pop q ≡ waits → (q.queue ≡ []) × (q.alive ≡ true)
  unfolding pop
  pop_waits_lem q e = ground arith

  pub push-true :
      (q q' : MessageQueue T) (item : T)
      → push item q ≡ returns (true, q')
      → (q'.queue ≡ q.queue ++ item ∷ [])
        × (q'.max_size ≡ q.max_size)
        × (length q.queue < q.max_size)
        × (q.alive ≡ true)
        × (q'.alive ≡ true)
  unfolding push
  push-true q q' item e = ground arith

  pub push-false :
      (q q' : MessageQueue T) (item : T)
      → push item q ≡ returns (false, q')
      → (q' ≡ q) × (q.alive ≡ false)
  unfolding push
  push-false q q' item e = ground arith

  pub push_waits_lem :
      (q : MessageQueue T) (item : T)
      → push item q ≡ waits
      → (q.max_size ≤ length q.queue) × (q.alive ≡ true)
  unfolding push
  push_waits_lem q item e = ground arith

  pub flush_lem :
      (q : MessageQueue T)
      → ((flush q).queue ≡ q.queue) × ((flush q).max_size ≡ q.max_size) × ((flush q).alive ≡ false)
  unfolding flush
  flush_lem q = ground arith

  Step-IsOrdered :
      (max_size : ℕ) (s s' : System T) → Step s s' → IsOrdered max_size s → IsOrdered max_size s'
  Step-IsOrdered m s s' call_pop o = record {
    in_order = o.in_order;
    bounded = o.bounded;
    same_max = o.same_max;
  }
  Step-IsOrdered m s s' (call_push x) o = record {
    in_order = o.in_order;
    bounded = o.bounded;
    same_max = o.same_max;
  }
  Step-IsOrdered m s s' (pop_waits n e p) o = record {
    in_order = o.in_order;
    bounded = o.bounded;
    same_max = o.same_max;
  }
  Step-IsOrdered m s s' (pop_fails n q' e p) o =
      let f = pop-none s.q q' p in
      record {
        in_order = rw f.0 o.in_order;
        bounded = rw f.0 o.bounded;
        same_max = rw f.0 o.same_max;
      }
  Step-IsOrdered m s s' (pop_returns n x q' e p) o =
      let f = pop-some s.q q' x p in
      record {
        in_order = ground (arith, o.in_order, f.0, append_assoc s.popped (x ∷ []) q'.queue);
        bounded = omega (arith, o.bounded, ap length f.0);
        same_max = f.1 ∙ o.same_max;
      }
  Step-IsOrdered m s s' (push_waits a b x e p) o = record {
    in_order = o.in_order;
    bounded = o.bounded;
    same_max = o.same_max;
  }
  Step-IsOrdered m s s' (push_fails a b x q' e p) o =
      let f = push-false s.q q' x p in
      record {
        in_order = rw f.0 o.in_order;
        bounded = rw f.0 o.bounded;
        same_max = rw f.0 o.same_max;
      }
  Step-IsOrdered m s s' (push_returns a b x q' e p) o =
      let f = push-true s.q q' x p in
      record {
        in_order = ground (arith, o.in_order, f.0, append_assoc s.popped s.q.queue (x ∷ []));
        bounded = omega (arith, f.2, o.same_max, ap length f.0, length-append s.q.queue (x ∷ []));
        same_max = f.1 ∙ o.same_max;
      }
  Step-IsOrdered m s s' (flush_alive h) o =
      let f = flush_lem s.q in
      record {
        in_order = rw f.0 o.in_order;
        bounded = rw f.0 o.bounded;
        same_max = f.1 ∙ o.same_max;
      }
  Step-IsOrdered m s s' (flush_again h) o =
      let f = flush_lem s.q in
      record {
        in_order = rw f.0 o.in_order;
        bounded = rw f.0 o.bounded;
        same_max = f.1 ∙ o.same_max;
      }
  Step-IsOrdered m s s' (notify_empty n k e f) o = record {
    in_order = o.in_order;
    bounded = o.bounded;
    same_max = o.same_max;
  }
  Step-IsOrdered m s s' (notify_no_pop n e f) o = record {
    in_order = o.in_order;
    bounded = o.bounded;
    same_max = o.same_max;
  }
  Step-IsOrdered m s s' (notify_full n a b x e f) o = record {
    in_order = o.in_order;
    bounded = o.bounded;
    same_max = o.same_max;
  }
  Step-IsOrdered m s s' (notify_no_push n e f) o = record {
    in_order = o.in_order;
    bounded = o.bounded;
    same_max = o.same_max;
  }
  Step-IsOrdered m s s' (notify_all n e) o = record {
    in_order = o.in_order;
    bounded = o.bounded;
    same_max = o.same_max;
  }
  Step-IsOrdered m s s' (wake_pop k e) o = record {
    in_order = o.in_order;
    bounded = o.bounded;
    same_max = o.same_max;
  }
  Step-IsOrdered m s s' (wake_push a b x e) o = record {
    in_order = o.in_order;
    bounded = o.bounded;
    same_max = o.same_max;
  }

  -- Whatever the threads do: what was popped is a beginning of what was pushed, the rest is in the
  -- queue, in this order, and the queue has no more items than its size.
  pub reachable-IsOrdered :
      (max_size : ℕ) (s : System T) → Reachable max_size s → IsOrdered max_size s
  reachable-IsOrdered m s start = record { in_order = refl; bounded = omega arith; same_max = refl }
  reachable-IsOrdered m s (step r s1 before move) =
      Step-IsOrdered m r s move (reachable-IsOrdered m r before)

  -- A queue whose size is 0, the default, never takes an item: every push waits until the flush.
  pub reachable-zero_size :
      (s : System T) (item : T)
      → Reachable 0 s
      → (s.pushed ≡ []) × (s.q.alive ≡ true → push item s.q ≡ waits)
  unfolding push
  reachable-zero_size s x r =
      let o = reachable-IsOrdered 0 s r in (pushed-zero_size s r, λ a. ground (arith, o.same_max))
    where
      step-pushed :
          (s s' : System T) → Step s s' → s.q.max_size ≡ 0 → s.pushed ≡ [] → s'.pushed ≡ []
      step-pushed s s' (push_returns a b x q' e p) z h =
          absurd (omega (arith, (push-true s.q q' x p).2))
      step-pushed s s' call_pop z h = h
      step-pushed s s' (call_push x) z h = h
      step-pushed s s' (pop_waits n e p) z h = h
      step-pushed s s' (pop_fails n q' e p) z h = h
      step-pushed s s' (pop_returns n x q' e p) z h = h
      step-pushed s s' (push_waits a b x e p) z h = h
      step-pushed s s' (push_fails a b x q' e p) z h = h
      step-pushed s s' (flush_alive g) z h = h
      step-pushed s s' (flush_again g) z h = h
      step-pushed s s' (notify_empty n k e f) z h = h
      step-pushed s s' (notify_no_pop n e f) z h = h
      step-pushed s s' (notify_full n a b x e f) z h = h
      step-pushed s s' (notify_no_push n e f) z h = h
      step-pushed s s' (notify_all n e) z h = h
      step-pushed s s' (wake_pop k e) z h = h
      step-pushed s s' (wake_push a b x e) z h = h

      pushed-zero_size : (s : System T) → Reachable 0 s → s.pushed ≡ []
      pushed-zero_size s start = refl
      pushed-zero_size s (step r s1 before move) =
          step-pushed r s move (reachable-IsOrdered 0 r before).same_max (pushed-zero_size r before)
