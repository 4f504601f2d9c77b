-- ===== src/Queue/Tokens.antt =====
-- How often the threads of a pool are on offer: the ids in the queue, and those that a caller holds.
use red_giant.Prelude.{
  ℕ, ◌+◌, ◌≡◌, true, false, none, some, List, [], ◌∷◌, ◌++◌, arith, if◌then◌else◌, ◌==◌,
}
use red_giant.Queue.{MessageQueue, returns, pop, push, flush}
use red_giant.Queue.Pool.{ThreadPool}

abbrev pub count_id : ℕ → List ℕ → ℕ
count_id i [] = 0
count_id i (j ∷ l) = (if j == i then 1 else 0) + count_id i l

count_id-append :
    (i : ℕ) (l : List ℕ) (j : ℕ)
    → count_id i (l ++ j ∷ []) ≡ count_id i l + (if j == i then 1 else 0)
count_id-append i [] j = omega arith
count_id-append i (k ∷ l) j = omega (arith, count_id-append i l j)

pub tokens-announces :
    (i j : ℕ) (q q' : MessageQueue ℕ)
    → push i q ≡ returns (true, q')
    → count_id j q'.queue ≡ count_id j q.queue + (if i == j then 1 else 0)
unfolding push
tokens-announces i j q q' h = ground (arith, count_id-append j q.queue i)

pub tokens-schedules :
    (i j : ℕ) (q q' : MessageQueue ℕ)
    → pop q ≡ returns (some i, q')
    → count_id j q.queue ≡ (if i == j then 1 else 0) + count_id j q'.queue
unfolding pop
tokens-schedules i j q q' h = ground arith

pub tokens-push_fails : (i : ℕ) (q q' : MessageQueue ℕ) → push i q ≡ returns (false, q') → q' ≡ q
unfolding push
tokens-push_fails i q q' h = ground arith

pub tokens-drops : (q q' : MessageQueue ℕ) → pop q ≡ returns (none, q') → q' ≡ q
unfolding pop
tokens-drops q q' h = ground arith

pub push-alive :
    (i : ℕ) (q q' : MessageQueue ℕ)
    → push i q ≡ returns (true, q')
    → (q.alive ≡ true) × (q'.alive ≡ true)
unfolding push
push-alive i q q' h = ground arith

pub pop-alive : (i : ℕ) (q q' : MessageQueue ℕ) → pop q ≡ returns (some i, q') → q'.alive ≡ q.alive
unfolding pop
pop-alive i q q' h = ground arith

pub flush-same : (q : MessageQueue ℕ) → ((flush q).queue ≡ q.queue) × ((flush q).alive ≡ false)
unfolding flush
flush-same q = ground arith

module _ {Job : Type 0} where
  abbrev pub count_handed : ℕ → List (ℕ × Job) → ℕ
  count_handed i [] = 0
  count_handed i (h ∷ l) = (if h.0 == i then 1 else 0) + count_handed i l

  -- How often a thread can still be handed a job.
  abbrev pub tokens : ℕ → ThreadPool Job → ℕ
  tokens i s = count_id i s.queue.queue + count_handed i s.handed

  pub count_handed-middle :
      (i : ℕ) (a b : List (ℕ × Job)) (h : ℕ × Job)
      → count_handed i (a ++ (h ∷ b)) ≡ count_handed i (a ++ b) + (if h.0 == i then 1 else 0)
  count_handed-middle i [] b h = omega arith
  count_handed-middle i (k ∷ a) b h = omega (arith, count_handed-middle i a b h)
