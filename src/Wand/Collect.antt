-- ===== src/Wand/Collect.antt =====
-- What the heap of `read_topn` holds while documents come in ascending order from a reader that
-- skips those that score no more than its threshold.
use mathlib.Core.Path.{subst}
use red_giant.Prelude.{
  ℕ, suc, ◌≤◌, ◌<◌, ◌≡◌, ◌⊎◌, refl, sym, ap, Bool, true, false, List, [], ◌∷◌, arith, ltb, leb,
  ◌==◌, if◌then◌else◌, length, All, All-imp, Bool-cases, inl, inr,
}
use red_giant.Weight.{nat_weight}
use red_giant.Reader.TopN.{push_heap, keep, front_weight}
use red_giant.Wand.Fuel.{==→≡}
use red_giant.Reader.Best.{
  IsAtMost, IsAscendingHeap, counted, All-push_heap, push_heap-IsAscendingHeap, counted-push_heap,
  length-push_heap,
}

abbrev pub is_entry_of : ℕ → ℕ × ℕ → Bool
is_entry_of x e = e.0 == x

-- A full heap of entries that are no worse than `v`.
abbrev pub IsBeaten : ℕ → List (ℕ × ℕ) → ℕ → Type 0
IsBeaten count kept v = (length kept ≡ count) × All (λ e. v ≤ e.1) kept

-- A threshold hides nothing but what is at most `t0` or beaten.
abbrev pub IsLimit : ℕ → ℕ → List (ℕ × ℕ) → ℕ → Type 0
IsLimit t0 count kept t = (t ≤ t0) ⊎ IsBeaten count kept t

-- The scores are `f`, and the documents up to `current` have been read or skipped.
pub record Collected (f : ℕ → ℕ) (t0 count current : ℕ) (kept : List (ℕ × ℕ)) : Type 0 where
  pub heap : IsAscendingHeap kept
  pub room : length kept ≤ count
  pub scored : All (λ e. (e.1 ≡ f e.0) × (e.0 ≤ current)) kept
  pub once : (x : ℕ) → counted (is_entry_of x) kept ≤ 1
  pub complete :
      (x : ℕ)
      → 0 < x
      → x ≤ current
      → (counted (is_entry_of x) kept ≡ 1) ⊎ (f x ≤ t0) ⊎ IsBeaten count kept (f x)

counted-above :
    (f : ℕ → ℕ) (current x : ℕ) (kept : List (ℕ × ℕ))
    → All (λ e. (e.1 ≡ f e.0) × (e.0 ≤ current)) kept
    → current < x
    → counted (is_entry_of x) kept ≡ 0
counted-above f current x [] a h = refl
counted-above f current x (e ∷ l) a h = ground (arith, counted-above f current x l a.1 h)

heap-le :
    (v : ℕ) (front : ℕ × ℕ) (l : List (ℕ × ℕ))
    → v ≤ front.1
    → IsAscendingHeap (front ∷ l)
    → All (λ e. v ≤ e.1) (front ∷ l)
heap-le v front l h a = (h, All-imp (IsAtMost front) (λ e g. ground arith) l a.0)

front_weight-le :
    (kept : List (ℕ × ℕ)) → IsAscendingHeap kept → All (λ e. front_weight kept ≤ e.1) kept
unfolding front_weight
front_weight-le [] a = tt
front_weight-le (e ∷ l) a = heap-le e.1 e l (omega arith) a

-- The documents up to `d`: those up to `current`, those between, and `d`.
up_to :
    {P : ℕ → Type 0} (current d : ℕ)
    → current < d
    → ((x : ℕ) → 0 < x → x ≤ current → P x)
    → ((x : ℕ) → current < x → x < d → P x)
    → P d
    → (x : ℕ) → 0 < x
    → x ≤ d
    → P x
up_to {P} current d h a b c x p q = elim (Bool-cases (leb x current)) [
  | inl e ↦ a x p (ground arith)
  | inr e ↦ elim (Bool-cases (x == d)) [
    | inl k ↦ subst P (sym (==→≡ x d k)) c
    | inr k ↦ b x (ground arith) (ground arith)
  ]
]

-- The score of what the threshold hid.
hidden :
    (f : ℕ → ℕ) (t0 count t x : ℕ) (kept : List (ℕ × ℕ))
    → IsLimit t0 count kept t
    → f x ≤ t
    → (f x ≤ t0) ⊎ IsBeaten count kept (f x)
hidden f t0 count t x kept (inl m) h = inl (omega arith)
hidden f t0 count t x kept (inr m) h =
    inr (m.0, All-imp (λ e. t ≤ e.1) (λ e g. omega arith) kept m.1)

-- Nothing comes any more.
pub Collected-end :
    (f : ℕ → ℕ) (t0 count current b t : ℕ) (kept : List (ℕ × ℕ))
    → current ≤ b
    → Collected f t0 count current kept
    → IsLimit t0 count kept t
    → ((x : ℕ) → current < x → f x ≤ t)
    → Collected f t0 count b kept
Collected-end f t0 count current b t kept h c m low = record {
  heap = c.heap;
  room = c.room;
  scored = All-imp (λ e. (e.1 ≡ f e.0) × (e.0 ≤ current)) (λ e g. (g.0, omega arith)) kept c.scored;
  once = c.once;
  complete = λ x p q. elim (Bool-cases (leb x current)) [
    | inl e ↦ c.complete x p (ground arith)
    | inr e ↦ inr (hidden f t0 count t x kept m (low x (ground arith)))
  ];
}

-- What becomes of the heap with the document `d`, behind `current`.
module _ (f : ℕ → ℕ) (t0 count current d t : ℕ) (later : current < d) where
  abbrev Goes : List (ℕ × ℕ) × Bool → Type 0
  Goes r = Collected f t0 count d r.0 × IsLimit t0 count r.0 (if r.1 then front_weight r.0 else t)

  scored_on :
      (kept : List (ℕ × ℕ))
      → All (λ e. (e.1 ≡ f e.0) × (e.0 ≤ current)) kept
      → All (λ e. (e.1 ≡ f e.0) × (e.0 ≤ d)) kept
  scored_on kept = All-imp (λ e. (e.1 ≡ f e.0) × (e.0 ≤ current)) (λ e g. (g.0, omega arith)) kept

  -- The new entry is counted once, and the others as before.
  counted_new :
      (x : ℕ) (kept : List (ℕ × ℕ))
      → All (λ e. (e.1 ≡ f e.0) × (e.0 ≤ current)) kept
      → counted (is_entry_of x) (push_heap (d, f d) kept)
        ≡ (if d == x then 1 else counted (is_entry_of x) kept)
  counted_new x kept a = elim (Bool-cases (d == x)) [
    | inl e ↦ ground (
      arith,
      counted-push_heap (is_entry_of x) (d, f d) kept,
      counted-above f current x kept a (ground arith),
    )
    | inr e ↦ ground (arith, counted-push_heap (is_entry_of x) (d, f d) kept)
  ]

  module _ (low : (x : ℕ) → current < x → x < d → f x ≤ t) where
    push-Collected :
        (kept : List (ℕ × ℕ))
        → Collected f t0 count current kept
        → IsLimit t0 count kept t
        → length kept < count
        → Goes (push_heap (d, f d) kept, false)
    push-Collected kept c m h =
        let room : length (push_heap (d, f d) kept) ≤ count =
          omega (arith, length-push_heap (d, f d) kept) in
        let limit : t ≤ t0 = elim m [ inl k ↦ k | inr k ↦ absurd (omega (arith, k.0)) ] in
        (
          record {
            heap = push_heap-IsAscendingHeap (d, f d) kept c.heap;
            room = room;
            scored = All-push_heap _ (d, f d) kept (refl, omega arith) (scored_on kept c.scored);
            once = λ x. ground (arith, counted_new x kept c.scored, c.once x);
            complete =
                up_to current d later
                  (λ x p q. elim (c.complete x p q) [
                    | inl g ↦ inl (ground (arith, counted_new x kept c.scored))
                    | inr (inl g) ↦ inr (inl g)
                    | inr (inr g) ↦ absurd (omega (arith, g.0))
                  ])
                  (λ x p q. inr (inl (omega (arith, low x p q))))
                  (inl (ground (arith, counted_new d kept c.scored)));
          },
          inl limit,
        )

    replace-Collected :
        (front : ℕ × ℕ) (l : List (ℕ × ℕ))
        → Collected f t0 count current (front ∷ l)
        → IsLimit t0 count (front ∷ l) t
        → suc (length l) ≡ count
        → front.1 < f d
        → Goes (push_heap (d, f d) l, true)
    replace-Collected front l c m n h =
        let full : length (push_heap (d, f d) l) ≡ count =
          omega (arith, length-push_heap (d, f d) l) in
        let heap = push_heap-IsAscendingHeap (d, f d) l c.heap.1 in
        let beaten : (v : ℕ) → v ≤ front.1 → IsBeaten count (push_heap (d, f d) l) v =
          λ v k. (full, All-push_heap _ (d, f d) l (omega arith) (heap-le v front l k c.heap).1) in
        (
          record {
            heap = heap;
            room = omega (arith, full);
            scored = All-push_heap _ (d, f d) l (refl, omega arith) (scored_on l c.scored.1);
            once = λ x. ground (arith, counted_new x l c.scored.1, c.once x);
            complete =
                up_to current d later
                  (λ x p q. elim (c.complete x p q) [
                    | inl g ↦ elim (Bool-cases (front.0 == x)) [
                      | inl e ↦ inr (
                          inr (beaten (f x) (omega (arith, c.scored.0.0, ap f (==→≡ front.0 x e)))))
                      | inr e ↦ inl (ground (arith, counted_new x l c.scored.1))
                    ]
                    | inr (inl g) ↦ inr (inl g)
                    | inr (inr g) ↦ inr (inr (beaten (f x) g.1.0))
                  ])
                  (λ x p q. elim (hidden f t0 count t x (front ∷ l) m (low x p q)) [
                    | inl g ↦ inr (inl g)
                    | inr g ↦ inr (inr (beaten (f x) g.1.0))
                  ])
                  (inl (ground (arith, counted_new d l c.scored.1)));
          },
          inr (full, front_weight-le (push_heap (d, f d) l) heap),
        )

    skip-Collected :
        (front : ℕ × ℕ) (l : List (ℕ × ℕ))
        → Collected f t0 count current (front ∷ l)
        → IsLimit t0 count (front ∷ l) t
        → suc (length l) ≡ count
        → f d ≤ front.1
        → Goes (front ∷ l, false)
    skip-Collected front l c m n h = (
      record {
        heap = c.heap;
        room = c.room;
        scored = scored_on (front ∷ l) c.scored;
        once = c.once;
        complete =
            up_to current d later c.complete
              (λ x p q. inr (hidden f t0 count t x (front ∷ l) m (low x p q)))
              (inr (inr (n, heap-le (f d) front l h c.heap)));
      },
      m,
    )

    pub keep-Collected :
        (kept : List (ℕ × ℕ))
        → 0 < count
        → Collected f t0 count current kept
        → IsLimit t0 count kept t
        → Goes (keep count (d, f d) kept)
    unfolding keep
    keep-Collected [] p c m = elim (Bool-cases (ltb 0 count)) [
      | inl g ↦ rw (keep, g) (push-Collected [] c m p)
      | inr g ↦ absurd (ground arith)
    ]
    keep-Collected (front ∷ l) p c m = elim (Bool-cases (ltb (suc (length l)) count)) [
      | inl g ↦ rw (keep, g) (push-Collected (front ∷ l) c m (ground arith))
      | inr g ↦
          let n : suc (length l) ≡ count = ground (arith, g, c.room) in
          elim (Bool-cases (ltb front.1 (f d))) [
            | inl h ↦ rw (keep, g, h) (replace-Collected front l c m n (ground arith))
            | inr h ↦ rw (keep, g, h) (skip-Collected front l c m n (ground arith))
          ]
    ]
