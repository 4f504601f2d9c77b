-- ===== src/Reader/Best.antt =====
-- `read_topn` returns the best entries of what the reader yields, in descending order.
use red_giant.Prelude.{
  ℕ, suc, ◌+◌, ◌≡◌, refl, Bool, false, List, [], ◌∷◌, arith, if◌then◌else◌, length, All, All-imp,
  Bool-cases, inl, inr,
}
use red_giant.Weight.{Weight}
use red_giant.Reader.TopN.{push_heap, sort_heap}

module _ {W : Type 0} ⦃w : Weight W⦄ where
  -- `a` is not better than `b`.
  abbrev pub IsAtMost : ℕ × W → ℕ × W → Type 0
  IsAtMost a b = w.gt a.1 b.1 ≡ false

  abbrev pub IsAscendingHeap : List (ℕ × W) → Type 0
  IsAscendingHeap [] = Unit
  IsAscendingHeap (x ∷ l) = All (IsAtMost x) l × IsAscendingHeap l

  abbrev pub IsDescending : List (ℕ × W) → Type 0
  IsDescending [] = Unit
  IsDescending (x ∷ l) = All (λ y. IsAtMost y x) l × IsDescending l

  -- How many entries pass a test.
  abbrev pub counted : (ℕ × W → Bool) → List (ℕ × W) → ℕ
  counted p [] = 0
  counted p (x ∷ l) = (if p x then 1 else 0) + counted p l

  pub All-push_heap :
      (P : ℕ × W → Type 0) (e : ℕ × W) (l : List (ℕ × W)) → P e → All P l → All P (push_heap e l)
  unfolding push_heap
  All-push_heap P e [] h a = (h, tt)
  All-push_heap P e (x ∷ l) h a = elim (Bool-cases (w.gt x.1 e.1)) [
    | inl g ↦ rw g (h, a)
    | inr g ↦ rw g (a.0, All-push_heap P e l h a.1)
  ]

  pub All-IsAtMost :
      (a b : ℕ × W) (l : List (ℕ × W)) → IsAtMost a b → All (IsAtMost b) l → All (IsAtMost a) l
  All-IsAtMost a b l h = All-imp (IsAtMost b) (λ x g. w.le_trans a.1 b.1 x.1 h g) l

  pub push_heap-IsAscendingHeap :
      (e : ℕ × W) (l : List (ℕ × W)) → IsAscendingHeap l → IsAscendingHeap (push_heap e l)
  unfolding push_heap
  push_heap-IsAscendingHeap e [] a = (tt, tt)
  push_heap-IsAscendingHeap e (x ∷ l) a = elim (Bool-cases (w.gt x.1 e.1)) [
    | inl g ↦ let h = w.gt_asymm x.1 e.1 g in rw g ((h, All-IsAtMost e x l h a.0), a)
    | inr g ↦ rw g (All-push_heap (IsAtMost x) e l g a.0, push_heap-IsAscendingHeap e l a.1)
  ]

  pub counted-push_heap :
      (p : ℕ × W → Bool) (e : ℕ × W) (l : List (ℕ × W))
      → counted p (push_heap e l) ≡ counted p (e ∷ l)
  unfolding push_heap
  counted-push_heap p e [] = refl
  counted-push_heap p e (x ∷ l) = elim (Bool-cases (w.gt x.1 e.1)) [
    | inl g ↦ rw g refl
    | inr g ↦ rw g (omega (arith, counted-push_heap p e l))
  ]

  pub length-push_heap : (e : ℕ × W) (l : List (ℕ × W)) → length (push_heap e l) ≡ suc (length l)
  unfolding push_heap
  length-push_heap e [] = refl
  length-push_heap e (x ∷ l) = elim (Bool-cases (w.gt x.1 e.1)) [
    | inl g ↦ rw g refl
    | inr g ↦ rw g (omega (arith, length-push_heap e l))
  ]

  sort_heap-IsDescending :
      (l sorted : List (ℕ × W))
      → IsAscendingHeap l
      → IsDescending sorted
      → All (λ x. All (λ y. IsAtMost y x) sorted) l
      → IsDescending (sort_heap l sorted)
  unfolding sort_heap
  sort_heap-IsDescending [] sorted a d h = d
  sort_heap-IsDescending (x ∷ l) sorted a d h =
      sort_heap-IsDescending l (x ∷ sorted) a.1 (h.0, d) (both l a.0 h.1)
    where
      both :
          (l : List (ℕ × W))
          → All (IsAtMost x) l
          → All (λ z. All (λ y. IsAtMost y z) sorted) l
          → All (λ z. IsAtMost x z × All (λ y. IsAtMost y z) sorted) l
      both [] p q = tt
      both (z ∷ l) p q = ((p.0, q.0), both l p.1 q.1)

  pub sorted-IsDescending : (l : List (ℕ × W)) → IsAscendingHeap l → IsDescending (sort_heap l [])
  sorted-IsDescending l a = sort_heap-IsDescending l [] a tt (none l)
    where
      none : (l : List (ℕ × W)) → All (λ x. All (λ y. IsAtMost y x) []) l
      none [] = tt
      none (x ∷ l) = (tt, none l)

  pub counted-sort_heap :
      (p : ℕ × W → Bool) (l sorted : List (ℕ × W))
      → counted p (sort_heap l sorted) ≡ counted p l + counted p sorted
  unfolding sort_heap
  counted-sort_heap p [] sorted = omega arith
  counted-sort_heap p (x ∷ l) sorted = omega (arith, counted-sort_heap p l (x ∷ sorted))

  pub length-sort_heap :
      (l sorted : List (ℕ × W)) → length (sort_heap l sorted) ≡ length l + length sorted
  unfolding sort_heap
  length-sort_heap [] sorted = omega arith
  length-sort_heap (x ∷ l) sorted = omega (arith, length-sort_heap l (x ∷ sorted))

  pub All-sort_heap :
      (P : ℕ × W → Type 0) (l sorted : List (ℕ × W))
      → All P l
      → All P sorted
      → All P (sort_heap l sorted)
  unfolding sort_heap
  All-sort_heap P [] sorted a b = b
  All-sort_heap P (x ∷ l) sorted a b = All-sort_heap P l (x ∷ sorted) a.1 (a.0, b)
