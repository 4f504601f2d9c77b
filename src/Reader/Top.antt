-- ===== src/Reader/Top.antt =====
-- The loop of `read_topn` keeps the best entries that it has read, and `read_topn` returns the best of
-- what the reader yields.
use red_giant.Prelude.{
  ℕ, zero, suc, ◌+◌, ◌≤◌, ◌<◌, ◌≡◌, ◌⊎◌, refl, ap, ◌∙◌, Bool, true, false, some, List, [], ◌∷◌,
  arith, if◌then◌else◌, ◌==◌, ltb, length, All, All-imp, Bool-cases, inl, inr,
}
use red_giant.Weight.{Weight}
use red_giant.Reader.{PostingListReader}
use red_giant.Reader.Yields.{Yields}
use red_giant.Reader.TopN.{push_heap, sort_heap, keep, front_weight, read_topn_loop, read_topn}
use red_giant.Reader.Best.{
  IsAtMost, IsAscendingHeap, IsDescending, counted, All-push_heap, All-IsAtMost,
  push_heap-IsAscendingHeap, counted-push_heap, length-push_heap, sorted-IsDescending,
  counted-sort_heap, length-sort_heap, All-sort_heap,
}

module _ {W : Type 0} ⦃w : Weight W⦄ where
  -- No entry of `rest` is better than one that is kept, and all is kept up to `count`.
  abbrev pub AreBest : ℕ → List (ℕ × W) → List (ℕ × W) → Type 0
  AreBest count rest kept =
      (length kept ≤ count)
      × (rest ≡ [] ⊎ length kept ≡ count)
      × All (λ r. All (IsAtMost r) kept) rest

  abbrev Kept : ℕ → ℕ × W → List (ℕ × W) → List (ℕ × W) → List (ℕ × W) → Type 0
  Kept count e rest results kept =
      IsAscendingHeap kept
      × (rest' : List (ℕ × W)) × AreBest count rest' kept
      × ((p : ℕ × W → Bool)
          → counted p kept + counted p rest' ≡ counted p (e ∷ results) + counted p rest)

  -- There is room for one more.
  push_heap-Kept :
      (count : ℕ) (e : ℕ × W) (rest results : List (ℕ × W))
      → ltb (length results) count ≡ true
      → IsAscendingHeap results
      → AreBest count rest results
      → Kept count e rest results (push_heap e results)
  push_heap-Kept count e [] results g a b = (
    push_heap-IsAscendingHeap e results a,
    [],
    (rw (length-push_heap e results) (ground arith), inl refl, tt),
    λ p. omega (arith, counted-push_heap p e results),
  )
  push_heap-Kept count e (r ∷ rest) results g a (h, inl n, q) = ground (arith, n)
  push_heap-Kept count e (r ∷ rest) results g a (h, inr n, q) = ground (arith, n)

  -- The new entry takes the place of the least.
  replace-Kept :
      (count : ℕ) (e front : ℕ × W) (rest l : List (ℕ × W))
      → w.gt e.1 front.1 ≡ true
      → suc (length l) ≡ count
      → IsAscendingHeap (front ∷ l)
      → AreBest count rest (front ∷ l)
      → Kept count e rest (front ∷ l) (push_heap e l)
  replace-Kept count e front rest l g n a b = (
    push_heap-IsAscendingHeap e l a.1,
    front ∷ rest,
    (
      rw (length-push_heap e l) (omega arith),
      inr (rw (length-push_heap e l) n),
      (
        All-push_heap (IsAtMost front) e l front_le a.0,
        All-imp (λ r. All (IsAtMost r) (front ∷ l))
            (λ r h. All-push_heap (IsAtMost r) e l (w.le_trans r.1 front.1 e.1 h.0 front_le) h.1)
            rest b.2,
      ),
    ),
    λ p. omega (arith, counted-push_heap p e l),
  )
    where
      front_le : IsAtMost front e
      front_le = w.gt_asymm e.1 front.1 g

  -- The new entry is not among the best.
  skip-Kept :
      (count : ℕ) (e front : ℕ × W) (rest l : List (ℕ × W))
      → IsAtMost e front
      → suc (length l) ≡ count
      → IsAscendingHeap (front ∷ l)
      → AreBest count rest (front ∷ l)
      → Kept count e rest (front ∷ l) (front ∷ l)
  skip-Kept count e front rest l g n a b =
      (a, e ∷ rest, (b.0, inr n, ((g, All-IsAtMost e front l g a.0), b.2)), λ p. omega arith)

  keep-Kept :
      (count : ℕ) (e : ℕ × W) (rest results : List (ℕ × W))
      → 0 < count
      → IsAscendingHeap results
      → AreBest count rest results
      → Kept count e rest results (keep count e results).0
  unfolding keep
  keep-Kept count e rest [] c a b = elim (Bool-cases (ltb 0 count)) [
    | inl g ↦ rw (keep, g) (push_heap-Kept count e rest [] g a b)
    | inr g ↦ ground (arith, c, g)
  ]
  keep-Kept count e rest (front ∷ l) c a b = elim (Bool-cases (ltb (suc (length l)) count)) [
    | inl g ↦ rw (keep, g) (push_heap-Kept count e rest (front ∷ l) g a b)
    | inr g ↦
        let n : suc (length l) ≡ count = ground (arith, g, b.0) in
        elim (Bool-cases (w.gt e.1 front.1)) [
          | inl h ↦ rw (keep, g, h) (replace-Kept count e front rest l h n a b)
          | inr h ↦ rw (keep, g, h) (skip-Kept count e front rest l h n a b)
        ]
  ]

  module _ {S : Type 0} (reader : PostingListReader S W) where
    -- One round of the loop, and the round that ends it.
    pub read_topn_loop-next :
        (fuel count current d : ℕ) (v : W) (s s1 s2 : S) (results : List (ℕ × W))
        → reader.next current s ≡ (d, s1)
        → reader.read s1 ≡ (v, s2)
        → (d == 0) ≡ false
        → read_topn_loop reader (suc fuel) count current s results
          ≡ read_topn_loop reader fuel count d
              (if (keep count (d, v) results).1
                then reader.threshold (front_weight (keep count (d, v) results).0) s2
                else s2)
              (keep count (d, v) results).0
    unfolding read_topn_loop
    read_topn_loop-next fuel count current d v s s1 s2 results n r z = cc

    pub read_topn_loop-end :
        (fuel count current : ℕ) (s e : S) (results : List (ℕ × W))
        → reader.next current s ≡ (0, e)
        → read_topn_loop reader (suc fuel) count current s results ≡ some (results, e)
    unfolding read_topn_loop
    read_topn_loop-end fuel count current s e results n = ground (arith, n)

  module _ {S : Type 0} (reader : PostingListReader S W)
      (ignored : (t : W) (s : S) → reader.threshold t s ≡ s) where
    hinted : (b : Bool) (t : W) (s : S) → (if b then reader.threshold t s else s) ≡ s
    hinted true t s = ignored t s
    hinted false t s = refl

    abbrev Best : ℕ → ℕ → ℕ → S → List (ℕ × W) → List (ℕ × W) → List (ℕ × W) → S → Type 0
    Best fuel count current s results rest l e =
        (best : List (ℕ × W)) × (rest' : List (ℕ × W)) × (read_topn_loop reader fuel count current s
            results
          ≡ some (best, e))
        × IsAscendingHeap best
        × AreBest count rest' best
        × ((p : ℕ × W → Bool)
            → counted p best + counted p rest' ≡ counted p l + counted p results + counted p rest)

    -- What the loop returns are the best of what it kept before and of what the reader yields.
    read_topn_loop-Best :
        (fuel count current : ℕ) (s : S) (results rest l : List (ℕ × W)) (e : S)
        → Yields reader current s l e
        → length l < fuel
        → 0 < count
        → IsAscendingHeap results
        → AreBest count rest results
        → Best fuel count current s results rest l e
    unfolding read_topn_loop
    read_topn_loop-Best zero count current s results rest l e y f c a b = elim f [ ]
    read_topn_loop-Best (suc fuel) count current s results rest [] e y f c a b = (
      results,
      rest,
      read_topn_loop-end reader fuel count current s e results y,
      a,
      b,
      λ p. omega arith,
    )
    read_topn_loop-Best (suc fuel) count current s results rest ((d, v) ∷ l) e (s1, s2, n, r, z, y)
          f c a b =
        let d_ne : (d == 0) ≡ false = ground (arith, z) in
        let (a', rest', b', q) = keep-Kept count (d, v) rest results c a b in
        let (best, rest'', h, a'', b'', q') =
          read_topn_loop-Best fuel count d s2 (keep count (d, v) results).0 rest' l e y
            (omega arith) c a' b' in
        (
          best,
          rest'',
          read_topn_loop-next reader fuel count current d v s s1 s2 results n r d_ne
              ∙ ap (λ x. read_topn_loop reader fuel count d x (keep count (d, v) results).0)
                  (hinted (keep count (d, v) results).1 (front_weight (keep count (d, v) results).0)
                    s2)
              ∙ h,
          a'',
          b'',
          λ p. omega (arith, q p, q' p),
        )

    -- `read_topn`, sorted, with a count that is not 0 and more fuel than the reader has entries, of a
    -- reader that ignores the threshold: it returns the best of what the reader yields, the best
    -- first: no more than `count`, and all of it unless there are `count`; each entry as often as it
    -- is yielded; and no entry that is left out is better than one that is returned.
    pub read_topn-AreBest :
        (fuel count : ℕ) (s : S) (l : List (ℕ × W)) (e : S)
        → Yields reader 0 s l e
        → length l < fuel
        → 0 < count
        → (best : List (ℕ × W)) × (rest : List (ℕ × W)) × (read_topn reader fuel count true s
            ≡ some (best, e))
          × IsDescending best
          × AreBest count rest best
          × ((p : ℕ × W → Bool) → counted p best + counted p rest ≡ counted p l)
    unfolding read_topn
    read_topn-AreBest fuel count s l e y f c =
        let c' : ltb 0 count ≡ true = ground (arith, c) in
        let (kept, rest, h, a, b, q) =
          read_topn_loop-Best fuel count 0 s [] [] l e y f c tt (omega (arith, c), inl refl, tt) in
        let n : length (sort_heap kept []) ≡ length kept =
          omega (arith, length-sort_heap kept []) in
        (
          sort_heap kept [],
          rest,
          rw (read_topn, c', h) refl,
          sorted-IsDescending kept a,
          (
            rw n b.0,
            rw n b.1,
            All-imp (λ r. All (IsAtMost r) kept) (λ r k. All-sort_heap (IsAtMost r) kept [] k tt)
                rest b.2,
          ),
          λ p. omega (arith, q p, counted-sort_heap p kept []),
        )
