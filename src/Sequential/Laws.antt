-- ===== src/Sequential/Laws.antt =====
-- A sequential posting list is made from one reader and gives another that yields the same.
use mathlib.Core.List.{append-nil, append_assoc}
use red_giant.Prelude.{
  ℕ, zero, suc, ◌<◌, ◌≡◌, refl, false, some, List, [], ◌∷◌, ◌++◌, arith, length,
}
use red_giant.Weight.{Weight}
use red_giant.Algorithms.{max_init, max_merge}
use red_giant.Container.Sorted.{IsAscending}
use red_giant.Reader.{PostingListReader}
use red_giant.Reader.Yields.{Yields}
use red_giant.PostingList.Bound.{IsUpperBound, merge_left, merge_right}
use red_giant.Sequential.{
  SequentialPostingList, read_merged_loop, read_merged, load_sequential, create_reader,
  advance_entries, sequential_reader,
}

module _ {ℓ} {W : Type ℓ} where
  advance_above : (c : ℕ) (l : List (ℕ × W)) → IsAscending c l → advance_entries c l ≡ l
  unfolding advance_entries
  advance_above c [] s = refl
  advance_above c ((d, w) ∷ l) s = ground arith

  yields_rest :
      (z b : W) (c : ℕ) (posting it l : List (ℕ × W))
      → advance_entries c it ≡ l
      → IsAscending c l
      → Yields
          (sequential_reader z)
          c
          (record { posting = posting; upper_bound = b; iter = it })
          l
          (record { posting = posting; upper_bound = b; iter = [] })
  unfolding sequential_reader
  yields_rest z b c posting it [] e s = rw e
  yields_rest z b c posting it ((d, w) ∷ l) e s = (
    record { posting = posting; upper_bound = b; iter = (d, w) ∷ l },
    record { posting = posting; upper_bound = b; iter = (d, w) ∷ l },
    rw e,
    refl,
    omega (arith, s.0),
    yields_rest z b d posting ((d, w) ∷ l) l
        (unfold advance_entries in ground (arith, advance_above d l)) s.1,
  )

module _ {ℓ} {W : Type ℓ} ⦃w : Weight W⦄ where
  merged : W → List (ℕ × W) → W
  merged b [] = b
  merged b ((d, v) ∷ l) = merged (max_merge b v) l

  merged_above : (b u : W) (l : List (ℕ × W)) → w.gt u b ≡ false → w.gt u (merged b l) ≡ false
  unfolding merged
  merged_above b u [] h = h
  merged_above b u ((d, v) ∷ l) h = merged_above (max_merge b v) u l (merge_left b v u h)

  merged-IsUpperBound : (b : W) (l : List (ℕ × W)) → IsUpperBound (merged b l) l
  unfolding merged
  merged-IsUpperBound b [] = tt
  merged-IsUpperBound b ((d, v) ∷ l) =
      (merged_above (max_merge b v) v l (merge_right b v), merged-IsUpperBound (max_merge b v) l)

  read_merged_loop-Yields :
      {S : Type ℓ} (reader : PostingListReader S W) (fuel c : ℕ) (s : S) (b : W)
      (l results : List (ℕ × W)) (e : S)
      → Yields reader c s l e
      → length l < fuel
      → read_merged_loop reader fuel c s b results ≡ some ((results ++ l, merged b l), e)
  unfolding read_merged_loop merged
  read_merged_loop-Yields reader zero c s b l results e y h = absurd (omega (arith, h))
  read_merged_loop-Yields reader (suc fuel) c s b [] results e y h =
      rw (append-nil results) (ground arith)
  read_merged_loop-Yields reader (suc fuel) c s b ((d, v) ∷ l) results e (s1, s2, n, r, z, y) h =
      ground (
        arith,
        append_assoc results ((d, v) ∷ []) l,
        read_merged_loop-Yields reader fuel d s2 (max_merge b v) l (results ++ (d, v) ∷ []) e y
            (omega (arith, h)),
      )

  -- A sequential posting list made from a reader that yields ascending documents holds just what
  -- the reader yields, no weight exceeds its upper bound, and its own reader yields the same. The
  -- fuel must exceed the number of documents.
  pub load_sequential-Yields :
      {S : Type ℓ} (reader : PostingListReader S W) (fuel : ℕ) (s : S) (l : List (ℕ × W)) (e : S)
      (past_end : W)
      → IsAscending 0 l
      → Yields reader 0 s l e
      → length l < fuel
      → (p : SequentialPostingList W) × (load_sequential reader fuel s ≡ some (p, e))
        × (p.posting ≡ l)
        × IsUpperBound p.upper_bound l
        × Yields
            (sequential_reader past_end)
            0
            (create_reader p)
            l
            (record (create_reader p) { iter = [] })
  unfolding load_sequential read_merged create_reader
  load_sequential-Yields reader fuel s l e past_end a y h = (
    record { posting = l; upper_bound = merged max_init l },
    ground (arith, read_merged_loop-Yields reader fuel 0 s max_init l [] e y h),
    refl,
    merged-IsUpperBound max_init l,
    yields_rest past_end (merged max_init l) 0 l l l (advance_above 0 l a) a,
  )
