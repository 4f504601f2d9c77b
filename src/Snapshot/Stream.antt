-- ===== src/Snapshot/Stream.antt =====
-- A posting list that is dumped and loaded again.
use red_giant.Prelude.{
  ℕ, zero, suc, ◌<◌, ◌≡◌, ◌≢◌, refl, ap, ◌∙◌, some, List, [], ◌∷◌, ◌++◌, arith, length,
  length-append,
}
use red_giant.Key.{nat_key}
use red_giant.Key.Assoc.{lookup}
use red_giant.Weight.{Weight}
use red_giant.Container.{OrderedMap}
use red_giant.Container.Sorted.{IsAscending}
use red_giant.Reader.{PostingListReader}
use red_giant.Reader.Yields.{Yields}
use red_giant.PostingList
use red_giant.PostingList.{BTreePostingList, posting_reader}
use red_giant.PostingList.Bound.{IsBounded}
use red_giant.PostingList.Walk.{create_reader-Yields}
use red_giant.PostingList.Load.{load-Yields}
use red_giant.PostingList.Lookup.{find}
use red_giant.Snapshot.{Cell, loader_of, next_cell, snapshot_reader, dump_loop, read_dump}

module _ {ℓ} {W : Type ℓ} where
  -- The cells of a posting list with the given entries.
  abbrev pub entry_cells : List (ℕ × W) → List (Cell W)
  entry_cells [] = Cell.number 0 ∷ []
  entry_cells ((d, w) ∷ l) = Cell.number d ∷ Cell.weight w ∷ entry_cells l

  pub read_dump-Yields :
      {S : Type ℓ} (reader : PostingListReader S W) (fuel current : ℕ) (s : S) (l : List (ℕ × W))
      (e : S)
      → Yields reader current s l e
      → length l < fuel
      → dump_loop reader fuel current s ≡ some (entry_cells l)
  unfolding dump_loop
  read_dump-Yields reader zero current s l e y h = absurd (omega (arith, h))
  read_dump-Yields reader (suc fuel) current s [] e y h = ground arith
  read_dump-Yields reader (suc fuel) current s ((d, w) ∷ l) e (s1, s2, n, r, v, y) h =
      ground (arith, read_dump-Yields reader fuel d s2 l e y (omega (arith, h)))

  pub length-entry_cells : (l : List (ℕ × W)) → length l < length (entry_cells l)
  length-entry_cells [] = omega arith
  length-entry_cells ((d, w) ∷ l) = omega (arith, length-entry_cells l)

module _ {ℓ} {W : Type ℓ} ⦃w : Weight W⦄ where
  pub snapshot-Yields :
      (c : ℕ) (l : List (ℕ × W)) (rest : List (Cell W))
      → IsAscending c l
      → Yields snapshot_reader c (loader_of (entry_cells l ++ rest)) l (loader_of rest)
  unfolding snapshot_reader next_cell
  snapshot-Yields c [] [] s = refl
  snapshot-Yields c [] (Cell.number n ∷ rest) s = refl
  snapshot-Yields c [] (Cell.weight v ∷ rest) s = refl
  snapshot-Yields c ((d, v) ∷ l) rest s = (
    loader_of (Cell.weight v ∷ entry_cells l ++ rest),
    loader_of (entry_cells l ++ rest),
    ground arith,
    refl,
    omega arith,
    snapshot-Yields d l rest s.1,
  )

module _ {ℓ} {W : Type ℓ} ⦃w : Weight W⦄ (m : OrderedMap W) where
  pub reloaded :
      (p : BTreePostingList m) (rest : List (Cell W))
      → let r = PostingList.create_reader m p in
        (cells : List (Cell W)) × (q : BTreePostingList m) × (read_dump
            (posting_reader m)
            (suc (length r.iter))
            r
          ≡ some cells)
        × (PostingList.load m snapshot_reader
              (suc (length (cells ++ rest)))
              (loader_of (cells ++ rest))
            ≡ some (q, loader_of rest))
        × ((d : ℕ) → d ≢ 0 → find m d q ≡ find m d p)
        × IsBounded m q
  unfolding read_dump find
  reloaded p rest =
      let r = PostingList.create_reader m p in
      let y = create_reader-Yields m p in
      let l = y.0 in
      let q =
        load-Yields m snapshot_reader (suc (length (entry_cells l ++ rest)))
          (loader_of (entry_cells l ++ rest)) l (loader_of rest) y.1 (snapshot-Yields 0 l rest y.1)
          (omega (arith, length-entry_cells l, length-append (entry_cells l) rest)) in
      (
        entry_cells l,
        q.0,
        read_dump-Yields (posting_reader m) (suc (length r.iter)) 0 r l _ y.4 (omega (arith, y.3)),
        q.1,
        (λ d h. ap (lookup d) q.2 ∙ y.2 d h),
        q.3,
      )

  -- A posting list that is dumped and loaded again, whatever follows it in the file, holds for
  -- every valid document what it held, its upper bound is right, and the loader stands at what
  -- follows.
  pub load-read_dump :
      (p : BTreePostingList m) (d : ℕ) (rest : List (Cell W))
      → d ≢ 0
      → let r = PostingList.create_reader m p in
        (cells : List (Cell W)) × (q : BTreePostingList m) × (read_dump
            (posting_reader m)
            (suc (length r.iter))
            r
          ≡ some cells)
        × (PostingList.load m snapshot_reader
              (suc (length (cells ++ rest)))
              (loader_of (cells ++ rest))
            ≡ some (q, loader_of rest))
        × (find m d q ≡ find m d p)
        × IsBounded m q
  load-read_dump p d rest h = let q = reloaded p rest in (q.0, q.1, q.2, q.3, q.4 d h, q.5)
