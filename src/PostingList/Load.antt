-- ===== src/PostingList/Load.antt =====
-- A posting list made from a reader holds what the reader yields.
use red_giant.Prelude.{
  ℕ, zero, suc, ◌<◌, ◌≡◌, ◌≢◌, refl, ap, ◌∙◌, some, List, [], ◌∷◌, arith, length,
}
use red_giant.Key.{nat_key}
use red_giant.Key.Assoc.{lookup}
use red_giant.Weight.{Weight}
use red_giant.Container.{OrderedMap}
use red_giant.Container.Sorted.{IsAscending, emplace_all, emplace_all-append}
use red_giant.Reader.{PostingListReader}
use red_giant.Reader.Yields.{Yields}
use red_giant.PostingList.{
  BTreePostingList, create_posting_list, load_entry, load_loop, load, BTreePostingListReader,
  create_reader, posting_reader,
}
use red_giant.PostingList.Walk.{create_reader-Yields}
use red_giant.PostingList.Lookup.{find}
use red_giant.PostingList.Bound.{IsBounded, create-IsBounded, load_entry-IsBounded}

module _ {ℓ} {W : Type ℓ} ⦃w : Weight W⦄ (m : OrderedMap W) where
  load_all : BTreePostingList m → List (ℕ × W) → BTreePostingList m
  load_all p [] = p
  load_all p ((d, v) ∷ l) = load_all (load_entry m d v p) l

  items-load_all :
      (p : BTreePostingList m) (l : List (ℕ × W))
      → m.items (load_all p l).posting ≡ emplace_all (m.items p.posting) l
  unfolding load_all emplace_all load_entry
  items-load_all p [] = refl
  items-load_all p ((d, v) ∷ l) =
      items-load_all (load_entry m d v p) l
      ∙ ap (λ a. emplace_all a l) (m.items-emplace d v p.posting)

  load_all-IsBounded :
      (p : BTreePostingList m) (l : List (ℕ × W)) → IsBounded m p → IsBounded m (load_all p l)
  unfolding load_all
  load_all-IsBounded p [] h = h
  load_all-IsBounded p ((d, v) ∷ l) h =
      load_all-IsBounded (load_entry m d v p) l (load_entry-IsBounded m d v p h)

  load_loop-Yields :
      {S : Type ℓ} (reader : PostingListReader S W) (fuel c : ℕ) (s : S) (l : List (ℕ × W)) (e : S)
      (p : BTreePostingList m)
      → Yields reader c s l e
      → length l < fuel
      → load_loop m reader fuel c s p ≡ some (load_all p l, e)
  unfolding load_loop load_all
  load_loop-Yields reader zero c s l e p y h = elim h [ ]
  load_loop-Yields reader (suc fuel) c s [] e p y h = ground arith
  load_loop-Yields reader (suc fuel) c s ((d, v) ∷ l) e p (s1, s2, n, r, z, y) h =
      ground (arith, load_loop-Yields reader fuel d s2 l e (load_entry m d v p) y (omega arith))

  -- A posting list made from a reader that yields ascending documents holds exactly what the reader
  -- yields, its upper bound is right, and the reader is left at its end. The fuel must exceed the
  -- number of documents.
  pub load-Yields :
      {S : Type ℓ} (reader : PostingListReader S W) (fuel : ℕ) (s : S) (l : List (ℕ × W)) (e : S)
      → IsAscending 0 l
      → Yields reader 0 s l e
      → length l < fuel
      → (p : BTreePostingList m) × (load m reader fuel s ≡ some (p, e))
        × (m.items p.posting ≡ l)
        × IsBounded m p
  unfolding load
  load-Yields reader fuel s l e a y h =
      let start = create_posting_list m in
      (
        load_all start l,
        load_loop-Yields reader fuel 0 s l e start y h,
        items-load_all start l ∙ items_from_start,
        load_all-IsBounded start l (create-IsBounded m),
      )
    where
      items_from_start : emplace_all (m.items (create_posting_list m).posting) l ≡ l
      items_from_start =
          unfold create_posting_list in rw m.items-empty (emplace_all-append 0 [] l a)

  -- A list loaded from the reader of another holds, for every valid document, what that one holds.
  pub load-create_reader :
      (p : BTreePostingList m)
      → (q : BTreePostingList m) × (e : BTreePostingListReader W) × (load m
            (posting_reader m)
            (suc (length (create_reader m p).iter))
            (create_reader m p)
          ≡ some (q, e))
        × ((d : ℕ) → d ≢ 0 → find m d q ≡ find m d p)
        × IsBounded m q
  unfolding find
  load-create_reader p =
      let r = create_reader m p in
      let y = create_reader-Yields m p in
      let e : BTreePostingListReader W = record r { iter = [] } in
      let q =
        load-Yields (posting_reader m) (suc (length r.iter)) r y.0 e y.1 y.4 (omega (arith, y.3)) in
      (q.0, e, q.1, (λ d h. ap (lookup d) q.2 ∙ y.2 d h), q.3)
