-- ===== src/PostingList/Bound.antt =====
-- The cached upper bound: no weight in the list is greater.
use red_giant.Prelude.{ℕ, ◌≡◌, false, List, [], ◌∷◌, arith, All}
use red_giant.Key.{nat_key}
use red_giant.Weight.{Weight}
use red_giant.Container.{OrderedMap}
use red_giant.Container.Sorted
use red_giant.Algorithms.{max_merge}
use red_giant.PostingList.{BTreePostingList, create_posting_list, load_entry, update, remove}

module _ {ℓ} {W : Type ℓ} ⦃w : Weight W⦄ where
  -- `b` is at least the weight of every entry.
  abbrev pub IsUpperBound : W → List (ℕ × W) → Type 0
  IsUpperBound b l = All (λ e. w.gt e.1 b ≡ false) l

  pub merge_left : (b v u : W) → w.gt u b ≡ false → w.gt u (max_merge b v) ≡ false
  unfolding max_merge
  merge_left b v u h = ground (arith, w.gt_asymm v b, w.le_trans u b v h)

  pub merge_right : (b v : W) → w.gt v (max_merge b v) ≡ false
  unfolding max_merge
  merge_right b v = ground (arith, w.gt_irrefl v)

  All-merge : (b v : W) (l : List (ℕ × W)) → IsUpperBound b l → IsUpperBound (max_merge b v) l
  All-merge b v [] h = tt
  All-merge b v ((k, u) ∷ l) h = (merge_left b v u h.0, All-merge b v l h.1)

  All-assign :
      (b : W) (k : ℕ) (v : W) (l : List (ℕ × W))
      → IsUpperBound b l
      → IsUpperBound (max_merge b v) (Sorted.assign k v l)
  unfolding Sorted.assign
  All-assign b k v [] h = (merge_right b v, tt)
  All-assign b k v ((j, u) ∷ l) h =
      ground
        (arith, merge_right b v, merge_left b v u h.0, All-merge b v l h.1, All-assign b k v l h.1)

  All-emplace :
      (b : W) (k : ℕ) (v : W) (l : List (ℕ × W))
      → IsUpperBound b l
      → IsUpperBound (max_merge b v) (Sorted.emplace k v l)
  unfolding Sorted.emplace
  All-emplace b k v [] h = (merge_right b v, tt)
  All-emplace b k v ((j, u) ∷ l) h =
      ground
        (arith, merge_right b v, merge_left b v u h.0, All-merge b v l h.1, All-emplace b k v l h.1)

  All-erase :
      (b : W) (k : ℕ) (l : List (ℕ × W)) → IsUpperBound b l → IsUpperBound b (Sorted.erase k l)
  unfolding Sorted.erase
  All-erase b k [] h = tt
  All-erase b k ((j, u) ∷ l) h = ground (arith, All-erase b k l h.1)

module _ {ℓ} {W : Type ℓ} ⦃w : Weight W⦄ (m : OrderedMap W) where
  -- The contract of `upper_bound()`: no stored weight is greater.
  abbrev pub IsBounded : BTreePostingList m → Type 0
  IsBounded p = IsUpperBound p.upper_bound (m.items p.posting)

  pub create-IsBounded : IsBounded (create_posting_list m)
  unfolding create_posting_list
  create-IsBounded = rw m.items-empty tt

  pub load_entry-IsBounded :
      (d : ℕ) (v : W) (p : BTreePostingList m) → IsBounded p → IsBounded (load_entry m d v p)
  unfolding load_entry
  load_entry-IsBounded d v p h =
      rw m.items-emplace (All-emplace p.upper_bound d v (m.items p.posting) h)

  update-IsBounded :
      (d : ℕ) (v : W) (p : BTreePostingList m) → IsBounded p → IsBounded (update m d v p).1
  unfolding update
  update-IsBounded d v p h =
      ground
        (arith, m.items-assign d v p.posting, All-assign p.upper_bound d v (m.items p.posting) h)

  remove-IsBounded : (d : ℕ) (p : BTreePostingList m) → IsBounded p → IsBounded (remove m d p).1
  unfolding remove
  remove-IsBounded d p h =
      ground (arith, m.items-erase d p.posting, All-erase p.upper_bound d (m.items p.posting) h)

  -- An update or a removal, accepted or refused, keeps every stored weight at or below the cached
  -- upper bound.
  pub operations-IsBounded :
      (d : ℕ) (v : W) (p : BTreePostingList m)
      → IsBounded p
      → IsBounded (update m d v p).1 × IsBounded (remove m d p).1
  operations-IsBounded d v p h = (update-IsBounded d v p h, remove-IsBounded d p h)
