-- ===== src/PostingList/Lookup.antt =====
-- What a posting list holds for a document after each operation, and what the operation returns.
use red_giant.Prelude.{ℕ, ◌≡◌, ◌≢◌, true, Option, none, some, arith, if◌then◌else◌, ◌==◌}
use red_giant.Key.{nat_key}
use red_giant.Key.Assoc.{lookup}
use red_giant.Weight.{Weight}
use red_giant.Container.{OrderedMap}
use red_giant.Container.Sorted.{lookup-assign, lookup-erase}
use red_giant.PostingList.{BTreePostingList, create_posting_list, update, remove, is_empty}

module _ {ℓ} {W : Type ℓ} ⦃w : Weight W⦄ (m : OrderedMap W) where
  -- The weight that the list holds for a document.
  unfoldable pub find : ℕ → BTreePostingList m → Option W
  find doc_id p = lookup doc_id (m.items p.posting)

  pub find-create : (d : ℕ) → find d (create_posting_list m) ≡ none
  unfolding find create_posting_list
  find-create d = rw m.items-empty

  pub find-update :
      (d e : ℕ) (weight : W) (p : BTreePostingList m)
      → e ≢ 0
      → find e (update m d weight p).1 ≡ (if d == e then some weight else find e p)
  unfolding find update
  find-update d e weight p h = ground (
    arith,
    m.items-assign d weight p.posting,
    lookup-assign d e weight (m.items p.posting) (m.items_sorted p.posting),
  )

  -- The invalid id is refused.
  pub update-result :
      (d : ℕ) (weight : W) (p : BTreePostingList m)
      → (update m d weight p).0 ≡ (if d == 0 then 0 else 1)
  unfolding update
  update-result d weight p = ground arith

  pub find-remove :
      (d e : ℕ) (p : BTreePostingList m)
      → find e (remove m d p).1 ≡ (if d == e then none else find e p)
  unfolding find remove
  find-remove d e p = ground (
    arith,
    m.items-erase d p.posting,
    lookup-erase d e (m.items p.posting) (m.items_sorted p.posting),
  )

  pub remove-result :
      (d : ℕ) (p : BTreePostingList m)
      → (remove m d p).0 ≡ elim (find d p) [ none ↦ 0 | some _ ↦ 1 ]
  unfolding find remove
  remove-result d p = ground arith

  pub find-is_empty : (d : ℕ) (p : BTreePostingList m) → is_empty m p ≡ true → find d p ≡ none
  unfolding find is_empty
  find-is_empty d p h = ground arith
