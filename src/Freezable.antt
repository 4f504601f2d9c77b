-- ===== src/Freezable.antt =====
-- core/impl/freezable_posting_list.h: a posting list that can be closed to changes. `plist` is
-- `instance_`. (`fork` names no type for the object that it makes, so it cannot be instantiated,
-- and nothing calls it.)
pub mod Laws
use red_giant.Prelude.{ℕ, suc, Bool, true, false, Option, none, some, length, if◌then◌else◌}
use red_giant.Weight.{Weight}
use red_giant.Container.{OrderedMap}
use red_giant.PostingList
use red_giant.PostingList.{BTreePostingList, BTreePostingListReader, posting_reader}

pub record FreezablePostingList {ℓ} {W : Type ℓ} (m : OrderedMap W) : Type ℓ where
  pub plist : BTreePostingList m
  pub frozen : Bool

module _ {ℓ} {W : Type ℓ} ⦃w : Weight W⦄ (m : OrderedMap W) where
  -- The constructor with a factory alone.
  pub create : FreezablePostingList m
  create = record { plist = PostingList.create_posting_list m; frozen = false }

  -- The constructor with a factory and a reader. `none` is the fuel of the loop run out, which
  -- does not happen: the loop makes one round for each entry that the iterator has left.
  pub create_from : BTreePostingListReader W → FreezablePostingList m
  create_from r = elim (PostingList.load m (posting_reader m) (suc (length r.iter)) r) [
    | some (p, _) ↦ record { plist = p; frozen = false }
    | none ↦ create
  ]

  unfoldable pub is_empty : FreezablePostingList m → Bool
  is_empty f = PostingList.is_empty m f.plist

  pub update : ℕ → W → FreezablePostingList m → ℕ × FreezablePostingList m
  update doc_id weight f =
      let (ret, p) = PostingList.update m doc_id weight f.plist in
      if f.frozen then (0, f) else (ret, record f { plist = p })

  pub remove : ℕ → FreezablePostingList m → ℕ × FreezablePostingList m
  remove doc_id f =
      let (ret, p) = PostingList.remove m doc_id f.plist in
      if f.frozen then (0, f) else (ret, record f { plist = p })

  -- No reader of a list that may still change.
  pub create_reader : FreezablePostingList m → Option (BTreePostingListReader W)
  create_reader f = if f.frozen then some (PostingList.create_reader m f.plist) else none

  unfoldable pub freeze : FreezablePostingList m → FreezablePostingList m
  freeze f = record f { frozen = true }

  unfoldable pub get_instance : FreezablePostingList m → Option (BTreePostingList m)
  get_instance f = if f.frozen then some f.plist else none
