-- ===== src/BaseIndex/Posting.antt =====
-- Two views of an index: what readers see, and what they will see once the changes are applied.
use red_giant.Prelude.{ℕ, ◌≡◌, false, Option, none, some}
use red_giant.Key.{nat_key}
use red_giant.Key.Assoc.{lookup, IsUnique}
use red_giant.Weight.{Weight}
use red_giant.Container.{OrderedMap}
use red_giant.PostingList.{BTreePostingList}
use red_giant.PostingList.Lookup.{find}
use red_giant.Freezable.{FreezablePostingList}
use red_giant.BaseIndex.{BaseIndexImpl}

module _ {ℓ} {W : Type ℓ} ⦃w : Weight W⦄ (m : OrderedMap W) where
  unfoldable pub find_in : ℕ → Option (BTreePostingList m) → Option W
  find_in doc_id none = none
  find_in doc_id (some plist) = find m doc_id plist

  -- The weight that a reader taken now shows for a term and a document.
  unfoldable pub visible : BaseIndexImpl m → ℕ → ℕ → Option W
  unfolding find_in
  visible b term_id doc_id = find_in doc_id (lookup term_id b.index)

  pub visible-index :
      (b b' : BaseIndexImpl m) (t d : ℕ) → b'.index ≡ b.index → visible b' t d ≡ visible b t d
  unfolding visible
  visible-index b b' t d e = rw e

  unfoldable pub find_pending :
      ℕ → Option (FreezablePostingList m) → Option (BTreePostingList m) → Option W
  unfolding find_in
  find_pending doc_id (some fplist) _ = find m doc_id fplist.plist
  find_pending doc_id none published = find_in doc_id published

  -- The same with the pending changes.
  unfoldable pub pending : BaseIndexImpl m → ℕ → ℕ → Option W
  unfolding find_pending
  pending b term_id doc_id =
      find_pending doc_id (lookup term_id b.changed_index) (lookup term_id b.index)

  -- A term has at most one pending change, and its list is open.
  pub record IsValid (b : BaseIndexImpl m) : Type ℓ where
    pub unique : IsUnique b.changed_index
    pub open_lists :
        (t : ℕ) (f : FreezablePostingList m) → lookup t b.changed_index ≡ some f → f.frozen ≡ false

  -- The list at hand shows the pending entries of its term.
  pub held-pending :
      (t d : ℕ) (b : BaseIndexImpl m) {f : FreezablePostingList m}
      → lookup t b.changed_index ≡ some f
      → pending b t d ≡ find m d f.plist
  unfolding pending
  held-pending t d b e = rw (e, pending)
