-- ===== src/BaseIndex.antt =====
-- core/impl/base_index_impl.h and base_index_impl-inl.h: the map from terms to posting lists, and
-- the pending changes that `apply_internal` publishes. The two mutexes leave no trace: each method
-- is one step. `unordered_map` is an association list; its buckets are not modelled.
pub mod Posting
pub mod Opening
pub mod Changes
pub mod Removal
pub mod Apply
pub mod Query
use red_giant.Prelude.{
  ℕ, zero, suc, ◌+◌, Bool, true, false, Option, none, some, List, [], ◌∷◌, if◌then◌else◌, length,
}
use red_giant.Key.{nat_key}
use red_giant.Key.Assoc.{lookup, assign, erase}
use red_giant.Weight.{Weight}
use red_giant.Container.{OrderedMap}
use red_giant.PostingList
use red_giant.PostingList.{BTreePostingList, BTreePostingListReader}
use red_giant.Freezable
use red_giant.Freezable.{FreezablePostingList}

pub record BaseIndexImpl {ℓ} {W : Type ℓ} (m : OrderedMap W) : Type ℓ where
  pub index : List (ℕ × BTreePostingList m)
  pub changed_index : List (ℕ × FreezablePostingList m)

module _ {ℓ} {W : Type ℓ} ⦃w : Weight W⦄ (m : OrderedMap W) where
  abbrev pub empty_index : BaseIndexImpl m
  empty_index = record { index = []; changed_index = [] }

  pub get_term_count : BaseIndexImpl m → ℕ
  get_term_count b = length b.index

  unfoldable pub peek : ℕ → BaseIndexImpl m → Option (BTreePostingListReader W)
  peek term_id b = elim (lookup term_id b.index) [
    | some plist ↦ some (PostingList.create_reader m plist)
    | none ↦ none
  ]

  -- A query turns the reader of a posting list into a reader of scores, `R`.
  unfoldable pub query :
      {R : Type ℓ} → ℕ → (BTreePostingListReader W → R) → BaseIndexImpl m → Option R
  query term_id q b = elim (lookup term_id b.index) [
    | some plist ↦ some (q (PostingList.create_reader m plist))
    | none ↦ none
  ]

  -- The first loop of `batch_query`: the queries whose terms are found, with their posting lists.
  unfoldable pub find_terms :
      {R : Type ℓ}
      → List (ℕ × (BTreePostingListReader W → R))
      → BaseIndexImpl m
      → List (ℕ × (BTreePostingListReader W → R) × BTreePostingList m)
  find_terms [] b = []
  find_terms ((term_id, q) ∷ queries) b =
      let rest = find_terms queries b in
      elim (lookup term_id b.index) [ some plist ↦ (term_id, q, plist) ∷ rest | none ↦ rest ]

  -- Its second loop: a reader for each. (`create_reader` of a posting list is never null.)
  unfoldable pub create_queries :
      {R : Type ℓ} → List (ℕ × (BTreePostingListReader W → R) × BTreePostingList m) → List (ℕ × R)
  create_queries [] = []
  create_queries ((term_id, q, plist) ∷ terms) =
      (term_id, q (PostingList.create_reader m plist)) ∷ create_queries terms

  unfoldable pub batch_query :
      {R : Type ℓ} → List (ℕ × (BTreePostingListReader W → R)) → BaseIndexImpl m → List (ℕ × R)
  batch_query queries b = create_queries (find_terms queries b)

  pub query_internal : ℕ → BaseIndexImpl m → Option (BTreePostingList m)
  query_internal term_id b = lookup term_id b.index

  -- The pointer that is returned is the one that `changed_index` holds for the term.
  pub change_internal :
      ℕ → Bool → BaseIndexImpl m → Option (FreezablePostingList m) × BaseIndexImpl m
  unfolding query_internal
  change_internal term_id create b = elim (lookup term_id b.changed_index) [
    | some fplist ↦ (some fplist, b)
    | none ↦ elim (query_internal term_id b) [
      | some plist ↦
          let fplist = Freezable.create_from m (PostingList.create_reader m plist) in
          (some fplist, record b { changed_index = assign term_id fplist b.changed_index })
      | none ↦
          let fplist = Freezable.create m in
          if create
          then (some fplist, record b { changed_index = assign term_id fplist b.changed_index })
          else (none, b)
    ]
  ]

  -- A change of the object behind the pointer that `change_internal` returned.
  pub write_back : ℕ → ℕ × FreezablePostingList m → BaseIndexImpl m → ℕ × BaseIndexImpl m
  write_back term_id (ret, fplist) b =
      (ret, record b { changed_index = assign term_id fplist b.changed_index })

  pub create_update_internal : ℕ → ℕ → W → BaseIndexImpl m → ℕ × BaseIndexImpl m
  unfolding write_back change_internal
  create_update_internal doc_id term_id weights b =
      let (found, b') = change_internal term_id true b in
      elim found [
        | some fplist ↦ write_back term_id (Freezable.update m doc_id weights fplist) b'
        | none ↦ (0, b')
      ]

  pub remove_internal : ℕ → ℕ → BaseIndexImpl m → ℕ × BaseIndexImpl m
  unfolding write_back change_internal
  remove_internal doc_id term_id b =
      let (found, b') = change_internal term_id false b in
      elim found [
        | some fplist ↦ write_back term_id (Freezable.remove m doc_id fplist) b'
        | none ↦ (0, b')
      ]

  -- The overload of `remove_internal` for a vector of terms.
  pub remove_all_internal : ℕ → List ℕ → BaseIndexImpl m → ℕ × BaseIndexImpl m
  remove_all_internal doc_id [] b = (0, b)
  remove_all_internal doc_id (term_id ∷ terms) b =
      let (ret, b1) = remove_internal doc_id term_id b in
      let (rest, b2) = remove_all_internal doc_id terms b1 in (ret + rest, b2)

  -- `freeze`, and the instance stored under the term. (A frozen list always gives its instance.)
  pub publish :
      ℕ → FreezablePostingList m → List (ℕ × BTreePostingList m) → List (ℕ × BTreePostingList m)
  publish term_id fplist index = elim (Freezable.get_instance m (Freezable.freeze m fplist)) [
    | some plist ↦ assign term_id plist index
    | none ↦ index
  ]

  -- One round of the loop of `apply_internal`.
  pub apply_change :
      ℕ → FreezablePostingList m → List (ℕ × BTreePostingList m) → List (ℕ × BTreePostingList m)
  unfolding publish
  apply_change term_id fplist index = elim (lookup term_id index) [
    | some _ ↦
        if Freezable.is_empty m fplist then erase term_id index else publish term_id fplist index
    | none ↦ publish term_id fplist index
  ]

  pub apply_changes :
      List (ℕ × FreezablePostingList m)
      → List (ℕ × BTreePostingList m)
      → List (ℕ × BTreePostingList m)
  apply_changes [] index = index
  apply_changes ((term_id, fplist) ∷ changes) index =
      apply_changes changes (apply_change term_id fplist index)

  pub apply_internal : BaseIndexImpl m → ℕ × BaseIndexImpl m
  unfolding apply_changes
  apply_internal b = (
    length b.changed_index,
    record { index = apply_changes b.changed_index b.index; changed_index = [] },
  )
