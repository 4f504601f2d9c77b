-- ===== src/DocumentIndex.antt =====
-- index/document_index_manager.cc and document_query.cc: the index of documents, over a row index
-- of their features.
pub mod Maintain
pub mod Laws
pub mod TermReader
pub mod Single
pub mod Search
pub mod Found
pub mod Results
pub mod BestOf
use red_giant.Prelude.{
  ℕ, zero, suc, ◌+◌, ◌%◌, Bool, true, false, Option, none, some, List, [], ◌∷◌, ◌++◌, if◌then◌else◌,
  length, ◌^◌,
}
use red_giant.Key.{nat_key}
use red_giant.Weight.{Weight}
use red_giant.Container.{OrderedMap, OrderedSet}
use red_giant.ExpireTable.Pairs.{pair_key}
use red_giant.Reader.{PostingListReader}
use red_giant.PostingList.{BTreePostingListReader}
use red_giant.BaseIndex.{peek, batch_query}
use red_giant.RowIndex
use red_giant.RowIndex.{RowIndexImpl}
use red_giant.Wand.{WandReader, wand_reader}
use red_giant.Feature.{Feature, FeatureVector}
use red_giant.DocumentId.Value.{value}
use red_giant.Parser.Document.{Document}
use red_giant.Ranking.{IntermQuery}

module _ {D : Type 0} where
  -- The loops of `update` over the feature vectors of a document.
  unfoldable pub add_weights : List (Feature × D) → List (ℕ × D) → List (ℕ × D)
  add_weights [] weights = weights
  add_weights ((f, weight) ∷ l) weights = add_weights l (weights ++ (f.id, weight) ∷ [])

  unfoldable pub document_weights : List (FeatureVector D) → List (ℕ × D) → List (ℕ × D)
  document_weights [] weights = weights
  document_weights (fv ∷ l) weights = document_weights l (add_weights fv.features weights)

  -- `DocumentQuery(request, interm_query)`: `concrete` is the `DotProductQuery` of a weight.
  unfoldable pub document_query : {Q : Type 0} → (D → Q) → List (ℕ × D) → List (ℕ × Q)
  document_query concrete [] = []
  document_query concrete ((id, weight) ∷ l) = (id, concrete weight) ∷ document_query concrete l

-- A reader of `query`: that of the only term that was found, or one over all that were.
pub data QueryReader (R : Type 0) : Type 0 where
  single : R → QueryReader R
  wand : WandReader R → QueryReader R

-- The readers by their places; there is at least one, the first.
unfoldable pub reader_at : {R : Type 0} → R → List (ℕ × R) → ℕ → R
reader_at first [] i = first
reader_at first ((t, r) ∷ l) zero = r
reader_at first ((t, r) ∷ l) (suc i) = reader_at first l i

-- `none` is `nullptr`.
unfoldable pub choose_reader :
    {R : Type 0} → PostingListReader R ℕ → List (ℕ × R) → Option (QueryReader R)
choose_reader reader [] = none
choose_reader reader ((t, r) ∷ []) = some (single r)
choose_reader reader ((t, r) ∷ (u, q) ∷ l) =
    let readers = (t, r) ∷ (u, q) ∷ l in
    some (wand (wand_reader reader (length readers) (reader_at r readers)))

-- What the narrowing from `time_t` to the `int32_t` of `ExpireTime` makes of a time. A `time_t` is
-- the number below 2 ^ 64 that its bits stand for; an `ExpireTime` `v`, which is signed, is the
-- number `v + 2 ^ 31`, so that the order is that of the numbers.
unfoldable pub expire_time_of : ℕ → ℕ
expire_time_of time = (time + 2 ^ 31) % 2 ^ 32

module _ {W : Type 0} ⦃w : Weight W⦄ (m : OrderedMap W) (s : OrderedSet (ℕ × ℕ)) where
  unfoldable pub remove : ℕ → RowIndexImpl m s → ℕ × RowIndexImpl m s
  remove doc_id index = RowIndex.remove m s doc_id index

  unfoldable pub batch_remove : List ℕ → RowIndexImpl m s → ℕ × RowIndexImpl m s
  batch_remove doc_ids index = RowIndex.batch_remove m s doc_ids index

  unfoldable pub update : Document W → ℕ → RowIndexImpl m s → ℕ × RowIndexImpl m s
  update doc expire_time index =
      RowIndex.update m s (value doc.id) (document_weights doc.feature_vectors [])
        (expire_time_of expire_time) index

  -- The rows that `batch_update` hands to the index.
  unfoldable pub update_docs : List (Document W) → ℕ → List (ℕ × List (ℕ × W) × ℕ)
  update_docs [] expire_time = []
  update_docs (doc ∷ docs) expire_time =
      (value doc.id, document_weights doc.feature_vectors [], expire_time_of expire_time)
      ∷ update_docs docs expire_time

  unfoldable pub batch_update : List (Document W) → ℕ → RowIndexImpl m s → ℕ × RowIndexImpl m s
  batch_update docs expire_time index =
      RowIndex.batch_update m s (update_docs docs expire_time) index

  unfoldable pub peek_term : ℕ → RowIndexImpl m s → Option (BTreePostingListReader W)
  peek_term term_id index = peek m term_id index.base

  -- What `apply` counts is not negative.
  unfoldable pub do_maintain : ℕ → RowIndexImpl m s → ℕ × RowIndexImpl m s
  do_maintain time index =
      let (doc_apply_ret, index1) = RowIndex.apply m s (expire_time_of time) index in
      (doc_apply_ret.0, index1)

  unfoldable pub query :
      {R : Type 0}
      → PostingListReader R ℕ
      → List (ℕ × (BTreePostingListReader W → R))
      → RowIndexImpl m s
      → Option (QueryReader R)
  query reader [] index = none
  query reader (q ∷ queries) index = choose_reader reader (batch_query m (q ∷ queries) index.base)
