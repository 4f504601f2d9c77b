-- ===== src/DocumentIndex/Laws.antt =====
-- The document index in terms of the rows of its documents, and of what queries ask for.
use mathlib.Core.List.{append-nil, append_assoc}
use red_giant.Prelude.{
  ℕ, suc, ◌+◌, ◌^◌, ◌<◌, some, ◌≡◌, ◌≢◌, ◌↔◌, refl, sym, ◌∙◌, none, List, [], ◌∷◌, ◌++◌, arith, All,
  length, if◌then◌else◌, ◌==◌, Option-cases, inl, inr,
}
use red_giant.Key.{nat_key}
use red_giant.Key.Assoc.{lookup, lookup-assign}
use red_giant.Weight.{Weight}
use red_giant.Container.{OrderedMap, OrderedSet}
use red_giant.ExpireTable
use red_giant.ExpireTable.Pairs.{pair_key}
use red_giant.Reader.{PostingListReader}
use red_giant.PostingList.{BTreePostingListReader}
use red_giant.BaseIndex
use red_giant.BaseIndex.{batch_query}
use red_giant.BaseIndex.Posting.{visible}
use red_giant.BaseIndex.Query.{batch_query-one_by_one, one_by_one}
use red_giant.RowIndex
use red_giant.RowIndex.{RowIndexImpl}
use red_giant.RowIndex.Rows.{Rows, Represents, set_row}
use red_giant.RowIndex.Batch.{update_lem}
use red_giant.RowIndex.Docterm.{last_weight}
use red_giant.RowIndex.Expiry.{apply_lem, drop_rows}
use red_giant.Feature.{Feature, FeatureVector}
use red_giant.DocumentId.Value.{value}
use red_giant.Parser.Document.{Document}
use red_giant.Parser.Query.{QueryRequest}
use red_giant.Ranking.{direct_features, direct_vectors, direct_process}
use red_giant.DocumentIndex.{
  add_weights, document_weights, update, batch_update, update_docs, do_maintain, query,
  choose_reader, expire_time_of,
}

module _ {D : Type 0} where
  add_weights-direct :
      (l : List (Feature × D)) (weights : List (ℕ × D))
      → add_weights l weights ≡ weights ++ direct_features l
  unfolding add_weights direct_features
  add_weights-direct [] weights = sym (append-nil weights)
  add_weights-direct ((f, w) ∷ l) weights =
      add_weights-direct l (weights ++ (f.id, w) ∷ [])
      ∙ append_assoc weights ((f.id, w) ∷ []) (direct_features l)

  document_weights-direct :
      (l : List (FeatureVector D)) (weights : List (ℕ × D))
      → document_weights l weights ≡ weights ++ direct_vectors l
  unfolding document_weights direct_vectors
  document_weights-direct [] weights = sym (append-nil weights)
  document_weights-direct (fv ∷ l) weights = rw (add_weights-direct fv.features weights) (
      document_weights-direct l (weights ++ direct_features fv.features)
      ∙ append_assoc weights (direct_features fv.features) (direct_vectors l))

expire_time_of-small : (time : ℕ) → suc time < 2 ^ 31 → expire_time_of time ≡ time + 2 ^ 31
unfolding expire_time_of
expire_time_of-small time h = omega arith

choose_reader-none :
    {R : Type 0} (reader : PostingListReader R ℕ) (l : List (ℕ × R))
    → (choose_reader reader l ≡ none) ↔ (l ≡ [])
unfolding choose_reader
choose_reader-none reader [] = ground arith
choose_reader-none reader ((t, r) ∷ []) = ground arith
choose_reader-none reader ((t, r) ∷ (u, q) ∷ l) = ground arith

module _ {W : Type 0} ⦃w : Weight W⦄ (m : OrderedMap W) (s : OrderedSet (ℕ × ℕ)) where
  update-expire_time :
      (d time : ℕ) (l : List (ℕ × W)) (index : RowIndexImpl m s)
      → lookup d (RowIndex.update m s d l time index).1.expire.expire_map ≡ some time
  unfolding RowIndex.update RowIndex.update_expire_internal RowIndex.update_docterm_map_internal
      ExpireTable.update
  update-expire_time d time l index =
      let table = lookup-assign d d time index.expire.expire_map in
      elim (Option-cases (lookup d index.doc_term_map)) [
        | inl e ↦ ground (arith, table, e)
        | inr (ts, e) ↦ ground (arith, table, e)
      ]

  -- A document that is updated and then maintained at `now`, both times before 2 ^ 31 - 1 seconds:
  -- the document has its expire time in the expire table, unchanged by the narrowing to an `int32_t`,
  -- in which a time stands 2 ^ 31 above its value; the index represents its new row next to the rows
  -- of the others, less those that have expired at `now`, and readers see for every term and every
  -- valid document the weight of these rows. The row of the document is what the direct model asks
  -- for when a query has the same feature vectors; `update` counts its terms, or 0 for the invalid
  -- document.
  pub update-do_maintain :
      (doc : Document W) (request : QueryRequest W) (expire_time now : ℕ) (index : RowIndexImpl m s)
      (rows : Rows W) (t d : ℕ)
      → Represents m s index rows
      → doc.feature_vectors ≡ request.feature_vectors
      → d ≢ 0
      → suc expire_time < 2 ^ 31
      → suc now < 2 ^ 31
      → let (ret, index1) = update m s doc expire_time index in
        let (count, index2) = do_maintain m s now index1 in
        let expired =
          (ExpireTable.expire_with_limit s (now + 2 ^ 31) index1.max_size index1.expire).0 in
        let row = (direct_process request).features in
        let rows2 = drop_rows expired (set_row (value doc.id) row rows) in
        (ret ≡ (if value doc.id == 0 then 0 else length row))
        × (lookup (value doc.id) index1.expire.expire_map ≡ some (expire_time + 2 ^ 31))
        × Represents m s index2 rows2
        × (visible m index2.base t d ≡ last_weight t (rows2 d))
        × (index2.base.changed_index ≡ [])
  unfolding update do_maintain direct_process
  update-do_maintain doc request expire_time now index rows t d h e z p q =
      let row = direct_vectors request.feature_vectors in
      let same : document_weights doc.feature_vectors [] ≡ row =
        rw e (document_weights-direct request.feature_vectors []) in
      let time = expire_time + 2 ^ 31 in
      let u = update_lem m s (value doc.id) time row index rows h in
      let a =
        apply_lem m s (now + 2 ^ 31) (RowIndex.update m s (value doc.id) row time index).1
          (set_row (value doc.id) row rows) t d u.0 z in
      rw (same, expire_time_of-small expire_time p, expire_time_of-small now q)
        (u.1, update-expire_time (value doc.id) time row index, a.0, a.1, a.2)

  -- A batch of documents with one expire time is the updates one after the other.
  abbrev pub updates_one_by_one : List (Document W) → ℕ → RowIndexImpl m s → ℕ × RowIndexImpl m s
  updates_one_by_one [] expire_time index = (0, index)
  updates_one_by_one (doc ∷ docs) expire_time index =
      let (ret, index1) = update m s doc expire_time index in
      let (rest, index2) = updates_one_by_one docs expire_time index1 in (ret + rest, index2)

  pub batch_update-one_by_one :
      (docs : List (Document W)) (expire_time : ℕ) (index : RowIndexImpl m s)
      → batch_update m s docs expire_time index ≡ updates_one_by_one docs expire_time index
  unfolding batch_update update_docs update RowIndex.batch_update
  batch_update-one_by_one [] expire_time index = refl
  batch_update-one_by_one (doc ∷ docs) expire_time index =
      let r =
        RowIndex.update m s (value doc.id) (document_weights doc.feature_vectors [])
          (expire_time_of expire_time) index in
      rw (batch_update-one_by_one docs expire_time r.1) refl

  one_by_one-nil :
      {R : Type 0} (queries : List (ℕ × (BTreePostingListReader W → R))) (index : RowIndexImpl m s)
      → (one_by_one m queries index.base ≡ [])
        ↔ All (λ q. lookup q.0 index.base.index ≡ none) queries
  unfolding BaseIndex.query
  one_by_one-nil [] index = ground arith
  one_by_one-nil ((t, q) ∷ queries) index = elim (Option-cases (lookup t index.base.index)) [
    | inl e ↦ (
      λ h. (e, (one_by_one-nil queries index).0 (ground (arith, e, h))),
      λ h. ground (arith, e, (one_by_one-nil queries index).1 h.1),
    )
    | inr (p, e) ↦ (λ h. absurd (ground (arith, e, h)), λ h. absurd (ground (arith, e, h.0)))
  ]

  -- There is no reader exactly where no term of the query has a posting list.
  pub query-none :
      {R : Type 0} (reader : PostingListReader R ℕ)
      (queries : List (ℕ × (BTreePostingListReader W → R))) (index : RowIndexImpl m s)
      → (query m s reader queries index ≡ none)
        ↔ All (λ q. lookup q.0 index.base.index ≡ none) queries
  unfolding query choose_reader
  query-none reader [] index = ground arith
  query-none reader (q ∷ queries) index =
      let n = choose_reader-none reader (batch_query m (q ∷ queries) index.base) in
      let o = one_by_one-nil (q ∷ queries) index in
      let e = batch_query-one_by_one m (q ∷ queries) index.base in
      (λ h. o.0 (sym e ∙ n.0 h), λ h. n.1 (e ∙ o.1 h))
