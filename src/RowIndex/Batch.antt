-- ===== src/RowIndex/Batch.antt =====
-- Updates and removals, one by one and in batches: what they do to the rows, what they return, and
-- that readers see none of it.
use red_giant.Prelude.{
  ℕ, ◌+◌, ◌≡◌, refl, ◌∙◌, List, [], ◌∷◌, arith, if◌then◌else◌, ◌==◌, length, inl, inr, Option-cases,
}
use red_giant.Key.{nat_key}
use red_giant.Key.Assoc.{lookup}
use red_giant.Weight.{Weight}
use red_giant.Container.{OrderedMap, OrderedSet}
use red_giant.BaseIndex
use red_giant.BaseIndex.Removal.{remove_all-IsValid, remove_all-index}
use red_giant.ExpireTable.Pairs.{pair_key}
use red_giant.RowIndex.{
  RowIndexImpl, update_docterm_map_internal, update_expire_internal, update, batch_update,
  remove_doc_internal, remove, batch_remove,
}
use red_giant.RowIndex.Docterm.{update_terms-index, update_terms-result}
use red_giant.RowIndex.Rows.{Rows, set_row, Represents, remove_doc-Represents, update-Represents}

module _ {W : Type 0} ⦃w : Weight W⦄ (m : OrderedMap W) (s : OrderedSet (ℕ × ℕ)) where
  -- One update: the document has the new row and no other, the count is the number of its terms
  -- (0 for the invalid document), and readers see what they saw.
  pub update_lem :
      (d t : ℕ) (l : List (ℕ × W)) (r : RowIndexImpl m s) (rows : Rows W)
      → Represents m s r rows
      → let (ret, r') = update m s d l t r in
        Represents m s r' (set_row d l rows)
        × (ret ≡ (if d == 0 then 0 else length l))
        × (r'.base.index ≡ r.base.index)
  unfolding update update_expire_internal update_docterm_map_internal
  update_lem d t l r rows h = elim (Option-cases (lookup d r.doc_term_map)) [
    | inl k ↦ (
      update-Represents m s d t l r rows h,
      rw (k, update_docterm_map_internal) (update_terms-result m d l r.base h.base_valid),
      rw (k, update_docterm_map_internal) (update_terms-index m d l r.base h.base_valid),
    )
    | inr (ts, k) ↦
        let b = (BaseIndex.remove_all_internal m d ts r.base).1 in
        let v = remove_all-IsValid m d ts r.base h.base_valid in
        (
          update-Represents m s d t l r rows h,
          rw (k, update_docterm_map_internal) (update_terms-result m d l b v),
          rw (k, update_docterm_map_internal)
              (update_terms-index m d l b v ∙ remove_all-index m d ts r.base),
        )
  ]

  remove_doc-index :
      (d : ℕ) (r : RowIndexImpl m s) → (remove_doc_internal m s d r).1.base.index ≡ r.base.index
  unfolding remove_doc_internal
  remove_doc-index d r = elim (Option-cases (lookup d r.doc_term_map)) [
    | inl k ↦ rw (k, remove_doc_internal)
    | inr (ts, k) ↦ rw (k, remove_doc_internal) (remove_all-index m d ts r.base)
  ]

  -- The rows after a batch: of two rows for one document the later counts.
  abbrev pub set_rows : List (ℕ × List (ℕ × W) × ℕ) → Rows W → Rows W
  set_rows [] rows = rows
  set_rows ((d, l, t) ∷ batch) rows = set_rows batch (set_row d l rows)

  abbrev pub terms_counted : List (ℕ × List (ℕ × W) × ℕ) → ℕ
  terms_counted [] = 0
  terms_counted ((d, l, t) ∷ batch) = (if d == 0 then 0 else length l) + terms_counted batch

  -- A batch of updates: every document has the last row that the batch gives it, the count is the
  -- number of terms of the valid documents, and readers see what they saw.
  pub batch_update_lem :
      (batch : List (ℕ × List (ℕ × W) × ℕ)) (r : RowIndexImpl m s) (rows : Rows W)
      → Represents m s r rows
      → let (ret, r') = batch_update m s batch r in
        Represents m s r' (set_rows batch rows)
        × (ret ≡ terms_counted batch)
        × (r'.base.index ≡ r.base.index)
  unfolding batch_update
  batch_update_lem [] r rows h = (h, refl, refl)
  batch_update_lem ((d, l, t) ∷ batch) r rows h =
      let u = update_lem d t l r rows h in
      let v = batch_update_lem batch (update m s d l t r).1 (set_row d l rows) u.0 in
      (v.0, omega (arith, u.1, v.1), v.2 ∙ u.2)

  abbrev pub clear_rows : List ℕ → Rows W → Rows W
  clear_rows [] rows = rows
  clear_rows (d ∷ ds) rows = clear_rows ds (set_row d [] rows)

  -- A removal, or a batch of them: the documents have no rows, and readers see what they saw.
  pub batch_remove_lem :
      (d : ℕ) (ds : List ℕ) (r : RowIndexImpl m s) (rows : Rows W)
      → Represents m s r rows
      → Represents m s (remove m s d r).1 (set_row d [] rows)
        × ((remove m s d r).1.base.index ≡ r.base.index)
        × Represents m s (batch_remove m s ds r).1 (clear_rows ds rows)
        × ((batch_remove m s ds r).1.base.index ≡ r.base.index)
  unfolding remove batch_remove
  batch_remove_lem d [] r rows h =
      (remove_doc-Represents m s d r rows h, remove_doc-index d r, h, refl)
  batch_remove_lem d (e ∷ ds) r rows h =
      let next = remove_doc-Represents m s e r rows h in
      let rest = batch_remove_lem d ds (remove_doc_internal m s e r).1 (set_row e [] rows) next in
      (
        remove_doc-Represents m s d r rows h,
        remove_doc-index d r,
        rest.2,
        rest.3 ∙ remove_doc-index e r,
      )
