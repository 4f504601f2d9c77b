-- ===== src/RowIndex.antt =====
-- core/impl/row_index_impl.h and row_index_impl-inl.h: an index that is updated by whole documents.
-- `base` is the base class. `change_mutex_` leaves no trace: each method is one step.
pub mod Docterm
pub mod Rows
pub mod Expiry
pub mod Batch
pub mod Reach
use red_giant.Prelude.{
  ℕ, zero, suc, ◌+◌, Bool, true, false, Option, none, some, List, [], ◌∷◌, length, map,
}
use red_giant.Key.{nat_key}
use red_giant.Key.Assoc.{lookup, assign, erase}
use red_giant.Weight.{Weight}
use red_giant.Container.{OrderedMap, OrderedSet}
use red_giant.BaseIndex
use red_giant.BaseIndex.{BaseIndexImpl}
use red_giant.ExpireTable
use red_giant.ExpireTable.{BTreeExpireTable}
use red_giant.ExpireTable.Pairs.{pair_key}

pub record RowIndexImpl {W : Type 0} (m : OrderedMap W) (s : OrderedSet (ℕ × ℕ)) : Type 0 where
  pub base : BaseIndexImpl m
  pub max_size : ℕ
  pub expire : BTreeExpireTable s
  pub doc_term_map : List (ℕ × List ℕ)

-- The terms of a vector of term pairs.
abbrev pub term_ids : {W : Type 0} → List (ℕ × W) → List ℕ
term_ids [] = []
term_ids ((term_id, weight) ∷ terms) = term_id ∷ term_ids terms

module _ {W : Type 0} ⦃w : Weight W⦄ (m : OrderedMap W) where
  -- The `for` over the terms of a document.
  pub update_terms : ℕ → List (ℕ × W) → BaseIndexImpl m → ℕ × BaseIndexImpl m
  update_terms doc_id [] b = (0, b)
  update_terms doc_id ((term_id, weight) ∷ terms) b =
      let (ret, b1) = BaseIndex.create_update_internal m doc_id term_id weight b in
      let (rest, b2) = update_terms doc_id terms b1 in (ret + rest, b2)

module _ {W : Type 0} ⦃w : Weight W⦄ (m : OrderedMap W) (s : OrderedSet (ℕ × ℕ)) where
  abbrev pub empty_index : ℕ → RowIndexImpl m s
  empty_index max_size = record {
    base = BaseIndex.empty_index m;
    max_size = max_size;
    expire = ExpireTable.empty_table s;
    doc_term_map = [];
  }

  pub get_expire_table_size : RowIndexImpl m s → ℕ
  get_expire_table_size r = ExpireTable.size s r.expire

  unfoldable pub update_expire_internal : ℕ → ℕ → RowIndexImpl m s → RowIndexImpl m s
  update_expire_internal doc_id expire_time r = record r {
    expire = (ExpireTable.update s doc_id expire_time r.expire).1;
  }

  -- Where the document is there already, it leaves the lists of its old terms first.
  unfoldable pub update_docterm_map_internal :
      ℕ → List (ℕ × W) → RowIndexImpl m s → RowIndexImpl m s
  update_docterm_map_internal doc_id terms r = elim (lookup doc_id r.doc_term_map) [
    | none ↦ record r { doc_term_map = assign doc_id (term_ids terms) r.doc_term_map }
    | some existing_terms ↦ record r {
      base = (BaseIndex.remove_all_internal m doc_id existing_terms r.base).1;
      doc_term_map = assign doc_id (term_ids terms) r.doc_term_map;
    }
  ]

  unfoldable pub update : ℕ → List (ℕ × W) → ℕ → RowIndexImpl m s → ℕ × RowIndexImpl m s
  unfolding update_expire_internal update_docterm_map_internal update_terms
  update doc_id terms expire_time r =
      let r1 = update_expire_internal doc_id expire_time r in
      let r2 = update_docterm_map_internal doc_id terms r1 in
      let (ret, b) = update_terms m doc_id terms r2.base in (ret, record r2 { base = b })

  unfoldable pub batch_update :
      List (ℕ × List (ℕ × W) × ℕ) → RowIndexImpl m s → ℕ × RowIndexImpl m s
  batch_update [] r = (0, r)
  batch_update ((doc_id, terms, expire_time) ∷ batch) r =
      let (ret, r1) = update doc_id terms expire_time r in
      let (rest, r2) = batch_update batch r1 in (ret + rest, r2)

  unfoldable pub remove_doc_internal : ℕ → RowIndexImpl m s → ℕ × RowIndexImpl m s
  remove_doc_internal doc_id r = elim (lookup doc_id r.doc_term_map) [
    | some terms ↦
        let (ret, b) = BaseIndex.remove_all_internal m doc_id terms r.base in
        (ret, record r { base = b; doc_term_map = erase doc_id r.doc_term_map })
    | none ↦ (0, r)
  ]

  pub remove : ℕ → RowIndexImpl m s → ℕ × RowIndexImpl m s
  remove doc_id r = remove_doc_internal doc_id r

  pub batch_remove : List ℕ → RowIndexImpl m s → ℕ × RowIndexImpl m s
  batch_remove [] r = (0, r)
  batch_remove (doc_id ∷ doc_ids) r =
      let (ret, r1) = remove_doc_internal doc_id r in
      let (rest, r2) = batch_remove doc_ids r1 in (ret + rest, r2)

  -- The `for` over what has expired.
  unfoldable pub remove_expired : List (ℕ × ℕ) → RowIndexImpl m s → RowIndexImpl m s
  remove_expired [] r = r
  remove_expired ((doc_id, expire_time) ∷ results) r =
      remove_expired results (remove_doc_internal doc_id r).1

  unfoldable pub apply : ℕ → RowIndexImpl m s → (ℕ × ℕ) × RowIndexImpl m s
  unfolding remove_expired
  apply expire_time r =
      let (results, e) = ExpireTable.expire_with_limit s expire_time r.max_size r.expire in
      let r1 = remove_expired results (record r { expire = e }) in
      let (ret, b) = BaseIndex.apply_internal m r1.base in
      ((ret, length results), record r1 { base = b })
