-- ===== src/PointIndex.antt =====
-- core/impl/point_index_impl.h and point_index_impl-inl.h: an index that is updated by single
-- weights, each of a term and a document, with an expire time of its own. `base` is the base class.
pub mod TermDoc
pub mod Points
pub mod Sweeping
pub mod Calls
use red_giant.Prelude.{ℕ, ◌+◌, Option, none, some, List, [], ◌∷◌, length}
use red_giant.Key.{nat_key}
use red_giant.Weight.{Weight}
use red_giant.Container.{OrderedMap, OrderedSet}
use red_giant.BaseIndex
use red_giant.BaseIndex.{BaseIndexImpl}
use red_giant.ExpireTable
use red_giant.ExpireTable.{BTreeExpireTable}
use red_giant.ExpireTable.Pairs.{pair_key}
use red_giant.PointIndex.TermDoc.{TermDocIdPair, term_doc_key}

pub record PointIndexImpl {W : Type 0} (m : OrderedMap W) (s : OrderedSet (TermDocIdPair × ℕ))
    : Type 0 where
  pub base : BaseIndexImpl m
  pub max_size : ℕ
  pub expire : BTreeExpireTable s

module _ {W : Type 0} ⦃w : Weight W⦄ (m : OrderedMap W) (s : OrderedSet (TermDocIdPair × ℕ)) where
  abbrev pub empty_index : ℕ → PointIndexImpl m s
  empty_index max_size = record {
    base = BaseIndex.empty_index m;
    max_size = max_size;
    expire = ExpireTable.empty_table s;
  }

  pub get_expire_table_size : PointIndexImpl m s → ℕ
  get_expire_table_size p = ExpireTable.size s p.expire

  unfoldable pub update_expire_internal : ℕ → ℕ → ℕ → PointIndexImpl m s → PointIndexImpl m s
  update_expire_internal doc_id term_id expire_time p = record p {
    expire =
        (ExpireTable.update s (record { term_id = term_id; doc_id = doc_id }) expire_time
          p.expire).1;
  }

  unfoldable pub update : ℕ → ℕ → W → ℕ → PointIndexImpl m s → ℕ × PointIndexImpl m s
  unfolding update_expire_internal
  update doc_id term_id weight expire_time p =
      let p1 = update_expire_internal doc_id term_id expire_time p in
      let (ret, b) = BaseIndex.create_update_internal m doc_id term_id weight p1.base in
      (ret, record p1 { base = b })

  pub batch_update : List (ℕ × ℕ × W × ℕ) → PointIndexImpl m s → ℕ × PointIndexImpl m s
  batch_update [] p = (0, p)
  batch_update ((doc_id, term_id, weight, expire_time) ∷ batch) p =
      let (ret, p1) = update doc_id term_id weight expire_time p in
      let (rest, p2) = batch_update batch p1 in (ret + rest, p2)

  -- The `for` over what has expired.
  unfoldable pub remove_expired : List (TermDocIdPair × ℕ) → BaseIndexImpl m → BaseIndexImpl m
  remove_expired [] b = b
  remove_expired ((pair, expire_time) ∷ results) b =
      remove_expired results (BaseIndex.remove_internal m pair.doc_id pair.term_id b).1

  unfoldable pub apply : ℕ → PointIndexImpl m s → (ℕ × ℕ) × PointIndexImpl m s
  unfolding remove_expired
  apply expire_time p =
      let (results, e) = ExpireTable.expire_with_limit s expire_time p.max_size p.expire in
      let b1 = remove_expired results p.base in
      let (ret, b) = BaseIndex.apply_internal m b1 in
      ((ret, length results), record p { base = b; expire = e })
