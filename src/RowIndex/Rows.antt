-- ===== src/RowIndex/Rows.antt =====
-- The rows that an index stands for: for each document the terms and weights of its last update,
-- until it is removed. The posting lists, once the pending changes are applied, hold just those.
use red_giant.Prelude.{
  ℕ, ◌≡◌, ◌≢◌, refl, false, Option, none, some, List, [], arith, if◌then◌else◌, ◌==◌, Bool-cases,
  inl, inr, Option-cases,
}
use red_giant.Key.{nat_key}
use red_giant.Key.Assoc.{lookup, assign, lookup-assign, lookup-erase}
use red_giant.Weight.{Weight}
use red_giant.Container.{OrderedMap, OrderedSet}
use red_giant.BaseIndex
use red_giant.BaseIndex.{BaseIndexImpl}
use red_giant.BaseIndex.Posting.{visible, pending}
use red_giant.BaseIndex.Removal.{remove_all-IsValid, remove_all-pending}
use red_giant.ExpireTable.Consistent.{IsConsistent, changes-IsConsistent}
use red_giant.RowIndex.{
  RowIndexImpl, term_ids, update, remove_doc_internal, update_expire_internal,
  update_docterm_map_internal,
}
use red_giant.ExpireTable.Pairs.{pair_key}
use red_giant.ExpireTable
use red_giant.RowIndex.Docterm.{
  last_weight, last_weight-missing, update_terms-IsValid, update_terms-pending,
}

-- `map[d]`, or no terms.
abbrev pub terms_of : Option (List ℕ) → List ℕ
terms_of none = []
terms_of (some terms) = terms

abbrev pub Rows : Type 0 → Type 0
Rows W = ℕ → List (ℕ × W)

-- The rows with one of them given anew.
abbrev pub set_row : {W : Type 0} → ℕ → List (ℕ × W) → Rows W → Rows W
set_row d l rows e = if d == e then l else rows e

module _ {W : Type 0} ⦃w : Weight W⦄ (m : OrderedMap W) (s : OrderedSet (ℕ × ℕ)) where
  -- The posting lists to come and the map from documents to terms stand for `rows`.
  pub record Posts (r : RowIndexImpl m s) (rows : Rows W) : Type 0 where
    pub base_valid : BaseIndex.Posting.IsValid m r.base
    -- the posting lists to come hold the weights of the rows
    pub posted : (t d : ℕ) → d ≢ 0 → pending m r.base t d ≡ last_weight t (rows d)
    -- `doc_term_map` knows the terms of each row
    pub known : (d : ℕ) → terms_of (lookup d r.doc_term_map) ≡ term_ids (rows d)

  -- The index `r` stands for `rows`, and every document that it knows has an expire time.
  pub record Represents (r : RowIndexImpl m s) (rows : Rows W) : Type 0 where
    pub posts : Posts r rows
    pub open posts use *
    pub consistent : IsConsistent s r.expire
    pub tracked :
        (d : ℕ) (ts : List ℕ)
        → lookup d r.doc_term_map ≡ some ts
        → (t : ℕ) × (lookup d r.expire.expire_map ≡ some t)

  -- A document that leaves the lists of its row is in no list.
  cleared :
      (d : ℕ) (ts : List ℕ) (r : RowIndexImpl m s) (rows : Rows W) (t e : ℕ)
      → Posts r rows
      → lookup d r.doc_term_map ≡ some ts
      → e ≢ 0
      → pending m (BaseIndex.remove_all_internal m d ts r.base).1 t e
        ≡ (if d == e then none else last_weight t (rows e))
  cleared d ts r rows t e h k z =
      let ids : ts ≡ term_ids (rows d) = rw k at (h.known d) in
      ground (
        arith,
        remove_all-pending m d ts r.base t e h.base_valid z,
        h.posted t e z,
        last_weight-missing t (rows d),
        ids,
      )

  unlisted :
      (d t : ℕ) (r : RowIndexImpl m s) (rows : Rows W)
      → Posts r rows
      → lookup d r.doc_term_map ≡ none
      → last_weight t (rows d) ≡ none
  unlisted d t r rows h k =
      let ids : [] ≡ term_ids (rows d) = rw k at (h.known d) in
      last_weight-missing t (rows d) (rw (← ids) refl)

  pub remove_doc-Posts :
      (d : ℕ) (r : RowIndexImpl m s) (rows : Rows W)
      → Posts r rows
      → Posts (remove_doc_internal m s d r).1 (set_row d [] rows)
  unfolding remove_doc_internal
  remove_doc-Posts d r rows h = elim (Option-cases (lookup d r.doc_term_map)) [
    | inl k ↦
        rw (k, remove_doc_internal)
          (record {
            base_valid = h.base_valid;
            posted = λ t e z. ground (arith, h.posted t e z, unlisted d t r rows h k);
            known = λ e. ground (arith, h.known e, k);
          })
    | inr (ts, k) ↦
        rw (k, remove_doc_internal)
          (record {
            base_valid = remove_all-IsValid m d ts r.base h.base_valid;
            posted = λ t e z. ground (arith, cleared d ts r rows t e h k z);
            known = λ e. ground (arith, h.known e, lookup-erase d e r.doc_term_map);
          })
  ]

  pub remove_doc-expire :
      (d : ℕ) (r : RowIndexImpl m s) → (remove_doc_internal m s d r).1.expire ≡ r.expire
  unfolding remove_doc_internal
  remove_doc-expire d r = ground arith

  -- Every document that is known after a removal is another one, and was known before.
  pub known_before_remove :
      (d e : ℕ) (us : List ℕ) (r : RowIndexImpl m s)
      → lookup e (remove_doc_internal m s d r).1.doc_term_map ≡ some us
      → (lookup e r.doc_term_map ≡ some us) × ((d == e) ≡ false)
  unfolding remove_doc_internal
  known_before_remove d e us r q = ground (arith, lookup-erase d e r.doc_term_map)

  -- `remove_doc_internal` empties the row of the document.
  pub remove_doc-Represents :
      (d : ℕ) (r : RowIndexImpl m s) (rows : Rows W)
      → Represents r rows
      → Represents (remove_doc_internal m s d r).1 (set_row d [] rows)
  remove_doc-Represents d r rows h = record {
    posts = remove_doc-Posts d r rows h.posts;
    consistent = rw remove_doc-expire h.consistent;
    tracked = λ e us q. rw remove_doc-expire (h.tracked e us (known_before_remove d e us r q).0);
  }

  tracked-update :
      (d t : ℕ) (ts : List ℕ) (r : RowIndexImpl m s) (rows : Rows W) (e : ℕ) (us : List ℕ)
      → Represents r rows
      → lookup e (assign d ts r.doc_term_map) ≡ some us
      → (u : ℕ) × (lookup e (ExpireTable.update s d t r.expire).1.expire_map ≡ some u)
  unfolding ExpireTable.update
  tracked-update d t ts r rows e us h q = elim (Bool-cases (d == e)) [
    | inl same ↦ (t, ground (arith, lookup-assign d e t r.expire.expire_map))
    | inr other ↦
        let u = h.tracked e us (ground (arith, lookup-assign d e ts r.doc_term_map)) in
        (u.0, ground (arith, u.1, lookup-assign d e t r.expire.expire_map))
  ]

  -- `update` gives the document the row of the update, and leaves the other rows.
  pub update-Represents :
      (d t : ℕ) (l : List (ℕ × W)) (r : RowIndexImpl m s) (rows : Rows W)
      → Represents r rows
      → Represents (update m s d l t r).1 (set_row d l rows)
  unfolding update update_expire_internal update_docterm_map_internal
  update-Represents d t l r rows h = elim (Option-cases (lookup d r.doc_term_map)) [
    | inl k ↦
        rw (k, update_docterm_map_internal)
          (record {
            posts = record {
              base_valid = update_terms-IsValid m d l r.base h.base_valid;
              posted = λ u e z. ground (
                arith,
                update_terms-pending m d l r.base u e h.base_valid z,
                h.posted u e z,
                unlisted d u r rows h.posts k,
              );
              known = λ e. ground (arith, h.known e, lookup-assign d e (term_ids l) r.doc_term_map);
            };
            consistent = (changes-IsConsistent s d t r.expire h.consistent).0;
            tracked = λ e us. tracked-update d t (term_ids l) r rows e us h;
          })
    | inr (ts, k) ↦
        let b = (BaseIndex.remove_all_internal m d ts r.base).1 in
        let v = remove_all-IsValid m d ts r.base h.base_valid in
        rw (k, update_docterm_map_internal)
          (record {
            posts = record {
              base_valid = update_terms-IsValid m d l b v;
              posted = λ u e z. ground (
                arith,
                update_terms-pending m d l b u e v z,
                cleared d ts r rows u e h.posts k z,
              );
              known = λ e. ground (arith, h.known e, lookup-assign d e (term_ids l) r.doc_term_map);
            };
            consistent = (changes-IsConsistent s d t r.expire h.consistent).0;
            tracked = λ e us. tracked-update d t (term_ids l) r rows e us h;
          })
  ]
