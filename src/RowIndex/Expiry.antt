-- ===== src/RowIndex/Expiry.antt =====
-- What `apply` does: expired documents leave the index, and readers then see exactly the rows.
use mathlib.Core.Path.{subst}
use red_giant.Prelude.{
  ℕ, ◌<◌, ◌≤◌, ◌≡◌, ◌≢◌, refl, sym, ap, ◌∙◌, false, none, some, List, [], ◌∷◌, arith, if◌then◌else◌,
  length,
}
use red_giant.Key.{nat_key}
use red_giant.Key.Assoc.{lookup}
use red_giant.Weight.{Weight}
use red_giant.Container.{OrderedMap, OrderedSet}
use red_giant.BaseIndex.Posting.{visible}
use red_giant.BaseIndex.Apply.{apply_internal_lem}
use red_giant.ExpireTable
use red_giant.ExpireTable.{BTreeExpireTable}
use red_giant.ExpireTable.Pairs.{pair_key}
use red_giant.ExpireTable.Consistent.{IsConsistent}
use red_giant.ExpireTable.Expire.{expire_with_limit_lem, size-expire_with_limit}
use red_giant.ExpireTable.Kept.{expired_in, kept_time, due-expired}
use red_giant.RowIndex.{
  RowIndexImpl, remove_doc_internal, remove_expired, apply, get_expire_table_size,
}
use red_giant.RowIndex.Docterm.{last_weight}
use red_giant.RowIndex.Rows.{
  Rows, set_row, Posts, Represents, remove_doc-Posts, remove_doc-expire, known_before_remove,
}

-- The rows without those of the documents that have expired.
abbrev pub drop_rows : {W : Type 0} → List (ℕ × ℕ) → Rows W → Rows W
drop_rows results rows d = if expired_in d results then [] else rows d

module _ {W : Type 0} ⦃w : Weight W⦄ (m : OrderedMap W) (s : OrderedSet (ℕ × ℕ)) where
  remove_expired-Posts :
      (results : List (ℕ × ℕ)) (r : RowIndexImpl m s) (rows : Rows W)
      → Posts m s r rows
      → Posts m s (remove_expired m s results r) (drop_rows results rows)
  unfolding remove_expired
  remove_expired-Posts [] r rows h = h
  remove_expired-Posts ((d, t) ∷ results) r rows h =
      let p =
        remove_expired-Posts results (remove_doc_internal m s d r).1 (set_row d [] rows)
          (remove_doc-Posts m s d r rows h) in
      record {
        base_valid = p.base_valid;
        posted = λ u e z. ground (arith, p.posted u e z);
        known = λ e. ground (arith, p.known e);
      }

  remove_expired-expire :
      (results : List (ℕ × ℕ)) (r : RowIndexImpl m s)
      → (remove_expired m s results r).expire ≡ r.expire
  unfolding remove_expired
  remove_expired-expire [] r = refl
  remove_expired-expire ((d, t) ∷ results) r =
      remove_expired-expire results (remove_doc_internal m s d r).1 ∙ remove_doc-expire m s d r

  known_before_expiry :
      (results : List (ℕ × ℕ)) (r : RowIndexImpl m s) (e : ℕ) (us : List ℕ)
      → lookup e (remove_expired m s results r).doc_term_map ≡ some us
      → (lookup e r.doc_term_map ≡ some us) × (expired_in e results ≡ false)
  unfolding remove_expired
  known_before_expiry [] r e us q = (q, refl)
  known_before_expiry ((d, t) ∷ results) r e us q =
      let later = known_before_expiry results (remove_doc_internal m s d r).1 e us q in
      let before = known_before_remove m s d e us r later.0 in
      (before.0, ground (arith, before.1, later.1))

  still_timed :
      (now : ℕ) (r : RowIndexImpl m s) (rows : Rows W)
      → Represents m s r rows
      → let out = ExpireTable.expire_with_limit s now r.max_size r.expire in
        let r1 = remove_expired m s out.0 (record r { expire = out.1 }) in
        (d : ℕ) (ts : List ℕ)
        → lookup d r1.doc_term_map ≡ some ts
        → (t : ℕ) × (lookup d r1.expire.expire_map ≡ some t) × (now < t)
  still_timed now r rows h d ts q =
      let out = ExpireTable.expire_with_limit s now r.max_size r.expire in
      let r0 : RowIndexImpl m s = record r { expire = out.1 } in
      let k = known_before_expiry out.0 r0 d ts q in
      let u = h.tracked d ts k.0 in
      let v = kept_time s now r.max_size r.expire d u.0 h.consistent k.1 u.1 in
      (
        u.0,
        ap (λ (e : BTreeExpireTable s). lookup d e.expire_map) (remove_expired-expire out.0 r0)
            ∙ v.0,
        v.1,
      )

  -- After `apply` the index represents the rows of the documents that are not among the expired
  -- entries, and readers see exactly the weights of those rows for every valid document; nothing is
  -- left pending; the second count is that of the expired entries.
  pub apply_lem :
      (now : ℕ) (r : RowIndexImpl m s) (rows : Rows W) (t d : ℕ)
      → Represents m s r rows
      → d ≢ 0
      → let results = (ExpireTable.expire_with_limit s now r.max_size r.expire).0 in
        let (ret, r') = apply m s now r in
        Represents m s r' (drop_rows results rows)
        × (visible m r'.base t d ≡ last_weight t (drop_rows results rows d))
        × (r'.base.changed_index ≡ [])
        × (ret.1 ≡ length results)
  unfolding apply
  apply_lem now r rows t d h z =
      let x = expire_with_limit_lem s now r.max_size r.expire h.consistent in
      let out = ExpireTable.expire_with_limit s now r.max_size r.expire in
      let r0 : RowIndexImpl m s = record r { expire = out.1 } in
      let r1 = remove_expired m s out.0 r0 in
      let p0 : Posts m s r0 rows = record {
        base_valid = h.base_valid;
        posted = h.posted;
        known = h.known;
      } in
      let p1 = remove_expired-Posts out.0 r0 rows p0 in
      let a = apply_internal_lem m r1.base p1.base_valid in
      let still : r1.expire ≡ out.1 = remove_expired-expire out.0 r0 in
      (
        record {
          posts = record {
            base_valid = a.1;
            posted = λ u e y. (a.0 u e).1 ∙ p1.posted u e y;
            known = p1.known;
          };
          consistent = subst (IsConsistent s) (sym still) x.0;
          tracked = λ e ts q. let k = still_timed now r rows h e ts q in (k.0, k.1);
        },
        (a.0 t d).0 ∙ p1.posted t d z,
        a.2,
        refl,
      )

  -- A valid document whose expire time has come is in no posting list after `apply`.
  pub visible-expired :
      (now : ℕ) (r : RowIndexImpl m s) (rows : Rows W) (t d u : ℕ)
      → Represents m s r rows
      → d ≢ 0
      → lookup d r.expire.expire_map ≡ some u
      → u ≤ now
      → visible m (apply m s now r).1.base t d ≡ none
  visible-expired now r rows t d u h z q due = ground (
    arith,
    (apply_lem now r rows t d h z).1,
    due-expired s now r.max_size r.expire d u h.consistent q due,
  )

  -- Every document that the index knows after `apply` has an expire time that is still to come.
  pub apply-tracked :
      (now : ℕ) (r : RowIndexImpl m s) (rows : Rows W) (d : ℕ) (ts : List ℕ)
      → Represents m s r rows
      → lookup d (apply m s now r).1.doc_term_map ≡ some ts
      → (t : ℕ) × (lookup d (apply m s now r).1.expire.expire_map ≡ some t) × (now < t)
  unfolding apply
  apply-tracked now r rows d ts h q = still_timed now r rows h d ts q

  -- With a maximum size that is not 0, `apply` leaves no more entries in the expire table.
  pub apply-max_size :
      (now : ℕ) (r : RowIndexImpl m s) (rows : Rows W)
      → Represents m s r rows
      → r.max_size ≢ 0
      → get_expire_table_size m s (apply m s now r).1 ≤ r.max_size
  unfolding apply get_expire_table_size
  apply-max_size now r rows h z =
      let out = ExpireTable.expire_with_limit s now r.max_size r.expire in
      rw remove_expired-expire (size-expire_with_limit s now r.max_size r.expire h.consistent z)
