-- ===== src/PointIndex/Sweeping.antt =====
-- What `apply` does: expired points leave the index, and readers then see exactly the points.
use red_giant.Prelude.{
  ℕ, ◌<◌, ◌≤◌, ◌≡◌, ◌≢◌, refl, sym, ◌∙◌, none, some, List, [], ◌∷◌, arith, if◌then◌else◌,
  Bool-cases, inl, inr, length,
}
use red_giant.Key.{nat_key}
use red_giant.Key.Assoc.{lookup}
use red_giant.Weight.{Weight}
use red_giant.Container.{OrderedMap, OrderedSet}
use red_giant.BaseIndex
use red_giant.BaseIndex.{BaseIndexImpl}
use red_giant.BaseIndex.Posting.{visible, pending}
use red_giant.BaseIndex.Removal.{remove-IsValid, remove-pending}
use red_giant.BaseIndex.Apply.{apply_internal_lem}
use red_giant.ExpireTable
use red_giant.ExpireTable.Pairs.{pair_key}
use red_giant.ExpireTable.Expire.{expire_with_limit_lem, size-expire_with_limit}
use red_giant.ExpireTable.Kept.{expired_in, kept_time, due-expired}
use red_giant.PointIndex.TermDoc.{TermDocIdPair, term_doc_key}
use red_giant.PointIndex.{PointIndexImpl, remove_expired, apply, get_expire_table_size}
use red_giant.PointIndex.Points.{Points, key_of, Represents}

-- The points without those that have expired.
abbrev pub drop_points : {W : Type 0} → List (TermDocIdPair × ℕ) → Points W → Points W
drop_points results points t d = if expired_in (key_of d t) results then none else points t d

module _ {W : Type 0} ⦃w : Weight W⦄ (m : OrderedMap W) (s : OrderedSet (TermDocIdPair × ℕ)) where
  remove_expired-IsValid :
      (results : List (TermDocIdPair × ℕ)) (b : BaseIndexImpl m)
      → BaseIndex.Posting.IsValid m b
      → BaseIndex.Posting.IsValid m (remove_expired m s results b)
  unfolding remove_expired
  remove_expired-IsValid [] b h = h
  remove_expired-IsValid ((k, u) ∷ results) b h =
      remove_expired-IsValid results _ (remove-IsValid m k.doc_id k.term_id b h)

  remove_expired-pending :
      (results : List (TermDocIdPair × ℕ)) (b : BaseIndexImpl m) (t d : ℕ)
      → BaseIndex.Posting.IsValid m b
      → d ≢ 0
      → pending m (remove_expired m s results b) t d
        ≡ (if expired_in (key_of d t) results then none else pending m b t d)
  unfolding remove_expired
  remove_expired-pending [] b t d h z = refl
  remove_expired-pending ((k, u) ∷ results) b t d h z = ground (
    arith,
    remove_expired-pending results (BaseIndex.remove_internal m k.doc_id k.term_id b).1 t d
        (remove-IsValid m k.doc_id k.term_id b h) z,
    remove-pending m k.doc_id k.term_id b t d h z,
  )

  -- A point that is left after `apply` has an expire time that is still to come.
  left_timed :
      (now : ℕ) (p : PointIndexImpl m s) (points : Points W) (t d : ℕ) (v : W)
      → Represents m s p points
      → let (results, e') = ExpireTable.expire_with_limit s now p.max_size p.expire in
        drop_points results points t d ≡ some v
        → (u : ℕ) × (lookup (key_of d t) e'.expire_map ≡ some u) × (now < u)
  left_timed now p points t d v h q =
      let out = ExpireTable.expire_with_limit s now p.max_size p.expire in
      elim (Bool-cases (expired_in (key_of d t) out.0)) [
        | inl gone ↦ absurd (ground (arith, gone, q))
        | inr stays ↦
            let u = h.tracked t d v (ground (arith, stays, q)) in
            let k = kept_time s now p.max_size p.expire (key_of d t) u.0 h.consistent stays u.1 in
            (u.0, k.0, k.1)
      ]

  -- After `apply` the index represents the points that are not among the expired entries, and
  -- readers see exactly their weights for every valid document; nothing is left pending; the second
  -- count is that of the expired entries.
  pub point_apply_lem :
      (now : ℕ) (p : PointIndexImpl m s) (points : Points W) (t d : ℕ)
      → Represents m s p points
      → d ≢ 0
      → let results = (ExpireTable.expire_with_limit s now p.max_size p.expire).0 in
        let (ret, p') = apply m s now p in
        Represents m s p' (drop_points results points)
        × (visible m p'.base t d ≡ drop_points results points t d)
        × (p'.base.changed_index ≡ [])
        × (ret.1 ≡ length results)
  unfolding apply
  point_apply_lem now p points t d h z =
      let x = expire_with_limit_lem s now p.max_size p.expire h.consistent in
      let out = ExpireTable.expire_with_limit s now p.max_size p.expire in
      let b1 = remove_expired m s out.0 p.base in
      let a = apply_internal_lem m b1 (remove_expired-IsValid out.0 p.base h.base_valid) in
      let swept = λ (u e : ℕ) (y : e ≢ 0).
        let q = remove_expired-pending out.0 p.base u e h.base_valid y in q in
      (
        record {
          base_valid = a.1;
          posted = λ u e y. ground (arith, (a.0 u e).1, swept u e y, h.posted u e y);
          consistent = x.0;
          tracked = λ u e v q. let k = left_timed now p points u e v h q in (k.0, k.1);
        },
        ground (arith, (a.0 t d).0, swept t d z, h.posted t d z),
        a.2,
        refl,
      )

  -- A point of a valid document whose expire time has come is in no posting list after `apply`.
  pub point-expired :
      (now : ℕ) (p : PointIndexImpl m s) (points : Points W) (t d u : ℕ)
      → Represents m s p points
      → d ≢ 0
      → lookup (key_of d t) p.expire.expire_map ≡ some u
      → u ≤ now
      → visible m (apply m s now p).1.base t d ≡ none
  point-expired now p points t d u h z q due = ground (
    arith,
    (point_apply_lem now p points t d h z).1,
    due-expired s now p.max_size p.expire (key_of d t) u h.consistent q due,
  )

  -- What readers see of a valid document after `apply` has an expire time that is still to come.
  pub visible-timed :
      (now : ℕ) (p : PointIndexImpl m s) (points : Points W) (t d : ℕ) (v : W)
      → Represents m s p points
      → d ≢ 0
      → visible m (apply m s now p).1.base t d ≡ some v
      → (u : ℕ) × (lookup (key_of d t) (apply m s now p).1.expire.expire_map ≡ some u) × (now < u)
  unfolding apply
  visible-timed now p points t d v h z q =
      left_timed now p points t d v h (sym (point_apply_lem now p points t d h z).1 ∙ q)

  -- With a maximum size that is not 0, `apply` leaves no more points in the expire table.
  pub point_apply-max_size :
      (now : ℕ) (p : PointIndexImpl m s) (points : Points W)
      → Represents m s p points
      → p.max_size ≢ 0
      → get_expire_table_size m s (apply m s now p).1 ≤ p.max_size
  unfolding apply get_expire_table_size
  point_apply-max_size now p points h z =
      size-expire_with_limit s now p.max_size p.expire h.consistent z
