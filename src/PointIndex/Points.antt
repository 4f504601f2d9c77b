-- ===== src/PointIndex/Points.antt =====
-- The points that an index stands for: for each term and document the weight of the last update,
-- until it expires. What updates do to them.
use red_giant.Prelude.{
  ℕ, ◌+◌, ◌≡◌, ◌≢◌, refl, ◌∙◌, ◌&&◌, Option, some, List, [], ◌∷◌, arith, if◌then◌else◌, ◌==◌,
  Bool-cases, inl, inr,
}
use red_giant.Key.{nat_key}
use red_giant.Key.Assoc.{lookup, lookup-assign}
use red_giant.Weight.{Weight}
use red_giant.Container.{OrderedMap, OrderedSet}
use red_giant.BaseIndex
use red_giant.BaseIndex.{BaseIndexImpl}
use red_giant.BaseIndex.Posting.{visible, pending}
use red_giant.BaseIndex.Changes.{
  create_update-IsValid, create_update-result, create_update-index, create_update-pending,
}
use red_giant.ExpireTable
use red_giant.ExpireTable.Pairs.{pair_key}
use red_giant.ExpireTable.Consistent.{IsConsistent, changes-IsConsistent}
use red_giant.PointIndex.TermDoc.{TermDocIdPair, term_doc_key, same_term_doc}
use red_giant.PointIndex.{PointIndexImpl, update, update_expire_internal, batch_update}

abbrev pub Points : Type 0 → Type 0
Points W = ℕ → ℕ → Option W

-- The points with one of them given anew.
abbrev pub set_point : {W : Type 0} → ℕ → ℕ → W → Points W → Points W
set_point d t v points u e = if (t == u) && (d == e) then some v else points u e

abbrev pub key_of : ℕ → ℕ → TermDocIdPair
key_of d t = record { term_id = t; doc_id = d }

module _ {W : Type 0} ⦃w : Weight W⦄ (m : OrderedMap W) (s : OrderedSet (TermDocIdPair × ℕ)) where
  -- The posting lists to come hold the points, and every point has an expire time.
  pub record Represents (p : PointIndexImpl m s) (points : Points W) : Type 0 where
    pub base_valid : BaseIndex.Posting.IsValid m p.base
    pub posted : (t d : ℕ) → d ≢ 0 → pending m p.base t d ≡ points t d
    pub consistent : IsConsistent s p.expire
    pub tracked :
        (t d : ℕ) (v : W)
        → points t d ≡ some v
        → (u : ℕ) × (lookup (key_of d t) p.expire.expire_map ≡ some u)

  tracked-update :
      (d t u : ℕ) (v : W) (p : PointIndexImpl m s) (points : Points W) (t' d' : ℕ) (v' : W)
      → Represents p points
      → set_point d t v points t' d' ≡ some v'
      → (x : ℕ) × (lookup (key_of d' t') (ExpireTable.update s (key_of d t) u p.expire).1.expire_map
          ≡ some x)
  unfolding ExpireTable.update
  tracked-update d t u v p points t' d' v' h q =
      let now_there = lookup-assign (key_of d t) (key_of d' t') u p.expire.expire_map in
      elim (Bool-cases (same_term_doc (key_of d t) (key_of d' t'))) [
        | inl same ↦ (u, ground (arith, now_there, same))
        | inr other ↦
            let x = h.tracked t' d' v' (ground (arith, other, q)) in
            (x.0, ground (arith, x.1, now_there, other))
      ]

  -- One update: the point has the new weight and no other changes, the count is 1 (0 for the
  -- invalid document), and readers see what they saw.
  pub point_update_lem :
      (d t u : ℕ) (v : W) (p : PointIndexImpl m s) (points : Points W)
      → Represents p points
      → let (ret, p') = update m s d t v u p in
        Represents p' (set_point d t v points)
        × (ret ≡ (if d == 0 then 0 else 1))
        × (p'.base.index ≡ p.base.index)
  unfolding update update_expire_internal
  point_update_lem d t u v p points h = (
    record {
      base_valid = create_update-IsValid m d t v p.base h.base_valid;
      posted = λ t' e z.
          ground (arith, create_update-pending m d t v p.base t' e h.base_valid z, h.posted t' e z);
      consistent = (changes-IsConsistent s (key_of d t) u p.expire h.consistent).0;
      tracked = λ t' e v' q. tracked-update d t u v p points t' e v' h q;
    },
    create_update-result m d t v p.base h.base_valid,
    create_update-index m d t v p.base,
  )

  abbrev pub set_points : List (ℕ × ℕ × W × ℕ) → Points W → Points W
  set_points [] points = points
  set_points ((d, t, v, u) ∷ batch) points = set_points batch (set_point d t v points)

  abbrev pub points_counted : List (ℕ × ℕ × W × ℕ) → ℕ
  points_counted [] = 0
  points_counted ((d, t, v, u) ∷ batch) = (if d == 0 then 0 else 1) + points_counted batch

  -- A batch of updates: every point has the last weight that the batch gives it, the count is the
  -- number of updates of valid documents, and readers see what they saw.
  pub point_batch_update_lem :
      (batch : List (ℕ × ℕ × W × ℕ)) (p : PointIndexImpl m s) (points : Points W)
      → Represents p points
      → let (ret, p') = batch_update m s batch p in
        Represents p' (set_points batch points)
        × (ret ≡ points_counted batch)
        × (p'.base.index ≡ p.base.index)
  unfolding batch_update
  point_batch_update_lem [] p points h = (h, refl, refl)
  point_batch_update_lem ((d, t, v, u) ∷ batch) p points h =
      let x = point_update_lem d t u v p points h in
      let y = point_batch_update_lem batch (update m s d t v u p).1 (set_point d t v points) x.0 in
      (y.0, omega (arith, x.1, y.1), y.2 ∙ x.2)
