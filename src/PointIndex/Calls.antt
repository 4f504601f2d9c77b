-- ===== src/PointIndex/Calls.antt =====
-- Every sequence of calls on a point index, from the constructor on.
use red_giant.Prelude.{ℕ, ◌≡◌, ◌≢◌, refl, ◌∙◌, none, List, arith}
use red_giant.Key.{nat_key}
use red_giant.Weight.{Weight}
use red_giant.Container.{OrderedMap, OrderedSet}
use red_giant.BaseIndex.Posting.{visible, visible-index, pending}
use red_giant.ExpireTable
use red_giant.ExpireTable.Pairs.{pair_key}
use red_giant.PointIndex.TermDoc.{TermDocIdPair, term_doc_key}
use red_giant.PointIndex.{PointIndexImpl, empty_index, update, batch_update, apply}
use red_giant.PointIndex.Points.{
  Points, set_point, set_points, Represents, point_update_lem, point_batch_update_lem,
}
use red_giant.PointIndex.Sweeping.{drop_points, point_apply_lem}

module _ {W : Type 0} ⦃w : Weight W⦄ (m : OrderedMap W) (s : OrderedSet (TermDocIdPair × ℕ)) where
  abbrev pub no_points : Points W
  no_points t d = none

  -- The calls that lead to an index, the points that it then stands for, and the points that its
  -- readers see.
  pub data Called : PointIndexImpl m s → Points W → Points W → Type 0 where
    created : (max_size : ℕ) → Called (empty_index m s max_size) no_points no_points
    updated :
        {p : PointIndexImpl m s} {points seen : Points W} (d t u : ℕ) (v : W)
        → Called p points seen
        → Called (update m s d t v u p).1 (set_point d t v points) seen
    batch_updated :
        {p : PointIndexImpl m s} {points seen : Points W} (batch : List (ℕ × ℕ × W × ℕ))
        → Called p points seen
        → Called (batch_update m s batch p).1 (set_points m s batch points) seen
    applied :
        {p : PointIndexImpl m s} {points seen : Points W} (now : ℕ)
        → Called p points seen
        → Called
            (apply m s now p).1
            (drop_points (ExpireTable.expire_with_limit s now p.max_size p.expire).0 points)
            (drop_points (ExpireTable.expire_with_limit s now p.max_size p.expire).0 points)

  empty-Represents : (max_size : ℕ) → Represents m s (empty_index m s max_size) no_points
  unfolding pending
  empty-Represents max_size = record {
    base_valid = record { unique = tt; open_lists = λ t f. ground arith };
    posted = λ t d z. refl;
    consistent = λ k t. rw s.items-empty refl;
    tracked = λ t d v. ground arith;
  }

  -- Whatever is called on a new point index, and in whatever order: it stands for the points that
  -- the updates and expiries leave, and for every term and every valid document its readers see the
  -- point as it was at the last `apply`.
  pub called_lem :
      (p : PointIndexImpl m s) (points seen : Points W) (t d : ℕ)
      → Called p points seen
      → d ≢ 0
      → Represents m s p points × (visible m p.base t d ≡ seen t d)
  unfolding visible
  called_lem q q_points q_seen t d (created max_size) z = (empty-Represents max_size, refl)
  called_lem q q_points q_seen t d (updated {p} {points} {seen} e k u v h) z =
      let x = called_lem p points seen t d h z in
      let y = point_update_lem m s e k u v p points x.0 in
      (y.0, visible-index m p.base (update m s e k v u p).1.base t d y.2 ∙ x.1)
  called_lem q q_points q_seen t d (batch_updated {p} {points} {seen} batch h) z =
      let x = called_lem p points seen t d h z in
      let y = point_batch_update_lem m s batch p points x.0 in
      (y.0, visible-index m p.base (batch_update m s batch p).1.base t d y.2 ∙ x.1)
  called_lem q q_points q_seen t d (applied {p} {points} {seen} now h) z =
      let x = called_lem p points seen t d h z in
      let y = point_apply_lem m s now p points t d x.0 z in (y.0, y.1)
