-- ===== src/Tests/Points.antt =====
-- The theorems on the point index at concrete inputs.
use red_giant.Prelude.{ℕ, ◌≡◌, none, some, [], arith, length}
use red_giant.Key.{nat_key}
use red_giant.Key.Assoc
use red_giant.Key.Assoc.{lookup}
use red_giant.Weight.{nat_weight}
use red_giant.Container.{OrderedSet}
use red_giant.Container.SortedSet
use red_giant.Container.SortedMap.{sorted_set}
use red_giant.BaseIndex.Posting.{visible}
use red_giant.ExpireTable
use red_giant.ExpireTable.Pairs
use red_giant.ExpireTable.Pairs.{pair_key}
use red_giant.PointIndex
use red_giant.PointIndex.{PointIndexImpl}
use red_giant.PointIndex.TermDoc
use red_giant.PointIndex.TermDoc.{TermDocIdPair, term_doc_key}
use red_giant.PointIndex.Points.{Points, set_point, Represents, point_update_lem}
use red_giant.PointIndex.Sweeping.{drop_points, point_apply_lem}
use red_giant.PointIndex.Calls.{Called, called_lem, no_points}
use red_giant.Tests.Lists.{map}

abbrev pairs : OrderedSet (TermDocIdPair × ℕ)
pairs = sorted_set

-- Document 3 has the weight 5 under term 10 until 7, and document 4 the weight 6 until 9.
abbrev two_points : PointIndexImpl map pairs
two_points =
    (PointIndex.update map pairs 4 10 6 9
      (PointIndex.update map pairs 3 10 5 7 (PointIndex.empty_index map pairs 2)).1).1

abbrev point_view : Points ℕ
point_view = set_point 4 10 6 (set_point 3 10 5 (no_points map pairs))

two-Called : Called map pairs two_points point_view (no_points map pairs)
two-Called = Called.updated 4 10 9 6 (Called.updated 3 10 7 5 (Called.created 2))

called_lem_example :
    Represents map pairs two_points point_view × (visible map two_points.base 10 3 ≡ none)
called_lem_example =
    called_lem map pairs two_points point_view (no_points map pairs) 10 3 two-Called (omega arith)

two_points-Represents : Represents map pairs two_points point_view
two_points-Represents =
    (called_lem map pairs two_points point_view (no_points map pairs) 10 4 two-Called
      (omega arith)).0

point_update_lem_example :
    let (ret, p') = PointIndex.update map pairs 3 11 8 20 two_points in
    Represents map pairs p' (set_point 3 11 8 point_view)
    × (ret ≡ 1)
    × (p'.base.index ≡ two_points.base.index)
point_update_lem_example =
    point_update_lem map pairs 3 11 20 8 two_points point_view two_points-Represents

point_apply_lem_example :
    let results = (ExpireTable.expire_with_limit pairs 8 two_points.max_size two_points.expire).0 in
    let (ret, p') = PointIndex.apply map pairs 8 two_points in
    Represents map pairs p' (drop_points results point_view)
    × (visible map p'.base 10 4 ≡ drop_points results point_view 10 4)
    × (p'.base.changed_index ≡ [])
    × (ret.1 ≡ length results)
point_apply_lem_example =
    point_apply_lem map pairs 8 two_points point_view 10 4 two_points-Represents (omega arith)

four_visible : visible map (PointIndex.apply map pairs 8 two_points).1.base 10 4 ≡ some 6
unfolding PointIndex.update PointIndex.update_expire_internal ExpireTable.update Assoc.assign
    ExpireTable.expire_with_limit ExpireTable.expire_internal ExpireTable.expire_mid
    ExpireTable.expire_min_count ExpireTable.sweep ExpireTable.sweep_both SortedSet.upper_bound
    SortedSet.insert Pairs.pair_less TermDoc.term_doc_less
four_visible =
    (point_apply_lem map pairs 8 two_points point_view 10 4 two_points-Represents (omega arith)).1
