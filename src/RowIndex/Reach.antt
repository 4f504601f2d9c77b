-- ===== src/RowIndex/Reach.antt =====
-- Every sequence of calls on an index, from the constructor on: what the index then stands for, and
-- what its readers see, which is what it stood for at the last `apply`.
use red_giant.Prelude.{ℕ, ◌≡◌, ◌≢◌, refl, ◌∙◌, List, [], arith}
use red_giant.Key.{nat_key}
use red_giant.Weight.{Weight}
use red_giant.Container.{OrderedMap, OrderedSet}
use red_giant.BaseIndex.Posting.{visible, visible-index, pending}
use red_giant.ExpireTable
use red_giant.ExpireTable.Pairs.{pair_key}
use red_giant.RowIndex.{
  RowIndexImpl, empty_index, update, batch_update, remove, batch_remove, apply,
}
use red_giant.RowIndex.Docterm.{last_weight}
use red_giant.RowIndex.Rows.{Rows, set_row, Represents}
use red_giant.RowIndex.Batch.{set_rows, clear_rows, update_lem, batch_update_lem, batch_remove_lem}
use red_giant.RowIndex.Expiry.{drop_rows, apply_lem}

module _ {W : Type 0} ⦃w : Weight W⦄ (m : OrderedMap W) (s : OrderedSet (ℕ × ℕ)) where
  abbrev pub no_rows : Rows W
  no_rows d = []

  -- The calls that lead to an index, the rows that it then stands for, and the rows that its
  -- readers see.
  pub data Reaches : RowIndexImpl m s → Rows W → Rows W → Type 0 where
    start : (max_size : ℕ) → Reaches (empty_index m s max_size) no_rows no_rows
    updates :
        {r : RowIndexImpl m s} {rows seen : Rows W} (d t : ℕ) (l : List (ℕ × W))
        → Reaches r rows seen
        → Reaches (update m s d l t r).1 (set_row d l rows) seen
    batch_updates :
        {r : RowIndexImpl m s} {rows seen : Rows W} (batch : List (ℕ × List (ℕ × W) × ℕ))
        → Reaches r rows seen
        → Reaches (batch_update m s batch r).1 (set_rows m s batch rows) seen
    removes :
        {r : RowIndexImpl m s} {rows seen : Rows W} (d : ℕ)
        → Reaches r rows seen
        → Reaches (remove m s d r).1 (set_row d [] rows) seen
    batch_removes :
        {r : RowIndexImpl m s} {rows seen : Rows W} (ds : List ℕ)
        → Reaches r rows seen
        → Reaches (batch_remove m s ds r).1 (clear_rows m s ds rows) seen
    applies :
        {r : RowIndexImpl m s} {rows seen : Rows W} (now : ℕ)
        → Reaches r rows seen
        → Reaches
            (apply m s now r).1
            (drop_rows (ExpireTable.expire_with_limit s now r.max_size r.expire).0 rows)
            (drop_rows (ExpireTable.expire_with_limit s now r.max_size r.expire).0 rows)

  empty-Represents : (max_size : ℕ) → Represents m s (empty_index m s max_size) no_rows
  unfolding pending
  empty-Represents max_size = record {
    posts = record {
      base_valid = record { unique = tt; open_lists = λ t f. ground arith };
      posted = λ t d z. refl;
      known = λ d. refl;
    };
    consistent = λ k t. rw s.items-empty refl;
    tracked = λ d ts. ground arith;
  }

  -- Whatever is called on a new index, and in whatever order: it stands for the rows that the
  -- updates, removals and expiries leave, and for every term and every valid document its readers
  -- see the weight of the row at the time of the last `apply`.
  pub reached_lem :
      (r : RowIndexImpl m s) (rows seen : Rows W) (t d : ℕ)
      → Reaches r rows seen
      → d ≢ 0
      → Represents m s r rows × (visible m r.base t d ≡ last_weight t (seen d))
  unfolding visible
  reached_lem q q_rows q_seen t d (start max_size) z = (empty-Represents max_size, refl)
  reached_lem q q_rows q_seen t d (updates {r} {rows} {seen} e u l h) z =
      let x = reached_lem r rows seen t d h z in
      let y = update_lem m s e u l r rows x.0 in
      (y.0, visible-index m r.base (update m s e l u r).1.base t d y.2 ∙ x.1)
  reached_lem q q_rows q_seen t d (batch_updates {r} {rows} {seen} batch h) z =
      let x = reached_lem r rows seen t d h z in
      let y = batch_update_lem m s batch r rows x.0 in
      (y.0, visible-index m r.base (batch_update m s batch r).1.base t d y.2 ∙ x.1)
  reached_lem q q_rows q_seen t d (removes {r} {rows} {seen} e h) z =
      let x = reached_lem r rows seen t d h z in
      let y = batch_remove_lem m s e [] r rows x.0 in
      (y.0, visible-index m r.base (remove m s e r).1.base t d y.1 ∙ x.1)
  reached_lem q q_rows q_seen t d (batch_removes {r} {rows} {seen} ds h) z =
      let x = reached_lem r rows seen t d h z in
      let y = batch_remove_lem m s 0 ds r rows x.0 in
      (y.2, visible-index m r.base (batch_remove m s ds r).1.base t d y.3 ∙ x.1)
  reached_lem q q_rows q_seen t d (applies {r} {rows} {seen} now h) z =
      let x = reached_lem r rows seen t d h z in
      let y = apply_lem m s now r rows t d x.0 z in (y.0, y.1)
