-- ===== src/Wand/Steps.antt =====
-- What a WAND reader keeps true while it moves its terms, and what moving them leaves as it was.
use red_giant.Prelude.{
  ℕ, ◌≤◌, ◌<◌, ◌≡◌, refl, sym, ◌∙◌, Bool, true, false, List, [], ◌∷◌, map, arith, if◌then◌else◌,
  ◌==◌, contains, Bool-cases, inl, inr, ◌⊎◌,
}
use mathlib.Core.Path.{subst}
use red_giant.Reader.{PostingListReader}
use red_giant.Wand.{WandReader, put, partial_sum, remove_term, move_term, score_before, step_term}
use red_giant.Wand.Sums.{IsDistinct, sum_below}
use red_giant.Wand.Terms.{
  remove_loop_lem, move_loop_lem, insert_term, contains-insert_term, insert_term-IsDistinct,
  IsSorted, insert_term-IsSorted, put-IsSorted, skip, first_of, Ascending, Ascending-weaken,
  skip-Ascending, contains-skip, contains-skip_less, first_of_zero,
}

-- A reader in the state `s` has the documents `docs s` ahead of it or under it: asked for what lies
-- behind `c`, it drops those up to `c`, and gives the first of the others.
pub record Walks {S : Type 0} (reader : PostingListReader S ℕ) (docs : S → List ℕ) : Type 0 where
  pub next_doc : (c : ℕ) (s : S) → (reader.next c s).0 ≡ first_of (skip c (docs s))
  pub next_rest : (c : ℕ) (s : S) → docs (reader.next c s).1 ≡ skip c (docs s)

module _ {S : Type 0} (reader : PostingListReader S ℕ) (docs : S → List ℕ) where
  abbrev pub holds : WandReader S → ℕ → ℕ → Bool
  holds w x i = contains x (docs (w.readers i))

  abbrev pub bound_of : WandReader S → ℕ → ℕ → ℕ
  bound_of w x i = if holds w x i then w.upper_bounds i else 0

  -- The most that a document can score: the upper bounds of the readers that hold it.
  unfoldable pub total : WandReader S → ℕ → ℕ
  total w x = sum_below (bound_of w x) w.readers_size

  -- The terms are the readers that are not at their end, in the order of their cursors, with the
  -- sums of their upper bounds; a cursor is where its reader is, or 0 before it is first moved.
  pub record IsValid (w : WandReader S) : Type 0 where
    pub acc : w.acc_upper_bounds ≡ partial_sum 0 (map w.upper_bounds w.sorted_indexes)
    pub distinct : IsDistinct w.sorted_indexes
    pub in_range : (i : ℕ) → contains i w.sorted_indexes ≡ true → i < w.readers_size
    pub sorted : IsSorted w.reader_cursors w.sorted_indexes
    pub reached :
        (i : ℕ)
        → contains i w.sorted_indexes ≡ true
        → (w.reader_cursors i ≡ 0) ⊎ (w.reader_cursors i ≡ first_of (docs (w.readers i)))
    pub ended :
        (i : ℕ) → i < w.readers_size → contains i w.sorted_indexes ≡ false → docs (w.readers i) ≡ []
    pub ascending : (i : ℕ) → i < w.readers_size → Ascending 0 (docs (w.readers i))

  -- The same readers, with documents up to `c` gone at the most.
  pub record IsLater (c : ℕ) (w w' : WandReader S) : Type 0 where
    pub same_size : w'.readers_size ≡ w.readers_size
    pub same_bounds : w'.upper_bounds ≡ w.upper_bounds
    pub same_threshold : w'.threshold ≡ w.threshold
    pub kept : (i x : ℕ) → c < x → holds w' x i ≡ holds w x i
    pub fewer : (i x : ℕ) → holds w' x i ≡ true → holds w x i ≡ true

  pub IsLater-same : (c : ℕ) (w : WandReader S) → IsLater c w w
  IsLater-same c w = record {
    same_size = refl;
    same_bounds = refl;
    same_threshold = refl;
    kept = λ i x h. refl;
    fewer = λ i x h. h;
  }

  pub IsLater-trans :
      (b c d : ℕ) (u v w : WandReader S)
      → b ≤ d
      → c ≤ d
      → IsLater b u v
      → IsLater c v w
      → IsLater d u w
  IsLater-trans b c d u v w hb hc p q = record {
    same_size = q.same_size ∙ p.same_size;
    same_bounds = q.same_bounds ∙ p.same_bounds;
    same_threshold = q.same_threshold ∙ p.same_threshold;
    kept = λ i x h. q.kept i x (omega arith) ∙ p.kept i x (omega arith);
    fewer = λ i x h. p.fewer i x (q.fewer i x h);
  }

  -- The reader after the term `t`, which stands first, has been moved behind `c`.
  abbrev pub moved : ℕ → ℕ → List ℕ → WandReader S → WandReader S
  moved c t l w =
      let (d, s) = reader.next c (w.readers t) in
      let cursors = put t d w.reader_cursors in
      let sorted = if d == 0 then l else insert_term cursors t l in
      record w {
        readers = put t s w.readers;
        reader_cursors = cursors;
        sorted_indexes = sorted;
        acc_upper_bounds = partial_sum 0 (map w.upper_bounds sorted);
      }

  pub step_term_lem :
      (c t : ℕ) (l : List ℕ) (w : WandReader S)
      → w.sorted_indexes ≡ t ∷ l
      → w.acc_upper_bounds ≡ partial_sum 0 (map w.upper_bounds w.sorted_indexes)
      → step_term reader 0 c w ≡ moved c t l w
  unfolding step_term remove_term move_term score_before partial_sum
  step_term_lem c t l w e a =
      let cursors = put t (reader.next c (w.readers t)).0 w.reader_cursors in
      elim (Bool-cases ((reader.next c (w.readers t)).0 == 0)) [
        | inl z ↦ rw (e, z) (rw (remove_loop_lem w.upper_bounds 0 l) refl)
        | inr z ↦ rw (a, e, z) (rw (move_loop_lem cursors w.upper_bounds t 0 l) refl)
      ]

  module _ (walks : Walks reader docs) where
    docs-put :
        (c t i : ℕ) (w : WandReader S)
        → docs (put t (reader.next c (w.readers t)).1 w.readers i)
          ≡ (if t == i then skip c (docs (w.readers t)) else docs (w.readers i))
    docs-put c t i w = ground (arith, walks.next_rest c (w.readers t))

    pub moved-IsLater : (c t : ℕ) (l : List ℕ) (w : WandReader S) → IsLater c w (moved c t l w)
    moved-IsLater c t l w = record {
      same_size = refl;
      same_bounds = refl;
      same_threshold = refl;
      kept = λ i x h. ground (arith, docs-put c t i w, contains-skip c x (docs (w.readers t)) h);
      fewer =
          λ i x h. ground (arith, docs-put c t i w, contains-skip_less c x (docs (w.readers t)));
    }

    -- The cursor of the term that is moved, against the documents it has then.
    next-zero :
        (c t : ℕ) (w : WandReader S)
        → Ascending 0 (docs (w.readers t))
        → (reader.next c (w.readers t)).0 ≡ 0
        → skip c (docs (w.readers t)) ≡ []
    next-zero c t w a z =
        first_of_zero c (skip c (docs (w.readers t))) (skip-Ascending 0 c (docs (w.readers t)) a)
          (sym (walks.next_doc c (w.readers t)) ∙ z)

    pub moved-IsValid :
        (c t : ℕ) (l : List ℕ) (w : WandReader S)
        → w.sorted_indexes ≡ t ∷ l
        → IsValid w
        → IsValid (moved c t l w)
    moved-IsValid c t l w e v =
        let cursors = put t (reader.next c (w.readers t)).0 w.reader_cursors in
        let d : IsDistinct (t ∷ l) = subst IsDistinct e v.distinct in
        let s : IsSorted w.reader_cursors (t ∷ l) = subst (IsSorted w.reader_cursors) e v.sorted in
        let r = put-IsSorted w.reader_cursors t (reader.next c (w.readers t)).0 l d.0 s.1 in
        let live : (i : ℕ) → contains i (t ∷ l) ≡ contains i w.sorted_indexes = λ i. rw e refl in
        let a : Ascending 0 (docs (w.readers t)) =
          v.ascending t (v.in_range t (sym (live t) ∙ ground arith)) in
        let asc : (i : ℕ)
            → i < w.readers_size
            → Ascending 0 (docs (put t (reader.next c (w.readers t)).1 w.readers i)) =
          λ i h. rw (docs-put c t i w) (elim (Bool-cases (t == i)) [
            | inl q ↦ rw q (Ascending-weaken 0 c _ (omega arith) (skip-Ascending 0 c _ a))
            | inr q ↦ rw q (v.ascending i h)
          ]) in
        elim (Bool-cases ((reader.next c (w.readers t)).0 == 0)) [
          | inl z ↦ rw z (record {
            acc = refl;
            distinct = d.1;
            in_range = λ i h. v.in_range i (ground (arith, live i));
            sorted = r;
            reached = λ i h. ground (arith, live i, v.reached i, d.0, docs-put c t i w);
            ended =
                λ i k h. ground (arith, live i, v.ended i k, docs-put c t i w, next-zero c t w a);
            ascending = asc;
          })
          | inr z ↦ rw z (record {
            acc = refl;
            distinct = insert_term-IsDistinct cursors t l d.0 d.1;
            in_range =
                λ i h. v.in_range i (ground (arith, live i, contains-insert_term cursors t i l));
            sorted = insert_term-IsSorted cursors t l r;
            reached = λ i h. ground (
              arith,
              live i,
              v.reached i,
              contains-insert_term cursors t i l,
              docs-put c t i w,
              walks.next_doc c (w.readers t),
            );
            ended = λ i k h.
                ground (
                  arith,
                  live i,
                  v.ended i k,
                  contains-insert_term cursors t i l,
                  docs-put c t i w,
                );
            ascending = asc;
          })
        ]
