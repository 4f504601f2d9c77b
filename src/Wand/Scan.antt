-- ===== src/Wand/Scan.antt =====
-- The scores of the documents while a WAND reader goes through them: what `next`, `read` and a new
-- threshold leave as it was.
use red_giant.Prelude.{
  ℕ, zero, suc, ◌≤◌, ◌<◌, ◌≡◌, ◌≢◌, refl, sym, ap, ◌∙◌, true, some, List, arith, if◌then◌else◌,
  contains, Bool-cases, inl, inr,
}
use red_giant.Weight.{nat_weight}
use red_giant.Reader.{PostingListReader}
use red_giant.Wand.{WandReader, nth, next, read, read_loop, set_threshold}
use red_giant.Wand.Sums.{sum_below, sum_below_mono}
use red_giant.Wand.Terms.{first_of}
use red_giant.Wand.Steps.{IsValid, holds, total}
use red_giant.Wand.Next.{sorted_first, cursor-le}
use red_giant.Wand.Fuel.{work, ahead}
use red_giant.Wand.Least.{IsLeast}
use red_giant.Wand.Start.{read-score_of, score_of, set_threshold-IsValid}
use red_giant.Wand.Carried.{next-All, read_loop-All}

-- The weight of each document in a state of a reader that is `Fine`: `next` and `read` change
-- nothing in it, and `read` gives that of the document that the reader is at, and stays there.
pub record Weighs {S : Type 0} (reader : PostingListReader S ℕ) (docs : S → List ℕ)
    (weights : S → ℕ → ℕ) (Fine : S → Type 0) : Type 0 where
  pub next_fine : (c : ℕ) (s : S) → Fine s → Fine (reader.next c s).1
  pub next_weights : (c x : ℕ) (s : S) → Fine s → weights (reader.next c s).1 x ≡ weights s x
  pub read_fine : (s : S) → Fine s → Fine (reader.read s).1
  pub read_weights : (x : ℕ) (s : S) → Fine s → weights (reader.read s).1 x ≡ weights s x
  pub read_docs : (s : S) → Fine s → docs (reader.read s).1 ≡ docs s
  pub read_weight : (s : S) → Fine s → (reader.read s).0 ≡ weights s (first_of (docs s))

module _ {S : Type 0} (reader : PostingListReader S ℕ) (docs : S → List ℕ)
    (weights : S → ℕ → ℕ) where
  -- The sum of the weights of a document in the readers that hold it.
  abbrev pub share : WandReader S → ℕ → ℕ → ℕ
  share w x i = if holds reader docs w x i then weights (w.readers i) x else 0

  abbrev pub score : WandReader S → ℕ → ℕ
  score w x = sum_below (share w x) w.readers_size

module _ {S : Type 0} (reader : PostingListReader S ℕ) (docs : S → List ℕ) (weights : S → ℕ → ℕ)
    (Fine : S → Type 0) where
  -- The state of the scan that began with `w0`, with the documents up to `current` dealt with.
  pub record Scanned (w0 : WandReader S) (current : ℕ) (w : WandReader S) : Type 0 where
    pub valid : IsValid reader docs w
    pub same_size : w.readers_size ≡ w0.readers_size
    pub same_bounds : w.upper_bounds ≡ w0.upper_bounds
    pub fine : (i : ℕ) → Fine (w.readers i)
    pub same_weights : (i x : ℕ) → weights (w.readers i) x ≡ weights (w0.readers i) x
    pub ahead : (i x : ℕ) → current < x → holds reader docs w x i ≡ holds reader docs w0 x i
    pub less : work reader docs w ≤ work reader docs w0

  sum_below-same :
      (f g : ℕ → ℕ) (n : ℕ) → ((i : ℕ) → i < n → f i ≡ g i) → sum_below f n ≡ sum_below g n
  sum_below-same f g zero h = refl
  sum_below-same f g (suc n) h =
      omega (arith, h n (omega arith), sum_below-same f g n (λ i k. h i (omega arith)))

  pub score-ahead :
      (w0 w : WandReader S) (current x : ℕ)
      → Scanned w0 current w
      → current < x
      → score reader docs weights w x ≡ score reader docs weights w0 x
  score-ahead w0 w current x s h =
      rw (s.same_size)
        (sum_below-same _ _ w0.readers_size (λ i k. rw (s.ahead i x h, s.same_weights i x) refl))

  -- No document scores more than the upper bounds of the readers that hold it.
  pub score-le-total :
      (w0 w : WandReader S) (current x : ℕ)
      → Scanned w0 current w
      → ((i y : ℕ)
          → i < w0.readers_size
          → holds reader docs w0 y i ≡ true
          → weights (w0.readers i) y ≤ w0.upper_bounds i)
      → current < x
      → score reader docs weights w x ≤ total reader docs w x
  unfolding total
  score-le-total w0 w current x s b h = sum_below_mono _ _ w.readers_size (λ i k.
      let bound : holds reader docs w x i ≡ true → weights (w.readers i) x ≤ w.upper_bounds i = λ t.
        rw (s.same_weights i x, s.same_bounds)
          (b i x (rw (← s.same_size) k) (sym (s.ahead i x h) ∙ t)) in
      elim (Bool-cases (holds reader docs w x i)) [
        | inl t ↦ rw t (bound t)
        | inr t ↦ rw t (omega arith)
      ])

  -- Other states of the readers with the same documents and weights.
  with_readers :
      (w0 w : WandReader S) (current : ℕ) (readers : ℕ → S)
      → ((i : ℕ) → docs (readers i) ≡ docs (w.readers i))
      → ((i x : ℕ) → weights (readers i) x ≡ weights (w0.readers i) x)
      → ((i : ℕ) → Fine (readers i))
      → Scanned w0 current w
      → Scanned w0 current (record w { readers = readers })
  unfolding work ahead
  with_readers w0 w current readers d g o s = record {
    valid = record {
      acc = s.valid.acc;
      distinct = s.valid.distinct;
      in_range = s.valid.in_range;
      sorted = s.valid.sorted;
      reached = λ i h. rw (d i) (s.valid.reached i h);
      ended = λ i k h. d i ∙ s.valid.ended i k h;
      ascending = λ i k. rw (d i) (s.valid.ascending i k);
    };
    same_size = s.same_size;
    same_bounds = s.same_bounds;
    fine = o;
    same_weights = g;
    ahead = λ i x h. rw (d i) (s.ahead i x h);
    less = omega (
      arith,
      s.less,
      sum_below-same (ahead reader docs (record w { readers = readers })) (ahead reader docs w)
          w.readers_size (λ i k. rw (d i) refl),
    );
  }

  pub read-Scanned :
      (w0 w : WandReader S) (current : ℕ)
      → Weighs reader docs weights Fine
      → Scanned w0 current w
      → Scanned w0 current (read reader w).1
  unfolding read
  read-Scanned w0 w current g s =
      let d = w.reader_cursors (nth 0 w.sorted_indexes) in
      let kept =
        read_loop-All reader
          (λ i s.
            (docs s ≡ docs (w.readers i))
            × ((x : ℕ) → weights s x ≡ weights (w0.readers i) x)
            × Fine s)
          (λ i s h.
            (g.read_docs s h.2 ∙ h.0, λ x. g.read_weights x s h.2 ∙ h.1 x, g.read_fine s h.2))
          w.reader_cursors d w.sorted_indexes 0 w.readers
          (λ i. (refl, s.same_weights i, s.fine i)) in
      with_readers w0 w current (read_loop reader w.reader_cursors d w.sorted_indexes 0 w.readers).1
        (λ i. (kept i).0) (λ i. (kept i).1) (λ i. (kept i).2) s

  pub set_threshold-Scanned :
      (t : ℕ) (w0 w : WandReader S) (current : ℕ)
      → Scanned w0 current w
      → Scanned w0 current (set_threshold t w)
  unfolding set_threshold work ahead
  set_threshold-Scanned t w0 w current s = record {
    valid = set_threshold-IsValid reader docs t w s.valid;
    same_size = s.same_size;
    same_bounds = s.same_bounds;
    fine = s.fine;
    same_weights = s.same_weights;
    ahead = s.ahead;
    less = s.less;
  }

  pub next-Scanned :
      (fuel current d c : ℕ) (w0 w w' : WandReader S)
      → Weighs reader docs weights Fine
      → Scanned w0 current w
      → next reader fuel current w ≡ some (d, w')
      → IsLeast reader docs w current d w'
      → d ≢ 0
      → d ≤ suc c
      → Scanned w0 c w'
  next-Scanned fuel current d c w0 w w' g s e l n k =
      let later = l.later.1 in
      let kept =
        next-All reader (λ i s. ((x : ℕ) → weights s x ≡ weights (w0.readers i) x) × Fine s)
          (λ i c s h. (λ x. g.next_weights c x s h.1 ∙ h.0 x, g.next_fine c s h.1)) fuel current d w
          w' (λ i. (s.same_weights i, s.fine i)) e in
      record {
        valid = l.valid;
        same_size = later.same_size ∙ s.same_size;
        same_bounds = later.same_bounds ∙ s.same_bounds;
        fine = λ i. (kept i).1;
        same_weights = λ i. (kept i).0;
        ahead =
            λ i x h. (l.found n).2 i x (omega arith) ∙ s.ahead i x (omega (arith, (l.found n).0));
        less = omega (arith, l.less, s.less);
      }

  -- A reader that holds the document of the first term is there too.
  at_document :
      (d i : ℕ) (w : WandReader S)
      → IsValid reader docs w
      → d ≢ 0
      → w.reader_cursors (nth 0 w.sorted_indexes) ≡ d
      → i < w.readers_size
      → holds reader docs w d i ≡ true
      → first_of (docs (w.readers i)) ≡ d
  at_document d i w v n e k t = elim (Bool-cases (contains i w.sorted_indexes)) [
    | inr c ↦ absurd (ground (arith, t, ap (contains d) (v.ended i k c)))
    | inl c ↦ elim (v.reached i c) [
      | inl z ↦
          absurd
            (n (omega (arith, e, z, sorted_first w.reader_cursors i w.sorted_indexes v.sorted c)))
      | inr f ↦ omega (
        arith,
        f,
        e,
        sorted_first w.reader_cursors i w.sorted_indexes v.sorted c,
        cursor-le reader docs d i w v c t,
      )
    ]
  ]

  -- `read` gives the score of the document that the first term is at.
  pub read-score :
      (d : ℕ) (w : WandReader S)
      → Weighs reader docs weights Fine
      → IsValid reader docs w
      → ((i : ℕ) → Fine (w.readers i))
      → d ≢ 0
      → w.reader_cursors (nth 0 w.sorted_indexes) ≡ d
      → (read reader w).0 ≡ score reader docs weights w d
  unfolding score_of
  read-score d w g v o n e =
      let weight : S → ℕ = λ s. (reader.read s).0 in
      let share' : ℕ → ℕ = λ i. if holds reader docs w d i then weight (w.readers i) else 0 in
      read-score_of reader docs weight w (λ s. refl) v (λ z. n (sym e ∙ z))
      ∙ ap (score_of reader docs weight w) e
      ∙ sum_below-same share' (share reader docs weights w d) w.readers_size (λ i k.
        elim (Bool-cases (holds reader docs w d i)) [
          | inr t ↦ rw t refl
          | inl t ↦ rw t (
              g.read_weight (w.readers i) (o i)
              ∙ ap (weights (w.readers i)) (at_document d i w v n e k t))
        ])
