-- ===== src/Wand/Pivot.antt =====
-- The pivot: the first term up to which the upper bounds add up to more than the threshold; and
-- that `step_next` gives one.
use red_giant.Prelude.{
  ℕ, zero, suc, ◌+◌, ◌-◌, ◌≤◌, ◌<◌, ◌≡◌, refl, ap, List, [], ◌∷◌, arith, ltb, ◌==◌, length, take,
  drop, length-drop, Bool-cases, inl, inr, ◌⊎◌,
}
use red_giant.Reader.{PostingListReader}
use red_giant.Wand.{
  WandReader, nth, put, partial_sum, step_loop, pick_term, find_pivot, upper_bound_of,
}
use red_giant.Wand.Sums.{
  sum, nth-partial_sum, length-partial_sum, sum-take_mono, nth-drop, upper_bound_of-le,
  upper_bound_of-above, upper_bound_of-below,
}
use red_giant.Wand.Terms.{insert_term}
use red_giant.Wand.Steps.{
  Walks, IsValid, IsLater, IsLater-same, IsLater-trans, moved, step_term_lem, moved-IsLater,
  moved-IsValid,
}

pub record IsPivot {S : Type 0} (p : ℕ) (w : WandReader S) : Type 0 where
  pub in_reach : p ≤ length w.acc_upper_bounds
  pub above : p < length w.acc_upper_bounds → w.threshold < nth p w.acc_upper_bounds
  pub below : (i : ℕ) → i < p → nth i w.acc_upper_bounds ≤ w.threshold

pub find_pivot-IsPivot :
    {S : Type 0} (from : ℕ) (w : WandReader S)
    → from ≤ length w.acc_upper_bounds
    → ((i : ℕ) → i < from → nth i w.acc_upper_bounds ≤ w.threshold)
    → IsPivot (find_pivot from w) w
unfolding find_pivot
find_pivot-IsPivot from w h b =
    let acc = w.acc_upper_bounds in
    let k = upper_bound_of w.threshold (drop from acc) in
    let len = length-drop from acc in
    record {
      in_reach = omega (arith, upper_bound_of-le w.threshold (drop from acc), len);
      above = λ g. omega (
        arith,
        upper_bound_of-above w.threshold (drop from acc) (omega (arith, len)),
        nth-drop from k acc,
      );
      below = λ i g. elim (Bool-cases (ltb i from)) [
        | inl e ↦ b i (ground arith)
        | inr e ↦
            let back = upper_bound_of-below w.threshold (i - from) (drop from acc) (ground arith) in
            let place : from + (i - from) ≡ i = ground arith in
            omega (arith, back, nth-drop from (i - from) acc, ap (λ (j : ℕ). nth j acc) place)
      ];
    }

abbrev pub Cons-cases : (l : List ℕ) → (l ≡ []) ⊎ ((t : ℕ) × (r : List ℕ) × (l ≡ t ∷ r))
Cons-cases [] = inl refl
Cons-cases (t ∷ r) = inr (t, r, refl)

pub length-insert_term :
    (f : ℕ → ℕ) (t : ℕ) (l : List ℕ) → length (insert_term f t l) ≡ suc (length l)
unfolding insert_term
length-insert_term f t [] = refl
length-insert_term f t (i ∷ l) = ground (arith, length-insert_term f t l)

module _ {S : Type 0} (reader : PostingListReader S ℕ) (docs : S → List ℕ) where
  pub length-acc :
      (w : WandReader S)
      → IsValid reader docs w
      → length w.acc_upper_bounds ≡ length w.sorted_indexes
  length-acc w v = rw v.acc (length-partial_sum w.upper_bounds 0 w.sorted_indexes)

  pub nth-acc :
      (p : ℕ) (w : WandReader S)
      → IsValid reader docs w
      → p < length w.sorted_indexes
      → nth p w.acc_upper_bounds ≡ sum w.upper_bounds (take (suc p) w.sorted_indexes)
  nth-acc p w v h = rw v.acc (omega (arith, nth-partial_sum w.upper_bounds p 0 w.sorted_indexes h))

  -- The sums ascend, so one that is not above the threshold has none before it that is.
  acc_mono :
      (i p : ℕ) (w : WandReader S)
      → IsValid reader docs w
      → p < length w.sorted_indexes
      → i ≤ p
      → nth i w.acc_upper_bounds ≤ nth p w.acc_upper_bounds
  acc_mono i p w v h g = omega (
    arith,
    nth-acc i w v (omega arith),
    nth-acc p w v h,
    sum-take_mono w.upper_bounds (suc i) (suc p) w.sorted_indexes (omega arith),
  )

  -- Where a sum is above the threshold, there is a first term.
  pub first_term :
      (p : ℕ) (w : WandReader S)
      → IsValid reader docs w
      → w.threshold < nth p w.acc_upper_bounds
      → (t : ℕ) × (l : List ℕ) × (w.sorted_indexes ≡ t ∷ l)
  unfolding partial_sum
  first_term p w v h = elim (Cons-cases w.sorted_indexes) [
    | inr c ↦ c
    | inl e ↦ absurd (ground (arith, v.acc, e))
  ]

  length-moved :
      (c t : ℕ) (l : List ℕ) (w : WandReader S)
      → length l ≤ length (moved reader docs c t l w).sorted_indexes
  length-moved c t l w = elim (Bool-cases ((reader.next c (w.readers t)).0 == 0)) [
    | inl e ↦ rw e (omega arith)
    | inr e ↦
        rw (e, length-insert_term (put t (reader.next c (w.readers t)).0 w.reader_cursors) t l)
          (omega arith)
  ]

  module _ (walks : Walks reader docs) where
    -- What `step_next` is left with: the same readers, less documents up to the cursor, and a pivot.
    pub record Steps (c : ℕ) (w : WandReader S) (r : ℕ × WandReader S) : Type 0 where
      pub valid : IsValid reader docs r.1
      pub later : IsLater reader docs c w r.1
      pub pivot : IsPivot r.0 r.1

    pub step_loop-Steps :
        (p c : ℕ) (w : WandReader S)
        → IsValid reader docs w
        → p ≤ length w.sorted_indexes
        → Steps c w (step_loop reader p c w)
    unfolding step_loop pick_term
    step_loop-Steps zero c w v h = record {
      valid = v;
      later = IsLater-same reader docs c w;
      pivot = find_pivot-IsPivot 0 w (omega arith) (λ i k. absurd (omega arith));
    }
    step_loop-Steps (suc p) c w v h =
        elim (Bool-cases (ltb w.threshold (nth p w.acc_upper_bounds))) [
          | inr e ↦
              rw (e, step_loop)
                (record {
                  valid = v;
                  later = IsLater-same reader docs c w;
                  pivot =
                      find_pivot-IsPivot (suc p) w (omega (arith, length-acc w v))
                        (λ i k. ground (arith, acc_mono i p w v (omega arith) (omega arith)));
                })
          | inl e ↦
              let (t, l, s) = first_term p w v (ground arith) in
              let w1 = moved reader docs c t l w in
              let rest =
                step_loop-Steps p c w1 (moved-IsValid reader docs walks c t l w s v)
                  (omega (arith, length-moved c t l w, ap length s)) in
              rw (e, step_loop, step_term_lem reader docs c t l w s v.acc)
                (record {
                  valid = rest.valid;
                  later =
                      IsLater-trans reader docs c c c w w1 _ (omega arith) (omega arith)
                        (moved-IsLater reader docs walks c t l w) rest.later;
                  pivot = rest.pivot;
                })
        ]
