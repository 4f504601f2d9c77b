-- ===== src/Wand/Least.antt =====
-- `next` returns, and what it returns is the least document behind the current one that can score
-- more than the threshold.
use red_giant.Prelude.{
  ℕ, zero, suc, ◌+◌, ◌-◌, ◌≤◌, ◌<◌, ◌≡◌, ◌≢◌, refl, ap, some, List, arith, ltb, leb, ◌==◌, length,
  Bool-cases, inl, inr, ◌⊎◌,
}
use red_giant.Reader.{PostingListReader}
use red_giant.Wand.{WandReader, nth, step_next, next_loop, next, find_pivot}
use red_giant.Wand.Sums.{sum_below_mono}
use red_giant.Wand.Steps.{
  Walks, IsValid, IsLater, IsLater-same, IsLater-trans, holds, bound_of, total,
}
use red_giant.Wand.Pivot.{IsPivot, find_pivot-IsPivot, length-acc, Steps, step_loop-Steps}
use red_giant.Wand.Fuel.{work, work-step_next}
use red_giant.Wand.Next.{total-le, total-above, sorted_first, contains-nth}

module _ {S : Type 0} (reader : PostingListReader S ℕ) (docs : S → List ℕ) where
  -- Fewer documents, and less that they can score.
  total_fewer :
      (b x : ℕ) (w w' : WandReader S)
      → IsLater reader docs b w w'
      → total reader docs w' x ≤ total reader docs w x
  unfolding total
  total_fewer b x w w' l = rw (l.same_size) (
      sum_below_mono (bound_of reader docs w' x) (bound_of reader docs w x) w.readers_size
        (λ i k. ground (arith, l.fewer i x, ap (λ (f : ℕ → ℕ). f i) l.same_bounds)))

  total_kept :
      (b x : ℕ) (w w' : WandReader S)
      → IsLater reader docs b w w'
      → b < x
      → total reader docs w x ≤ total reader docs w' x
  unfolding total
  total_kept b x w w' l h = rw (l.same_size) (
      sum_below_mono (bound_of reader docs w x) (bound_of reader docs w' x) w.readers_size
        (λ i k. ground (arith, l.kept i x h, ap (λ (f : ℕ → ℕ). f i) l.same_bounds)))

  -- The state of the loop of `next`: the documents up to `b` are dealt with.
  record Searching (w0 : WandReader S) (current b : ℕ) (w : WandReader S) : Type 0 where
    valid : IsValid reader docs w
    later : IsLater reader docs b w0 w
    behind : current ≤ b
    low : (x : ℕ) → current < x → x ≤ b → total reader docs w0 x ≤ w0.threshold
    less : work reader docs w ≤ work reader docs w0

  -- `d` is the least document behind `current` that can score more than the threshold, or 0 if
  -- there is none; no document from `d` on is lost. The first term is at `d`, and less work is ahead.
  pub record IsLeast (w0 : WandReader S) (current d : ℕ) (w : WandReader S) : Type 0 where
    pub valid : IsValid reader docs w
    pub later : (b : ℕ) × IsLater reader docs b w0 w
    pub less : work reader docs w ≤ work reader docs w0
    pub first : d ≢ 0 → w.reader_cursors (nth 0 w.sorted_indexes) ≡ d
    pub least : (x : ℕ) → current < x → (d ≡ 0) ⊎ (x < d) → total reader docs w0 x ≤ w0.threshold
    pub found :
        d ≢ 0
        → (current < d)
          × (w0.threshold < total reader docs w0 d)
          × ((i x : ℕ) → d ≤ x → holds reader docs w x i ≡ holds reader docs w0 x i)

  -- Below the cursor of the pivot nothing is above the threshold, whatever was dropped before.
  low-pivot :
      (w0 w : WandReader S) (current b p x : ℕ)
      → Searching w0 current b w
      → IsPivot p w
      → (length w.sorted_indexes ≤ p) ⊎ (x < w.reader_cursors (nth p w.sorted_indexes))
      → current < x
      → total reader docs w0 x ≤ w0.threshold
  low-pivot w0 w current b p x s k h c = elim (Bool-cases (leb x b)) [
    | inl e ↦ s.low x c (ground arith)
    | inr e ↦ omega (
      arith,
      total_kept b x w0 w s.later (ground arith),
      total-le reader docs p x w s.valid k h,
      s.later.same_threshold,
    )
  ]

  -- The first term has come to the cursor of the pivot.
  arrived :
      (w0 w : WandReader S) (current b p : ℕ)
      → Searching w0 current b w
      → IsPivot p w
      → p < length w.sorted_indexes
      → current < w.reader_cursors (nth p w.sorted_indexes)
      → w.reader_cursors (nth 0 w.sorted_indexes) ≡ w.reader_cursors (nth p w.sorted_indexes)
      → IsLeast w0 current (w.reader_cursors (nth p w.sorted_indexes)) w
  arrived w0 w current b p s k h c e =
      let d = w.reader_cursors (nth p w.sorted_indexes) in
      let above : w0.threshold < total reader docs w0 d = omega (
        arith,
        total-above reader docs p w s.valid k h e (λ z. absurd (omega (arith, z, c))),
        total_fewer b d w0 w s.later,
        s.later.same_threshold,
      ) in
      let beyond : b < d = elim (Bool-cases (leb d b)) [
        | inl q ↦ absurd (omega (arith, above, s.low d c (ground arith)))
        | inr q ↦ ground arith
      ] in
      record {
        valid = s.valid;
        later = (b, s.later);
        less = s.less;
        first = λ n. e;
        least = λ x g o. elim o [
          | inl z ↦ absurd (omega (arith, z, c))
          | inr q ↦ low-pivot w0 w current b p x s k (inr q) g
        ];
        found = λ n. (c, above, λ i x g. s.later.kept i x (omega (arith, beyond)));
      }

  module _ (walks : Walks reader docs) where
    -- The loop goes on with the documents up to `c` dropped, which are below the pivot or not
    -- behind `current`.
    stepped :
        (w0 w : WandReader S) (current b p c : ℕ)
        → Searching w0 current b w
        → ((x : ℕ) → current < x → x ≤ c → total reader docs w0 x ≤ w0.threshold)
        → Steps reader docs walks c w (step_next reader p c w)
        → work reader docs (step_next reader p c w).1 ≤ work reader docs w
        → Searching w0 current (b + (c - b)) (step_next reader p c w).1
    stepped w0 w current b p c s h r m = record {
      valid = r.valid;
      later =
          IsLater-trans reader docs b c (b + (c - b)) w0 w _ (omega arith) (omega arith) s.later
            r.later;
      behind = omega (arith, s.behind);
      less = omega (arith, s.less, m);
      low = λ x k m. elim (Bool-cases (leb x b)) [
        | inl e ↦ s.low x k (ground arith)
        | inr e ↦ h x k (ground arith)
      ];
    }

    steps :
        (p c : ℕ) (w : WandReader S)
        → IsValid reader docs w
        → p < length w.sorted_indexes
        → Steps reader docs walks c w (step_next reader p c w)
    unfolding step_next
    steps p c w v h = step_loop-Steps reader docs walks (suc p) c w v (omega arith)

    next_loop-IsLeast :
        (fuel current b p : ℕ) (w0 w : WandReader S)
        → Searching w0 current b w
        → IsPivot p w
        → work reader docs w < fuel
        → (d : ℕ) × (w' : WandReader S) × (next_loop reader fuel p current w ≡ some (d, w'))
          × IsLeast w0 current d w'
    unfolding next_loop
    next_loop-IsLeast zero current b p w0 w s k h = absurd (omega arith)
    next_loop-IsLeast (suc fuel) current b p w0 w s k h =
        let pc = w.reader_cursors (nth p w.sorted_indexes) in
        let first = w.reader_cursors (nth 0 w.sorted_indexes) in
        elim (Bool-cases (leb (length w.sorted_indexes) p)) [
          | inl e1 ↦ (
            0,
            w,
            rw (e1, next_loop) refl,
            record {
              valid = s.valid;
              later = (b, s.later);
              less = s.less;
              first = λ n. absurd (n refl);
              least = λ x c o. low-pivot w0 w current b p x s k (inl (ground arith)) c;
              found = λ n. absurd (n refl);
            },
          )
          | inr e1 ↦
              let inside : p < length w.sorted_indexes = ground arith in
              let above = k.above (omega (arith, length-acc reader docs w s.valid)) in
              elim (Bool-cases (ltb current pc)) [
                | inl e2 ↦ elim (Bool-cases (first == pc)) [
                  | inl e3 ↦ (
                    pc,
                    w,
                    rw (e1, e2, e3, next_loop) refl,
                    arrived w0 w current b p s k inside (ground arith) (ground arith),
                  )
                  | inr e3 ↦
                      let r = steps p (pc - 1) w s.valid inside in
                      let before =
                        sorted_first w.reader_cursors (nth p w.sorted_indexes) w.sorted_indexes
                          s.valid.sorted (contains-nth p w.sorted_indexes inside) in
                      let less =
                        work-step_next reader docs walks p (pc - 1) w s.valid above
                          (ground arith) in
                      let t =
                        stepped w0 w current b p (pc - 1) s
                          (λ x g q. low-pivot w0 w current b p x s k (inr (ground arith)) g) r
                          (omega (arith, less)) in
                      let (d, w', q, l) =
                        next_loop-IsLeast fuel current (b + (pc - 1 - b))
                          (step_next reader p (pc - 1) w).0 w0 (step_next reader p (pc - 1) w).1 t
                          r.pivot (omega (arith, less)) in
                      (d, w', rw (e1, e2, e3, next_loop) q, l)
                ]
                | inr e2 ↦
                    let r = steps p current w s.valid inside in
                    let before =
                      sorted_first w.reader_cursors (nth p w.sorted_indexes) w.sorted_indexes
                        s.valid.sorted (contains-nth p w.sorted_indexes inside) in
                    let less =
                      work-step_next reader docs walks p current w s.valid above (ground arith) in
                    let t =
                      stepped w0 w current b p current s (λ x g q. absurd (omega arith)) r
                        (omega (arith, less)) in
                    let (d, w', q, l) =
                      next_loop-IsLeast fuel current (b + (current - b))
                        (step_next reader p current w).0 w0 (step_next reader p current w).1 t
                        r.pivot (omega (arith, less)) in
                    (d, w', rw (e1, e2, next_loop) q, l)
              ]
        ]

    -- With fuel for the work ahead, `next` returns the least document behind `current` that can
    -- score more than the threshold, or 0 if there is none: the upper bounds of the readers that
    -- hold it add up to more, and those of every document that was passed do not. The reader stays
    -- valid, and no document from the one returned on is lost.
    pub next-IsLeast :
        (fuel current : ℕ) (w : WandReader S)
        → IsValid reader docs w
        → work reader docs w < fuel
        → (d : ℕ) × (w' : WandReader S) × (next reader fuel current w ≡ some (d, w'))
          × IsLeast w current d w'
    unfolding next
    next-IsLeast fuel current w v h =
        next_loop-IsLeast fuel current current (find_pivot 0 w) w w
          (record {
            valid = v;
            later = IsLater-same reader docs current w;
            behind = omega arith;
            less = omega arith;
            low = λ x k m. absurd (omega arith);
          })
          (find_pivot-IsPivot 0 w (omega arith) (λ i k. absurd (omega arith))) h
