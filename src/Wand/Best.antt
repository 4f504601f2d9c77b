-- ===== src/Wand/Best.antt =====
-- The loop of `read_topn` over a WAND reader, which skips what its threshold hides.
use mathlib.Core.Path.{subst}
use red_giant.Prelude.{
  ℕ, zero, suc, ◌+◌, ◌-◌, ◌≤◌, ◌<◌, ◌≡◌, ◌≢◌, ◌⊎◌, refl, sym, ap, ◌∙◌, Bool, true, false, some,
  List, arith, leb, ◌==◌, if◌then◌else◌, Bool-cases, inl, inr,
}
use red_giant.Weight.{nat_weight}
use red_giant.Reader.{PostingListReader}
use red_giant.Reader.TopN.{read_topn_loop, keep, front_weight}
use red_giant.Reader.Top.{read_topn_loop-next, read_topn_loop-end}
use red_giant.Wand.{WandReader, next, read, set_threshold}
use red_giant.Wand.Sums.{sum_below_zero}
use red_giant.Wand.Steps.{Walks, holds, bound_of, total}
use red_giant.Wand.Fuel.{work, ==→≡}
use red_giant.Wand.Least.{next-IsLeast}
use red_giant.Wand.Posting.{posting_next, posting_read, wand_posting_reader}
use red_giant.Wand.Collect.{Collected, IsLimit, keep-Collected, Collected-end}
use red_giant.Wand.Scan.{
  Weighs, Scanned, score, score-ahead, score-le-total, read-Scanned, set_threshold-Scanned,
  next-Scanned, read-score,
}

-- The reader after the hint, if it is given one.
abbrev hint_to : {S : Type 0} → Bool → ℕ → WandReader S → WandReader S
hint_to b t w = if b then set_threshold t w else w

hinted :
    {S : Type 0} (reader : PostingListReader S ℕ) (fuel : ℕ) (b : Bool) (t : ℕ) (w : WandReader S)
    → (if b then (wand_posting_reader reader fuel).threshold t (some w) else some w)
      ≡ some (hint_to b t w)
hinted reader fuel true t w = refl
hinted reader fuel false t w = refl

threshold-hint_to :
    {S : Type 0} (reader : PostingListReader S ℕ) (b : Bool) (t t' : ℕ) (w : WandReader S)
    → w.threshold ≡ t'
    → (hint_to b t (read reader w).1).threshold ≡ (if b then t else t')
unfolding read set_threshold
threshold-hint_to reader true t t' w e = refl
threshold-hint_to reader false t t' w e = e

posting_next-some :
    {S : Type 0} (reader : PostingListReader S ℕ) (fuel current d : ℕ) (w w' : WandReader S)
    → next reader fuel current w ≡ some (d, w')
    → posting_next reader fuel current (some w) ≡ (d, some w')
unfolding posting_next
posting_next-some reader fuel current d w w' e = rw (posting_next, e) refl

posting_read-some :
    {S : Type 0} (reader : PostingListReader S ℕ) (v : ℕ) (w : WandReader S)
    → (read reader w).0 ≡ v
    → posting_read reader (some w) ≡ (v, some (read reader w).1)
unfolding posting_read
posting_read-some reader v w e = ap (λ x. (x, some (read reader w).1)) e

module _ {S : Type 0} (reader : PostingListReader S ℕ) (docs : S → List ℕ) (weights : S → ℕ → ℕ)
    (Fine : S → Type 0) (walks : Walks reader docs) (weighs : Weighs reader docs weights Fine) where
  hint_to-Scanned :
      (b : Bool) (t current : ℕ) (w0 w : WandReader S)
      → Scanned reader docs weights Fine w0 current w
      → Scanned reader docs weights Fine w0 current (hint_to b t w)
  hint_to-Scanned true t current w0 w s =
      set_threshold-Scanned reader docs weights Fine t w0 w current s
  hint_to-Scanned false t current w0 w s = s

  -- Some reader holds a document that can score more than a threshold.
  total-last :
      (w : WandReader S) (d b t : ℕ)
      → ((i : ℕ) → i < w.readers_size → holds reader docs w d i ≡ true → d ≤ b)
      → t < total reader docs w d
      → d ≤ b
  unfolding total
  total-last w d b t h m = elim (Bool-cases (leb d b)) [
    | inl e ↦ ground arith
    | inr e ↦ absurd (
        omega (
          arith,
          m,
          sum_below_zero (bound_of reader docs w d) w.readers_size (λ i k.
              elim (Bool-cases (holds reader docs w d i)) [
                | inl c ↦ absurd (ground (arith, h i k c))
                | inr c ↦ rw c refl
              ]),
        ))
  ]

  module _ (w0 : WandReader S) (fuel count b : ℕ) (positive : 0 < count)
      (enough : work reader docs w0 < fuel)
      (last : (i x : ℕ) → i < w0.readers_size → holds reader docs w0 x i ≡ true → x ≤ b)
      (bounded : (i x : ℕ)
        → i < w0.readers_size
        → holds reader docs w0 x i ≡ true
        → weights (w0.readers i) x ≤ w0.upper_bounds i) where
    abbrev f : ℕ → ℕ
    f = score reader docs weights w0

    -- The loop ends, with the best of all documents.
    pub read_topn_loop-Collected :
        (n current : ℕ) (w : WandReader S) (kept : List (ℕ × ℕ))
        → Scanned reader docs weights Fine w0 current w
        → Collected f w0.threshold count current kept
        → IsLimit w0.threshold count kept w.threshold
        → b < n + current
        → current ≤ b
        → (best : List (ℕ × ℕ)) × (e : WandReader S) × (read_topn_loop
              (wand_posting_reader reader fuel)
              n
              count
              current
              (some w)
              kept
            ≡ some (best, some e))
          × ((y : ℕ) → Collected f w0.threshold count (b + y) best)
    read_topn_loop-Collected zero current w kept s c m h k = absurd (omega arith)
    read_topn_loop-Collected (suc n) current w kept s c m h k =
        let (d, w', e, l) =
          next-IsLeast reader docs walks fuel current w s.valid (omega (arith, s.less)) in
        let low : (x : ℕ) → current < x → (d ≡ 0) ⊎ (x < d) → f x ≤ w.threshold = λ x p o. omega (
          arith,
          l.least x p o,
          score-le-total reader docs weights Fine w0 w current x s bounded p,
          score-ahead reader docs weights Fine w0 w current x s p,
        ) in
        elim (Bool-cases (d == 0)) [
          | inl z ↦ (
            kept,
            w',
            read_topn_loop-end (wand_posting_reader reader fuel) n count current (some w) (some w')
                kept
                (posting_next-some reader fuel current d w w' e
                  ∙ ap (λ x. (x, some w')) (==→≡ d 0 z)),
            λ y.
                Collected-end f w0.threshold count current (b + y) w.threshold kept (omega arith) c
                  m (λ x p. low x p (inl (==→≡ d 0 z))),
          )
          | inr z ↦
              let n_zero : d ≢ 0 = ground arith in
              let (behind, above, _) = l.found n_zero in
              let at = next-Scanned reader docs weights Fine fuel current d in
              let before = at (d - 1) w0 w w' weighs s e l n_zero (omega arith) in
              let w'' = (read reader w').1 in
              let scanned =
                read-Scanned reader docs weights Fine w0 w' d weighs
                  (at d w0 w w' weighs s e l n_zero (omega arith)) in
              let v : (read reader w').0 ≡ f d =
                read-score reader docs weights Fine d w' weighs l.valid before.fine n_zero
                  (l.first n_zero)
                ∙ score-ahead reader docs weights Fine w0 w' (d - 1) d before
                    (omega (arith, n_zero)) in
              let (kept', hint) = keep count (d, f d) kept in
              let (c', m') =
                keep-Collected f w0.threshold count current d w.threshold behind
                  (λ x p q. low x p (inr q)) kept positive c m in
              let front = front_weight kept' in
              let t : (hint_to hint front w'').threshold ≡ (if hint then front else w.threshold) =
                threshold-hint_to reader hint front w.threshold w' l.later.1.same_threshold in
              let (best, end, q, r) =
                read_topn_loop-Collected n d (hint_to hint front w'') kept'
                  (hint_to-Scanned hint front d w0 w'' scanned) c'
                  (subst (IsLimit w0.threshold count kept') (sym t) m') (omega arith)
                  (total-last w d b w.threshold
                    (λ i o g. last i d (rw (← s.same_size) o) (sym (s.ahead i d behind) ∙ g))
                    above) in
              (
                best,
                end,
                read_topn_loop-next (wand_posting_reader reader fuel) n count current d (f d)
                      (some w) (some w') (some w'') kept
                      (posting_next-some reader fuel current d w w' e)
                      (posting_read-some reader (f d) w' v) z
                    ∙ ap (λ x. read_topn_loop (wand_posting_reader reader fuel) n count d x kept')
                        (hinted reader fuel hint front w'')
                    ∙ q,
                r,
              )
        ]
