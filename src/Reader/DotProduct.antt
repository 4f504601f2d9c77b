-- ===== src/Reader/DotProduct.antt =====
-- core/reader/dot_product_reader.h and core/query/dot_product_query.h: a reader of scores over a
-- reader of weights. The query is the closure `dot_product_reader reader combiner query_weight`.
use red_giant.Prelude.{ℕ, ◌≡◌, ap, false, List, [], ◌∷◌, map, All}
use red_giant.Weight.{Weight}
use red_giant.Reader.{PostingListReader}
use red_giant.Reader.Yields.{Yields}

abbrev pub score_entry {ℓ} : {W Score : Type ℓ} → (W → Score) → ℕ × W → ℕ × Score
score_entry combiner e = (e.0, combiner e.1)

module _ {ℓ} {S W Score : Type ℓ} where
  -- `combiner` is the functor `ScoreCombiner` at the weight of the query.
  unfoldable pub dot_product_reader :
      PostingListReader S W → (W → Score) → PostingListReader S Score
  dot_product_reader reader combiner = record {
    next = reader.next;
    read = λ s. let (weight, s') = reader.read s in (combiner weight, s');
    upper_bound = λ s. combiner (reader.upper_bound s);
    size = reader.size;
    -- not overridden: the threshold is ignored
    threshold = λ _ s. s;
  }

  -- The reader yields the same documents, each with the score of its weight.
  pub dot_product-Yields :
      (reader : PostingListReader S W) (combiner : W → Score) (current : ℕ) (s : S)
      (l : List (ℕ × W)) (e : S)
      → Yields reader current s l e
      → Yields (dot_product_reader reader combiner) current s (map (score_entry combiner) l) e
  unfolding dot_product_reader
  dot_product-Yields reader combiner c s [] e y = y
  dot_product-Yields reader combiner c s ((d, v) ∷ l) e (s1, s2, n, r, z, y) = (
    s1,
    s2,
    n,
    ap (λ (p : W × S). (combiner p.0, p.1)) r,
    z,
    dot_product-Yields reader combiner d s2 l e y,
  )

module _ {ℓ} {S W Score : Type ℓ} ⦃w : Weight W⦄ ⦃v : Weight Score⦄ where
  -- Where a greater weight does not get a smaller score, the reader's upper bound bounds its
  -- scores, if that of the inner reader bounds the weights.
  pub dot_product-IsUpperBound :
      (reader : PostingListReader S W) (combiner : W → Score) (s : S) (l : List (ℕ × W))
      → ((a b : W) → w.gt a b ≡ false → v.gt (combiner a) (combiner b) ≡ false)
      → All (λ e. w.gt e.1 (reader.upper_bound s) ≡ false) l
      → All
          (λ e. v.gt e.1 ((dot_product_reader reader combiner).upper_bound s) ≡ false)
          (map (score_entry combiner) l)
  unfolding dot_product_reader
  dot_product-IsUpperBound reader combiner s [] mono h = tt
  dot_product-IsUpperBound reader combiner s ((d, u) ∷ l) mono h =
      (mono u _ h.0, dot_product-IsUpperBound reader combiner s l mono h.1)
