-- ===== src/Wand/Start.antt =====
-- A new WAND reader is valid, a threshold can be set at any time, and what `upper_bound` and `read`
-- say of a valid reader.
use red_giant.Prelude.{
  ℕ, zero, suc, ◌+◌, ◌≤◌, ◌<◌, ◌≡◌, ◌≢◌, ap, refl, true, List, [], ◌∷◌, arith, ltb, leb, ◌==◌, ◌&&◌,
  if◌then◌else◌, length, Bool-cases, inl, inr, map, contains,
}
use red_giant.Reader.{PostingListReader}
use red_giant.Wand.{
  WandReader, nth, put, indexes, wand_reader, partial_sum, upper_bound, back, set_threshold, read,
  read_loop,
}
use red_giant.Wand.Sums.{sum, sum_below, sum_below-le-sum, sum-le-sum_below, IsDistinct}
use red_giant.Wand.Next.{sorted_first, cursor-le, contains-first_of}
use red_giant.Wand.Terms.{IsSorted, Ascending}
use red_giant.Wand.Steps.{IsValid, holds, bound_of, total}

contains-indexes : (i n s : ℕ) → contains i (indexes n s) ≡ (leb s i && ltb i (s + n))
unfolding indexes
contains-indexes i zero s = ground arith
contains-indexes i (suc n) s = ground (arith, contains-indexes i n (suc s))

indexes-IsDistinct : (n s : ℕ) → IsDistinct (indexes n s)
unfolding indexes
indexes-IsDistinct zero s = tt
indexes-IsDistinct (suc n) s =
    (ground (arith, contains-indexes s n (suc s)), indexes-IsDistinct n (suc s))

constant-IsSorted : (c : ℕ) (l : List ℕ) → IsSorted (λ i. c) l
constant-IsSorted c [] = tt
constant-IsSorted c (i ∷ l) = (λ j h. omega arith, constant-IsSorted c l)

back-partial_sum :
    (f : ℕ → ℕ) (s i : ℕ) (l : List ℕ) → back (partial_sum s (map f (i ∷ l))) ≡ s + sum f (i ∷ l)
unfolding partial_sum back
back-partial_sum f s i [] = omega arith
back-partial_sum f s i (j ∷ l) = omega (arith, back-partial_sum f (s + f i) j l)

module _ {S : Type 0} (reader : PostingListReader S ℕ) (docs : S → List ℕ) where
  -- A new WAND reader over readers whose documents ascend.
  pub wand_reader-IsValid :
      (n : ℕ) (input : ℕ → S)
      → ((i : ℕ) → i < n → Ascending 0 (docs (input i)))
      → IsValid reader docs (wand_reader reader n input)
  unfolding wand_reader
  wand_reader-IsValid n input a = record {
    acc = refl;
    distinct = indexes-IsDistinct n 0;
    in_range = λ i h. ground (arith, contains-indexes i n 0);
    sorted = constant-IsSorted 0 (indexes n 0);
    reached = λ i h. inl refl;
    ended = λ i k h. absurd (ground (arith, contains-indexes i n 0));
    ascending = a;
  }

  pub set_threshold-IsValid :
      (t : ℕ) (w : WandReader S) → IsValid reader docs w → IsValid reader docs (set_threshold t w)
  unfolding set_threshold
  set_threshold-IsValid t w v = record {
    acc = v.acc;
    distinct = v.distinct;
    in_range = v.in_range;
    sorted = v.sorted;
    reached = v.reached;
    ended = v.ended;
    ascending = v.ascending;
  }

  upper_bound-sum :
      (w : WandReader S)
      → IsValid reader docs w
      → upper_bound w ≡ sum w.upper_bounds w.sorted_indexes
  unfolding upper_bound partial_sum
  upper_bound-sum w v = rw v.acc (by_cases w.sorted_indexes)
    where
      by_cases :
          (l : List ℕ)
          → (if ltb 0 (length (partial_sum 0 (map w.upper_bounds l)))
              then back (partial_sum 0 (map w.upper_bounds l))
              else 0)
            ≡ sum w.upper_bounds l
      by_cases [] = refl
      by_cases (i ∷ l) = ground (arith, back-partial_sum w.upper_bounds 0 i l)

  -- No document scores more than `upper_bound`.
  pub total-upper_bound :
      (x : ℕ) (w : WandReader S) → IsValid reader docs w → total reader docs w x ≤ upper_bound w
  unfolding total
  total-upper_bound x w v = omega (
    arith,
    upper_bound-sum w v,
    sum_below-le-sum (bound_of reader docs w x) w.upper_bounds w.readers_size w.sorted_indexes
        (λ i k h. rw (v.ended i k h) refl) (λ i h. ground arith),
  )

sum_zero : (f : ℕ → ℕ) (l : List ℕ) → ((i : ℕ) → contains i l ≡ true → f i ≡ 0) → sum f l ≡ 0
sum_zero f [] h = refl
sum_zero f (i ∷ l) h = omega (arith, h i (ground arith), sum_zero f l (λ j c. h j (ground arith)))

sum_same :
    (f g : ℕ → ℕ) (l : List ℕ) → ((i : ℕ) → contains i l ≡ true → f i ≡ g i) → sum f l ≡ sum g l
sum_same f g [] h = refl
sum_same f g (i ∷ l) h =
    omega (arith, h i (ground arith), sum_same f g l (λ j c. h j (ground arith)))

module _ {S : Type 0} (reader : PostingListReader S ℕ) (docs : S → List ℕ) (weight : S → ℕ) where
  abbrev pub weight_at : (ℕ → ℕ) → ℕ → (ℕ → S) → ℕ → ℕ
  weight_at cursors d readers i = if cursors i == d then weight (readers i) else 0

  read_loop-sum :
      (cursors : ℕ → ℕ) (d : ℕ) (l : List ℕ) (score : ℕ) (readers : ℕ → S)
      → ((s : S) → (reader.read s).0 ≡ weight s)
      → IsSorted cursors l
      → IsDistinct l
      → ((i : ℕ) → contains i l ≡ true → d ≤ cursors i)
      → (read_loop reader cursors d l score readers).0 ≡ score + sum (weight_at cursors d readers) l
  unfolding read_loop
  read_loop-sum cursors d [] score readers r s n h = omega arith
  read_loop-sum cursors d (i ∷ l) score readers r s n h = elim (Bool-cases (cursors i == d)) [
    | inr e ↦
        rw (e, read_loop)
          (omega (
            arith,
            sum_zero (weight_at cursors d readers) l
                (λ j c. ground (arith, s.0 j c, h i (ground arith))),
          ))
    | inl e ↦
        let readers' = put i (reader.read (readers i)).1 readers in
        rw (e, read_loop)
          (omega (
            arith,
            r (readers i),
            read_loop-sum cursors d l (score + (reader.read (readers i)).0) readers' r s.1 n.1
                (λ j c. h j (ground arith)),
            sum_same (weight_at cursors d readers') (weight_at cursors d readers) l
                (λ j c. ground (arith, n.0)),
          ))
  ]

  -- What a document scores: the weights in the readers that hold it.
  unfoldable pub score_of : WandReader S → ℕ → ℕ
  score_of w x =
      sum_below (λ i. if holds reader docs w x i then weight (w.readers i) else 0) w.readers_size

  -- `read` gives the score of the document that the first term is at.
  pub read-score_of :
      (w : WandReader S)
      → ((s : S) → (reader.read s).0 ≡ weight s)
      → IsValid reader docs w
      → w.reader_cursors (nth 0 w.sorted_indexes) ≢ 0
      → (read reader w).0 ≡ score_of w (w.reader_cursors (nth 0 w.sorted_indexes))
  unfolding read score_of
  read-score_of w r v n =
      let d = w.reader_cursors (nth 0 w.sorted_indexes) in
      let f : ℕ → ℕ = λ i. if holds reader docs w d i then weight (w.readers i) else 0 in
      let g = weight_at w.reader_cursors d w.readers in
      let least : (i : ℕ) → contains i w.sorted_indexes ≡ true → d ≤ w.reader_cursors i =
        λ i c. sorted_first w.reader_cursors i w.sorted_indexes v.sorted c in
      let same : (i : ℕ) → contains i w.sorted_indexes ≡ true → f i ≡ g i =
        λ i c. holds-cursor i w v c (least i c) n in
      omega (
        arith,
        read_loop-sum w.reader_cursors d w.sorted_indexes 0 w.readers r v.sorted v.distinct least,
        sum_below-le-sum f g w.readers_size w.sorted_indexes (λ i k c. rw (v.ended i k c) refl)
            (λ i c. omega (arith, same i c)),
        sum-le-sum_below f g w.readers_size w.sorted_indexes v.distinct
            (λ i c. (v.in_range i c, same i c)),
      )
    where
      holds-cursor :
          (i : ℕ) (w : WandReader S)
          → IsValid reader docs w
          → contains i w.sorted_indexes ≡ true
          → w.reader_cursors (nth 0 w.sorted_indexes) ≤ w.reader_cursors i
          → w.reader_cursors (nth 0 w.sorted_indexes) ≢ 0
          → (if holds reader docs w (w.reader_cursors (nth 0 w.sorted_indexes)) i
              then weight (w.readers i)
              else 0)
            ≡ weight_at w.reader_cursors (w.reader_cursors (nth 0 w.sorted_indexes)) w.readers i
      holds-cursor i w v c k n =
          let d = w.reader_cursors (nth 0 w.sorted_indexes) in
          elim (v.reached i c) [
            | inl z ↦ absurd (n (omega (arith, z, k)))
            | inr z ↦ elim (Bool-cases (holds reader docs w d i)) [
              | inl t ↦ ground (arith, cursor-le reader docs d i w v c t, k)
              | inr t ↦ ground (
                arith,
                t,
                z,
                contains-first_of (docs (w.readers i)) (λ q. n (omega (arith, z, q, k))),
                ap (λ (y : ℕ). contains y (docs (w.readers i))) z,
              )
            ]
          ]
