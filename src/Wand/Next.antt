-- ===== src/Wand/Next.antt =====
-- What `next` returns: the least document behind the current one that can score more than the
-- threshold.
use red_giant.Prelude.{
  ℕ, zero, suc, ◌≤◌, ◌<◌, ◌≡◌, ◌≢◌, refl, sym, ap, ◌∙◌, true, false, List, [], ◌∷◌, arith, leb,
  ◌==◌, length, take, contains, Bool-cases, inl, inr, ◌⊎◌,
}
use red_giant.Reader.{PostingListReader}
use red_giant.Wand.{WandReader, nth}
use red_giant.Wand.Sums.{IsDistinct, sum, sum_below-le-sum, sum-le-sum_below}
use red_giant.Wand.Terms.{IsSorted, first_of, first_of_least}
use red_giant.Wand.Steps.{IsValid, holds, bound_of, total}
use red_giant.Wand.Pivot.{IsPivot, length-acc, nth-acc}

pub sorted_first :
    (f : ℕ → ℕ) (i : ℕ) (l : List ℕ) → IsSorted f l → contains i l ≡ true → f (nth 0 l) ≤ f i
sorted_first f i [] s h = absurd (ground arith)
sorted_first f i (x ∷ l) s h = elim (Bool-cases (x == i)) [
  | inl e ↦ ground arith
  | inr e ↦ s.0 i (ground arith)
]

pub contains-nth : (p : ℕ) (l : List ℕ) → p < length l → contains (nth p l) l ≡ true
contains-nth p [] h = absurd (omega arith)
contains-nth zero (x ∷ l) h = ground arith
contains-nth (suc p) (x ∷ l) h = ground (arith, contains-nth p l)

-- What is not among the first `p` of a sorted list lies behind them.
sorted_behind :
    (f : ℕ → ℕ) (p i : ℕ) (l : List ℕ)
    → IsSorted f l
    → p < length l
    → contains i l ≡ true
    → contains i (take p l) ≡ false
    → f (nth p l) ≤ f i
sorted_behind f p i [] s k h n = absurd (omega arith)
sorted_behind f zero i (x ∷ l) s k h n = sorted_first f i (x ∷ l) s h
sorted_behind f (suc p) i (x ∷ l) s k h n =
    sorted_behind f p i l s.1 (omega arith) (ground arith) (ground arith)

sorted_upto :
    (f : ℕ → ℕ) (p i : ℕ) (l : List ℕ)
    → IsSorted f l
    → p < length l
    → contains i (take (suc p) l) ≡ true
    → f i ≤ f (nth p l)
sorted_upto f p i [] s k h = absurd (omega arith)
sorted_upto f zero i (x ∷ l) s k h = ground arith
sorted_upto f (suc p) i (x ∷ l) s k h = elim (Bool-cases (x == i)) [
  | inl e ↦ ground (arith, s.0 (nth p l) (contains-nth p l (omega arith)))
  | inr e ↦ sorted_upto f p i l s.1 (omega arith) (ground arith)
]

contains-take : (p i : ℕ) (l : List ℕ) → contains i (take p l) ≡ true → contains i l ≡ true
contains-take zero i l h = absurd (ground arith)
contains-take (suc p) i [] h = h
contains-take (suc p) i (x ∷ l) h = ground (arith, contains-take p i l)

take_all : (p : ℕ) (l : List ℕ) → length l ≤ p → take p l ≡ l
take_all zero [] h = refl
take_all zero (x ∷ l) h = absurd (omega arith)
take_all (suc p) [] h = refl
take_all (suc p) (x ∷ l) h = rw (take_all p l (omega arith)) refl

take-IsDistinct : (p : ℕ) (l : List ℕ) → IsDistinct l → IsDistinct (take p l)
take-IsDistinct zero l d = tt
take-IsDistinct (suc p) [] d = tt
take-IsDistinct (suc p) (x ∷ l) d = (
  elim (Bool-cases (contains x (take p l))) [
    | inl e ↦ ground (arith, contains-take p x l e)
    | inr e ↦ e
  ],
  take-IsDistinct p l d.1,
)

pub contains-first_of : (l : List ℕ) → first_of l ≢ 0 → contains (first_of l) l ≡ true
contains-first_of [] h = absurd (h refl)
contains-first_of (x ∷ l) h = ground arith

module _ {S : Type 0} (reader : PostingListReader S ℕ) (docs : S → List ℕ) where
  -- A document that only the terms before the pivot hold cannot score more than the threshold.
  total_before :
      (p x : ℕ) (w : WandReader S)
      → IsValid reader docs w
      → IsPivot p w
      → ((i : ℕ)
          → contains i w.sorted_indexes ≡ true
          → holds reader docs w x i ≡ true
          → contains i (take p w.sorted_indexes) ≡ true)
      → total reader docs w x ≤ w.threshold
  unfolding total
  total_before p x w v k h =
      let outside : (i : ℕ)
          → i < w.readers_size
          → contains i (take p w.sorted_indexes) ≡ false
          → bound_of reader docs w x i ≡ 0 =
        λ i b n. elim (Bool-cases (contains i w.sorted_indexes)) [
          | inl c ↦ elim (Bool-cases (holds reader docs w x i)) [
            | inl g ↦ absurd (ground (arith, h i c g))
            | inr g ↦ ground arith
          ]
          | inr c ↦ rw (v.ended i b c) refl
        ] in
      omega (
        arith,
        sum_below-le-sum (bound_of reader docs w x) w.upper_bounds w.readers_size
            (take p w.sorted_indexes) outside (λ i h. ground arith),
        sum_take_le p w v k,
      )
    where
      sum_take_le :
          (p : ℕ) (w : WandReader S)
          → IsValid reader docs w
          → IsPivot p w
          → sum w.upper_bounds (take p w.sorted_indexes) ≤ w.threshold
      sum_take_le zero w v k = omega arith
      sum_take_le (suc p) w v k = omega (
        arith,
        nth-acc reader docs p w v (omega (arith, k.in_reach, length-acc reader docs w v)),
        k.below p (omega arith),
      )

  -- A reader that holds a document is not behind it.
  pub cursor-le :
      (x i : ℕ) (w : WandReader S)
      → IsValid reader docs w
      → contains i w.sorted_indexes ≡ true
      → holds reader docs w x i ≡ true
      → w.reader_cursors i ≤ x
  cursor-le x i w v c h = elim (v.reached i c) [
    | inl z ↦ omega (arith, z)
    | inr z ↦
        omega (arith, z, first_of_least 0 x (docs (w.readers i)) (v.ascending i (v.in_range i c)) h)
  ]

  -- The documents before the cursor of the pivot, and all documents where there is no pivot.
  pub total-le :
      (p x : ℕ) (w : WandReader S)
      → IsValid reader docs w
      → IsPivot p w
      → (length w.sorted_indexes ≤ p) ⊎ (x < w.reader_cursors (nth p w.sorted_indexes))
      → total reader docs w x ≤ w.threshold
  total-le p x w v k (inl h) =
      total_before p x w v k (λ i c g. rw (take_all p w.sorted_indexes h) c)
  total-le p x w v k (inr h) = total_before p x w v k (λ i c g.
      elim (Bool-cases (contains i (take p w.sorted_indexes))) [
        | inl e ↦ e
        | inr e ↦ elim (Bool-cases (leb (length w.sorted_indexes) p)) [
          | inl b ↦ rw (take_all p w.sorted_indexes (ground arith)) c
          | inr b ↦ absurd (
              omega (
                arith,
                cursor-le x i w v c g,
                sorted_behind w.reader_cursors p i w.sorted_indexes v.sorted (ground arith) c e,
              ))
        ]
      ])

  -- Where the first term is at the cursor of the pivot, all terms up to the pivot hold the document.
  pub total-above :
      (p : ℕ) (w : WandReader S)
      → IsValid reader docs w
      → IsPivot p w
      → p < length w.sorted_indexes
      → w.reader_cursors (nth 0 w.sorted_indexes) ≡ w.reader_cursors (nth p w.sorted_indexes)
      → w.reader_cursors (nth p w.sorted_indexes) ≢ 0
      → w.threshold < total reader docs w (w.reader_cursors (nth p w.sorted_indexes))
  unfolding total
  total-above p w v k h e n =
      let d = w.reader_cursors (nth p w.sorted_indexes) in
      let inside : (i : ℕ)
          → contains i (take (suc p) w.sorted_indexes) ≡ true
          → (i < w.readers_size) × (bound_of reader docs w d i ≡ w.upper_bounds i) =
        λ i g.
          let c = contains-take (suc p) i w.sorted_indexes g in
          let at : w.reader_cursors i ≡ d = omega (
            arith,
            e,
            sorted_first w.reader_cursors i w.sorted_indexes v.sorted c,
            sorted_upto w.reader_cursors p i w.sorted_indexes v.sorted h g,
          ) in
          (
            v.in_range i c,
            elim (v.reached i c) [
              | inl z ↦ absurd (n (sym at ∙ z))
              | inr z ↦
                  let f : first_of (docs (w.readers i)) ≡ d = sym z ∙ at in
                  ground (
                    arith,
                    f,
                    contains-first_of (docs (w.readers i)) (λ q. n (sym f ∙ q)),
                    ap (λ (y : ℕ). contains y (docs (w.readers i))) f,
                  )
            ],
          ) in
      omega (
        arith,
        k.above (omega (arith, length-acc reader docs w v)),
        nth-acc reader docs p w v h,
        sum-le-sum_below (bound_of reader docs w d) w.upper_bounds w.readers_size
            (take (suc p) w.sorted_indexes) (take-IsDistinct (suc p) w.sorted_indexes v.distinct)
            inside,
      )
