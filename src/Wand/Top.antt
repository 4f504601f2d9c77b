-- ===== src/Wand/Top.antt =====
-- `read_topn` over a WAND reader: however many documents the threshold makes it skip, it returns
-- the best of all.
use red_giant.Prelude.{
  ℕ, contains, ◌+◌, ◌≤◌, ◌<◌, ◌≡◌, ◌⊎◌, refl, true, some, List, [], arith, ltb, if◌then◌else◌,
  length, All, All-imp, inl, inr,
}
use red_giant.Weight.{nat_weight}
use red_giant.Reader.{PostingListReader}
use red_giant.Reader.TopN.{read_topn, sort_heap}
use red_giant.Reader.Best.{
  IsDescending, counted, sorted-IsDescending, length-sort_heap, counted-sort_heap, All-sort_heap,
}
use red_giant.Wand.{WandReader, wand_reader}
use red_giant.Wand.Sums.{sum_below}
use red_giant.Wand.Terms.{Ascending}
use red_giant.Wand.Start.{wand_reader-IsValid}
use red_giant.Wand.Steps.{Walks, IsValid, holds}
use red_giant.Wand.Fuel.{work}
use red_giant.Wand.Posting.{wand_posting_reader}
use red_giant.Wand.Collect.{Collected, IsBeaten, is_entry_of}
use red_giant.Wand.Best.{read_topn_loop-Collected}
use red_giant.Wand.Scan.{Weighs, score}

-- The best of the documents by their scores `f`, in descending order: every document that is not
-- among them scores at most `t0`, or there are `count` of them and none of them scores less.
pub record IsTop (f : ℕ → ℕ) (t0 count : ℕ) (best : List (ℕ × ℕ)) : Type 0 where
  pub descending : IsDescending best
  pub room : length best ≤ count
  pub scored : All (λ e. e.1 ≡ f e.0) best
  pub once : (x : ℕ) → counted (is_entry_of x) best ≤ 1
  pub complete :
      (x : ℕ) → 0 < x → (counted (is_entry_of x) best ≡ 1) ⊎ (f x ≤ t0) ⊎ IsBeaten count best (f x)

sorted-IsTop :
    (f : ℕ → ℕ) (t0 count b : ℕ) (kept : List (ℕ × ℕ))
    → ((y : ℕ) → Collected f t0 count (b + y) kept)
    → IsTop f t0 count (sort_heap kept [])
sorted-IsTop f t0 count b kept c = record {
  descending = sorted-IsDescending kept (c 0).heap;
  room = omega (arith, (c 0).room, length-sort_heap kept []);
  scored =
      All-sort_heap _ kept []
        (All-imp (λ e. (e.1 ≡ f e.0) × (e.0 ≤ b + 0)) (λ e g. g.0) kept (c 0).scored) tt;
  once = λ x. omega (arith, (c 0).once x, counted-sort_heap (is_entry_of x) kept []);
  complete = λ x p. elim ((c x).complete x p (omega arith)) [
    | inl g ↦ inl (omega (arith, g, counted-sort_heap (is_entry_of x) kept []))
    | inr (inl g) ↦ inr (inl g)
    | inr (inr g) ↦
        inr (inr (omega (arith, g.0, length-sort_heap kept []), All-sort_heap _ kept [] g.1 tt))
  ];
}

module _ {S : Type 0} (reader : PostingListReader S ℕ) (docs : S → List ℕ) (weights : S → ℕ → ℕ)
    (Fine : S → Type 0) (walks : Walks reader docs) (weighs : Weighs reader docs weights Fine) where
  -- The same for the entries that `read_topn` returns, of any valid reader.
  read_topn-sorted :
      (w0 : WandReader S) (fuel count b n : ℕ)
      → 0 < count
      → work reader docs w0 < fuel
      → ((i x : ℕ) → i < w0.readers_size → holds reader docs w0 x i ≡ true → x ≤ b)
      → ((i x : ℕ)
          → i < w0.readers_size
          → holds reader docs w0 x i ≡ true
          → weights (w0.readers i) x ≤ w0.upper_bounds i)
      → ((i : ℕ) → Fine (w0.readers i))
      → IsValid reader docs w0
      → b < n
      → (best : List (ℕ × ℕ)) × (e : WandReader S) × (read_topn
            (wand_posting_reader reader fuel)
            n
            count
            true
            (some w0)
          ≡ some (best, some e))
        × IsTop (score reader docs weights w0) w0.threshold count best
  unfolding read_topn
  read_topn-sorted w0 fuel count b n positive enough last bounded o v h =
      let c : ltb 0 count ≡ true = ground arith in
      let (kept, e, q, r) =
        read_topn_loop-Collected reader docs weights Fine walks weighs w0 fuel count b positive
          enough last bounded n 0 w0 []
          (record {
            valid = v;
            same_size = refl;
            same_bounds = refl;
            fine = o;
            same_weights = λ i x. refl;
            ahead = λ i x g. refl;
            less = omega arith;
          })
          (record {
            heap = tt;
            room = omega arith;
            scored = tt;
            once = λ x. omega arith;
            complete = λ x p q. absurd (omega arith);
          })
          (inl (omega arith)) (omega arith) (omega arith) in
      (
        sort_heap kept [],
        e,
        rw (read_topn, c, q) refl,
        sorted-IsTop (score reader docs weights w0) w0.threshold count b kept r,
      )

  -- `read_topn` over a new WAND reader of `size` readers, whose documents ascend and whose weights
  -- are at most their upper bounds, with a count that is not 0 and enough fuel: it returns entries
  -- with the scores of their documents, no document twice, the best first, and no more than `count`;
  -- each document scores 0, or is among them, or there are `count` of them and none scores less.
  pub read_topn-IsTop :
      (size : ℕ) (input : ℕ → S) (fuel n count b : ℕ)
      → 0 < count
      → ((i : ℕ) → i < size → Ascending 0 (docs (input i)))
      → ((i x : ℕ)
          → i < size
          → contains x (docs (input i)) ≡ true
          → (x ≤ b) × (weights (input i) x ≤ reader.upper_bound (input i)))
      → ((i : ℕ) → Fine (input i))
      → work reader docs (wand_reader reader size input) < fuel
      → b < n
      → (best : List (ℕ × ℕ)) × (e : WandReader S) × (read_topn
            (wand_posting_reader reader fuel)
            n
            count
            true
            (some (wand_reader reader size input))
          ≡ some (best, some e))
        × IsTop
            (λ x.
              sum_below (λ i. if contains x (docs (input i)) then weights (input i) x else 0) size)
            0
            count
            best
  unfolding wand_reader
  read_topn-IsTop size input fuel n count b p a h o enough k =
      read_topn-sorted (wand_reader reader size input) fuel count b n p enough
        (λ i x o g. (h i x o g).0) (λ i x o g. (h i x o g).1) o
        (wand_reader-IsValid reader docs size input a) k
