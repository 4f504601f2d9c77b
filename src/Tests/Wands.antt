-- ===== src/Tests/Wands.antt =====
-- The theorems on the WAND reader at concrete inputs.
use red_giant.Prelude.{
  ℕ, ◌≡◌, ◌≤◌, ◌<◌, inr, refl, true, Option, some, contains, List, [], ◌∷◌, arith, if◌then◌else◌,
  ◌==◌,
}
use red_giant.Reader.{PostingListReader}
use red_giant.Wand.{
  WandReader, wand_reader, set_threshold, next, next_loop, step_next, step_loop, step_term,
  pick_term, find_pivot, upper_bound_of, remove_term, move_term, remove_loop, move_loop,
  score_before, read, read_loop, indexes, partial_sum,
}
use red_giant.Wand.Sums.{sum_below}
use red_giant.Wand.Posting.{wand_posting_reader, posting_next, posting_read}
use red_giant.Wand.Scan.{Weighs}
use red_giant.Wand.Top.{IsTop, read_topn-IsTop}
use red_giant.Weight.{nat_weight}
use red_giant.Reader.TopN.{read_topn, read_topn_loop, keep, push_heap, sort_heap, front_weight}
use red_giant.Wand.Terms.{skip, first_of, Ascending}
use red_giant.Wand.Steps.{Walks, IsValid}
use red_giant.Wand.Fuel.{work, ahead}
use red_giant.Wand.Least.{IsLeast, next-IsLeast}
use red_giant.Wand.Start.{wand_reader-IsValid, set_threshold-IsValid}

-- A reader of documents that all have its upper bound as their weight: the bound, then the
-- documents.
abbrev pub constant_reader : PostingListReader (ℕ × List ℕ) ℕ
constant_reader = record {
  next = λ c s. (first_of (skip c s.1), (s.0, skip c s.1));
  read = λ s. (s.0, s);
  upper_bound = λ s. s.0;
  size = λ s. 0;
  threshold = λ t s. s;
}

abbrev docs : ℕ × List ℕ → List ℕ
docs s = s.1

walks : Walks constant_reader docs
walks = record { next_doc = λ c s. refl; next_rest = λ c s. refl }

-- Reader 0 has the documents 2, 5 and 9 with the weight 3; reader 1 has 5 with the weight 4.
abbrev input : ℕ → ℕ × List ℕ
input i = if i == 0 then (3, 2 ∷ 5 ∷ 9 ∷ []) else (4, 5 ∷ [])

input-Ascending : (i : ℕ) → i < 2 → Ascending 0 (docs (input i))
input-Ascending i h = ground arith

abbrev above_six : WandReader (ℕ × List ℕ)
above_six = set_threshold 6 (wand_reader constant_reader 2 input)

above_six-IsValid : IsValid constant_reader docs above_six
above_six-IsValid =
    set_threshold-IsValid constant_reader docs 6 (wand_reader constant_reader 2 input)
      (wand_reader-IsValid constant_reader docs 2 input input-Ascending)

above_six-work : work constant_reader docs above_six < 10
unfolding work ahead set_threshold wand_reader indexes skip
above_six-work = omega arith

next-IsLeast_example :
    (d : ℕ) × (w : WandReader (ℕ × List ℕ)) × (next constant_reader 10 0 above_six ≡ some (d, w))
    × IsLeast constant_reader docs above_six 0 d w
next-IsLeast_example =
    next-IsLeast constant_reader docs walks 10 0 above_six above_six-IsValid above_six-work

-- Both readers at the document 5.
abbrev at_five : WandReader (ℕ × List ℕ)
at_five = record {
  readers_size = 2;
  readers = λ i. if i == 0 then (3, 5 ∷ 9 ∷ []) else (4, 5 ∷ []);
  reader_cursors = λ i. 5;
  upper_bounds = λ i. if i == 0 then 3 else 4;
  sorted_indexes = 0 ∷ 1 ∷ [];
  acc_upper_bounds = 3 ∷ 7 ∷ [];
  threshold = 6;
}

at_five-IsValid : IsValid constant_reader docs at_five
unfolding partial_sum
at_five-IsValid = record {
  acc = refl;
  distinct = (refl, (refl, tt));
  in_range = λ i h. ground arith;
  sorted = (λ j h. omega arith, (λ j h. omega arith, tt));
  reached = λ i h. inr (ground arith);
  ended = λ i k h. absurd (ground arith);
  ascending = λ i h. ground arith;
}

found_five :
    (d : ℕ) × (w : WandReader (ℕ × List ℕ)) × (next constant_reader 10 0 above_six ≡ some (d, w))
    × (d ≡ 5)
unfolding next next_loop step_next step_loop step_term pick_term find_pivot upper_bound_of
    remove_term move_term remove_loop move_loop score_before partial_sum indexes wand_reader
    set_threshold skip
found_five = (_, _, refl, refl)

-- The weight of every document is the upper bound of its reader.
abbrev AnyState : ℕ × List ℕ → Type 0
AnyState s = Unit

weighs : Weighs constant_reader docs (λ s x. s.0) AnyState
weighs = record {
  next_fine = λ c s h. h;
  next_weights = λ c x s h. refl;
  read_fine = λ s h. h;
  read_weights = λ x s h. refl;
  read_docs = λ s h. refl;
  read_weight = λ s h. refl;
}

input-bounded :
    (i x : ℕ) → i < 2 → contains x (docs (input i)) ≡ true → (x ≤ 9) × ((input i).0 ≤ (input i).0)
input-bounded i x h c = ground arith

wand_reader-work : work constant_reader docs (wand_reader constant_reader 2 input) < 10
unfolding work ahead wand_reader indexes skip
wand_reader-work = omega arith

-- The two best of the documents 2, 5 and 9, which score 3, 7 and 3.
read_topn-IsTop_example :
    (best : List (ℕ × ℕ)) × (e : WandReader (ℕ × List ℕ)) × (read_topn
        (wand_posting_reader constant_reader 10)
        10
        2
        true
        (some (wand_reader constant_reader 2 input))
      ≡ some (best, some e))
    × IsTop
        (λ x. sum_below (λ i. if contains x (docs (input i)) then (input i).0 else 0) 2)
        0
        2
        best
read_topn-IsTop_example =
    read_topn-IsTop constant_reader docs (λ s x. s.0) AnyState walks weighs 2 input 10 10 2 9
      (omega arith) input-Ascending input-bounded (λ i. tt) wand_reader-work (omega arith)

best_two :
    (e : Option (WandReader (ℕ × List ℕ))) × (read_topn
        (wand_posting_reader constant_reader 10)
        10
        2
        true
        (some (wand_reader constant_reader 2 input))
      ≡ some ((5, 7) ∷ (2, 3) ∷ [], e))
unfolding read_topn read_topn_loop keep push_heap sort_heap front_weight posting_next posting_read
    next next_loop step_next step_loop step_term pick_term find_pivot upper_bound_of remove_term
    move_term remove_loop move_loop score_before partial_sum indexes wand_reader set_threshold skip
    read read_loop
best_two = (_, refl)
