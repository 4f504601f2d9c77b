-- ===== src/Reader/TopN.antt =====
-- core/reader/reader_utils.h: `read_topn`, which reads the best entries of a reader.
use red_giant.Prelude.{
  ℕ, zero, suc, Bool, true, false, Option, none, some, List, [], ◌∷◌, if◌then◌else◌, ◌==◌, ltb,
  length,
}
use red_giant.Weight.{Weight}
use red_giant.Reader.{PostingListReader}

module _ {W : Type 0} ⦃w : Weight W⦄ where
  -- `std::push_heap`. Before it is sorted, the code looks at the first entry of the heap only, which
  -- is a least one; here the entries ascend. Of several least entries another one may come first in
  -- the heap of a standard library.
  unfoldable pub push_heap : ℕ × W → List (ℕ × W) → List (ℕ × W)
  push_heap e [] = e ∷ []
  push_heap e (x ∷ l) = let rest = push_heap e l in if w.gt x.1 e.1 then e ∷ x ∷ l else x ∷ rest

  -- `std::sort_heap`, onto what is sorted already: the best comes first.
  unfoldable pub sort_heap : List (ℕ × W) → List (ℕ × W) → List (ℕ × W)
  sort_heap [] sorted = sorted
  sort_heap (x ∷ l) sorted = sort_heap l (x ∷ sorted)

  -- The entries after one more was read, and whether the reader is given a threshold.
  unfoldable pub keep : ℕ → ℕ × W → List (ℕ × W) → List (ℕ × W) × Bool
  keep count e results = elim (ltb (length results) count) [
    | true ↦ (push_heap e results, false)
    | false ↦ elim results [
      | [] ↦ ([], false)
      | front ∷ l ↦ if w.gt e.1 front.1 then (push_heap e l, true) else (front ∷ l, false)
    ]
  ]

  -- `results.front().second`
  unfoldable pub front_weight : List (ℕ × W) → W
  front_weight [] = w.zero_weight
  front_weight (e ∷ l) = e.1

  module _ {S : Type 0} (reader : PostingListReader S W) where
    -- The loop; `none`: the fuel ran out.
    unfoldable pub read_topn_loop : ℕ → ℕ → ℕ → S → List (ℕ × W) → Option (List (ℕ × W) × S)
    read_topn_loop zero count current s results = none
    read_topn_loop (suc fuel) count current s results =
        let (doc_id, s1) = reader.next current s in
        elim (doc_id == 0) [
          | true ↦ some (results, s1)
          | false ↦
              let (weight, s2) = reader.read s1 in
              let (results', hint) = keep count (doc_id, weight) results in
              read_topn_loop fuel count doc_id
                (if hint then reader.threshold (front_weight results') s2 else s2) results'
        ]

    -- For a count that can be reserved: above `max_size()`, `results.reserve` throws, which stands
    -- with the caller. Results that are not sorted at the end stand in the order of the sorted heap.
    unfoldable pub read_topn : ℕ → ℕ → Bool → S → Option (List (ℕ × W) × S)
    read_topn fuel count sort_weight s = elim (ltb 0 count) [
      | false ↦ some ([], s)
      | true ↦ elim (read_topn_loop fuel count 0 s []) [
        | none ↦ none
        | some r ↦ some ((if sort_weight then sort_heap r.0 [] else r.0), r.1)
      ]
    ]
