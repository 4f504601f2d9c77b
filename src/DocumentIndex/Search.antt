-- ===== src/DocumentIndex/Search.antt =====
-- query/simple_query_executor.cc: `read_topn` on the reader that a query of the index returns.
use red_giant.Prelude.{ℕ, ◌<◌, Option, none, some, List, true}
use red_giant.Weight.{nat_weight}
use red_giant.Reader.{PostingListReader}
use red_giant.Reader.TopN.{read_topn}
use red_giant.Wand.Fuel.{work}
use red_giant.Wand.Posting.{wand_posting_reader}
use red_giant.DocumentIndex.{QueryReader, single, wand}

-- `read_topn(*results_reader, query_count)`, the results without the reader; `none`: out of fuel.
unfoldable pub read_results :
    {R : Type 0} → PostingListReader R ℕ → ℕ → ℕ → ℕ → QueryReader R → Option (List (ℕ × ℕ))
read_results reader fuel n count (single r) = elim (read_topn reader n count true r) [
  | none ↦ none
  | some best ↦ some best.0
]
read_results reader fuel n count (wand w) =
    elim (read_topn (wand_posting_reader reader fuel) n count true (some w)) [
      | none ↦ none
      | some best ↦ some best.0
    ]

-- The fuel for the calls of `next` of the WAND reader.
abbrev pub IsEnough :
    {R : Type 0} → PostingListReader R ℕ → (R → List ℕ) → ℕ → QueryReader R → Type 0
IsEnough reader docs fuel (single r) = Unit
IsEnough reader docs fuel (wand w) = work reader docs w < fuel
