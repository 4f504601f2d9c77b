-- ===== src/Tests/Searches.antt =====
-- A query of an index of two terms, from the query to its results.
use mathlib.Core.Path.{subst}
use red_giant.Prelude.{
  ℕ, ◌*◌, ◌≤◌, ◌≡◌, refl, true, some, List, [], ◌∷◌, arith, ◌==◌, is_some, Bool-cases, inl, inr,
  All,
}
use red_giant.Key.{nat_key}
use red_giant.Key.Assoc.{lookup}
use red_giant.Weight.{nat_weight}
use red_giant.Container.Sorted.{IsAscending}
use red_giant.PostingList.{BTreePostingList, create_reader}
use red_giant.PostingList.Bound.{IsBounded}
use red_giant.PostingList.Lookup.{find}
use red_giant.BaseIndex
use red_giant.BaseIndex.{BaseIndexImpl}
use red_giant.BaseIndex.Posting.{visible, find_in}
use red_giant.RowIndex.{RowIndexImpl, empty_index}
use red_giant.Wand.{wand_reader, indexes}
use red_giant.Wand.Terms.{skip}
use red_giant.Wand.Fuel.{work, ahead}
use red_giant.Wand.Top.{IsTop}
use red_giant.DocumentIndex.{QueryReader, wand, reader_at, document_query, choose_reader, query}
use red_giant.DocumentIndex.Search.{read_results, IsEnough}
use red_giant.DocumentIndex.TermReader.{TermReader, term_docs, term_query, term_reader, climb}
use red_giant.DocumentIndex.Found.{query_score, IsSearchable}
use red_giant.DocumentIndex.BestOf.{query-IsTop}
use red_giant.Tests.Lists.{map}
use red_giant.Tests.Indexes.{set}

-- The documents 3 and 7 have the term 10; 7 has the term 11 too.
abbrev tens : BTreePostingList map
tens = record { posting = ((3, 30) ∷ (7, 10) ∷ [], (omega arith)); upper_bound = 30 }

abbrev elevens : BTreePostingList map
elevens = record { posting = ((7, 25) ∷ [], tt); upper_bound = 25 }

abbrev searched : RowIndexImpl map set
searched = record (empty_index map set 0) {
  base = record { index = (10, tens) ∷ (11, elevens) ∷ []; changed_index = [] };
}

abbrev times : ℕ → ℕ → ℕ
times q v = q * v

abbrev both_terms : List (ℕ × ℕ)
both_terms = (10, 2) ∷ (11, 1) ∷ []

abbrev both_readers : ℕ → TermReader
both_readers =
    reader_at (2, create_reader map tens)
      ((10, (2, create_reader map tens)) ∷ (11, (1, create_reader map elevens)) ∷ [])

abbrev both_found : QueryReader TermReader
both_found = wand (wand_reader (term_reader times map) 2 both_readers)

finds_both :
    query map set
      (term_reader times map)
      (document_query (term_query times map) both_terms)
      searched
    ≡ some both_found
unfolding query document_query BaseIndex.batch_query BaseIndex.find_terms BaseIndex.create_queries
    term_query choose_reader reader_at wand_reader
finds_both = refl

-- What holds of every posting list holds of one that is found.
lookup-All :
    (P : BTreePostingList map → Type 0) (t : ℕ) (p : BTreePostingList map)
    (l : List (ℕ × BTreePostingList map))
    → All (λ e. P e.1) l
    → lookup t l ≡ some p
    → P p
lookup-All P t p [] a h = absurd (cc)
lookup-All P t p ((j, q) ∷ l) a h = elim (Bool-cases (j == t)) [
  | inl e ↦ subst P (ground (arith, h)) a.0
  | inr e ↦ lookup-All P t p l a.1 (ground (arith, h))
]

searched-IsSearchable : IsSearchable times map searched.base
searched-IsSearchable t p h =
    lookup-All (λ q. IsAscending 0 (map.items q.posting) × IsBounded map q) t p searched.base.index
      (
        ((omega arith, (omega arith, tt)), (refl, (refl, tt))),
        (((omega arith, tt), (refl, tt)), tt),
      )
      h

searched-last : (t x : ℕ) → is_some (visible map searched.base t x) ≡ true → x ≤ 7
unfolding visible find_in find
searched-last t x h = ground arith

times_mono : (q v u : ℕ) → v ≤ u → times q v ≤ times q u
times_mono q v u h = grind arith

both-IsEnough : IsEnough (term_reader times map) term_docs 6 both_found
unfolding work ahead wand_reader reader_at climb skip indexes create_reader
both-IsEnough = omega arith

-- Document 3 scores 60, and document 7 scores 45.
query-IsTop_example :
    (best : List (ℕ × ℕ)) × (read_results (term_reader times map) 6 8 1 both_found ≡ some best)
    × IsTop (query_score times map searched.base both_terms) 0 1 best
query-IsTop_example =
    query-IsTop times map set searched both_terms both_found 6 8 1 7 finds_both
      searched-IsSearchable times_mono searched-last (omega arith) (omega arith) both-IsEnough
