-- ===== src/DocumentIndex/BestOf.antt =====
-- From a query to its results: the index, the readers of the terms, the WAND reader and `read_topn`
-- together.
use mathlib.Core.Path.{subst, fun_ext}
use red_giant.Prelude.{ℕ, ◌≤◌, ◌<◌, ◌≡◌, ◌∙◌, sym, ap, true, some, List, [], ◌∷◌, is_some}
use red_giant.Key.{nat_key}
use red_giant.Weight.{nat_weight}
use red_giant.Container.{OrderedMap, OrderedSet}
use red_giant.ExpireTable.Pairs.{pair_key}
use red_giant.BaseIndex.Posting.{visible}
use red_giant.BaseIndex.Query.{one_by_one, batch_query-one_by_one}
use red_giant.RowIndex.{RowIndexImpl}
use red_giant.Wand.Top.{IsTop}
use red_giant.DocumentIndex.{QueryReader, document_query, choose_reader, query}
use red_giant.DocumentIndex.Search.{read_results, IsEnough}
use red_giant.DocumentIndex.TermReader.{TermReader, term_docs, term_query, term_reader}
use red_giant.DocumentIndex.Found.{
  shares, query_score, IsSearchable, queries, Made-found, shares-found,
}
use red_giant.DocumentIndex.Results.{Answers, choose_reader-Best}

module _ (combiner : ℕ → ℕ → ℕ) (m : OrderedMap ℕ) (s : OrderedSet (ℕ × ℕ)) where
  -- Where a query of terms with weights returns a reader, `read_topn` returns from it, with a count
  -- that is not 0 and enough fuel, the best of all documents: the score of a document is the sum,
  -- over the terms, of what `combiner` makes of the weight of the term and the weight that readers
  -- see for it; the entries are in descending order, no document stands twice, and each document
  -- scores 0, or is among them, or there are `count` of them and none scores less. `combiner` must
  -- be monotone in the second weight, and no posting list may hold `DocId()` or a weight above its
  -- upper bound.
  pub query-IsTop :
      (index : RowIndexImpl m s) (terms : List (ℕ × ℕ)) (reader : QueryReader TermReader)
      (fuel n count top : ℕ)
      → query m s (term_reader combiner m) (document_query (term_query combiner m) terms) index
        ≡ some reader
      → IsSearchable combiner m index.base
      → ((q v u : ℕ) → v ≤ u → combiner q v ≤ combiner q u)
      → ((t x : ℕ) → is_some (visible m index.base t x) ≡ true → x ≤ top)
      → 0 < count
      → top < n
      → IsEnough (term_reader combiner m) term_docs fuel reader
      → (best : List (ℕ × ℕ)) × (read_results (term_reader combiner m) fuel n count reader
          ≡ some best)
        × IsTop (query_score combiner m index.base terms) 0 count best
  unfolding query document_query
  query-IsTop index [] reader fuel n count top h o mono last p k e = absurd (cc)
  query-IsTop index ((t, weight) ∷ terms) reader fuel n count top h o mono last p k e =
      let all = (t, weight) ∷ terms in
      let b = index.base in
      let found = one_by_one m (queries combiner m all) b in
      let (best, r, i) =
        subst (Answers combiner m b top o last mono fuel n count p k (shares combiner m found))
          (ap (choose_reader (term_reader combiner m))
              (sym (batch_query-one_by_one m (queries combiner m all) b))
            ∙ h)
          (choose_reader-Best combiner m b top o last mono fuel n count p k found
            (Made-found combiner m b all))
          e in
      (
        best,
        r,
        subst (λ f. IsTop f 0 count best) (fun_ext (λ x. shares-found combiner m b all x o)) i,
      )
