-- ===== src/DocumentIndex/Found.antt =====
-- The readers that a query of the index finds, and what documents score in them.
use red_giant.Prelude.{
  ℕ, zero, suc, ◌+◌, ◌≡◌, refl, ap, ◌∙◌, none, some, List, [], ◌∷◌, arith, if◌then◌else◌, inl, inr,
  All, length, contains, Option-cases,
}
use red_giant.Key.{nat_key}
use red_giant.Key.Assoc.{lookup}
use red_giant.Weight.{nat_weight}
use red_giant.Container.{OrderedMap}
use red_giant.Container.Sorted.{IsAscending}
use red_giant.PostingList.{BTreePostingList, BTreePostingListReader, create_reader}
use red_giant.PostingList.Lookup.{find}
use red_giant.PostingList.Bound.{IsBounded}
use red_giant.BaseIndex
use red_giant.BaseIndex.{BaseIndexImpl}
use red_giant.BaseIndex.Posting.{find_in, visible}
use red_giant.BaseIndex.Query.{one_by_one}
use red_giant.Wand.Sums.{sum_below}
use red_giant.DocumentIndex.{reader_at, document_query}
use red_giant.DocumentIndex.TermReader.{
  TermReader, term_docs, term_query, term_weights, contains-climb,
}

module _ (combiner : ℕ → ℕ → ℕ) (m : OrderedMap ℕ) where
  -- What a document scores for a term with a weight: its visible weight, combined with it.
  abbrev pub term_score : BaseIndexImpl m → ℕ → ℕ → ℕ → ℕ
  term_score b term_id weight x = elim (visible m b term_id x) [
    | none ↦ 0
    | some v ↦ combiner weight v
  ]

  abbrev pub query_score : BaseIndexImpl m → List (ℕ × ℕ) → ℕ → ℕ
  query_score b [] x = 0
  query_score b ((term_id, weight) ∷ l) x = term_score b term_id weight x + query_score b l x

  -- No posting list holds `DocId()` or a weight above its upper bound.
  abbrev pub IsSearchable : BaseIndexImpl m → Type 0
  IsSearchable b =
      (t : ℕ) (p : BTreePostingList m)
      → lookup t b.index ≡ some p
      → IsAscending 0 (m.items p.posting) × IsBounded m p

  abbrev pub share_of : TermReader → ℕ → ℕ
  share_of s x = if contains x (term_docs s) then term_weights combiner m s x else 0

  abbrev pub shares : List (ℕ × TermReader) → ℕ → ℕ
  shares [] x = 0
  shares ((t, r) ∷ l) x = share_of r x + shares l x

  -- The reader of a term that was found.
  abbrev pub Made : BaseIndexImpl m → ℕ × TermReader → Type 0
  Made b e =
      (t : ℕ) × (weight : ℕ) × (p : BTreePostingList m) × (lookup t b.index ≡ some p)
      × (e.1 ≡ (weight, create_reader m p))

  pub share_of-made :
      (weight x : ℕ) (p : BTreePostingList m)
      → IsAscending 0 (m.items p.posting)
      → share_of (weight, create_reader m p) x
        ≡ elim (find m x p) [ none ↦ 0 | some v ↦ combiner weight v ]
  unfolding create_reader find
  share_of-made weight x p a = ground (arith, contains-climb x 0 (m.items p.posting) a)

  abbrev pub queries : List (ℕ × ℕ) → List (ℕ × (BTreePostingListReader ℕ → TermReader))
  queries terms = document_query (term_query combiner m) terms

  pub Made-found :
      (b : BaseIndexImpl m) (terms : List (ℕ × ℕ)) → All (Made b) (one_by_one m (queries terms) b)
  unfolding document_query BaseIndex.query term_query
  Made-found b [] = tt
  Made-found b ((t, weight) ∷ terms) = elim (Option-cases (lookup t b.index)) [
    | inl e ↦ rw (BaseIndex.query, e) (Made-found b terms)
    | inr (p, e) ↦ rw (BaseIndex.query, e) ((t, weight, p, e, refl), Made-found b terms)
  ]

  pub shares-found :
      (b : BaseIndexImpl m) (terms : List (ℕ × ℕ)) (x : ℕ)
      → IsSearchable b
      → shares (one_by_one m (queries terms) b) x ≡ query_score b terms x
  unfolding document_query BaseIndex.query term_query visible find_in
  shares-found b [] x h = refl
  shares-found b ((t, weight) ∷ terms) x h = elim (Option-cases (lookup t b.index)) [
    | inl e ↦ ground (arith, e, shares-found b terms x h)
    | inr (p, e) ↦ ground (arith, e, shares-found b terms x h, share_of-made weight x p (h t p e).0)
  ]

  sum_below-first : (f : ℕ → ℕ) (n : ℕ) → sum_below f (suc n) ≡ f 0 + sum_below (λ i. f (suc i)) n
  sum_below-first f zero = omega arith
  sum_below-first f (suc n) = omega (arith, sum_below-first f n)

  pub sum_below-shares :
      (x : ℕ) (first : TermReader) (l : List (ℕ × TermReader))
      → sum_below (λ i. share_of (reader_at first l i) x) (length l) ≡ shares l x
  unfolding reader_at
  sum_below-shares x first [] = refl
  sum_below-shares x first ((t, r) ∷ l) =
      sum_below-first (λ i. share_of (reader_at first ((t, r) ∷ l) i) x) (length l)
      ∙ ap (λ n. share_of r x + n) (sum_below-shares x first l)

  pub reader_at-All :
      (P : TermReader → Type 0) (first : TermReader) (l : List (ℕ × TermReader))
      → P first
      → All (λ e. P e.1) l
      → (i : ℕ) → P (reader_at first l i)
  unfolding reader_at
  reader_at-All P first [] h a i = h
  reader_at-All P first ((t, r) ∷ l) h a zero = a.0
  reader_at-All P first ((t, r) ∷ l) h a (suc i) = reader_at-All P first l h a.1 i
