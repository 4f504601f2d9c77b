-- ===== src/DocumentIndex/Results.antt =====
-- What a query of the index and `read_topn` find together: the best of all documents by the scores
-- of what readers see.
use mathlib.Core.Path.{subst, fun_ext}
use red_giant.Prelude.{
  ℕ, zero, suc, ◌+◌, ◌≤◌, ◌<◌, ◌≡◌, ◌≢◌, refl, sym, ap, ◌∙◌, true, none, some, Option, List, [],
  ◌∷◌, arith, is_some, inl, inr, All, All-imp, length, contains, Option-cases, map,
}
use red_giant.Key.{nat_key}
use red_giant.Key.Assoc.{lookup}
use red_giant.Weight.{nat_weight}
use red_giant.Container.{OrderedMap}
use red_giant.Container.Sorted.{IsAscending, lookup_below}
use red_giant.ExpireTable.Pairs.{pair_key}
use red_giant.Reader.Yields.{Yields}
use red_giant.Reader.DotProduct.{dot_product_reader, dot_product-Yields, score_entry}
use red_giant.Reader.Top.{read_topn-AreBest}
use red_giant.PostingList.{BTreePostingList, BTreePostingListReader, create_reader, posting_reader}
use red_giant.PostingList.Lookup.{find}
use red_giant.PostingList.Bound.{IsUpperBound}
use red_giant.PostingList.Walk.{create_reader-Yields}
use red_giant.BaseIndex.{BaseIndexImpl}
use red_giant.BaseIndex.Posting.{find_in, visible}
use red_giant.Wand.{wand_reader}
use red_giant.Wand.Top.{IsTop, read_topn-IsTop}
use red_giant.DocumentIndex.{QueryReader, single, wand, reader_at, choose_reader}
use red_giant.DocumentIndex.Search.{read_results, IsEnough}
use red_giant.DocumentIndex.Single.{entry_score, AreBest-IsTop}
use red_giant.DocumentIndex.TermReader.{
  TermReader, term_docs, term_reader, of_term, term_weights, contains-climb, climb-Ascending,
  IsFine, climb, term_reader-Walks, term_reader-Weighs,
}
use red_giant.DocumentIndex.Found.{
  IsSearchable, share_of, shares, Made, share_of-made, sum_below-shares, reader_at-All,
}

length-IsAscending :
    (b lo : ℕ) (l : List (ℕ × ℕ))
    → IsAscending lo l
    → lo ≤ b
    → ((x : ℕ) → is_some (lookup x l) ≡ true → x ≤ b)
    → length l + lo ≤ b
length-IsAscending b lo [] a h k = omega (arith, h)
length-IsAscending b lo ((d, v) ∷ l) a h k =
    omega (
      arith,
      a.0,
      length-IsAscending b d l a.1 (k d (ground arith)) (λ x g. k x (ground (arith, g))),
    )

bounded_weight : (ub x v : ℕ) (l : List (ℕ × ℕ)) → IsUpperBound ub l → lookup x l ≡ some v → v ≤ ub
bounded_weight ub x v [] h e = absurd (cc)
bounded_weight ub x v ((d, u) ∷ l) h e = ground (arith, h.0, bounded_weight ub x v l h.1)

length-scores :
    (combiner : ℕ → ℕ) (l : List (ℕ × ℕ)) → length (map (score_entry combiner) l) ≡ length l
length-scores combiner [] = refl
length-scores combiner (e ∷ l) = ap suc (length-scores combiner l)

module _ (combiner : ℕ → ℕ → ℕ) (m : OrderedMap ℕ) where
  -- `DocId()` is in neither list.
  found_in_list :
      (p : BTreePostingList m) (l : List (ℕ × ℕ)) (x : ℕ)
      → IsAscending 0 l
      → IsAscending 0 (m.items p.posting)
      → ((d : ℕ) → d ≢ 0 → lookup d l ≡ find m d p)
      → lookup x l ≡ find m x p
  unfolding find
  found_in_list p l zero a c h =
      lookup_below 0 0 l (omega arith) a
      ∙ sym (lookup_below 0 0 (m.items p.posting) (omega arith) c)
  found_in_list p l (suc x) a c h = h (suc x) (omega arith)

  -- The reader of a term yields the scores of its posting list.
  term-Yields :
      (weight current : ℕ) (r e : BTreePostingListReader ℕ) (l : List (ℕ × ℕ))
      → Yields (of_term combiner m (weight, r)) current r l e
      → Yields (term_reader combiner m) current (weight, r) l (weight, e)
  unfolding dot_product_reader
  term-Yields weight current r e [] y = ap (λ x. (x.0, (weight, x.1))) y
  term-Yields weight current r e ((d, v) ∷ l) (s1, s2, n, q, z, y) = (
    (weight, s1),
    (weight, s2),
    ap (λ x. (x.0, (weight, x.1))) n,
    ap (λ x. (x.0, (weight, x.1))) q,
    z,
    term-Yields weight d s2 e l y,
  )

  module _ (b : BaseIndexImpl m) (top : ℕ) (searchable : IsSearchable combiner m b)
      (last : (t x : ℕ) → is_some (visible m b t x) ≡ true → x ≤ top)
      (mono : (q v u : ℕ) → v ≤ u → combiner q v ≤ combiner q u) where
    -- What the WAND reader asks of the reader of a term.
    abbrev Suits : TermReader → Type 0
    Suits r =
        IsFine combiner m r
        × ((x : ℕ)
            → contains x (term_docs r) ≡ true
            → (x ≤ top) × (term_weights combiner m r x ≤ (term_reader combiner m).upper_bound r))

    Made-Suits : (e : ℕ × TermReader) → Made combiner m b e → Suits e.1
    unfolding create_reader visible find_in find dot_product_reader
    Made-Suits e (t, weight, p, i, h) =
        let a = (searchable t p i).0 in
        let c : (x : ℕ)
            → contains x (climb 0 (m.items p.posting)) ≡ true
            → is_some (lookup x (m.items p.posting)) ≡ true =
          λ x g. sym (contains-climb x 0 (m.items p.posting) a) ∙ g in
        subst Suits (sym h) (
          record { listed = a; ascending = a; inside = λ x v g. g },
          λ x g. (
            last t x (rw (visible, i) (c x g)),
            elim (Option-cases (lookup x (m.items p.posting))) [
              | inl n ↦ absurd (ground (arith, c x g, n))
              | inr (v, n) ↦ rw n (
                  mono weight v p.upper_bound
                    (bounded_weight p.upper_bound x v (m.items p.posting) (searchable t p i).1 n))
            ],
          ),
        )

    module _ (fuel n count : ℕ) (positive : 0 < count) (enough : top < n) where
      abbrev pub Best : (ℕ → ℕ) → QueryReader TermReader → Type 0
      Best f reader =
          (best : List (ℕ × ℕ)) × (read_results (term_reader combiner m) fuel n count reader
            ≡ some best)
          × IsTop f 0 count best

      single-Best :
          (t weight : ℕ) (p : BTreePostingList m)
          → lookup t b.index ≡ some p
          → Best
              (λ x. share_of combiner m (weight, create_reader m p) x + 0)
              (single (weight, create_reader m p))
      unfolding read_results visible find_in dot_product_reader
      single-Best t weight p i =
          let r = create_reader m p in
          let (l, a, same, _, y) = create_reader-Yields m p in
          let found : (x : ℕ) → lookup x l ≡ find m x p =
            λ x. found_in_list p l x a (searchable t p i).0 same in
          let f : (x : ℕ)
              → entry_score (combiner weight) l x ≡ share_of combiner m (weight, r) x + 0 =
            λ x.
              ground (arith, found x, share_of-made combiner m weight x p (searchable t p i).0) in
          let (best, rest, h, d, k, c) =
            read_topn-AreBest (term_reader combiner m) (λ t s. refl) n count (weight, r)
              (map (score_entry (combiner weight)) l) (weight, record r { iter = [] })
              (term-Yields weight 0 r (record r { iter = [] })
                (map (score_entry (combiner weight)) l)
                (dot_product-Yields (posting_reader m) (combiner weight) 0 r l
                  (record r { iter = [] }) y))
              (omega (
                arith,
                length-scores (combiner weight) l,
                length-IsAscending top 0 l a (omega arith)
                    (λ x g. last t x (rw (visible, i) (ap is_some (sym (found x)) ∙ g))),
              ))
              positive in
          (
            best,
            rw (read_results, h) refl,
            subst (λ g. IsTop g 0 count best) (fun_ext f)
                (AreBest-IsTop (combiner weight) count l best rest a d k c),
          )

      wand-Best :
          (first : TermReader) (l : List (ℕ × TermReader))
          → Suits first
          → All (λ e. Suits e.1) l
          → IsEnough
              (term_reader combiner m)
              term_docs
              fuel
              (wand (wand_reader (term_reader combiner m) (length l) (reader_at first l)))
          → Best
              (shares combiner m l)
              (wand (wand_reader (term_reader combiner m) (length l) (reader_at first l)))
      unfolding read_results
      wand-Best first l h a g =
          let suits = reader_at-All combiner m Suits first l h a in
          let (best, e, k, c) =
            read_topn-IsTop (term_reader combiner m) term_docs (term_weights combiner m)
              (IsFine combiner m) (term_reader-Walks combiner m) (term_reader-Weighs combiner m)
              (length l) (reader_at first l) fuel n count top positive
              (λ i o. climb-Ascending 0 (reader_at first l i).1.iter) (λ i x o q. (suits i).1 x q)
              (λ i. (suits i).0) g enough in
          (
            best,
            rw (read_results, k) refl,
            subst (λ f. IsTop f 0 count best) (fun_ext (λ x. sum_below-shares combiner m x first l))
                c,
          )

      abbrev pub Answers : (ℕ → ℕ) → Option (QueryReader TermReader) → Type 0
      Answers f none = Unit
      Answers f (some reader) =
          IsEnough (term_reader combiner m) term_docs fuel reader → Best f reader

      pub choose_reader-Best :
          (l : List (ℕ × TermReader))
          → All (Made combiner m b) l
          → Answers (shares combiner m l) (choose_reader (term_reader combiner m) l)
      unfolding choose_reader
      choose_reader-Best [] a = tt
      choose_reader-Best (e ∷ []) a = λ g.
          let (t, weight, p, i, h) = a.0 in
          subst (λ r. Best (λ x. share_of combiner m r x + 0) (single r)) (sym h)
            (single-Best t weight p i)
      choose_reader-Best (e ∷ e' ∷ l) a = λ g.
          wand-Best e.1 (e ∷ e' ∷ l) (Made-Suits e a.0)
            (All-imp (Made combiner m b) Made-Suits (e ∷ e' ∷ l) a) g
