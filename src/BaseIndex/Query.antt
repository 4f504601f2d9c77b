-- ===== src/BaseIndex/Query.antt =====
-- What the readers that the index hands out show.
use mathlib.Core.Path.{subst}
use red_giant.Prelude.{
  ℕ, ◌≡◌, ◌≢◌, refl, Option, none, some, List, [], ◌∷◌, ◌++◌, arith, Option-cases, inl, inr,
  if◌then◌else◌, ◌==◌, zero, suc, ◌∙◌, sym, ap, Bool-cases, ==_iff,
}
use red_giant.Key.{nat_key}
use red_giant.Key.Assoc.{lookup}
use red_giant.Weight.{Weight}
use red_giant.Container.{OrderedMap}
use red_giant.Container.Sorted.{IsAscending, lookup_below}
use red_giant.Reader.Yields.{Yields}
use red_giant.PostingList
use red_giant.PostingList.{BTreePostingList, BTreePostingListReader, posting_reader}
use red_giant.PostingList.Walk.{create_reader-Yields}
use red_giant.BaseIndex.{BaseIndexImpl, peek, query, find_terms, create_queries, batch_query}
use red_giant.BaseIndex.Posting.{find_in, visible}

module _ {ℓ} {W : Type ℓ} ⦃w : Weight W⦄ (m : OrderedMap W) where
  reader_of_peek :
      (t : ℕ) (b : BaseIndexImpl m) {r : BTreePostingListReader W}
      → peek m t b ≡ some r
      → (p : BTreePostingList m) × (lookup t b.index ≡ some p) × (PostingList.create_reader m p ≡ r)
  unfolding peek
  reader_of_peek t b h = elim (Option-cases (lookup t b.index)) [
    | inl i ↦ absurd (grind (arith, i))
    | inr (p, i) ↦ (p, i, ground (arith, i))
  ]

  the_other : (d : ℕ) (a b : Option W) → d ≢ 0 → (if d == 0 then a else b) ≡ b
  the_other d a b h = elim (Bool-cases (d == 0)) [
    | inl z ↦ absurd (h ((==_iff d 0).0 z))
    | inr z ↦ rw z
  ]

  shown_at :
      (t d : ℕ) (b : BaseIndexImpl m) {p : BTreePostingList m}
      → lookup t b.index ≡ some p
      → lookup d (create_reader-Yields m p).0 ≡ (if d == 0 then none else visible m b t d)
  unfolding visible find_in
  shown_at t zero b {p} i =
      let y = create_reader-Yields m p in lookup_below 0 0 y.0 (omega arith) y.1
  shown_at t (suc d) b {p} i =
      let y = create_reader-Yields m p in
      y.2 (suc d) (omega arith)
      ∙ ap (find_in m (suc d)) (sym i)
      ∙ sym (the_other (suc d) none (find_in m (suc d) (lookup t b.index)) (omega arith))

  -- A reader that `peek` gives yields, in ascending order of the documents, exactly what is visible
  -- of valid documents under the term.
  pub peek-Yields :
      (t : ℕ) (b : BaseIndexImpl m) (r : BTreePostingListReader W)
      → peek m t b ≡ some r
      → (l : List (ℕ × W)) × (e : BTreePostingListReader W) × IsAscending 0 l
        × Yields (posting_reader m) 0 r l e
        × ((d : ℕ) → lookup d l ≡ (if d == 0 then none else visible m b t d))
  unfolding visible
  peek-Yields t b r h =
      let (p, i, e) = reader_of_peek t b h in
      let y = create_reader-Yields m p in
      (
        y.0,
        record (PostingList.create_reader m p) { iter = [] },
        y.1,
        subst
            (λ q.
              Yields (posting_reader m) 0 q y.0
                (record (PostingList.create_reader m p) { iter = [] }))
            e y.4,
        λ d. shown_at t d b i,
      )

  -- A pair for a query that found its term, and nothing for one that did not.
  abbrev pub found_one : {R : Type ℓ} → ℕ → Option R → List (ℕ × R)
  found_one t none = []
  found_one t (some r) = (t, r) ∷ []

  abbrev pub one_by_one :
      {R : Type ℓ} → List (ℕ × (BTreePostingListReader W → R)) → BaseIndexImpl m → List (ℕ × R)
  one_by_one [] b = []
  one_by_one ((t, q) ∷ queries) b = found_one t (query m t q b) ++ one_by_one queries b

  -- A batch of queries gives, in their order, what the queries give one by one, less those whose
  -- term has no posting list.
  pub batch_query-one_by_one :
      {R : Type ℓ} (queries : List (ℕ × (BTreePostingListReader W → R))) (b : BaseIndexImpl m)
      → batch_query m queries b ≡ one_by_one queries b
  unfolding batch_query find_terms create_queries query
  batch_query-one_by_one [] b = refl
  batch_query-one_by_one ((t, q) ∷ queries) b = ground (arith, batch_query-one_by_one queries b)
