-- ===== src/DocumentIndex/TermReader.antt =====
-- core/query/dot_product_query.h over core/index/btree_posting_list.h: the reader of one term of a
-- query, and that it keeps to what the WAND reader asks of its readers.
use red_giant.Prelude.{
  ℕ, ◌≤◌, ◌≡◌, refl, ap, ◌∙◌, sym, none, some, List, [], ◌∷◌, arith, ltb, leb, if◌then◌else◌,
  contains, is_some, Bool-cases, inl, inr,
}
use red_giant.Key.{nat_key}
use red_giant.Key.Assoc.{lookup}
use red_giant.Container.{OrderedMap}
use red_giant.Container.Sorted.{IsAscending, IsAscending-weaken, lookup_below}
use red_giant.Reader.{PostingListReader}
use red_giant.Reader.DotProduct.{dot_product_reader}
use red_giant.PostingList.{
  BTreePostingListReader, advance, first_id, second_or, next, posting_reader,
}
use red_giant.PostingList.Walk.{lookup-advance, advance-IsAscending}
use red_giant.Wand.Terms.{skip, first_of, Ascending}
use red_giant.Wand.Steps.{Walks}
use red_giant.Wand.Scan.{Weighs}

-- The weight of the query, and the reader of the term.
abbrev pub TermReader : Type 0
TermReader = ℕ × BTreePostingListReader ℕ

-- The documents above `lo` that a reader stops at: each is above those before it.
unfoldable pub climb : ℕ → List (ℕ × ℕ) → List ℕ
climb lo [] = []
climb lo ((d, v) ∷ l) = if ltb lo d then d ∷ climb d l else climb lo l

abbrev pub term_docs : TermReader → List ℕ
term_docs s = climb 0 s.1.iter

pub climb-Ascending : (lo : ℕ) (l : List (ℕ × ℕ)) → Ascending lo (climb lo l)
unfolding climb
climb-Ascending lo [] = tt
climb-Ascending lo ((d, v) ∷ l) = ground (arith, climb-Ascending d l, climb-Ascending lo l)

skip-climb : (c lo : ℕ) (l : List (ℕ × ℕ)) → c ≤ lo → skip c (climb lo l) ≡ climb lo l
unfolding climb skip
skip-climb c lo [] h = refl
skip-climb c lo ((d, v) ∷ l) h = ground (arith, skip-climb c lo l)

climb_below :
    (c lo : ℕ) (l : List (ℕ × ℕ)) → lo ≤ c → climb lo (advance c l) ≡ climb c (advance c l)
unfolding climb advance
climb_below c lo [] h = refl
climb_below c lo ((d, v) ∷ l) h = ground (arith, climb_below c lo l)

-- What is passed over goes down from `climb lo` just as it is skipped.
climb-advance :
    (c lo : ℕ) (l : List (ℕ × ℕ)) → lo ≤ c → climb lo (advance c l) ≡ skip c (climb lo l)
unfolding climb skip advance
climb-advance c lo [] h = refl
climb-advance c lo ((d, v) ∷ l) h =
    ground (arith, climb-advance c lo l, climb-advance c d l, climb_below c lo l, climb_below c d l)

first_of-climb :
    (c : ℕ) (l : List (ℕ × ℕ)) → first_of (climb c (advance c l)) ≡ first_id (advance c l)
unfolding climb advance
first_of-climb c [] = refl
first_of-climb c ((d, v) ∷ l) = ground (arith, first_of-climb c l)

pub contains-climb :
    (x lo : ℕ) (l : List (ℕ × ℕ))
    → IsAscending lo l
    → contains x (climb lo l) ≡ is_some (lookup x l)
unfolding climb
contains-climb x lo [] a = refl
contains-climb x lo ((d, v) ∷ l) a = ground (arith, contains-climb x d l a.1)

-- Whatever is left was there.
lookup_back :
    (c x v : ℕ) (l : List (ℕ × ℕ))
    → IsAscending 0 l
    → lookup x (advance c l) ≡ some v
    → lookup x l ≡ some v
lookup_back c x v l a h = elim (Bool-cases (leb x c)) [
  | inl e ↦
      let gone = lookup_below x c (advance c l) (ground arith) (advance-IsAscending c 0 l a) in
      absurd (cc)
  | inr e ↦ sym (lookup-advance c x l (ground arith)) ∙ h
]

read_first :
    (z : ℕ) (l posting : List (ℕ × ℕ))
    → IsAscending 0 posting
    → IsAscending 0 l
    → ((x v : ℕ) → lookup x l ≡ some v → lookup x posting ≡ some v)
    → second_or z l ≡ elim (lookup (first_of (climb 0 l)) posting) [ none ↦ z | some v ↦ v ]
unfolding climb
read_first z [] posting p a h = rw (lookup_below 0 0 posting (omega arith) p) refl
read_first z ((d, v) ∷ l) posting p a h =
    let e : first_of (climb 0 ((d, v) ∷ l)) ≡ d = ground (arith, a.0) in
    let k : lookup (first_of (climb 0 ((d, v) ∷ l))) posting ≡ some v =
      ap (λ x. lookup x posting) e ∙ h d v (ground arith) in
    ground (arith, k)

module _ (combiner : ℕ → ℕ → ℕ) (m : OrderedMap ℕ) where
  -- `DotProductQuery::query`: the score of a weight is `combiner` of the query's weight and it.
  unfoldable pub term_query : ℕ → BTreePostingListReader ℕ → TermReader
  term_query weight reader = (weight, reader)

  -- The dot product reader that the query has made.
  abbrev pub of_term : TermReader → PostingListReader (BTreePostingListReader ℕ) ℕ
  of_term s = dot_product_reader (posting_reader m) (combiner s.0)

  abbrev pub term_reader : PostingListReader TermReader ℕ
  unfolding dot_product_reader
  term_reader = record {
    next = λ c s. let (d, r) = (of_term s).next c s.1 in (d, (s.0, r));
    read = λ s. let (score, r) = (of_term s).read s.1 in (score, (s.0, r));
    upper_bound = λ s. (of_term s).upper_bound s.1;
    size = λ s. (of_term s).size s.1;
    threshold = λ t s. (s.0, (of_term s).threshold t s.1);
  }

  -- The score of a document in the posting list of the term.
  abbrev pub term_weights : TermReader → ℕ → ℕ
  term_weights s x = combiner s.0 (elim (lookup x s.1.posting) [ none ↦ m.past_end | some v ↦ v ])

  -- `DocId()` is not in the list, and the iterator is in it.
  pub record IsFine (s : TermReader) : Type 0 where
    pub listed : IsAscending 0 s.1.posting
    pub ascending : IsAscending 0 s.1.iter
    pub inside : (x v : ℕ) → lookup x s.1.iter ≡ some v → lookup x s.1.posting ≡ some v

  pub term_reader-Walks : Walks term_reader term_docs
  unfolding dot_product_reader next
  term_reader-Walks = record {
    next_doc = λ c s.
        let it = s.1.iter in
        sym (first_of-climb c it)
        ∙ ap first_of (sym (climb_below c 0 it (omega arith)) ∙ climb-advance c 0 it (omega arith));
    next_rest = λ c s. climb-advance c 0 s.1.iter (omega arith);
  }

  pub term_reader-Weighs : Weighs term_reader term_docs term_weights IsFine
  unfolding dot_product_reader next
  term_reader-Weighs = record {
    next_fine = λ c s f. record {
      listed = f.listed;
      ascending =
          IsAscending-weaken 0 c (advance c s.1.iter) (omega arith)
            (advance-IsAscending c 0 s.1.iter f.ascending);
      inside = λ x v h. f.inside x v (lookup_back c x v s.1.iter f.ascending h);
    };
    next_weights = λ c x s f. refl;
    read_fine = λ s f. f;
    read_weights = λ x s f. refl;
    read_docs = λ s f. refl;
    read_weight = λ s f.
        ap (combiner s.0)
          (read_first m.past_end s.1.iter s.1.posting f.listed f.ascending f.inside);
  }
