-- ===== src/Tests/Readers.antt =====
-- The theorems on readers at concrete inputs.
use red_giant.Prelude.{ℕ, Bool, true, List, ◌≡◌, refl, false, some, [], ◌∷◌, arith, ltb, ◌+◌, inr}
use red_giant.Weight.{nat_weight}
use red_giant.Reader.{PostingListReader}
use red_giant.Reader.TopN.{read_topn, read_topn_loop, keep, push_heap, sort_heap, front_weight}
use red_giant.Reader.Best.{IsDescending, counted}
use red_giant.Reader.Top.{AreBest, read_topn-AreBest}
use red_giant.Reader.Yields.{Yields}
use red_giant.Reader.DotProduct.{dot_product_reader, dot_product-Yields}
use red_giant.ReaderTree.{union_next, union_next-eq_zero, MovesForward}
use red_giant.Tests.Lists.{list_reader, two_entries}

abbrev two-Yields : Yields list_reader 0 two_entries two_entries []
two-Yields = (
  two_entries,
  (7, 10) ∷ [],
  refl,
  refl,
  omega arith,
  ((7, 10) ∷ [], [], refl, refl, omega arith, refl),
)

-- The second entry is the better one and takes the place of the first.
abbrev rising : List (ℕ × ℕ)
rising = (3, 10) ∷ (7, 30) ∷ []

abbrev rising-Yields : Yields list_reader 0 rising rising []
rising-Yields = (
  rising,
  (7, 30) ∷ [],
  refl,
  refl,
  omega arith,
  ((7, 30) ∷ [], [], refl, refl, omega arith, refl),
)

read_topn-AreBest_example :
    (best : List (ℕ × ℕ)) × (rest : List (ℕ × ℕ)) × (read_topn list_reader 3 1 true rising
      ≡ some (best, []))
    × IsDescending best
    × AreBest 1 rest best
    × ((p : ℕ × ℕ → Bool) → counted p best + counted p rest ≡ counted p rising)
read_topn-AreBest_example =
    read_topn-AreBest list_reader (λ t s. refl) 3 1 rising rising [] rising-Yields (omega arith)
      (omega arith)

-- The same, run: the best comes first.
read_topn_two : read_topn list_reader 3 2 true rising ≡ some ((7, 30) ∷ (3, 10) ∷ [], [])
unfolding read_topn read_topn_loop keep push_heap sort_heap front_weight
read_topn_two = refl

read_topn_one : read_topn list_reader 3 1 true rising ≡ some ((7, 30) ∷ [], [])
unfolding read_topn read_topn_loop keep push_heap sort_heap front_weight
read_topn_one = refl

abbrev twice : ℕ → ℕ
twice v = v + v

dot_product-Yields_example :
    Yields (dot_product_reader list_reader twice) 0 two_entries ((3, 60) ∷ (7, 20) ∷ []) []
dot_product-Yields_example =
    dot_product-Yields list_reader twice 0 two_entries two_entries [] two-Yields

twice_mono : (a b : ℕ) → ltb b a ≡ false → ltb (twice b) (twice a) ≡ false
twice_mono a b h = ground arith

-- A reader that counts one document further at each call.
abbrev counting_reader : PostingListReader ℕ ℕ
counting_reader = record {
  next = λ current n. (current + 1, n + 1);
  read = λ n. (n, n);
  upper_bound = λ n. 30;
  size = λ n. 2;
  threshold = λ t n. n;
}

counting-MovesForward : MovesForward counting_reader
counting-MovesForward current n = inr (omega arith)

union_next-eq_zero_example : (union_next counting_reader 4 (0 ∷ 5 ∷ [])).0 ≡ 0
union_next-eq_zero_example = union_next-eq_zero counting_reader 4 (0 ∷ 5 ∷ []) counting-MovesForward
