-- ===== src/Wand.antt =====
-- core/reader/wand_reader.h and wand_reader-inl.h: the reader that sums the scores of other
-- readers, and skips the documents that cannot score more than a threshold.
pub mod Sums
pub mod Terms
pub mod Steps
pub mod Pivot
pub mod Next
pub mod Fuel
pub mod Least
pub mod Start
pub mod Carried
pub mod Collect
pub mod Posting
pub mod Scan
pub mod Best
pub mod Top
use red_giant.Prelude.{
  ℕ, zero, suc, ◌+◌, ◌-◌, Bool, true, false, not, Option, none, some, List, [], ◌∷◌, ◌++◌, map,
  if◌then◌else◌, ◌==◌, ltb, leb, length, take, drop,
}
use red_giant.Reader.{PostingListReader}

-- Scores are natural numbers. The vectors that keep their length, which is the number of the
-- readers, are functions from the indexes; the two that lose elements are lists.
pub record WandReader (S : Type 0) : Type 0 where
  pub readers_size : ℕ
  pub readers : ℕ → S
  pub reader_cursors : ℕ → ℕ
  pub upper_bounds : ℕ → ℕ
  pub sorted_indexes : List ℕ
  pub acc_upper_bounds : List ℕ
  pub threshold : ℕ

-- `l[i]` for an index in range.
abbrev pub nth : ℕ → List ℕ → ℕ
nth i [] = 0
nth zero (x ∷ l) = x
nth (suc i) (x ∷ l) = nth i l

-- `f[i] = x`
abbrev pub put {ℓ} : {A : Type ℓ} → ℕ → A → (ℕ → A) → ℕ → A
put i x f j = if i == j then x else f j

-- `std::partial_sum` from `score` on.
unfoldable pub partial_sum : ℕ → List ℕ → List ℕ
partial_sum score [] = []
partial_sum score (x ∷ l) = (score + x) ∷ partial_sum (score + x) l

-- The indexes from `i` on.
unfoldable pub indexes : ℕ → ℕ → List ℕ
indexes zero i = []
indexes (suc n) i = i ∷ indexes n (suc i)

-- How many elements `std::upper_bound` goes past, in an ascending range.
unfoldable pub upper_bound_of : ℕ → List ℕ → ℕ
upper_bound_of t [] = 0
upper_bound_of t (x ∷ l) = let rest = upper_bound_of t l in if ltb t x then 0 else suc rest

-- The last element, `l.back()`.
unfoldable pub back : List ℕ → ℕ
back [] = 0
back (x ∷ []) = x
back (x ∷ y ∷ l) = back (y ∷ l)

unfoldable pub find_pivot : {S : Type 0} → ℕ → WandReader S → ℕ
find_pivot from w = from + upper_bound_of w.threshold (drop from w.acc_upper_bounds)

unfoldable pub upper_bound : {S : Type 0} → WandReader S → ℕ
upper_bound w = if ltb 0 (length w.acc_upper_bounds) then back w.acc_upper_bounds else 0

unfoldable pub set_threshold : {S : Type 0} → ℕ → WandReader S → WandReader S
set_threshold threshold w = record w { threshold = threshold }

unfoldable pub pick_term : ℕ → ℕ → ℕ
pick_term pivot cursor = 0

-- What stands before `term` in `acc_upper_bounds`.
unfoldable pub score_before : ℕ → List ℕ → ℕ
score_before zero acc = 0
score_before (suc i) acc = nth i acc

-- The loops of `remove_term` and `move_term`: from `sorted_indexes[i]` on, they give what both
-- vectors hold from `i - 1` on. `pop_back` takes the last place away.
unfoldable pub remove_loop : (ℕ → ℕ) → ℕ → List ℕ → List ℕ × List ℕ
remove_loop upper_bounds score [] = ([], [])
remove_loop upper_bounds score (index ∷ l) =
    let score' = score + upper_bounds index in
    let (sorted, acc) = remove_loop upper_bounds score' l in (index ∷ sorted, score' ∷ acc)

unfoldable pub remove_term : {S : Type 0} → ℕ → WandReader S → WandReader S
remove_term term w =
    let score = score_before term w.acc_upper_bounds in
    let (sorted, acc) = remove_loop w.upper_bounds score (drop (suc term) w.sorted_indexes) in
    record w {
      sorted_indexes = take term w.sorted_indexes ++ sorted;
      acc_upper_bounds = take term w.acc_upper_bounds ++ acc;
    }

-- The last list is `acc_upper_bounds` from `i` on, which stays where the loop stops.
unfoldable pub move_loop : (ℕ → ℕ) → (ℕ → ℕ) → ℕ → ℕ → List ℕ → List ℕ → List ℕ × List ℕ
move_loop reader_cursors upper_bounds term_index score [] accs =
    (term_index ∷ [], (score + upper_bounds term_index) ∷ accs)
move_loop reader_cursors upper_bounds term_index score (index ∷ l) accs =
    let score' = score + upper_bounds index in
    let (sorted, acc) = move_loop reader_cursors upper_bounds term_index score' l (drop 1 accs) in
    if leb (reader_cursors term_index) (reader_cursors index)
    then (term_index ∷ index ∷ l, (score + upper_bounds term_index) ∷ accs)
    else (index ∷ sorted, score' ∷ acc)

unfoldable pub move_term : {S : Type 0} → ℕ → WandReader S → WandReader S
move_term term w =
    let score = score_before term w.acc_upper_bounds in
    let (sorted, acc) =
      move_loop w.reader_cursors w.upper_bounds (nth term w.sorted_indexes) score
        (drop (suc term) w.sorted_indexes) (drop (suc term) w.acc_upper_bounds) in
    record w {
      sorted_indexes = take term w.sorted_indexes ++ sorted;
      acc_upper_bounds = take term w.acc_upper_bounds ++ acc;
    }

module _ {S : Type 0} (reader : PostingListReader S ℕ) where
  -- `WandReader(input_readers)`
  unfoldable pub wand_reader : ℕ → (ℕ → S) → WandReader S
  wand_reader size input_readers =
      let upper_bounds = λ (i : ℕ). reader.upper_bound (input_readers i) in
      record {
        readers_size = size;
        readers = input_readers;
        reader_cursors = λ i. 0;
        upper_bounds = upper_bounds;
        sorted_indexes = indexes size 0;
        acc_upper_bounds = partial_sum 0 (map upper_bounds (indexes size 0));
        threshold = 0;
      }

  -- One round of the loop of `step_next`, less `pivot--`.
  unfoldable pub step_term : ℕ → ℕ → WandReader S → WandReader S
  step_term pick cursor w =
      let pick_index = nth pick w.sorted_indexes in
      let (next_cursor, s) = reader.next cursor (w.readers pick_index) in
      let w1 = record w {
        readers = put pick_index s w.readers;
        reader_cursors = put pick_index next_cursor w.reader_cursors;
      } in
      if next_cursor == 0 then remove_term pick w1 else move_term pick w1

  -- The loop of `step_next`, and `find_pivot` after it.
  unfoldable pub step_loop : ℕ → ℕ → WandReader S → ℕ × WandReader S
  step_loop zero cursor w = (find_pivot 0 w, w)
  step_loop (suc pivot) cursor w = elim (ltb w.threshold (nth pivot w.acc_upper_bounds)) [
    | false ↦ (find_pivot (suc pivot) w, w)
    | true ↦ step_loop pivot cursor (step_term (pick_term (suc pivot) cursor) cursor w)
  ]

  unfoldable pub step_next : ℕ → ℕ → WandReader S → ℕ × WandReader S
  step_next pivot cursor w = step_loop (suc pivot) cursor w

  -- The loop of `next`; `none`: the fuel ran out.
  unfoldable pub next_loop : ℕ → ℕ → ℕ → WandReader S → Option (ℕ × WandReader S)
  next_loop zero pivot current w = none
  next_loop (suc fuel) pivot current w = elim (leb (length w.sorted_indexes) pivot) [
    | true ↦ some (0, w)
    | false ↦
        let pivot_cursor = w.reader_cursors (nth pivot w.sorted_indexes) in
        elim (ltb current pivot_cursor) [
          | true ↦ elim (w.reader_cursors (nth 0 w.sorted_indexes) == pivot_cursor) [
            | true ↦ some (pivot_cursor, w)
            | false ↦
                let (pivot', w') = step_next pivot (pivot_cursor - 1) w in
                next_loop fuel pivot' current w'
          ]
          | false ↦ let (pivot', w') = step_next pivot current w in next_loop fuel pivot' current w'
        ]
  ]

  unfoldable pub next : ℕ → ℕ → WandReader S → Option (ℕ × WandReader S)
  next fuel current w = next_loop fuel (find_pivot 0 w) current w

  -- The loop of `read`: the score, and the readers after it.
  unfoldable pub read_loop : (ℕ → ℕ) → ℕ → List ℕ → ℕ → (ℕ → S) → ℕ × (ℕ → S)
  read_loop reader_cursors current [] score readers = (score, readers)
  read_loop reader_cursors current (index ∷ l) score readers =
      elim (reader_cursors index == current) [
        | false ↦ (score, readers)
        | true ↦
            let (weight, s) = reader.read (readers index) in
            read_loop reader_cursors current l (score + weight) (put index s readers)
      ]

  unfoldable pub read : WandReader S → ℕ × WandReader S
  read w =
      let current = w.reader_cursors (nth 0 w.sorted_indexes) in
      let (score, readers) = read_loop w.reader_cursors current w.sorted_indexes 0 w.readers in
      (score, record w { readers = readers })
