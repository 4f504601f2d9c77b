-- ===== src/DocumentId/Value.antt =====
-- Document ids behave as the numbers below 2 ^ 128 that they stand for.
use red_giant.Prelude.{ℕ, ◌+◌, ◌-◌, ◌*◌, ◌%◌, ◌<◌, ◌≡◌, not, ltb, leb, ◌==◌, arith}
use red_giant.DocumentId.{DocumentId, word, eq, ne, lt, le, gt, ge, is_valid, inc, dec}

-- Both halves fit in a `uint64_t`.
pub record IsDocumentId (x : DocumentId) : Type 0 where
  pub low_fits : x.low < word
  pub high_fits : x.high < word

abbrev pub value : DocumentId → ℕ
value x = x.high * word + x.low

-- The comparisons of ids are those of their numbers.
pub value_order :
    (x y : DocumentId)
    → IsDocumentId x
    → IsDocumentId y
    → (eq x y ≡ (value x == value y))
      × (ne x y ≡ not (value x == value y))
      × (lt x y ≡ ltb (value x) (value y))
      × (le x y ≡ leb (value x) (value y))
      × (gt x y ≡ ltb (value y) (value x))
      × (ge x y ≡ leb (value y) (value x))
unfolding eq ne lt le gt ge
value_order x y h k =
    (ground arith, ground arith, ground arith, ground arith, ground arith, ground arith)

pub value-is_valid : (x : DocumentId) → is_valid x ≡ not (value x == 0)
unfolding is_valid
value-is_valid x = ground arith

-- `++` and `--` count up and down modulo 2 ^ 128, stay in range, and undo one another.
pub value-inc-dec :
    (x : DocumentId)
    → IsDocumentId x
    → IsDocumentId (inc x)
      × IsDocumentId (dec x)
      × (value (inc x) ≡ (value x + 1) % (word * word))
      × (value (dec x) ≡ (value x + word * word - 1) % (word * word))
      × (value (dec (inc x)) ≡ value x)
      × (value (inc (dec x)) ≡ value x)
unfolding inc dec
value-inc-dec x h =
    (ground arith, ground arith, ground arith, ground arith, ground arith, ground arith)
