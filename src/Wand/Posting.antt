-- ===== src/Wand/Posting.antt =====
-- core/reader/wand_reader.h: the WAND reader as a posting list reader, with `fuel` for each call of
-- `next`; the state `none` is that the fuel ran out.
use red_giant.Prelude.{ℕ, Option, none, some}
use red_giant.Reader.{PostingListReader}
use red_giant.Wand.{WandReader, next, read, upper_bound, set_threshold}

module _ {S : Type 0} (reader : PostingListReader S ℕ) where
  unfoldable pub posting_next : ℕ → ℕ → Option (WandReader S) → ℕ × Option (WandReader S)
  posting_next fuel current none = (0, none)
  posting_next fuel current (some w) = elim (next reader fuel current w) [
    | none ↦ (0, none)
    | some r ↦ (r.0, some r.1)
  ]

  unfoldable pub posting_read : Option (WandReader S) → ℕ × Option (WandReader S)
  posting_read none = (0, none)
  posting_read (some w) = let (score, w') = read reader w in (score, some w')

  abbrev pub wand_posting_reader : ℕ → PostingListReader (Option (WandReader S)) ℕ
  wand_posting_reader fuel = record {
    next = posting_next fuel;
    read = posting_read;
    upper_bound = λ s. elim s [ none ↦ 0 | some w ↦ upper_bound w ];
    size = λ s. 0;
    threshold = λ t s. elim s [ none ↦ none | some w ↦ some (set_threshold t w) ];
  }
