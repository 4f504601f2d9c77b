-- ===== src/Tests/Lists.antt =====
-- The theorems on posting lists and document ids at concrete inputs.
use red_giant.Prelude.{ℕ, ◌≡◌, List, [], ◌∷◌, arith, ◌+◌, ◌-◌, ◌*◌, ◌%◌}
use red_giant.Key.{nat_key}
use red_giant.Weight.{nat_weight}
use red_giant.Container.{OrderedMap}
use red_giant.Container.SortedMap.{sorted_map}
use red_giant.Reader.{PostingListReader}
use red_giant.PostingList.{BTreePostingList, BTreePostingListReader}
use red_giant.DocumentId.{DocumentId, inc, dec, word}
use red_giant.DocumentId.Value.{IsDocumentId, value, value-inc-dec}

abbrev pub map : OrderedMap ℕ
map = sorted_map 0

-- Documents 3 and 7, with the weights 30 and 10.
abbrev pub two_postings : BTreePostingList map
two_postings = record { posting = ((3, 30) ∷ (7, 10) ∷ [], (omega arith)); upper_bound = 30 }

-- A reader whose state is what it has not yielded yet.
abbrev pub list_reader : PostingListReader (List (ℕ × ℕ)) ℕ
list_reader = record {
  next = λ current l. elim l [ [] ↦ (0, []) | e ∷ rest ↦ (e.0, e ∷ rest) ];
  read = λ l. elim l [ [] ↦ (0, []) | e ∷ rest ↦ (e.1, rest) ];
  upper_bound = λ l. 30;
  size = λ l. 2;
  threshold = λ t l. l;
}

abbrev pub two_entries : List (ℕ × ℕ)
two_entries = (3, 30) ∷ (7, 10) ∷ []

abbrev iterating : BTreePostingListReader ℕ
iterating = record { posting = two_entries; upper_bound = 30; iter = two_entries }

-- The last id with a high half of 0, and the first one behind it.
abbrev low_end : DocumentId
low_end = record { low = 18446744073709551615; high = 0 }

abbrev high_start : DocumentId
high_start = record { low = 0; high = 1 }

value-inc-dec_example :
    IsDocumentId (inc low_end)
    × IsDocumentId (dec low_end)
    × (value (inc low_end) ≡ (value low_end + 1) % (word * word))
    × (value (dec low_end) ≡ (value low_end + word * word - 1) % (word * word))
    × (value (dec (inc low_end)) ≡ value low_end)
    × (value (inc (dec low_end)) ≡ value low_end)
value-inc-dec_example =
    value-inc-dec low_end (record { low_fits = omega arith; high_fits = omega arith })
