-- ===== src/Tests/Snapshots.antt =====
-- The theorems on snapshots at concrete inputs.
use red_giant.Prelude.{ℕ, ◌≡◌, refl, some, List, [], ◌∷◌, ◌++◌, arith}
use red_giant.Key.{nat_key}
use red_giant.Key.Assoc
use red_giant.Key.Assoc.{lookup}
use red_giant.Weight.{nat_weight}
use red_giant.Container.{OrderedSet}
use red_giant.Container.SortedMap.{sorted_set}
use red_giant.PostingList.{BTreePostingList}
use red_giant.PostingList.Lookup.{find}
use red_giant.BaseIndex.{BaseIndexImpl}
use red_giant.BaseIndex.Posting.{visible, pending}
use red_giant.ExpireTable
use red_giant.ExpireTable.{BTreeExpireTable}
use red_giant.ExpireTable.Pairs.{pair_key}
use red_giant.ExpireTable.Consistent.{IsConsistent, changes-IsConsistent}
use red_giant.Snapshot.{Cell, loader_of}
use red_giant.RowIndex.{RowIndexImpl}
use red_giant.RowIndex.Rows.{Rows, Represents, set_row}
use red_giant.Snapshot.Documents.{dump_row_index, load_row_index, load-dump_row_index}
use red_giant.Tests.Lists.{map, two_postings}

abbrev behind : List (Cell ℕ)
behind = Cell.number 5 ∷ []

abbrev two_terms : BaseIndexImpl map
two_terms = record { index = (10, two_postings) ∷ (11, two_postings) ∷ []; changed_index = [] }

abbrev times : OrderedSet (ℕ × ℕ)
times = sorted_set

abbrev timed : BTreeExpireTable times
timed = (ExpireTable.update times 3 7 (ExpireTable.empty_table times)).1

timed-IsConsistent : IsConsistent times timed
timed-IsConsistent =
    (changes-IsConsistent times 3 7 (ExpireTable.empty_table times) (λ k t. refl)).0

-- An index with one document, whose row has the weight 30 for term 10.
abbrev one_posting : BTreePostingList map
one_posting = record { posting = ((3, 30) ∷ [], (omega arith)); upper_bound = 30 }

abbrev one_document : RowIndexImpl map times
one_document = record {
  base = record { index = (10, one_posting) ∷ []; changed_index = [] };
  max_size = 5;
  expire = timed;
  doc_term_map = (3, 10 ∷ []) ∷ [];
}

abbrev one_row : Rows ℕ
one_row = set_row 3 ((10, 30) ∷ []) (λ d. [])

one_document-Represents : Represents map times one_document one_row
unfolding pending find ExpireTable.update Assoc.assign
one_document-Represents = record {
  posts = record {
    base_valid = record { unique = tt; open_lists = λ t f. ground arith };
    posted = λ t d z. ground arith;
    known = λ d. ground arith;
  };
  consistent = timed-IsConsistent;
  tracked = λ d ts q. (7, ground (arith, q));
}

load-dump_row_index_example :
    (r' : RowIndexImpl map times) × (load_row_index map times one_document.max_size
        (loader_of (dump_row_index map times one_document ++ behind))
      ≡ some (r', loader_of behind))
    × Represents map times r' one_row
    × (visible map r'.base 10 3 ≡ visible map one_document.base 10 3)
load-dump_row_index_example =
    load-dump_row_index map times one_document one_row 10 3 behind one_document-Represents
      (refl, tt) (refl, tt) refl (omega arith)
