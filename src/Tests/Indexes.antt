-- ===== src/Tests/Indexes.antt =====
-- The theorems on the indexes and the expire table at concrete inputs.
use red_giant.Prelude.{
  ℕ, ◌≡◌, ◌≤◌, ◌<◌, refl, none, some, List, [], ◌∷◌, arith, length, ◌==◌, if◌then◌else◌,
}
use red_giant.Key.{nat_key}
use red_giant.Key.Assoc
use red_giant.Key.Assoc.{lookup}
use red_giant.Weight.{nat_weight}
use red_giant.Container.{OrderedSet}
use red_giant.Container.Sorted.{IsAscending}
use red_giant.Container.SortedSet
use red_giant.Container.SortedMap.{sorted_set}
use red_giant.Reader.Yields.{Yields}
use red_giant.PostingList
use red_giant.PostingList.{BTreePostingListReader, posting_reader}
use red_giant.BaseIndex
use red_giant.BaseIndex.{BaseIndexImpl}
use red_giant.BaseIndex.Posting.{visible, pending}
use red_giant.BaseIndex.Changes.{create_update-IsValid}
use red_giant.BaseIndex.Apply.{apply_internal_lem}
use red_giant.BaseIndex.Query.{peek-Yields}
use red_giant.ExpireTable
use red_giant.ExpireTable.{BTreeExpireTable}
use red_giant.ExpireTable.Pairs
use red_giant.ExpireTable.Pairs.{pair_key}
use red_giant.RowIndex
use red_giant.RowIndex.{RowIndexImpl}
use red_giant.RowIndex.Docterm.{last_weight}
use red_giant.RowIndex.Rows.{Rows, Represents, set_row}
use red_giant.RowIndex.Expiry.{apply_lem, visible-expired, apply-tracked, apply-max_size, drop_rows}
use red_giant.RowIndex.Reach.{Reaches, reached_lem, no_rows}
use red_giant.Tests.Lists.{map, two_postings}

abbrev pub set : OrderedSet (ℕ × ℕ)
set = sorted_set

-- An index for one document at most.
abbrev fresh : RowIndexImpl map set
fresh = RowIndex.empty_index map set 1

abbrev first_row : List (ℕ × ℕ)
first_row = (10, 5) ∷ []

abbrev second_row : List (ℕ × ℕ)
second_row = (10, 6) ∷ (11, 2) ∷ []

-- Document 3 expires at 7, document 4 at 9.
abbrev pub two_documents : RowIndexImpl map set
two_documents =
    (RowIndex.update map set 4 second_row 9 (RowIndex.update map set 3 first_row 7 fresh).1).1

abbrev pub two_rows : Rows ℕ
two_rows = set_row 4 second_row (set_row 3 first_row (no_rows map set))

two-Reaches : Reaches map set two_documents two_rows (no_rows map set)
two-Reaches = Reaches.updates 4 9 second_row (Reaches.updates 3 7 first_row (Reaches.start 1))

pub two-Represents : Represents map set two_documents two_rows
two-Represents =
    (reached_lem map set two_documents two_rows (no_rows map set) 10 3 two-Reaches (omega arith)).0

reached_lem_example :
    Represents map set two_documents two_rows
    × (visible map two_documents.base 10 3 ≡ last_weight 10 (no_rows map set 3))
reached_lem_example =
    reached_lem map set two_documents two_rows (no_rows map set) 10 3 two-Reaches (omega arith)

-- Document 3 has expired, and document 4 stays.
apply_lem_example :
    let results =
      (ExpireTable.expire_with_limit set 8 two_documents.max_size two_documents.expire).0 in
    let (ret, r') = RowIndex.apply map set 8 two_documents in
    Represents map set r' (drop_rows results two_rows)
    × (visible map r'.base 11 4 ≡ last_weight 11 (drop_rows results two_rows 4))
    × (r'.base.changed_index ≡ [])
    × (ret.1 ≡ length results)
apply_lem_example = apply_lem map set 8 two_documents two_rows 11 4 two-Represents (omega arith)

visible-expired_example : visible map (RowIndex.apply map set 8 two_documents).1.base 10 3 ≡ none
unfolding RowIndex.update RowIndex.update_expire_internal RowIndex.update_docterm_map_internal
    Assoc.assign ExpireTable.update
visible-expired_example =
    visible-expired map set 8 two_documents two_rows 10 3 7 two-Represents (omega arith) refl
      (omega arith)

apply-tracked_example :
    (t : ℕ) × (lookup 4 (RowIndex.apply map set 8 two_documents).1.expire.expire_map ≡ some t)
    × (8 < t)
unfolding RowIndex.update RowIndex.update_expire_internal RowIndex.update_docterm_map_internal
    Assoc.assign RowIndex.apply RowIndex.remove_expired RowIndex.remove_doc_internal Assoc.erase
    ExpireTable.update ExpireTable.expire_with_limit ExpireTable.expire_internal
    ExpireTable.expire_mid ExpireTable.expire_min_count ExpireTable.sweep ExpireTable.sweep_both
    SortedSet.upper_bound SortedSet.insert Pairs.pair_less
apply-tracked_example =
    apply-tracked map set 8 two_documents two_rows 4 (10 ∷ 11 ∷ []) two-Represents refl

apply-max_size_example :
    RowIndex.get_expire_table_size map set (RowIndex.apply map set 2 two_documents).1
    ≤ two_documents.max_size
unfolding RowIndex.update RowIndex.update_expire_internal RowIndex.update_docterm_map_internal
    Assoc.assign
apply-max_size_example =
    apply-max_size map set 2 two_documents two_rows two-Represents (omega arith)

-- A base index with a published list for term 10, in which document 3 gets a new weight.
abbrev published : BaseIndexImpl map
published = record { index = (10, two_postings) ∷ []; changed_index = [] }

abbrev changed : BaseIndexImpl map
changed = (BaseIndex.create_update_internal map 3 10 40 published).1

published-IsValid : BaseIndex.Posting.IsValid map published
published-IsValid = record { unique = tt; open_lists = λ t f. ground arith }

changed-IsValid : BaseIndex.Posting.IsValid map changed
changed-IsValid = create_update-IsValid map 3 10 40 published published-IsValid

apply_internal_lem_example :
    let (ret, b') = BaseIndex.apply_internal map changed in
    ((t d : ℕ)
      → (visible map b' t d ≡ pending map changed t d)
        × (pending map b' t d ≡ pending map changed t d))
    × BaseIndex.Posting.IsValid map b'
    × (b'.changed_index ≡ [])
    × (ret ≡ length changed.changed_index)
apply_internal_lem_example = apply_internal_lem map changed changed-IsValid

peek-Yields_example :
    let r = PostingList.create_reader map two_postings in
    (l : List (ℕ × ℕ)) × (e : BTreePostingListReader ℕ) × IsAscending 0 l
    × Yields (posting_reader map) 0 r l e
    × ((d : ℕ) → lookup d l ≡ (if d == 0 then none else visible map published 10 d))
unfolding BaseIndex.peek
peek-Yields_example = peek-Yields map 10 published (PostingList.create_reader map two_postings) refl
