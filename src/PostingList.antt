-- ===== src/PostingList.antt =====
-- core/index/btree_posting_list.h: the posting list that the index is made of, over the `btree_map`
-- that it stores, and the reader that walks through it. A key 0 stands for `DocId()`.
pub mod Bound
pub mod Lookup
pub mod Walk
pub mod Load
use red_giant.Prelude.{
  ℕ, zero, suc, ◌≡◌, Bool, true, false, Option, none, some, List, [], ◌∷◌, if◌then◌else◌, ltb, ◌==◌,
  length,
}
use red_giant.Key.{nat_key}
use red_giant.Key.Assoc.{lookup}
use red_giant.Weight.{Weight}
use red_giant.Container.{OrderedMap}
use red_giant.Reader.{PostingListReader}
use red_giant.Algorithms.{max_init, max_merge}

pub record BTreePostingList {ℓ} {W : Type ℓ} (m : OrderedMap W) : Type ℓ where
  pub posting : m.Map
  pub upper_bound : W

-- The pointers to the container and the bound are read as the values that they point to: a list
-- that is read does not change. `iter` is what lies from the iterator up to `end()`.
pub record BTreePostingListReader {ℓ} (W : Type ℓ) : Type ℓ where
  pub posting : List (ℕ × W)
  pub upper_bound : W
  pub iter : List (ℕ × W)

module _ {ℓ} {W : Type ℓ} where
  -- The `for` of `next`: the iterator stops at the first key behind `current`.
  unfoldable pub advance : ℕ → List (ℕ × W) → List (ℕ × W)
  advance current [] = []
  advance current ((doc_id, weight) ∷ l) =
      if ltb current doc_id then (doc_id, weight) ∷ l else advance current l

  abbrev pub first_id : List (ℕ × W) → ℕ
  first_id [] = 0
  first_id ((doc_id, weight) ∷ l) = doc_id

  abbrev pub second_or : W → List (ℕ × W) → W
  second_or d [] = d
  second_or d ((doc_id, weight) ∷ l) = weight

  unfoldable pub next : ℕ → BTreePostingListReader W → ℕ × BTreePostingListReader W
  unfolding advance
  next current r = let it = advance current r.iter in (first_id it, record r { iter = it })

module _ {ℓ} {W : Type ℓ} (m : OrderedMap W) where
  -- `BTreePostingListReader` as an implementation of the interface.
  abbrev pub posting_reader : PostingListReader (BTreePostingListReader W) W
  posting_reader = record {
    next = next;
    read = λ r. (second_or m.past_end r.iter, r);
    upper_bound = λ r. r.upper_bound;
    size = λ r. length r.posting;
    threshold = λ _ r. r;
  }

module _ {ℓ} {W : Type ℓ} ⦃w : Weight W⦄ (m : OrderedMap W) where
  pub create_posting_list : BTreePostingList m
  create_posting_list = record { posting = m.empty; upper_bound = max_init }

  -- One round of the loop of the constructor that takes a reader.
  pub load_entry : ℕ → W → BTreePostingList m → BTreePostingList m
  load_entry doc_id weight p = record {
    posting = m.emplace doc_id weight p.posting;
    upper_bound = max_merge p.upper_bound weight;
  }

  pub load_loop :
      {S : Type ℓ}
      → PostingListReader S W
      → ℕ
      → ℕ
      → S
      → BTreePostingList m
      → Option (BTreePostingList m × S)
  load_loop reader zero current s p = none
  load_loop reader (suc fuel) current s p =
      let (doc_id, s1) = reader.next current s in
      let (weight, s2) = reader.read s1 in
      let rest = load_loop reader fuel doc_id s2 (load_entry doc_id weight p) in
      if doc_id == 0 then some (p, s1) else rest

  pub load : {S : Type ℓ} → PostingListReader S W → ℕ → S → Option (BTreePostingList m × S)
  load reader fuel s = load_loop reader fuel 0 s create_posting_list

  -- `btree_map::empty`
  pub is_empty : BTreePostingList m → Bool
  is_empty p = elim (m.items p.posting) [ [] ↦ true | _ ∷ _ ↦ false ]

  pub update : ℕ → W → BTreePostingList m → ℕ × BTreePostingList m
  update doc_id weight p = if doc_id == 0 then (0, p) else (
    1,
    record {
      posting = m.assign doc_id weight p.posting;
      upper_bound = max_merge p.upper_bound weight;
    },
  )

  pub remove : ℕ → BTreePostingList m → ℕ × BTreePostingList m
  remove doc_id p = elim (lookup doc_id (m.items p.posting)) [
    | none ↦ (0, p)
    | some _ ↦ (1, record p { posting = m.erase doc_id p.posting })
  ]

  unfoldable pub create_reader : BTreePostingList m → BTreePostingListReader W
  create_reader p = record {
    posting = m.items p.posting;
    upper_bound = p.upper_bound;
    iter = m.items p.posting;
  }
