-- ===== src/Sequential.antt =====
-- core/index/sequential_posting_list.h: a posting list that is read once into a vector and then
-- never changed; the overload of `read_all` in core/reader/reader_utils.h that merges the weights.
pub mod Laws
use red_giant.Prelude.{
  ℕ, zero, suc, Bool, true, false, Option, none, some, List, [], ◌∷◌, ◌++◌, if◌then◌else◌, ◌==◌,
  ltb, length,
}
use red_giant.Weight.{Weight}
use red_giant.Algorithms.{max_init, max_merge}
use red_giant.Reader.{PostingListReader}
use red_giant.PostingList

pub record SequentialPostingList {ℓ} (W : Type ℓ) : Type ℓ where
  pub posting : List (ℕ × W)
  pub upper_bound : W

-- `iter` is what lies from the iterator up to `end()`.
pub record SequentialPostingListReader {ℓ} (W : Type ℓ) : Type ℓ where
  pub posting : List (ℕ × W)
  pub upper_bound : W
  pub iter : List (ℕ × W)

module _ {ℓ} {S W : Type ℓ} ⦃w : Weight W⦄ (reader : PostingListReader S W) where
  -- The `for` of `read_all`; `none`: the fuel ran out.
  pub read_merged_loop : ℕ → ℕ → S → W → List (ℕ × W) → Option ((List (ℕ × W) × W) × S)
  read_merged_loop zero current s bound results = none
  read_merged_loop (suc fuel) current s bound results =
      let (doc_id, s1) = reader.next current s in
      let (weight, s2) = reader.read s1 in
      let rest =
        read_merged_loop fuel doc_id s2 (max_merge bound weight)
          (results ++ (doc_id, weight) ∷ []) in
      if doc_id == 0 then some ((results, bound), s1) else rest

  pub read_merged : ℕ → S → Option ((List (ℕ × W) × W) × S)
  unfolding read_merged_loop
  read_merged fuel s = read_merged_loop fuel 0 s max_init []

module _ {ℓ} {W : Type ℓ} ⦃w : Weight W⦄ where
  abbrev pub empty_list : SequentialPostingList W
  empty_list = record { posting = []; upper_bound = w.zero_weight }

  pub load_sequential :
      {S : Type ℓ} → PostingListReader S W → ℕ → S → Option (SequentialPostingList W × S)
  unfolding read_merged
  load_sequential reader fuel s = elim (read_merged reader fuel s) [
    | none ↦ none
    | some ((posting, bound), e) ↦ some (record { posting = posting; upper_bound = bound }, e)
  ]

  pub is_empty : SequentialPostingList W → Bool
  is_empty p = elim p.posting [ [] ↦ true | _ ∷ _ ↦ false ]

  -- Refused.
  unfoldable pub update : ℕ → W → SequentialPostingList W → ℕ × SequentialPostingList W
  update doc_id weight p = (0, p)

  unfoldable pub remove : ℕ → SequentialPostingList W → ℕ × SequentialPostingList W
  remove doc_id p = (0, p)

  unfoldable pub create_reader : SequentialPostingList W → SequentialPostingListReader W
  create_reader p = record { posting = p.posting; upper_bound = p.upper_bound; iter = p.posting }

module _ {ℓ} {W : Type ℓ} where
  -- The `for` of `next`: the iterator stops at the first entry behind `current`.
  pub advance_entries : ℕ → List (ℕ × W) → List (ℕ × W)
  advance_entries current [] = []
  advance_entries current ((doc_id, weight) ∷ l) =
      if ltb current doc_id then (doc_id, weight) ∷ l else advance_entries current l

  -- What a read through `end()` gives is not specified, and a parameter.
  unfoldable pub sequential_reader : W → PostingListReader (SequentialPostingListReader W) W
  unfolding advance_entries
  sequential_reader past_end = record {
    next = λ current r.
        let it = advance_entries current r.iter in
        (PostingList.first_id it, record r { iter = it });
    read = λ r. (PostingList.second_or past_end r.iter, r);
    upper_bound = λ r. r.upper_bound;
    size = λ r. length r.posting;
    threshold = λ _ r. r;
  }
