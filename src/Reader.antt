-- ===== src/Reader.antt =====
-- core/reader/posting_list_reader.h: what a posting list reader promises, and
-- core/reader/reader_utils.h: the loops that read one to its end.
pub mod Yields
pub mod DotProduct
pub mod TopN
pub mod Top
pub mod Best
use red_giant.Prelude.{
  ℕ, zero, suc, ◌+◌, ◌-◌, ◌≡◌, Option, none, some, List, [], ◌∷◌, ◌++◌, if◌then◌else◌, ◌==◌,
}

-- `PostingListReader<DocId, W>`: an object that is read has the state `S`. 0 is `DocId()`.
pub record PostingListReader {ℓ} (S : Type ℓ) (W : Type ℓ) : Type ℓ where
  pub next : ℕ → S → ℕ × S
  pub read : S → W × S
  pub upper_bound : S → W
  pub size : S → ℕ
  pub threshold : W → S → S

module _ {ℓ} {S : Type ℓ} {W : Type ℓ} (reader : PostingListReader S W) where
  -- The `for` of `read_all`; `none`: the fuel ran out.
  pub read_all_loop : ℕ → ℕ → S → List (ℕ × W) → Option (List (ℕ × W) × S)
  read_all_loop zero current s results = none
  read_all_loop (suc fuel) current s results =
      let (doc_id, s1) = reader.next current s in
      let (weight, s2) = reader.read s1 in
      let rest = read_all_loop fuel doc_id s2 (results ++ (doc_id, weight) ∷ []) in
      if doc_id == 0 then some (results, s1) else rest

  pub read_all : ℕ → S → Option (List (ℕ × W) × S)
  read_all fuel s = read_all_loop fuel 0 s []

  -- `--read_key` does not wrap round, since the key is not 0.
  pub read_single : ℕ → S → Option W
  read_single key s =
      let (found, s1) = reader.next (key - 1) s in
      let (weight, s2) = reader.read s1 in
      if key == 0 then none else if found == key then some weight else none
