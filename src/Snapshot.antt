-- ===== src/Snapshot.antt =====
-- core/snapshot/snapshot.h and snapshot_reader.h: what is dumped to a file and loaded from it, and
-- the reader of a posting list that was dumped; `read_dump` of core/reader/reader_utils.h.
pub mod Stream
pub mod Index
pub mod Times
pub mod Documents
use red_giant.Prelude.{
  ℕ, zero, suc, Bool, true, false, ◌&&◌, not, Option, none, some, List, [], ◌∷◌, if◌then◌else◌, leb,
  ◌==◌,
}
use red_giant.Weight.{Weight}
use red_giant.Reader.{PostingListReader}

-- One call of `dump`: a size, an id or a time, or a weight. The bytes are not modelled.
pub data Cell {ℓ} (W : Type ℓ) : Type ℓ where
  number : ℕ → Cell W
  weight : W → Cell W

-- What `ifs_` still holds. `failed`: an exception was thrown, at the end of the file (or, other
-- than in the program, where a cell of the other kind is loaded), and nothing is read any more.
pub record SnapshotLoader {ℓ} (W : Type ℓ) : Type ℓ where
  pub cells : List (Cell W)
  pub failed : Bool

module _ {ℓ} {W : Type ℓ} where
  abbrev pub loader_of : List (Cell W) → SnapshotLoader W
  loader_of cells = record { cells = cells; failed = false }

  abbrev pub thrown : SnapshotLoader W
  thrown = record { cells = []; failed = true }

  unfoldable pub load_number : List (Cell W) → ℕ × SnapshotLoader W
  load_number (Cell.number n ∷ cells) = (n, loader_of cells)
  load_number _ = (0, thrown)

  -- `SnapshotReader::next`: entries of documents up to `current` are skipped.
  unfoldable pub next_cell : ℕ → List (Cell W) → ℕ × SnapshotLoader W
  next_cell current (Cell.number doc_id ∷ Cell.weight w ∷ cells) =
      let rest = next_cell current cells in
      if not (doc_id == 0) && leb doc_id current
      then rest
      else (doc_id, loader_of (Cell.weight w ∷ cells))
  next_cell current (Cell.number doc_id ∷ cells) =
      if not (doc_id == 0) && leb doc_id current then (0, thrown) else (doc_id, loader_of cells)
  next_cell current _ = (0, thrown)

  -- `SnapshotReader::read`; what stands for the weight after an exception is `missing`.
  unfoldable pub read_cell : W → List (Cell W) → W × SnapshotLoader W
  read_cell missing (Cell.weight w ∷ cells) = (w, loader_of cells)
  read_cell missing _ = (missing, thrown)

  unfoldable pub snapshot_reader : ⦃w : Weight W⦄ → PostingListReader (SnapshotLoader W) W
  unfolding next_cell read_cell
  snapshot_reader ⦃w⦄ = record {
    next = λ current l. if l.failed then (0, l) else next_cell current l.cells;
    read = λ l. if l.failed then (w.zero_weight, l) else read_cell w.zero_weight l.cells;
    upper_bound = λ _. w.zero_weight;
    size = λ _. 0;
    threshold = λ _ l. l;
  }

module _ {ℓ} {S W : Type ℓ} (reader : PostingListReader S W) where
  -- The `for` of `read_dump`, with the `DocId()` behind it; `none`: the fuel ran out.
  unfoldable pub dump_loop : ℕ → ℕ → S → Option (List (Cell W))
  dump_loop zero current s = none
  dump_loop (suc fuel) current s =
      let (doc_id, s1) = reader.next current s in
      let (w, s2) = reader.read s1 in
      let rest = dump_loop fuel doc_id s2 in
      if doc_id == 0 then some (Cell.number doc_id ∷ []) else elim rest [
        | none ↦ none
        | some cells ↦ some (Cell.number doc_id ∷ Cell.weight w ∷ cells)
      ]

  unfoldable pub read_dump : ℕ → S → Option (List (Cell W))
  unfolding dump_loop
  read_dump fuel s = dump_loop fuel 0 s
