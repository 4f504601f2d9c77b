-- ===== src/Reader/Yields.antt =====
-- What a reader gives when it is read to its end, and that the loops return just that.
use mathlib.Core.List.{append-nil, append_assoc}
use red_giant.Prelude.{ℕ, zero, suc, ◌<◌, ◌≡◌, ◌≢◌, some, List, [], ◌∷◌, ◌++◌, arith, length}
use red_giant.Reader.{PostingListReader, read_all_loop, read_all}

module _ {ℓ} {S : Type ℓ} {W : Type ℓ} (reader : PostingListReader S W) where
  -- From the state `s`, asked for what lies behind `current`, the reader gives the entries of the
  -- list one after the other, then `DocId()`, and is left in the state `e`.
  abbrev pub Yields : ℕ → S → List (ℕ × W) → S → Type ℓ
  Yields current s [] e = reader.next current s ≡ (0, e)
  Yields current s ((doc_id, weight) ∷ l) e =
      (s1 : S) × (s2 : S) × (reader.next current s ≡ (doc_id, s1))
      × (reader.read s1 ≡ (weight, s2))
      × (doc_id ≢ 0)
      × Yields doc_id s2 l e

  read_all_loop-Yields :
      (fuel current : ℕ) (s : S) (l results : List (ℕ × W)) (e : S)
      → Yields current s l e
      → length l < fuel
      → read_all_loop reader fuel current s results ≡ some (results ++ l, e)
  unfolding read_all_loop
  read_all_loop-Yields zero current s l results e y h = elim h [ ]
  read_all_loop-Yields (suc fuel) current s [] results e y h =
      rw (append-nil results) (ground arith)
  read_all_loop-Yields (suc fuel) current s ((d, w) ∷ l) results e (s1, s2, n, r, v, y) h = ground (
    arith,
    append_assoc results ((d, w) ∷ []) l,
    read_all_loop-Yields fuel d s2 l (results ++ (d, w) ∷ []) e y (omega arith),
  )

  -- `read_all` returns what the reader yields.
  pub read_all-Yields :
      (fuel : ℕ) (s : S) (l : List (ℕ × W)) (e : S)
      → Yields 0 s l e
      → length l < fuel
      → read_all reader fuel s ≡ some (l, e)
  unfolding read_all
  read_all-Yields fuel s l e y h = read_all_loop-Yields fuel 0 s l [] e y h
