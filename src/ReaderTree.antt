-- ===== src/ReaderTree.antt =====
-- core/reader/reader_tree.h and reader_tree-inl.h: the readers that combine others. Only the union
-- is modelled: `IntersectReader::next` declares an array in its loop and does not compile once it
-- is instantiated, and nothing instantiates these readers.
use red_giant.Prelude.{
  ℕ, ◌<◌, ◌≡◌, ◌⊎◌, refl, ◌&&◌, not, List, [], ◌∷◌, arith, if◌then◌else◌, ltb, ◌==◌,
}
use red_giant.Reader.{PostingListReader}

module _ {ℓ} {S W : Type ℓ} (reader : PostingListReader S W) where
  -- The `for` over the readers: the least document that is smaller than the cursor.
  unfoldable pub union_loop : ℕ → List S → ℕ → ℕ × List S
  union_loop current [] cursor = (cursor, [])
  union_loop current (r ∷ readers) cursor =
      let (last, r') = reader.next current r in
      let cursor' = if not (last == 0) && ltb last cursor then last else cursor in
      let (result, readers') = union_loop current readers cursor' in (result, r' ∷ readers')

  -- `UnionReader::next`
  unfoldable pub union_next : ℕ → List S → ℕ × List S
  unfolding union_loop
  union_next current readers =
      let (cursor, readers') = union_loop current readers current in
      (if cursor == current then 0 else cursor, readers')

  -- The contract of `PostingListReader::next`: `DocId()`, or a document behind `current`.
  abbrev pub MovesForward : Type ℓ
  MovesForward =
      (current : ℕ) (s : S)
      → ((reader.next current s).0 ≡ 0) ⊎ (current < (reader.next current s).0)

  union_loop_stays :
      (current : ℕ) (readers : List S)
      → MovesForward
      → (union_loop current readers current).0 ≡ current
  unfolding union_loop
  union_loop_stays current [] h = refl
  union_loop_stays current (r ∷ readers) h =
      ground (arith, h current r, union_loop_stays current readers h)

  -- Over readers that keep to their contract `UnionReader::next` always says that there are no more
  -- documents, whatever the readers hold.
  pub union_next-eq_zero :
      (current : ℕ) (readers : List S) → MovesForward → (union_next current readers).0 ≡ 0
  unfolding union_next
  union_next-eq_zero current readers h = ground (arith, union_loop_stays current readers h)
