-- ===== src/Snapshot/Index.antt =====
-- The dump and the load of a base index: `BaseIndexImpl::dump_internal` and the constructor that
-- takes a loader, in core/impl/base_index_impl-inl.h.
use mathlib.Core.List.{append_assoc}
use red_giant.Prelude.{
  ℕ, zero, suc, ◌≡◌, ◌≢◌, refl, Option, none, some, List, [], ◌∷◌, ◌++◌, arith, length,
  if◌then◌else◌, ◌==◌, Bool-cases, ==_iff, inl, inr,
}
use red_giant.Key.{nat_key}
use red_giant.Key.Assoc.{lookup, assign, IsUnique, lookup-assign}
use red_giant.Weight.{Weight}
use red_giant.Container.{OrderedMap}
use red_giant.PostingList
use red_giant.PostingList.{BTreePostingList, posting_reader}
use red_giant.PostingList.Lookup.{find}
use red_giant.BaseIndex.{BaseIndexImpl}
use red_giant.BaseIndex.Posting.{find_in, visible}
use red_giant.Snapshot.{Cell, SnapshotLoader, loader_of, load_number, snapshot_reader, read_dump}
use red_giant.Snapshot.Stream.{reloaded}

module _ {ℓ} {W : Type ℓ} ⦃w : Weight W⦄ (m : OrderedMap W) where
  -- `read_dump` of the reader of a list; `none`, the fuel run out, does not happen.
  unfoldable pub dump_plist : BTreePostingList m → List (Cell W)
  dump_plist p =
      let r = PostingList.create_reader m p in
      elim (read_dump (posting_reader m) (suc (length r.iter)) r) [ some cells ↦ cells | none ↦ [] ]

  -- The `for` over the terms.
  unfoldable pub dump_terms : List (ℕ × BTreePostingList m) → List (Cell W)
  unfolding dump_plist
  dump_terms [] = []
  dump_terms ((term_id, plist) ∷ index) = Cell.number term_id ∷ dump_plist plist ++ dump_terms index

  unfoldable pub dump_internal : BaseIndexImpl m → List (Cell W)
  unfolding dump_terms
  dump_internal b = Cell.number (length b.index) ∷ dump_terms b.index

  -- The list of a term, created from a snapshot reader. A round of its loop takes cells, so that
  -- their number is fuel enough; an exception of the loader leaves no list.
  unfoldable pub load_plist : SnapshotLoader W → Option (BTreePostingList m × SnapshotLoader W)
  load_plist l = elim (PostingList.load m snapshot_reader (suc (length l.cells)) l) [
    | some (p, rest) ↦ if rest.failed then none else some (p, rest)
    | none ↦ none
  ]

  -- The `for` of the constructor; `none`: an exception.
  unfoldable pub load_terms :
      ℕ
      → SnapshotLoader W
      → List (ℕ × BTreePostingList m)
      → Option (List (ℕ × BTreePostingList m) × SnapshotLoader W)
  unfolding load_plist
  load_terms zero l index = some (index, l)
  load_terms (suc n) l index =
      let (term_id, l1) = load_number l.cells in
      elim (load_plist l1) [
        | none ↦ none
        | some (plist, l2) ↦ load_terms n l2 (assign term_id plist index)
      ]

  unfoldable pub load_internal : SnapshotLoader W → Option (BaseIndexImpl m × SnapshotLoader W)
  unfolding load_terms
  load_internal l =
      let (size, l1) = load_number l.cells in
      elim (load_terms size l1 []) [
        | none ↦ none
        | some (index, l2) ↦
            if l1.failed then none else some (record { index = index; changed_index = [] }, l2)
      ]

  load_plist-dump :
      (p : BTreePostingList m) (rest : List (Cell W))
      → (q : BTreePostingList m) × (load_plist (loader_of (dump_plist p ++ rest))
          ≡ some (q, loader_of rest))
        × ((d : ℕ) → d ≢ 0 → find m d q ≡ find m d p)
  unfolding load_plist dump_plist
  load_plist-dump p rest =
      let x = reloaded m p rest in (x.1, rw (x.2, x.3, load_plist, dump_plist), x.4)

  -- What a term shows after `index` has been loaded on top of `old`.
  shown : ℕ → Option (BTreePostingList m) → Option (BTreePostingList m) → Option W
  shown d (some p) old = find m d p
  shown d none old = find_in m d old

  load_terms-dump :
      (index acc : List (ℕ × BTreePostingList m)) (rest : List (Cell W))
      → IsUnique index
      → (out : List (ℕ × BTreePostingList m)) × (load_terms
            (length index)
            (loader_of (dump_terms index ++ rest))
            acc
          ≡ some (out, loader_of rest))
        × ((t d : ℕ) → d ≢ 0 → find_in m d (lookup t out) ≡ shown d (lookup t index) (lookup t acc))
  unfolding load_terms dump_terms load_number shown find_in
  load_terms-dump [] acc rest u = (acc, refl, λ t d z. refl)
  load_terms-dump ((t, p) ∷ index) acc rest u =
      let x = load_plist-dump p (dump_terms index ++ rest) in
      let y = load_terms-dump index (assign t x.0 acc) rest u.1 in
      (
        y.0,
        ground (arith, append_assoc (dump_plist p) (dump_terms index) rest, x.1, y.1),
        λ t' d z. elim (Bool-cases (t == t')) [
          | inl same ↦
              let here : t ≡ t' = (==_iff t t').0 same in
              let gone : lookup t' index ≡ none = rw (← here) u.0 in
              ground (arith, same, gone, y.2 t' d z, x.2 d z, lookup-assign t t' x.0 acc)
          | inr other ↦ ground (arith, other, y.2 t' d z, lookup-assign t t' x.0 acc)
        ],
      )

  pub restored_index :
      (b : BaseIndexImpl m) (rest : List (Cell W))
      → IsUnique b.index
      → (b' : BaseIndexImpl m) × (load_internal (loader_of (dump_internal b ++ rest))
          ≡ some (b', loader_of rest))
        × ((t d : ℕ) → d ≢ 0 → visible m b' t d ≡ visible m b t d)
        × (b'.changed_index ≡ [])
  unfolding load_internal dump_internal load_number visible shown find_in
  restored_index b rest u =
      let x = load_terms-dump b.index [] rest u in
      (
        record { index = x.0; changed_index = [] },
        ground (arith, x.1),
        λ t d z. ground (arith, x.2 t d z),
        refl,
      )

  -- An index that is dumped and loaded again, whatever follows it in the file, shows readers for
  -- every term and every valid document what it showed; no change is pending, and the loader stands
  -- at what follows. A term must have at most one posting list.
  pub load-dump_internal :
      (b : BaseIndexImpl m) (t d : ℕ) (rest : List (Cell W))
      → IsUnique b.index
      → d ≢ 0
      → (b' : BaseIndexImpl m) × (load_internal (loader_of (dump_internal b ++ rest))
          ≡ some (b', loader_of rest))
        × (visible m b' t d ≡ visible m b t d)
        × (b'.changed_index ≡ [])
  load-dump_internal b t d rest u z = let x = restored_index b rest u in (x.0, x.1, x.2 t d z, x.3)
