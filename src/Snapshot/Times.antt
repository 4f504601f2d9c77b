-- ===== src/Snapshot/Times.antt =====
-- The dump and the load of the expire table of a row index: `BTreeExpireTable::dump` and the
-- constructor that takes a loader, in core/impl/btree_expire_table.h.
use red_giant.Prelude.{
  ℕ, zero, suc, ◌≡◌, refl, sym, ◌∙◌, true, false, Option, none, some, List, [], ◌∷◌, ◌++◌, arith,
  length, if◌then◌else◌, Option-cases, inl, inr,
}
use red_giant.Key.{nat_key}
use red_giant.Key.Assoc.{lookup, assign, lookup-assign}
use red_giant.Container.{OrderedSet}
use red_giant.Container.SortedSet.{mem, mem-insert}
use red_giant.ExpireTable
use red_giant.ExpireTable.{BTreeExpireTable}
use red_giant.ExpireTable.Pairs.{pair_key}
use red_giant.ExpireTable.Consistent.{IsConsistent}
use red_giant.Snapshot.{Cell, SnapshotLoader, loader_of, load_number}

-- The time that the map has, or else the first one that is loaded.
first_time : ℕ → Option ℕ → List (ℕ × ℕ) → Option ℕ
first_time k (some t) l = some t
first_time k none l = lookup k l

mem-lookup : (k t : ℕ) (l : List (ℕ × ℕ)) → lookup k l ≡ some t → mem (k, t) l ≡ true
mem-lookup k t [] h = cc
mem-lookup k t ((d, u) ∷ l) h = ground (arith, mem-lookup k t l)

missing-mem : (k t : ℕ) (l : List (ℕ × ℕ)) → lookup k l ≡ none → mem (k, t) l ≡ false
missing-mem k t [] h = refl
missing-mem k t ((d, u) ∷ l) h = ground (arith, missing-mem k t l)

module _ (s : OrderedSet (ℕ × ℕ)) where
  -- One round of the constructor's loop: an entry that the map has already stays.
  unfoldable pub load_time : ℕ → ℕ → BTreeExpireTable s → BTreeExpireTable s
  load_time doc_id time e = elim (lookup doc_id e.expire_map) [
    | some old ↦ record e { expire_table = s.insert (doc_id, old) e.expire_table }
    | none ↦ record {
      expire_map = assign doc_id time e.expire_map;
      expire_table = s.insert (doc_id, time) e.expire_table;
    }
  ]

  load_all : List (ℕ × ℕ) → BTreeExpireTable s → BTreeExpireTable s
  load_all [] e = e
  load_all ((d, t) ∷ l) e = load_all l (load_time d t e)

  load_time-IsConsistent :
      (d t : ℕ) (e : BTreeExpireTable s) → IsConsistent s e → IsConsistent s (load_time d t e)
  unfolding load_time
  load_time-IsConsistent d t e h j u =
      let its = s.items e.expire_table in
      elim (Option-cases (lookup d e.expire_map)) [
        | inl c ↦
            rw (c, load_time)
              (ground (
                arith,
                c,
                s.items-insert (d, t) e.expire_table,
                mem-insert (d, t) (j, u) its,
                lookup-assign d j t e.expire_map,
                h j u,
              ))
        | inr (old, c) ↦
            rw (c, load_time)
              (ground (
                arith,
                c,
                s.items-insert (d, old) e.expire_table,
                mem-insert (d, old) (j, u) its,
                h j u,
              ))
      ]

  load_all-IsConsistent :
      (l : List (ℕ × ℕ)) (e : BTreeExpireTable s) → IsConsistent s e → IsConsistent s (load_all l e)
  unfolding load_all
  load_all-IsConsistent [] e h = h
  load_all-IsConsistent ((d, t) ∷ l) e h =
      load_all-IsConsistent l (load_time d t e) (load_time-IsConsistent d t e h)

  lookup-load_all :
      (k : ℕ) (l : List (ℕ × ℕ)) (e : BTreeExpireTable s)
      → lookup k (load_all l e).expire_map ≡ first_time k (lookup k e.expire_map) l
  unfolding load_all load_time first_time
  lookup-load_all k [] e = ground arith
  lookup-load_all k ((d, t) ∷ l) e =
      ground (arith, lookup-load_all k l (load_time d t e), lookup-assign d k t e.expire_map)

  same_times :
      (k : ℕ) (e : BTreeExpireTable s)
      → IsConsistent s e
      → lookup k (s.items e.expire_table) ≡ lookup k e.expire_map
  same_times k e h = elim (Option-cases (lookup k (s.items e.expire_table))) [
    | inr (t, c) ↦ ground (arith, c, mem-lookup k t (s.items e.expire_table) c, h k t)
    | inl c ↦ elim (Option-cases (lookup k e.expire_map)) [
      | inl n ↦ c ∙ sym n
      | inr (t, n) ↦ absurd (ground (arith, n, missing-mem k t (s.items e.expire_table) c, h k t))
    ]
  ]

module _ {W : Type 0} (s : OrderedSet (ℕ × ℕ)) where
  unfoldable pub dump_times : List (ℕ × ℕ) → List (Cell W)
  dump_times [] = []
  dump_times ((doc_id, time) ∷ l) = Cell.number doc_id ∷ Cell.number time ∷ dump_times l

  unfoldable pub dump : BTreeExpireTable s → List (Cell W)
  unfolding dump_times
  dump e = Cell.number (s.size e.expire_table) ∷ dump_times (s.items e.expire_table)

  -- The `for`; `none`: an exception.
  unfoldable pub load_times :
      ℕ → SnapshotLoader W → BTreeExpireTable s → Option (BTreeExpireTable s × SnapshotLoader W)
  unfolding load_time load_number
  load_times zero l e = if l.failed then none else some (e, l)
  load_times (suc n) l e =
      let (doc_id, l1) = load_number l.cells in
      let (time, l2) = load_number l1.cells in load_times n l2 (load_time s doc_id time e)

  unfoldable pub load_table : SnapshotLoader W → Option (BTreeExpireTable s × SnapshotLoader W)
  unfolding load_times
  load_table l =
      let (size, l1) = load_number l.cells in load_times size l1 (ExpireTable.empty_table s)

  load_times-dump_times :
      (l : List (ℕ × ℕ)) (e : BTreeExpireTable s) (rest : List (Cell W))
      → load_times (length l) (loader_of (dump_times l ++ rest)) e
        ≡ some (load_all s l e, loader_of rest)
  unfolding load_times dump_times load_number load_all
  load_times-dump_times [] e rest = refl
  load_times-dump_times ((d, t) ∷ l) e rest = load_times-dump_times l (load_time s d t e) rest

  pub restored_table :
      (e : BTreeExpireTable s) (rest : List (Cell W))
      → IsConsistent s e
      → (e' : BTreeExpireTable s) × (load_table (loader_of (dump e ++ rest))
          ≡ some (e', loader_of rest))
        × IsConsistent s e'
        × ((k : ℕ) → lookup k e'.expire_map ≡ lookup k e.expire_map)
  unfolding load_table dump load_number first_time
  restored_table e rest h =
      let its = s.items e.expire_table in
      let empty = ExpireTable.empty_table s in
      (
        load_all s its empty,
        ground (arith, s.size_lem e.expire_table, load_times-dump_times its empty rest),
        load_all-IsConsistent s its empty (λ j t. rw s.items-empty refl),
        λ k. lookup-load_all s k its empty ∙ same_times s k e h,
      )

  -- An expire table that is dumped and loaded again, whatever follows it in the file, gives every
  -- document the time that it had, its map and its set hold the same pairs, and the loader stands
  -- at what follows.
  pub load-dump :
      (e : BTreeExpireTable s) (k : ℕ) (rest : List (Cell W))
      → IsConsistent s e
      → (e' : BTreeExpireTable s) × (load_table (loader_of (dump e ++ rest))
          ≡ some (e', loader_of rest))
        × IsConsistent s e'
        × (lookup k e'.expire_map ≡ lookup k e.expire_map)
  load-dump e k rest h = let x = restored_table e rest h in (x.0, x.1, x.2, x.3 k)
