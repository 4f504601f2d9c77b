-- ===== src/Snapshot/Documents.antt =====
-- The dump and the load of a row index: `RowIndexImpl::dump` and the constructor that takes a
-- loader, in core/impl/row_index_impl-inl.h.
use mathlib.Core.List.{append_assoc}
use red_giant.Prelude.{
  ℕ, zero, suc, ◌≡◌, ◌≢◌, refl, sym, ap, ◌∙◌, Option, none, some, List, [], ◌∷◌, ◌++◌, arith,
  length, if◌then◌else◌, ◌==◌, Bool-cases, ==_iff, inl, inr,
}
use red_giant.Key.{nat_key}
use red_giant.Key.Assoc.{lookup, assign, lookup-assign, IsUnique}
use red_giant.Weight.{Weight}
use red_giant.Container.{OrderedMap, OrderedSet}
use red_giant.BaseIndex.{BaseIndexImpl}
use red_giant.BaseIndex.Posting.{visible, pending}
use red_giant.ExpireTable.Pairs.{pair_key}
use red_giant.RowIndex.{RowIndexImpl}
use red_giant.RowIndex.Rows.{Rows, Represents, terms_of}
use red_giant.Snapshot.{Cell, SnapshotLoader, loader_of, load_number}
use red_giant.Snapshot.Index.{dump_internal, load_internal, restored_index}
use red_giant.Snapshot.Times.{dump, load_table, restored_table}

module _ {W : Type 0} where
  unfoldable pub dump_ids : List ℕ → List (Cell W)
  dump_ids [] = []
  dump_ids (term_id ∷ terms) = Cell.number term_id ∷ dump_ids terms

  -- The `for` over the documents.
  unfoldable pub dump_documents : List (ℕ × List ℕ) → List (Cell W)
  unfolding dump_ids
  dump_documents [] = []
  dump_documents ((doc_id, terms) ∷ documents) =
      Cell.number doc_id ∷ Cell.number (length terms) ∷ dump_ids terms ++ dump_documents documents

  unfoldable pub dump_docterm_map_internal : List (ℕ × List ℕ) → List (Cell W)
  unfolding dump_documents
  dump_docterm_map_internal documents = Cell.number (length documents) ∷ dump_documents documents

  -- The inner `for`.
  unfoldable pub load_ids : ℕ → SnapshotLoader W → List ℕ × SnapshotLoader W
  unfolding load_number
  load_ids zero l = ([], l)
  load_ids (suc n) l =
      let (term_id, l1) = load_number l.cells in
      let (terms, l2) = load_ids n l1 in (term_id ∷ terms, l2)

-- `insert`, for a document with terms: an entry that is there stays.
unfoldable pub insert_terms : ℕ → ℕ → List ℕ → List (ℕ × List ℕ) → List (ℕ × List ℕ)
insert_terms doc_id term_num terms documents =
    if term_num == 0 then documents else elim (lookup doc_id documents) [
      | some _ ↦ documents
      | none ↦ assign doc_id terms documents
    ]

module _ {W : Type 0} where
  -- The outer `for`; `none`: an exception.
  unfoldable pub load_documents :
      ℕ → SnapshotLoader W → List (ℕ × List ℕ) → Option (List (ℕ × List ℕ) × SnapshotLoader W)
  unfolding load_ids insert_terms load_number
  load_documents zero l documents = if l.failed then none else some (documents, l)
  load_documents (suc n) l documents =
      let (doc_id, l1) = load_number l.cells in
      let (term_num, l2) = load_number l1.cells in
      let (terms, l3) = load_ids term_num l2 in
      load_documents n l3 (insert_terms doc_id term_num terms documents)

  unfoldable pub load_docterm_internal :
      SnapshotLoader W → Option (List (ℕ × List ℕ) × SnapshotLoader W)
  unfolding load_documents
  load_docterm_internal l = let (size, l1) = load_number l.cells in load_documents size l1 []

  load_ids-dump_ids :
      (terms : List ℕ) (rest : List (Cell W))
      → load_ids (length terms) (loader_of (dump_ids terms ++ rest)) ≡ (terms, loader_of rest)
  unfolding load_ids dump_ids load_number
  load_ids-dump_ids [] rest = refl
  load_ids-dump_ids (t ∷ terms) rest = ground (arith, load_ids-dump_ids terms rest)

infix 10 ◌>>=◌
abbrev ◌>>=◌ {ℓ} : {A B : Type ℓ} → Option A → (A → Option B) → Option B
none >>= f = none
some a >>= f = f a

-- A document without terms is dumped and not loaded.
drop_empty : Option (List ℕ) → Option (List ℕ)
drop_empty none = none
drop_empty (some []) = none
drop_empty (some (t ∷ terms)) = some (t ∷ terms)

-- The entry of the map, or else the one that is loaded.
first_entry : Option (List ℕ) → Option (List ℕ) → Option (List ℕ)
first_entry (some ts) o = some ts
first_entry none o = drop_empty o

terms_of-loaded : (o : Option (List ℕ)) → terms_of (first_entry none o) ≡ terms_of o
unfolding first_entry drop_empty
terms_of-loaded none = refl
terms_of-loaded (some []) = refl
terms_of-loaded (some (t ∷ terms)) = refl

dumped_entry :
    (o : Option (List ℕ)) (terms : List ℕ) → first_entry none o ≡ some terms → o ≡ some terms
unfolding first_entry drop_empty
dumped_entry none terms h = h
dumped_entry (some []) terms h = absurd (ground (arith, h))
dumped_entry (some (t ∷ ts)) terms h = h

module _ {W : Type 0} where
  load_documents-dump :
      (documents acc : List (ℕ × List ℕ)) (rest : List (Cell W))
      → IsUnique documents
      → (out : List (ℕ × List ℕ)) × (load_documents
            (length documents)
            (loader_of (dump_documents documents ++ rest))
            acc
          ≡ some (out, loader_of rest))
        × ((d : ℕ) → lookup d out ≡ first_entry (lookup d acc) (lookup d documents))
  unfolding load_documents dump_documents load_number insert_terms first_entry drop_empty
  load_documents-dump [] acc rest u = (acc, refl, λ d. ground arith)
  load_documents-dump ((e, ts) ∷ documents) acc rest u =
      let x = load_documents-dump documents (insert_terms e (length ts) ts acc) rest u.1 in
      (
        x.0,
        ground (
          arith,
          append_assoc (dump_ids ts) (dump_documents documents) rest,
          load_ids-dump_ids ts (dump_documents documents ++ rest),
          x.1,
        ),
        λ d. elim (Bool-cases (e == d)) [
          | inl same ↦
              let here : e ≡ d = (==_iff e d).0 same in
              let gone : lookup d documents ≡ none = rw (← here) u.0 in
              ground (arith, same, here, gone, x.2 d, lookup-assign e d ts acc)
          | inr other ↦ ground (arith, other, x.2 d, lookup-assign e d ts acc)
        ],
      )

module _ {W : Type 0} ⦃w : Weight W⦄ (m : OrderedMap W) (s : OrderedSet (ℕ × ℕ)) where
  -- `RowIndexImpl::dump`
  unfoldable pub dump_row_index : RowIndexImpl m s → List (Cell W)
  dump_row_index r =
      dump_internal m r.base ++ dump s r.expire ++ dump_docterm_map_internal r.doc_term_map

  -- The constructor that takes a loader; `none`: an exception.
  unfoldable pub load_row_index :
      ℕ → SnapshotLoader W → Option (RowIndexImpl m s × SnapshotLoader W)
  load_row_index max_size l = do
    (b, l1) ← load_internal m l
    (e, l2) ← load_table s l1
    (documents, l3) ← load_docterm_internal l2
    some (record { base = b; max_size = max_size; expire = e; doc_term_map = documents }, l3)

  no_pending :
      (b : BaseIndexImpl m) (t d : ℕ) → b.changed_index ≡ [] → pending m b t d ≡ visible m b t d
  unfolding pending visible
  no_pending b t d e = rw e

  -- An index without pending changes that is dumped and loaded again, whatever follows it in the
  -- file, represents the rows that it represented, shows readers for every term and every valid
  -- document what it showed, and leaves the loader at what follows. A term must have at most one
  -- posting list, and a document at most one entry in `doc_term_map`.
  pub load-dump_row_index :
      (r : RowIndexImpl m s) (rows : Rows W) (t d : ℕ) (rest : List (Cell W))
      → Represents m s r rows
      → IsUnique r.base.index
      → IsUnique r.doc_term_map
      → r.base.changed_index ≡ []
      → d ≢ 0
      → (r' : RowIndexImpl m s) × (load_row_index r.max_size (loader_of (dump_row_index r ++ rest))
          ≡ some (r', loader_of rest))
        × Represents m s r' rows
        × (visible m r'.base t d ≡ visible m r.base t d)
  unfolding load_row_index dump_row_index load_docterm_internal dump_docterm_map_internal
      load_number
  load-dump_row_index r rows t d rest h ui ud none_left z =
      let documents = dump_docterm_map_internal r.doc_term_map in
      let x = restored_index m r.base (dump s r.expire ++ (documents ++ rest)) ui in
      let y = restored_table s r.expire (documents ++ rest) h.consistent in
      let v = load_documents-dump r.doc_term_map [] rest ud in
      let loaded : load_docterm_internal (loader_of (documents ++ rest))
          ≡ some (v.0, loader_of rest) =
        v.1 in
      let stream : dump_row_index r ++ rest
          ≡ dump_internal m r.base ++ (dump s r.expire ++ (documents ++ rest)) =
        append_assoc (dump_internal m r.base ++ dump s r.expire) documents rest
        ∙ append_assoc (dump_internal m r.base) (dump s r.expire) (documents ++ rest) in
      (
        record { base = x.0; max_size = r.max_size; expire = y.0; doc_term_map = v.0 },
        rw (stream, x.1, y.1, loaded, load_row_index),
        record {
          posts = record {
            base_valid = record { unique = rw x.3 tt; open_lists = λ u f. ground (arith, x.3) };
            posted = λ u e y'.
                no_pending x.0 u e x.3
                ∙ x.2 u e y'
                ∙ sym (no_pending r.base u e none_left)
                ∙ h.posted u e y';
            known =
                λ e. ap terms_of (v.2 e) ∙ terms_of-loaded (lookup e r.doc_term_map) ∙ h.known e;
          };
          consistent = y.2;
          tracked = λ e ts q.
              let k =
                h.tracked e ts (dumped_entry (lookup e r.doc_term_map) ts (sym (v.2 e) ∙ q)) in
              (k.0, y.3 e ∙ k.1);
        },
        x.2 t d z,
      )
