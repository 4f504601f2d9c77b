-- ===== src/BaseIndex/Removal.antt =====
-- What `remove_internal` changes: pending entries, and nothing that a reader can see.
use red_giant.Prelude.{
  ℕ, ◌≡◌, ◌≢◌, refl, ◌∙◌, false, none, some, List, [], ◌∷◌, arith, if◌then◌else◌, ◌==◌, contains,
  ◌&&◌, Option-cases, inl, inr,
}
use red_giant.Key.{nat_key}
use red_giant.Weight.{Weight}
use red_giant.Container.{OrderedMap}
use red_giant.Freezable
use red_giant.Freezable.Laws.{remove-frozen, find-remove, remove-result}
use red_giant.BaseIndex.{BaseIndexImpl, change_internal, remove_internal, remove_all_internal}
use red_giant.BaseIndex.Posting.{pending, IsValid, held-pending}
use red_giant.BaseIndex.Opening.{
  pending-put, put-IsValid, change_internal-Opens, missing-change_internal,
}

module _ {ℓ} {W : Type ℓ} ⦃w : Weight W⦄ (m : OrderedMap W) where
  pending-missing :
      (t d : ℕ) (b : BaseIndexImpl m)
      → (change_internal m t false b).0 ≡ none
      → pending m b t d ≡ none
  unfolding pending
  pending-missing t d b e = ground (arith, missing-change_internal m t b e)

  pub remove-pending :
      (d t : ℕ) (b : BaseIndexImpl m) (t' e : ℕ)
      → IsValid m b
      → e ≢ 0
      → pending m (remove_internal m d t b).1 t' e
        ≡ (if (t == t') && (d == e) then none else pending m b t' e)
  unfolding remove_internal
  remove-pending d t b t' e h z =
      let o = change_internal-Opens m t false b in
      let opened = (change_internal m t false b).1 in
      elim (Option-cases (change_internal m t false b).0) [
        | inl c ↦ ground (arith, c, o.same_pending t' e z, pending-missing t e b c)
        | inr (f, c) ↦ ground (
          arith,
          c,
          pending-put m t t' e (Freezable.remove m d f).1 opened,
          find-remove m d e f ((o.valid h).open_lists t f (o.held ∙ c)),
          held-pending m t e opened (o.held ∙ c),
          o.same_pending t' e z,
        )
      ]

  pub remove-IsValid :
      (d t : ℕ) (b : BaseIndexImpl m) → IsValid m b → IsValid m (remove_internal m d t b).1
  unfolding remove_internal
  remove-IsValid d t b h =
      let o = change_internal-Opens m t false b in
      let opened = (change_internal m t false b).1 in
      elim (Option-cases (change_internal m t false b).0) [
        | inl c ↦ rw (c, remove_internal) (o.valid h)
        | inr (f, c) ↦
            rw (c, remove_internal)
              (put-IsValid m t (Freezable.remove m d f).1 opened
                (remove-frozen m d f ∙ (o.valid h).open_lists t f (o.held ∙ c)) (o.valid h))
      ]

  pub remove-index : (d t : ℕ) (b : BaseIndexImpl m) → (remove_internal m d t b).1.index ≡ b.index
  unfolding remove_internal
  remove-index d t b = ground (arith, (change_internal-Opens m t false b).same_index)

  removed_count :
      (d t : ℕ) (b : BaseIndexImpl m)
      → IsValid m b
      → d ≢ 0
      → (remove_internal m d t b).0 ≡ elim (pending m b t d) [ none ↦ 0 | some _ ↦ 1 ]
  unfolding remove_internal
  removed_count d t b h z =
      let o = change_internal-Opens m t false b in
      let opened = (change_internal m t false b).1 in
      elim (Option-cases (change_internal m t false b).0) [
        | inl c ↦ ground (arith, c, pending-missing t d b c)
        | inr (f, c) ↦ ground (
          arith,
          c,
          remove-result m d f ((o.valid h).open_lists t f (o.held ∙ c)),
          held-pending m t d opened (o.held ∙ c),
          o.same_pending t d z,
        )
      ]

  -- A removal of a valid document from a term keeps the index valid, counts 1 if the entry was
  -- pending and 0 otherwise, shows readers nothing, and of the pending entries of valid documents it
  -- takes just that one away.
  pub remove_internal_lem :
      (d t : ℕ) (b : BaseIndexImpl m) (t' e : ℕ)
      → IsValid m b
      → d ≢ 0
      → e ≢ 0
      → let (ret, b') = remove_internal m d t b in
        IsValid m b'
        × (ret ≡ elim (pending m b t d) [ none ↦ 0 | some _ ↦ 1 ])
        × (b'.index ≡ b.index)
        × (pending m b' t' e ≡ (if (t == t') && (d == e) then none else pending m b t' e))
  remove_internal_lem d t b t' e h z y = (
    remove-IsValid d t b h,
    removed_count d t b h z,
    remove-index d t b,
    remove-pending d t b t' e h y,
  )

  pub remove_all-IsValid :
      (d : ℕ) (ts : List ℕ) (b : BaseIndexImpl m)
      → IsValid m b
      → IsValid m (remove_all_internal m d ts b).1
  unfolding remove_all_internal
  remove_all-IsValid d [] b h = h
  remove_all-IsValid d (t ∷ ts) b h =
      remove_all-IsValid d ts (remove_internal m d t b).1 (remove-IsValid d t b h)

  pub remove_all-index :
      (d : ℕ) (ts : List ℕ) (b : BaseIndexImpl m) → (remove_all_internal m d ts b).1.index ≡ b.index
  unfolding remove_all_internal
  remove_all-index d [] b = refl
  remove_all-index d (t ∷ ts) b =
      remove_all-index d ts (remove_internal m d t b).1 ∙ remove-index d t b

  -- Of the pending entries of valid documents, removing a document from a vector of terms changes
  -- just those of the document under those terms, which are then gone.
  pub remove_all-pending :
      (d : ℕ) (ts : List ℕ) (b : BaseIndexImpl m) (t' e : ℕ)
      → IsValid m b
      → e ≢ 0
      → pending m (remove_all_internal m d ts b).1 t' e
        ≡ (if contains t' ts && (d == e) then none else pending m b t' e)
  unfolding remove_all_internal
  remove_all-pending d [] b t' e h z = refl
  remove_all-pending d (t ∷ ts) b t' e h z = ground (
    arith,
    remove_all-pending d ts (remove_internal m d t b).1 t' e (remove-IsValid d t b h) z,
    remove-pending d t b t' e h z,
  )
