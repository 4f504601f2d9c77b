-- ===== src/BaseIndex/Changes.antt =====
-- What `create_update_internal` and `remove_internal` change: pending entries, and nothing that a
-- reader can see.
use red_giant.Prelude.{ℕ, ◌≡◌, ◌≢◌, ◌∙◌, true, some, arith, if◌then◌else◌, ◌==◌, ◌&&◌}
use red_giant.Key.{nat_key}
use red_giant.Weight.{Weight}
use red_giant.Container.{OrderedMap}
use red_giant.Freezable
use red_giant.Freezable.Laws.{update-frozen, find-update, update-result}
use red_giant.BaseIndex.{BaseIndexImpl, change_internal, create_update_internal}
use red_giant.BaseIndex.Posting.{pending, IsValid, held-pending}
use red_giant.BaseIndex.Opening.{
  pending-put, put-IsValid, change_internal-Opens, found-change_internal,
}

module _ {ℓ} {W : Type ℓ} ⦃w : Weight W⦄ (m : OrderedMap W) where
  pub create_update-pending :
      (d t : ℕ) (v : W) (b : BaseIndexImpl m) (t' e : ℕ)
      → IsValid m b
      → e ≢ 0
      → pending m (create_update_internal m d t v b).1 t' e
        ≡ (if (t == t') && (d == e) then some v else pending m b t' e)
  unfolding create_update_internal
  create_update-pending d t v b t' e h z =
      let o = change_internal-Opens m t true b in
      let f = found-change_internal m t b in
      let opened = (change_internal m t true b).1 in
      let held = o.held ∙ f.1 in
      ground (
        arith,
        f.1,
        pending-put m t t' e (Freezable.update m d v f.0).1 opened,
        find-update m d e v f.0 ((o.valid h).open_lists t f.0 held) z,
        held-pending m t e opened held,
        o.same_pending t' e z,
      )

  pub create_update-IsValid :
      (d t : ℕ) (v : W) (b : BaseIndexImpl m)
      → IsValid m b
      → IsValid m (create_update_internal m d t v b).1
  unfolding create_update_internal
  create_update-IsValid d t v b h =
      let o = change_internal-Opens m t true b in
      let f = found-change_internal m t b in
      let opened = (change_internal m t true b).1 in
      rw (f.1, create_update_internal)
        (put-IsValid m t (Freezable.update m d v f.0).1 opened
          (update-frozen m d v f.0 ∙ (o.valid h).open_lists t f.0 (o.held ∙ f.1)) (o.valid h))

  pub create_update-result :
      (d t : ℕ) (v : W) (b : BaseIndexImpl m)
      → IsValid m b
      → (create_update_internal m d t v b).0 ≡ (if d == 0 then 0 else 1)
  unfolding create_update_internal
  create_update-result d t v b h =
      let o = change_internal-Opens m t true b in
      let f = found-change_internal m t b in
      rw (f.1, create_update_internal)
        (update-result m d v f.0 ((o.valid h).open_lists t f.0 (o.held ∙ f.1)))

  pub create_update-index :
      (d t : ℕ) (v : W) (b : BaseIndexImpl m) → (create_update_internal m d t v b).1.index ≡ b.index
  unfolding create_update_internal
  create_update-index d t v b = ground (arith, (change_internal-Opens m t true b).same_index)

  -- An update of a term for a document keeps the index valid, counts 1 (0 for the invalid
  -- document), shows readers nothing, and of the pending entries of valid documents it changes just
  -- that of the term and the document, to the given weight.
  pub create_update_internal_lem :
      (d t : ℕ) (v : W) (b : BaseIndexImpl m) (t' e : ℕ)
      → IsValid m b
      → e ≢ 0
      → let (ret, b') = create_update_internal m d t v b in
        IsValid m b'
        × (ret ≡ (if d == 0 then 0 else 1))
        × (b'.index ≡ b.index)
        × (pending m b' t' e ≡ (if (t == t') && (d == e) then some v else pending m b t' e))
  create_update_internal_lem d t v b t' e h z = (
    create_update-IsValid d t v b h,
    create_update-result d t v b h,
    create_update-index d t v b,
    create_update-pending d t v b t' e h z,
  )
