-- ===== src/RowIndex/Docterm.antt =====
-- What the loop over the terms of a document writes.
use red_giant.Prelude.{
  ℕ, ◌≡◌, ◌≢◌, refl, ◌∙◌, false, Option, none, some, List, [], ◌∷◌, arith, if◌then◌else◌, ◌==◌,
  contains, length,
}
use red_giant.Key.{nat_key}
use red_giant.Weight.{Weight}
use red_giant.Container.{OrderedMap}
use red_giant.BaseIndex
use red_giant.BaseIndex.{BaseIndexImpl}
use red_giant.BaseIndex.Posting.{pending, IsValid}
use red_giant.BaseIndex.Changes.{
  create_update-IsValid, create_update-result, create_update-index, create_update-pending,
}
use red_giant.RowIndex.{term_ids, update_terms}

-- The first weight if there is one, and the second otherwise.
abbrev pub or_else {ℓ} : {W : Type ℓ} → Option W → Option W → Option W
or_else (some x) o = some x
or_else none o = o

-- The weight of a term in a row: the last one that the row gives it.
abbrev pub last_weight {ℓ} : {W : Type ℓ} → ℕ → List (ℕ × W) → Option W
last_weight t [] = none
last_weight t ((u, v) ∷ l) = or_else (last_weight t l) (if u == t then some v else none)

pub last_weight-missing :
    {W : Type 0} (t : ℕ) (l : List (ℕ × W))
    → contains t (term_ids l) ≡ false
    → last_weight t l ≡ none
last_weight-missing t [] h = refl
last_weight-missing t ((u, v) ∷ l) h = ground (arith, last_weight-missing t l)

module _ {W : Type 0} ⦃w : Weight W⦄ (m : OrderedMap W) where
  pub update_terms-IsValid :
      (d : ℕ) (l : List (ℕ × W)) (b : BaseIndexImpl m)
      → IsValid m b
      → IsValid m (update_terms m d l b).1
  unfolding update_terms
  update_terms-IsValid d [] b h = h
  update_terms-IsValid d ((t, v) ∷ l) b h =
      update_terms-IsValid d l _ (create_update-IsValid m d t v b h)

  pub update_terms-index :
      (d : ℕ) (l : List (ℕ × W)) (b : BaseIndexImpl m)
      → IsValid m b
      → (update_terms m d l b).1.index ≡ b.index
  unfolding update_terms
  update_terms-index d [] b h = refl
  update_terms-index d ((t, v) ∷ l) b h =
      update_terms-index d l _ (create_update-IsValid m d t v b h) ∙ create_update-index m d t v b

  pub update_terms-result :
      (d : ℕ) (l : List (ℕ × W)) (b : BaseIndexImpl m)
      → IsValid m b
      → (update_terms m d l b).0 ≡ (if d == 0 then 0 else length l)
  unfolding update_terms
  update_terms-result d [] b h = ground arith
  update_terms-result d ((t, v) ∷ l) b h = ground (
    arith,
    create_update-result m d t v b h,
    update_terms-result d l (BaseIndex.create_update_internal m d t v b).1
        (create_update-IsValid m d t v b h),
  )

  pub update_terms-pending :
      (d : ℕ) (l : List (ℕ × W)) (b : BaseIndexImpl m) (t e : ℕ)
      → IsValid m b
      → e ≢ 0
      → pending m (update_terms m d l b).1 t e
        ≡ (if d == e then or_else (last_weight t l) (pending m b t e) else pending m b t e)
  unfolding update_terms
  update_terms-pending d [] b t e h z = ground arith
  update_terms-pending d ((u, v) ∷ l) b t e h z = ground (
    arith,
    create_update-pending m d u v b t e h z,
    update_terms-pending d l (BaseIndex.create_update_internal m d u v b).1 t e
        (create_update-IsValid m d u v b h) z,
  )
