-- ===== src/BaseIndex/Apply.antt =====
-- What `apply_internal` publishes: after it, readers see every pending entry, and nothing else.
use red_giant.Prelude.{
  ℕ, ◌≡◌, refl, Option, none, some, List, [], ◌∷◌, arith, if◌then◌else◌, ◌==◌, Option-cases, inl,
  inr, length,
}
use red_giant.Key.{nat_key}
use red_giant.Key.Assoc.{lookup, assign, IsUnique, lookup-assign, lookup-erase}
use red_giant.Weight.{Weight}
use red_giant.Container.{OrderedMap}
use red_giant.PostingList.{BTreePostingList}
use red_giant.PostingList.Lookup.{find, find-is_empty}
use red_giant.Freezable
use red_giant.Freezable.{FreezablePostingList}
use red_giant.BaseIndex.{BaseIndexImpl, publish, apply_change, apply_changes, apply_internal}
use red_giant.BaseIndex.Posting.{find_in, visible, pending, IsValid}

module _ {ℓ} {W : Type ℓ} ⦃w : Weight W⦄ (m : OrderedMap W) where
  -- What stands under a term after its pending list has been applied.
  outcome : FreezablePostingList m → Option (BTreePostingList m) → Option (BTreePostingList m)
  outcome f none = some f.plist
  outcome f (some p) = if Freezable.is_empty m f then none else some f.plist

  publish_lem :
      (t : ℕ) (f : FreezablePostingList m) (index : List (ℕ × BTreePostingList m))
      → publish m t f index ≡ assign t f.plist index
  unfolding publish Freezable.get_instance Freezable.freeze
  publish_lem t f index = refl

  lookup-apply_change :
      (t t' : ℕ) (f : FreezablePostingList m) (index : List (ℕ × BTreePostingList m))
      → lookup t' (apply_change m t f index)
        ≡ (if t == t' then outcome f (lookup t index) else lookup t' index)
  unfolding apply_change outcome
  lookup-apply_change t t' f index =
      ground
        (arith, publish_lem t f index, lookup-assign t t' f.plist index, lookup-erase t t' index)

  lookup-apply_changes :
      (changes : List (ℕ × FreezablePostingList m)) (t : ℕ) (index : List (ℕ × BTreePostingList m))
      → IsUnique changes
      → lookup t (apply_changes m changes index)
        ≡ elim (lookup t changes) [ some f ↦ outcome f (lookup t index) | none ↦ lookup t index ]
  unfolding apply_changes
  lookup-apply_changes [] t index u = refl
  lookup-apply_changes ((s, f) ∷ changes) t index u = ground (
    arith,
    lookup-apply_changes changes t (apply_change m s f index) u.1,
    lookup-apply_change s t f index,
  )

  find-outcome :
      (d : ℕ) (f : FreezablePostingList m) (o : Option (BTreePostingList m))
      → find_in m d (outcome f o) ≡ find m d f.plist
  unfolding outcome find_in Freezable.is_empty
  find-outcome d f none = refl
  find-outcome d f (some p) = ground (arith, find-is_empty m d f.plist)

  visible_after :
      (b : BaseIndexImpl m)
      → IsValid m b
      → (t d : ℕ)
      → find_in m d (lookup t (apply_changes m b.changed_index b.index)) ≡ pending m b t d
  unfolding pending
  visible_after b h t d = elim (Option-cases (lookup t b.changed_index)) [
    | inl e ↦ ground (arith, e, lookup-apply_changes b.changed_index t b.index h.unique)
    | inr (f, e) ↦ ground (
      arith,
      e,
      lookup-apply_changes b.changed_index t b.index h.unique,
      find-outcome d f (lookup t b.index),
    )
  ]

  -- After `apply_internal` readers see exactly what was pending, no change is left over, and the
  -- count returned is the number of terms that were changed.
  pub apply_internal_lem :
      (b : BaseIndexImpl m)
      → IsValid m b
      → let (ret, b') = apply_internal m b in
        ((t d : ℕ) → (visible m b' t d ≡ pending m b t d) × (pending m b' t d ≡ pending m b t d))
        × IsValid m b'
        × (b'.changed_index ≡ [])
        × (ret ≡ length b.changed_index)
  unfolding apply_internal visible pending
  apply_internal_lem b h = (
    λ t d. (visible_after b h t d, visible_after b h t d),
    record { unique = tt; open_lists = λ t f. ground arith },
    refl,
    refl,
  )
