-- ===== src/BaseIndex/Opening.antt =====
-- What `change_internal` leaves as it was: all that a reader can see, now or after the changes
-- are applied.
use red_giant.Prelude.{
  ℕ, ◌≡◌, ◌≢◌, refl, Bool, true, false, Option, none, some, arith, if◌then◌else◌, ◌==◌,
  Option-cases, inl, inr, Bool-cases,
}
use red_giant.Key.{nat_key}
use red_giant.Key.Assoc.{lookup, assign, lookup-assign, assign-IsUnique}
use red_giant.Weight.{Weight}
use red_giant.Container.{OrderedMap}
use red_giant.PostingList
use red_giant.PostingList.{BTreePostingList}
use red_giant.PostingList.Lookup.{find}
use red_giant.Freezable
use red_giant.Freezable.{FreezablePostingList}
use red_giant.Freezable.Laws.{create_from_lem, create_lem}
use red_giant.BaseIndex.{BaseIndexImpl, change_internal}
use red_giant.BaseIndex.Posting.{find_in, pending, IsValid}

module _ {ℓ} {W : Type ℓ} ⦃w : Weight W⦄ (m : OrderedMap W) where
  -- What becomes of an index when a term is made ready for a change: readers see what they saw,
  -- the applied index will show what it would have shown, and the entry of the term is at hand.
  pub record Opens (t : ℕ) (b b' : BaseIndexImpl m) (found : Option (FreezablePostingList m))
      : Type ℓ where
    pub same_index : b'.index ≡ b.index
    pub held : lookup t b'.changed_index ≡ found
    pub same_pending : (t' d : ℕ) → d ≢ 0 → pending m b' t' d ≡ pending m b t' d
    pub valid : IsValid m b → IsValid m b'

  Opens-keep :
      (t : ℕ) (b : BaseIndexImpl m) {found : Option (FreezablePostingList m)}
      → lookup t b.changed_index ≡ found
      → Opens t b b found
  Opens-keep t b e = record {
    same_index = refl;
    held = e;
    same_pending = λ t' d h. refl;
    valid = λ v. v;
  }

  abbrev pub put : ℕ → FreezablePostingList m → BaseIndexImpl m → BaseIndexImpl m
  put t f b = record b { changed_index = assign t f b.changed_index }

  pub pending-put :
      (t t' d : ℕ) (f : FreezablePostingList m) (b : BaseIndexImpl m)
      → pending m (put t f b) t' d ≡ (if t == t' then find m d f.plist else pending m b t' d)
  unfolding pending
  pending-put t t' d f b = ground (arith, lookup-assign t t' f b.changed_index)

  pub put-IsValid :
      (t : ℕ) (f : FreezablePostingList m) (b : BaseIndexImpl m)
      → f.frozen ≡ false
      → IsValid m b
      → IsValid m (put t f b)
  put-IsValid t f b h v = record {
    unique = assign-IsUnique t f b.changed_index v.unique;
    open_lists = λ t' g e. ground (arith, lookup-assign t t' f b.changed_index, v.open_lists t' g);
  }

  Opens-put :
      (t : ℕ) (f : FreezablePostingList m) (b : BaseIndexImpl m)
      → lookup t b.changed_index ≡ none
      → f.frozen ≡ false
      → ((d : ℕ) → d ≢ 0 → find m d f.plist ≡ find_in m d (lookup t b.index))
      → Opens t b (put t f b) (some f)
  unfolding pending
  Opens-put t f b e o same = record {
    same_index = refl;
    held = ground (arith, lookup-assign t t f b.changed_index);
    same_pending = λ t' d h. ground (arith, pending-put t t' d f b, same d h);
    valid = put-IsValid t f b o;
  }

  pub change_internal-Opens :
      (t : ℕ) (c : Bool) (b : BaseIndexImpl m)
      → Opens t b (change_internal m t c b).1 (change_internal m t c b).0
  unfolding change_internal pending
  change_internal-Opens t c b = elim (Option-cases (lookup t b.changed_index)) [
    | inr (f, e) ↦ rw (e, change_internal) (Opens-keep t b e)
    | inl e ↦ elim (Option-cases (lookup t b.index)) [
      | inr (p, i) ↦
          rw (e, i, change_internal)
            (Opens-put t (Freezable.create_from m (PostingList.create_reader m p)) b e
              (create_from_lem m 1 p (omega arith)).0 (λ d h. rw i (create_from_lem m d p h).1))
      | inl i ↦ elim (Bool-cases c) [
        | inl k ↦
            rw (e, i, k, change_internal)
              (Opens-put t (Freezable.create m) b e (create_lem m).0
                (λ d h. rw i ((create_lem m).1 d)))
        | inr k ↦ rw (e, i, k, change_internal) (Opens-keep t b e)
      ]
    ]
  ]

  -- With `create` set there is always a list to change.
  pub found-change_internal :
      (t : ℕ) (b : BaseIndexImpl m)
      → (f : FreezablePostingList m) × ((change_internal m t true b).0 ≡ some f)
  unfolding change_internal
  found-change_internal t b = elim (Option-cases (lookup t b.changed_index)) [
    | inr (f, e) ↦ (f, rw (e, change_internal))
    | inl e ↦ elim (Option-cases (lookup t b.index)) [
      | inr (p, i) ↦
          (Freezable.create_from m (PostingList.create_reader m p), rw (e, i, change_internal))
      | inl i ↦ (Freezable.create m, rw (e, i, change_internal))
    ]
  ]

  -- Without `create` there is no list only where the term has no posting list at all.
  pub missing-change_internal :
      (t : ℕ) (b : BaseIndexImpl m)
      → (change_internal m t false b).0 ≡ none
      → (lookup t b.changed_index ≡ none) × (lookup t b.index ≡ none)
  unfolding change_internal
  missing-change_internal t b h = ground arith
