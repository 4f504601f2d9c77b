-- ===== src/Freezable/Laws.antt =====
-- The two states of a freezable posting list.
use red_giant.Prelude.{ℕ, ◌≡◌, ◌≢◌, refl, false, none, some, arith, if◌then◌else◌, ◌==◌}
use red_giant.Key.{nat_key}
use red_giant.Weight.{Weight}
use red_giant.Container.{OrderedMap}
use red_giant.PostingList
use red_giant.PostingList.{BTreePostingList, posting_reader}
use red_giant.PostingList.Lookup
use red_giant.PostingList.Lookup.{find}
use red_giant.PostingList.Load.{load-create_reader}
use red_giant.Freezable.{
  FreezablePostingList, create, create_from, update, remove, create_reader, freeze, get_instance,
}

module _ {ℓ} {W : Type ℓ} ⦃w : Weight W⦄ (m : OrderedMap W) where
  -- A frozen list refuses every change, and gives its contents and a reader.
  pub frozen_lem :
      (d : ℕ) (v : W) (f : FreezablePostingList m)
      → (update m d v (freeze m f) ≡ (0, freeze m f))
        × (remove m d (freeze m f) ≡ (0, freeze m f))
        × (get_instance m (freeze m f) ≡ some f.plist)
        × (create_reader m (freeze m f) ≡ some (PostingList.create_reader m f.plist))
  unfolding update remove freeze get_instance create_reader
  frozen_lem d v f = (refl, refl, refl, refl)

  pub update-frozen :
      (d : ℕ) (v : W) (f : FreezablePostingList m) → (update m d v f).1.frozen ≡ f.frozen
  unfolding update
  update-frozen d v f = ground arith

  pub remove-frozen : (d : ℕ) (f : FreezablePostingList m) → (remove m d f).1.frozen ≡ f.frozen
  unfolding remove
  remove-frozen d f = ground arith

  pub find-update :
      (d e : ℕ) (v : W) (f : FreezablePostingList m)
      → f.frozen ≡ false
      → e ≢ 0
      → find m e (update m d v f).1.plist ≡ (if d == e then some v else find m e f.plist)
  unfolding update
  find-update d e v f h z = rw h (Lookup.find-update m d e v f.plist z)

  pub find-remove :
      (d e : ℕ) (f : FreezablePostingList m)
      → f.frozen ≡ false
      → find m e (remove m d f).1.plist ≡ (if d == e then none else find m e f.plist)
  unfolding remove
  find-remove d e f h = rw h (Lookup.find-remove m d e f.plist)

  -- A freezable copy of a posting list is open for changes and holds for every valid document what
  -- the list holds.
  pub create_from_lem :
      (d : ℕ) (p : BTreePostingList m)
      → d ≢ 0
      → let f = create_from m (PostingList.create_reader m p) in
        (f.frozen ≡ false) × (find m d f.plist ≡ find m d p)
  unfolding create_from
  create_from_lem d p h = let q = load-create_reader m p in rw (q.2, create_from) (refl, q.3 d h)

  pub create_lem : ((create m).frozen ≡ false) × ((d : ℕ) → find m d (create m).plist ≡ none)
  unfolding create
  create_lem = (refl, Lookup.find-create m)

  pub update-result :
      (d : ℕ) (v : W) (f : FreezablePostingList m)
      → f.frozen ≡ false
      → (update m d v f).0 ≡ (if d == 0 then 0 else 1)
  unfolding update
  update-result d v f h = rw h (Lookup.update-result m d v f.plist)

  pub remove-result :
      (d : ℕ) (f : FreezablePostingList m)
      → f.frozen ≡ false
      → (remove m d f).0 ≡ elim (find m d f.plist) [ none ↦ 0 | some _ ↦ 1 ]
  unfolding remove
  remove-result d f h = rw h (Lookup.remove-result m d f.plist)
