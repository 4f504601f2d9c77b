-- ===== src/PostingList/Walk.antt =====
-- A posting list is read in ascending order of its documents. (What a list made from a reader
-- holds is in the module Load.)
use red_giant.Prelude.{ℕ, ◌<◌, ◌≤◌, ◌≡◌, ◌≢◌, refl, some, List, [], ◌∷◌, arith, length}
use red_giant.Key.{nat_key}
use red_giant.Key.Assoc.{lookup}
use red_giant.Weight.{Weight}
use red_giant.Container.{OrderedMap}
use red_giant.Container.Sorted.{IsAscending, IsSorted, lookup_below}
use red_giant.Reader.Yields.{Yields}
use red_giant.PostingList.{
  BTreePostingList, BTreePostingListReader, advance, first_id, second_or, next, posting_reader,
  create_reader,
}
use red_giant.PostingList.Lookup.{find}

module _ {ℓ} {W : Type ℓ} where
  advance_above : (c : ℕ) (l : List (ℕ × W)) → IsAscending c l → advance c l ≡ l
  unfolding advance
  advance_above c [] s = refl
  advance_above c ((d, w) ∷ l) s = ground arith

  pub advance-IsAscending :
      (c lo : ℕ) (l : List (ℕ × W)) → IsAscending lo l → IsAscending c (advance c l)
  unfolding advance
  advance-IsAscending c lo [] s = tt
  advance-IsAscending c lo ((d, w) ∷ l) s = ground (arith, advance-IsAscending c d l)

  advance-IsSorted : (c : ℕ) (l : List (ℕ × W)) → IsSorted l → IsAscending c (advance c l)
  unfolding advance
  advance-IsSorted c [] s = tt
  advance-IsSorted c ((d, w) ∷ l) s = ground (arith, advance-IsAscending c d l s)

  pub lookup-advance : (c d : ℕ) (l : List (ℕ × W)) → c < d → lookup d (advance c l) ≡ lookup d l
  unfolding advance
  lookup-advance c d [] h = refl
  lookup-advance c d ((e, w) ∷ l) h = ground (arith, lookup-advance c d l)

  length-advance : (c : ℕ) (l : List (ℕ × W)) → length (advance c l) ≤ length l
  unfolding advance
  length-advance c [] = omega arith
  length-advance c ((e, w) ∷ l) = ground (arith, length-advance c l)

  least_from :
      (c lo d : ℕ) (w : W) (l : List (ℕ × W))
      → IsAscending lo l
      → c < d
      → lookup d l ≡ some w
      → (c < first_id (advance c l)) × (first_id (advance c l) ≤ d)
  unfolding advance
  least_from c lo d w [] s h e = cc
  least_from c lo d w ((k, v) ∷ l) s h e =
      ground (arith, least_from c k d w l s.1, lookup_below d k l)

  first_above : (c : ℕ) (l : List (ℕ × W)) → first_id (advance c l) ≢ 0 → c < first_id (advance c l)
  unfolding advance
  first_above c [] h = absurd (h refl)
  first_above c ((k, v) ∷ l) h = ground (arith, first_above c l)

  found_at :
      (z : W) (c lo : ℕ) (l : List (ℕ × W))
      → IsAscending lo l
      → first_id (advance c l) ≢ 0
      → lookup (first_id (advance c l)) l ≡ some (second_or z (advance c l))
  unfolding advance
  found_at z c lo [] s h = absurd (h refl)
  found_at z c lo ((k, v) ∷ l) s h = ground (
    arith,
    found_at z c k l s.1,
    least_from c k k v ((k, v) ∷ l),
    first_above c l,
    lookup_below k k l,
  )

module _ {ℓ} {W : Type ℓ} (m : OrderedMap W) where
  yields_from :
      (posting : List (ℕ × W)) (b : W) (c : ℕ) (it l : List (ℕ × W))
      → advance c it ≡ l
      → IsAscending c l
      → Yields
          (posting_reader m)
          c
          (record { posting = posting; upper_bound = b; iter = it })
          l
          (record { posting = posting; upper_bound = b; iter = [] })
  unfolding next
  yields_from posting b c it [] e s = rw e
  yields_from posting b c it ((d, w) ∷ l) e s = (
    record { posting = posting; upper_bound = b; iter = (d, w) ∷ l },
    record { posting = posting; upper_bound = b; iter = (d, w) ∷ l },
    rw e,
    refl,
    omega arith,
    yields_from posting b d ((d, w) ∷ l) l (ground (arith, advance_above d l)) s.1,
  )

  -- `create_reader` gives a reader that yields the entries in ascending order of the documents.
  pub create_reader-Yields :
      ⦃w : Weight W⦄ (p : BTreePostingList m)
      → (l : List (ℕ × W)) × IsAscending 0 l
        × ((d : ℕ) → d ≢ 0 → lookup d l ≡ find m d p)
        × (length l ≤ length (create_reader m p).iter)
        × Yields
            (posting_reader m)
            0
            (create_reader m p)
            l
            (record (create_reader m p) { iter = [] })
  unfolding create_reader find
  create_reader-Yields p =
      let its = m.items p.posting in
      (
        advance 0 its,
        advance-IsSorted 0 its (m.items_sorted p.posting),
        (λ d h. lookup-advance 0 d its (omega arith)),
        length-advance 0 its,
        yields_from its p.upper_bound 0 its (advance 0 its) refl
            (advance-IsSorted 0 its (m.items_sorted p.posting)),
      )

  -- Where the iterator still covers a document behind `current`, `next` returns the least such
  -- document, and the weight that can then be read is that of the document.
  pub next-least :
      (current d : ℕ) (v : W) (r : BTreePostingListReader W)
      → IsAscending 0 r.iter
      → current < d
      → lookup d r.iter ≡ some v
      → let (n, r') = next current r in
        (current < n) × (n ≤ d) × (lookup n r.iter ≡ some ((posting_reader m).read r').0)
  unfolding next
  next-least current d v r s h e =
      let least = least_from current 0 d v r.iter s h e in
      (least.0, least.1, found_at m.past_end current 0 r.iter s (omega (arith, least.0)))
