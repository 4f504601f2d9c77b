-- ===== src/Container/Sorted.antt =====
-- Lists of entries in strictly ascending order of their keys: what an ordered map holds.
use mathlib.Core.List.{append-nil, append_assoc}
use red_giant.Prelude.{
  ℕ, sym, ◌∙◌, ◌<◌, ◌≤◌, ◌≡◌, refl, none, some, List, [], ◌∷◌, ◌++◌, arith, if◌then◌else◌, ltb,
  ◌==◌,
}
use red_giant.Key.{nat_key}
use red_giant.Key.Assoc.{lookup}

module _ {ℓ} {W : Type ℓ} where
  -- All keys lie above `lo`, in ascending order.
  abbrev pub IsAscending : ℕ → List (ℕ × W) → Type 0
  IsAscending lo [] = Unit
  IsAscending lo ((k, v) ∷ l) = (lo < k) × IsAscending k l

  abbrev pub IsSorted : List (ℕ × W) → Type 0
  IsSorted [] = Unit
  IsSorted ((k, v) ∷ l) = IsAscending k l

  unfoldable pub assign : ℕ → W → List (ℕ × W) → List (ℕ × W)
  assign k v [] = (k, v) ∷ []
  assign k v ((j, u) ∷ l) =
      if ltb k j then (k, v) ∷ (j, u) ∷ l else if j == k then (k, v) ∷ l else (j, u) ∷ assign k v l

  unfoldable pub emplace : ℕ → W → List (ℕ × W) → List (ℕ × W)
  emplace k v [] = (k, v) ∷ []
  emplace k v ((j, u) ∷ l) =
      if ltb k j then (k, v) ∷ (j, u) ∷ l else if j == k then (j, u) ∷ l else (j, u) ∷ emplace k v l

  unfoldable pub erase : ℕ → List (ℕ × W) → List (ℕ × W)
  erase k [] = []
  erase k ((j, u) ∷ l) = if j == k then l else (j, u) ∷ erase k l

  pub IsAscending-weaken : (a b : ℕ) (l : List (ℕ × W)) → a ≤ b → IsAscending b l → IsAscending a l
  IsAscending-weaken a b [] h s = tt
  IsAscending-weaken a b ((k, v) ∷ l) h s = (omega arith, s.1)

  pub lookup_below : (k lo : ℕ) (l : List (ℕ × W)) → k ≤ lo → IsAscending lo l → lookup k l ≡ none
  lookup_below k lo [] h s = refl
  lookup_below k lo ((j, v) ∷ l) h s = ground (arith, lookup_below k j l)

  pub assign-IsAscending :
      (lo k : ℕ) (v : W) (l : List (ℕ × W))
      → lo < k
      → IsAscending lo l
      → IsAscending lo (assign k v l)
  unfolding assign
  assign-IsAscending lo k v [] h s = (h, tt)
  assign-IsAscending lo k v ((j, u) ∷ l) h s = ground (arith, assign-IsAscending j k v l)

  pub emplace-IsAscending :
      (lo k : ℕ) (v : W) (l : List (ℕ × W))
      → lo < k
      → IsAscending lo l
      → IsAscending lo (emplace k v l)
  unfolding emplace
  emplace-IsAscending lo k v [] h s = (h, tt)
  emplace-IsAscending lo k v ((j, u) ∷ l) h s = ground (arith, emplace-IsAscending j k v l)

  pub erase-IsAscending :
      (lo k : ℕ) (l : List (ℕ × W)) → IsAscending lo l → IsAscending lo (erase k l)
  unfolding erase
  erase-IsAscending lo k [] s = tt
  erase-IsAscending lo k ((j, u) ∷ l) s =
      ground (arith, erase-IsAscending j k l, IsAscending-weaken lo j l)

  pub assign-IsSorted : (k : ℕ) (v : W) (l : List (ℕ × W)) → IsSorted l → IsSorted (assign k v l)
  unfolding assign
  assign-IsSorted k v [] s = tt
  assign-IsSorted k v ((j, u) ∷ l) s = ground (arith, assign-IsAscending j k v l)

  pub emplace-IsSorted : (k : ℕ) (v : W) (l : List (ℕ × W)) → IsSorted l → IsSorted (emplace k v l)
  unfolding emplace
  emplace-IsSorted k v [] s = tt
  emplace-IsSorted k v ((j, u) ∷ l) s = ground (arith, emplace-IsAscending j k v l)

  IsSorted-of_IsAscending : (lo : ℕ) (l : List (ℕ × W)) → IsAscending lo l → IsSorted l
  IsSorted-of_IsAscending lo [] s = tt
  IsSorted-of_IsAscending lo ((j, u) ∷ l) s = s.1

  pub erase-IsSorted : (k : ℕ) (l : List (ℕ × W)) → IsSorted l → IsSorted (erase k l)
  unfolding erase
  erase-IsSorted k [] s = tt
  erase-IsSorted k ((j, u) ∷ l) s =
      ground (arith, erase-IsAscending j k l, IsSorted-of_IsAscending j l)

  pub lookup-assign :
      (k j : ℕ) (v : W) (l : List (ℕ × W))
      → IsSorted l
      → lookup j (assign k v l) ≡ (if k == j then some v else lookup j l)
  unfolding assign
  lookup-assign k j v [] s = refl
  lookup-assign k j v ((i, u) ∷ l) s =
      ground (arith, lookup-assign k j v l, IsSorted-of_IsAscending i l)

  pub lookup-erase :
      (k j : ℕ) (l : List (ℕ × W))
      → IsSorted l
      → lookup j (erase k l) ≡ (if k == j then none else lookup j l)
  unfolding erase
  lookup-erase k j [] s = ground arith
  lookup-erase k j ((i, u) ∷ l) s =
      ground (arith, lookup-erase k j l, IsSorted-of_IsAscending i l, lookup_below k i l)

  -- The entries of `l`, in turn, inserted at the end.
  unfoldable pub emplace_all : List (ℕ × W) → List (ℕ × W) → List (ℕ × W)
  emplace_all acc [] = acc
  emplace_all acc ((k, v) ∷ l) = emplace_all (emplace k v acc) l

  middle_above : (lo k : ℕ) (v : W) (a l : List (ℕ × W)) → IsAscending lo (a ++ (k, v) ∷ l) → lo < k
  middle_above lo k v [] l s = s.0
  middle_above lo k v ((j, u) ∷ a) l s = omega (arith, middle_above j k v a l s.1)

  emplace_last :
      (lo k : ℕ) (v : W) (a l : List (ℕ × W))
      → IsAscending lo (a ++ (k, v) ∷ l)
      → emplace k v a ≡ a ++ (k, v) ∷ []
  unfolding emplace
  emplace_last lo k v [] l s = refl
  emplace_last lo k v ((j, u) ∷ a) l s =
      ground (arith, emplace_last j k v a l s.1, middle_above j k v a l s.1)

  -- Ascending entries end up behind those that were there.
  pub emplace_all-append :
      (lo : ℕ) (a l : List (ℕ × W)) → IsAscending lo (a ++ l) → emplace_all a l ≡ a ++ l
  unfolding emplace_all
  emplace_all-append lo a [] s = sym (append-nil a)
  emplace_all-append lo a ((k, v) ∷ l) s =
      rw (emplace_last lo k v a l s)
        (emplace_all-append lo (a ++ (k, v) ∷ []) l (rw append_assoc s) ∙ append_assoc a _ l)
