-- ===== src/Container/SortedSet.antt =====
-- Lists in strictly ascending order: what an ordered set holds.
use red_giant.Prelude.{
  ℕ, zero, suc, ◌≡◌, refl, Bool, true, false, ◌||◌, List, [], ◌∷◌, arith, if◌then◌else◌, drop, take,
  All, Bool-cases, inl, inr, length, ◌≤◌,
}
use red_giant.Key.{Key}

module _ {ℓ} {E : Type ℓ} ⦃o : Key E⦄ where
  abbrev pub IsAbove : E → List E → Type 0
  IsAbove lo [] = Unit
  IsAbove lo (e ∷ l) = (o.lt lo e ≡ true) × IsAbove e l

  abbrev pub IsSorted : List E → Type 0
  IsSorted [] = Unit
  IsSorted (e ∷ l) = IsAbove e l

  unfoldable pub insert : E → List E → List E
  insert x [] = x ∷ []
  insert x (y ∷ l) = if o.lt x y then x ∷ y ∷ l else if o.beq y x then y ∷ l else y ∷ insert x l

  unfoldable pub erase : E → List E → List E
  erase x [] = []
  erase x (y ∷ l) = if o.beq y x then l else y ∷ erase x l

  -- How many elements lie in front of the first that is greater than `x`.
  unfoldable pub upper_bound : E → List E → ℕ
  upper_bound x [] = 0
  upper_bound x (y ∷ l) = let rest = suc (upper_bound x l) in if o.lt x y then 0 else rest

  abbrev pub mem : E → List E → Bool
  mem x [] = false
  mem x (y ∷ l) = o.beq y x || mem x l

  pub IsAbove-weaken : (a b : E) (l : List E) → o.lt a b ≡ true → IsAbove b l → IsAbove a l
  IsAbove-weaken a b [] h s = tt
  IsAbove-weaken a b (e ∷ l) h s = (o.lt_trans a b e h s.0, s.1)

  pub insert-IsAbove :
      (lo x : E) (l : List E) → o.lt lo x ≡ true → IsAbove lo l → IsAbove lo (insert x l)
  unfolding insert
  insert-IsAbove lo x [] h s = (h, tt)
  insert-IsAbove lo x (y ∷ l) h s =
      ground (arith, insert-IsAbove y x l, o.lt_connex x y, o.beq_iff y x)

  pub insert-IsSorted : (x : E) (l : List E) → IsSorted l → IsSorted (insert x l)
  unfolding insert
  insert-IsSorted x [] s = tt
  insert-IsSorted x (y ∷ l) s = ground (arith, insert-IsAbove y x l, o.lt_connex x y, o.beq_iff y x)

  pub IsSorted-of_IsAbove : (lo : E) (l : List E) → IsAbove lo l → IsSorted l
  IsSorted-of_IsAbove lo [] s = tt
  IsSorted-of_IsAbove lo (y ∷ l) s = s.1

  pub erase-IsAbove : (lo x : E) (l : List E) → IsAbove lo l → IsAbove lo (erase x l)
  unfolding erase
  erase-IsAbove lo x [] s = tt
  erase-IsAbove lo x (y ∷ l) s = ground (arith, erase-IsAbove y x l, IsAbove-weaken lo y l)

  pub erase-IsSorted : (x : E) (l : List E) → IsSorted l → IsSorted (erase x l)
  unfolding erase
  erase-IsSorted x [] s = tt
  erase-IsSorted x (y ∷ l) s = ground (arith, erase-IsAbove y x l, IsSorted-of_IsAbove y l)

  -- What does not lie above `lo` is no element.
  pub mem_above : (lo x : E) (l : List E) → IsAbove lo l → o.lt lo x ≡ false → mem x l ≡ false
  mem_above lo x [] s h = refl
  mem_above lo x (y ∷ l) s h =
      ground (arith, o.beq_iff y x, mem_above lo x l (IsAbove-weaken lo y l s.0 s.1))

  pub mem-insert : (x z : E) (l : List E) → mem z (insert x l) ≡ (o.beq x z || mem z l)
  unfolding insert
  mem-insert x z [] = refl
  mem-insert x z (y ∷ l) = ground (arith, mem-insert x z l, o.beq_iff y x)

  pub mem-erase :
      (x z : E) (l : List E)
      → IsSorted l
      → mem z (erase x l) ≡ (if o.beq x z then false else mem z l)
  unfolding erase
  mem-erase x z [] s = ground arith
  mem-erase x z (y ∷ l) s = ground (
    arith,
    mem-erase x z l (IsSorted-of_IsAbove y l s),
    o.beq_iff y x,
    o.beq_iff x z,
    o.beq_iff y z,
    mem_above y y l s (o.lt_irrefl y),
  )

  pub drop-IsSorted : (n : ℕ) (l : List E) → IsSorted l → IsSorted (drop n l)
  drop-IsSorted zero l s = s
  drop-IsSorted (suc n) [] s = tt
  drop-IsSorted (suc n) (y ∷ l) s = drop-IsSorted n l (IsSorted-of_IsAbove y l s)

  All-above :
      (x lo : E) (l : List E) → o.lt x lo ≡ true → IsAbove lo l → All (λ e. o.lt x e ≡ true) l
  All-above x lo [] h s = tt
  All-above x lo (y ∷ l) h s = let p = o.lt_trans x lo y h s.0 in (p, All-above x y l p s.1)

  -- Behind the upper bound everything is greater, and nothing is in front of it.
  pub above_upper_bound :
      (x : E) (l : List E) → IsSorted l → All (λ e. o.lt x e ≡ true) (drop (upper_bound x l) l)
  unfolding upper_bound
  above_upper_bound x [] s = tt
  above_upper_bound x (y ∷ l) s = elim (Bool-cases (o.lt x y)) [
    | inl h ↦ rw h (h, All-above x y l h s)
    | inr h ↦ rw h (above_upper_bound x l (IsSorted-of_IsAbove y l s))
  ]

  pub below_upper_bound :
      (x : E) (l : List E) → All (λ e. o.lt x e ≡ false) (take (upper_bound x l) l)
  unfolding upper_bound
  below_upper_bound x [] = tt
  below_upper_bound x (y ∷ l) = elim (Bool-cases (o.lt x y)) [
    | inl h ↦ rw h tt
    | inr h ↦ rw h (h, below_upper_bound x l)
  ]

  pub upper_bound-le-length : (x : E) (l : List E) → upper_bound x l ≤ length l
  unfolding upper_bound
  upper_bound-le-length x [] = omega arith
  upper_bound-le-length x (y ∷ l) = ground (arith, upper_bound-le-length x l)
