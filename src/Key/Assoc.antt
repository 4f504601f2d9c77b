-- ===== src/Key/Assoc.antt =====
-- `std::map` and `std::unordered_map` where only the key matters: `find`, `m[k] = v`, `erase`.
use red_giant.Prelude.{◌≡◌, refl, Option, none, some, List, [], ◌∷◌, arith, if◌then◌else◌}
use red_giant.Key.{Key, nat_key}

module _ {ℓ κ} {K : Type ℓ} {V : Type κ} ⦃o : Key K⦄ where
  abbrev pub lookup : K → List (K × V) → Option V
  lookup k [] = none
  lookup k ((j, v) ∷ l) = if o.beq j k then some v else lookup k l

  unfoldable pub assign : K → V → List (K × V) → List (K × V)
  assign k v [] = (k, v) ∷ []
  assign k v ((j, u) ∷ l) = if o.beq j k then (k, v) ∷ l else (j, u) ∷ assign k v l

  unfoldable pub erase : K → List (K × V) → List (K × V)
  erase k [] = []
  erase k ((j, v) ∷ l) = let rest = erase k l in if o.beq j k then rest else (j, v) ∷ rest

  pub lookup-assign :
      (k j : K) (v : V) (l : List (K × V))
      → lookup j (assign k v l) ≡ (if o.beq k j then some v else lookup j l)
  unfolding assign
  lookup-assign k j v [] = refl
  lookup-assign k j v ((i, u) ∷ l) =
      ground (arith, o.beq_iff k j, o.beq_iff i k, o.beq_iff i j, lookup-assign k j v l)

  pub lookup-erase :
      (k j : K) (l : List (K × V)) → lookup j (erase k l) ≡ (if o.beq k j then none else lookup j l)
  unfolding erase
  lookup-erase k j [] = ground arith
  lookup-erase k j ((i, u) ∷ l) =
      ground (arith, o.beq_iff k j, o.beq_iff i k, o.beq_iff i j, lookup-erase k j l)

  -- No key stands twice.
  abbrev pub IsUnique : List (K × V) → Type κ
  IsUnique [] = Unit
  IsUnique ((k, v) ∷ l) = (lookup k l ≡ none) × IsUnique l

  pub assign-IsUnique : (k : K) (v : V) (l : List (K × V)) → IsUnique l → IsUnique (assign k v l)
  unfolding assign
  assign-IsUnique k v [] u = (refl, tt)
  assign-IsUnique k v ((j, w) ∷ l) u =
      ground (arith, o.beq_iff j k, o.beq_iff k j, lookup-assign k j v l, assign-IsUnique k v l u.1)

  pub erase-IsUnique : (k : K) (l : List (K × V)) → IsUnique l → IsUnique (erase k l)
  unfolding erase
  erase-IsUnique k [] u = tt
  erase-IsUnique k ((j, w) ∷ l) u =
      ground (arith, o.beq_iff j k, o.beq_iff k j, lookup-erase k j l, erase-IsUnique k l u.1)
