-- ===== src/Key/Names.antt =====
-- `std::unordered_map<std::string, V>`: `find`, `m[k] = v`, and `emplace`, which keeps what is there.
use Prim.Native.String.{String}
use text.Mathlib.Text.{◌==◌}
use text.Mathlib.TextEquality.{eq_iff}
use red_giant.Prelude.{
  ◌≡◌, refl, Bool, true, false, Option, none, some, List, [], ◌∷◌, arith, if◌then◌else◌,
}

module _ {ℓ} {V : Type ℓ} where
  unfoldable pub find : String → List (String × V) → Option V
  find k [] = none
  find k ((j, v) ∷ l) = if j == k then some v else find k l

  unfoldable pub set : String → V → List (String × V) → List (String × V)
  set k v [] = (k, v) ∷ []
  set k v ((j, u) ∷ l) = if j == k then (k, v) ∷ l else (j, u) ∷ set k v l

  -- The map after it, and whether the pair was inserted.
  unfoldable pub emplace : String → V → List (String × V) → List (String × V) × Bool
  emplace k v l = elim (find k l) [ none ↦ ((k, v) ∷ l, true) | some u ↦ (l, false) ]

  pub find-set :
      (k j : String) (v : V) (l : List (String × V))
      → find j (set k v l) ≡ (if k == j then some v else find j l)
  unfolding find set
  find-set k j v [] = refl
  find-set k j v ((i, u) ∷ l) = ground (arith, eq_iff k j, eq_iff i k, eq_iff i j, find-set k j v l)

  pub find-emplace :
      (k j : String) (v : V) (l : List (String × V))
      → find j (emplace k v l).0
        ≡ elim (find k l) [ none ↦ if k == j then some v else find j l | some u ↦ find j l ]
  unfolding find emplace
  find-emplace k j v l = ground (arith)
