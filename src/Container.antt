-- ===== src/Container.antt =====
-- The ordered containers that src/main/third_party/btree provides, as interfaces: the index calls
-- them and does not implement them. What is asked of one is what its documentation says of every
-- sorted associative container: its contents, read from `begin()` to `end()`, are a list that
-- ascends strictly in the keys, and each operation changes that list as described in the modules
-- below.
pub mod Sorted
pub mod SortedSet
pub mod SortedMap
use red_giant.Prelude.{ℕ, ◌≡◌, List, [], drop, length}
use red_giant.Key.{Key}
use red_giant.Container.Sorted
use red_giant.Container.SortedSet

-- `btree::btree_map<DocId, W>`
pub record OrderedMap {ℓ} (W : Type ℓ) : Type (ℓ + 1) where
  pub Map : Type ℓ
  pub items : Map → List (ℕ × W)
  pub empty : Map
  -- `m[k] = v`
  pub assign : ℕ → W → Map → Map
  -- `m.insert(m.end(), {k, v})`: an entry that is there stays
  pub emplace : ℕ → W → Map → Map
  -- `m.find(k)`, and `m.erase(iter)` where it is found
  pub erase : ℕ → Map → Map
  -- what a read through `end()` gives: not specified
  pub past_end : W
  pub items_sorted : (m : Map) → Sorted.IsSorted (items m)
  pub items-empty : items empty ≡ []
  pub items-assign : (k : ℕ) (v : W) (m : Map) → items (assign k v m) ≡ Sorted.assign k v (items m)
  pub items-emplace :
      (k : ℕ) (v : W) (m : Map) → items (emplace k v m) ≡ Sorted.emplace k v (items m)
  pub items-erase : (k : ℕ) (m : Map) → items (erase k m) ≡ Sorted.erase k (items m)

-- `btree::btree_set<E, Less>`; an iterator is its distance from `begin()`.
pub record OrderedSet {ℓ} (E : Type ℓ) ⦃o : Key E⦄ : Type (ℓ + 1) where
  pub Set : Type ℓ
  pub items : Set → List E
  pub empty : Set
  pub insert : E → Set → Set
  pub erase : E → Set → Set
  -- `s.erase(s.begin(), iter)`
  pub erase_front : ℕ → Set → Set
  pub upper_bound : E → Set → ℕ
  pub size : Set → ℕ
  pub items_sorted : (s : Set) → SortedSet.IsSorted (items s)
  pub items-empty : items empty ≡ []
  pub items-insert : (e : E) (s : Set) → items (insert e s) ≡ SortedSet.insert e (items s)
  pub items-erase : (e : E) (s : Set) → items (erase e s) ≡ SortedSet.erase e (items s)
  pub items-erase_front : (n : ℕ) (s : Set) → items (erase_front n s) ≡ drop n (items s)
  pub upper_bound_lem : (e : E) (s : Set) → upper_bound e s ≡ SortedSet.upper_bound e (items s)
  pub size_lem : (s : Set) → size s ≡ length (items s)
