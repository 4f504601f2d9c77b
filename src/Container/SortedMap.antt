-- ===== src/Container/SortedMap.antt =====
-- The containers' interfaces can be met: a sorted list meets each.
use red_giant.Prelude.{ℕ, refl, List, [], drop, length}
use red_giant.Key.{Key}
use red_giant.Container.{OrderedMap, OrderedSet}
use red_giant.Container.Sorted
use red_giant.Container.SortedSet

-- The entry that a read through `end()` gives is a parameter.
abbrev pub sorted_map {ℓ} : {W : Type ℓ} → W → OrderedMap W
sorted_map {W} z = record {
  Map = (l : List (ℕ × W)) × Sorted.IsSorted l;
  items = λ m. m.0;
  empty = ([], tt);
  assign = λ k v m. (Sorted.assign k v m.0, Sorted.assign-IsSorted k v m.0 m.1);
  emplace = λ k v m. (Sorted.emplace k v m.0, Sorted.emplace-IsSorted k v m.0 m.1);
  erase = λ k m. (Sorted.erase k m.0, Sorted.erase-IsSorted k m.0 m.1);
  past_end = z;
  items_sorted = λ m. m.1;
  items-empty = refl;
  items-assign = λ k v m. refl;
  items-emplace = λ k v m. refl;
  items-erase = λ k m. refl;
}

abbrev pub sorted_set {ℓ} : {E : Type ℓ} ⦃o : Key E⦄ → OrderedSet E
sorted_set {E} = record {
  Set = (l : List E) × SortedSet.IsSorted l;
  items = λ s. s.0;
  empty = ([], tt);
  insert = λ e s. (SortedSet.insert e s.0, SortedSet.insert-IsSorted e s.0 s.1);
  erase = λ e s. (SortedSet.erase e s.0, SortedSet.erase-IsSorted e s.0 s.1);
  erase_front = λ n s. (drop n s.0, SortedSet.drop-IsSorted n s.0 s.1);
  upper_bound = λ e s. SortedSet.upper_bound e s.0;
  size = λ s. length s.0;
  items_sorted = λ s. s.1;
  items-empty = refl;
  items-insert = λ e s. refl;
  items-erase = λ e s. refl;
  items-erase_front = λ n s. refl;
  upper_bound_lem = λ e s. refl;
  size_lem = λ s. refl;
}
