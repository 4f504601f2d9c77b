-- ===== src/Tests/Expiries.antt =====
-- The theorems on the expire table at concrete inputs.
use red_giant.Prelude.{ℕ, ◌≡◌, ◌<◌, refl, ◌++◌, All, inl}
use red_giant.Key.{nat_key}
use red_giant.Weight.{nat_weight}
use red_giant.Container.{OrderedSet}
use red_giant.Container.SortedMap.{sorted_set}
use red_giant.ExpireTable
use red_giant.ExpireTable.{BTreeExpireTable}
use red_giant.ExpireTable.Pairs.{pair_key}
use red_giant.ExpireTable.Consistent.{IsConsistent, changes-IsConsistent}
use red_giant.ExpireTable.Expire.{IsExpired, expire_with_limit_lem, expire_with_limit-IsExpired}

abbrev set : OrderedSet (ℕ × ℕ)
set = sorted_set

-- A table with the keys 3 and 4, which expire at 7 and at 9.
abbrev one_key : BTreeExpireTable set
one_key = (ExpireTable.update set 3 7 (ExpireTable.empty_table set)).1

abbrev two_keys : BTreeExpireTable set
two_keys = (ExpireTable.update set 4 9 one_key).1

empty_table-IsConsistent : IsConsistent set (ExpireTable.empty_table set)
empty_table-IsConsistent k t = refl

two_keys-IsConsistent : IsConsistent set two_keys
two_keys-IsConsistent =
    (changes-IsConsistent set 4 9 one_key
      (changes-IsConsistent set 3 7 (ExpireTable.empty_table set) empty_table-IsConsistent).0).0

changes-IsConsistent_example :
    IsConsistent set (ExpireTable.update set 3 20 two_keys).1
    × IsConsistent set (ExpireTable.remove set 3 two_keys).1
changes-IsConsistent_example = changes-IsConsistent set 3 20 two_keys two_keys-IsConsistent

expire_with_limit_lem_example :
    let (results, e') = ExpireTable.expire_with_limit set 8 5 two_keys in
    IsConsistent set e'
    × (results ++ set.items e'.expire_table ≡ set.items two_keys.expire_table)
    × All (λ p. 8 < p.1) (set.items e'.expire_table)
expire_with_limit_lem_example = expire_with_limit_lem set 8 5 two_keys two_keys-IsConsistent

expire_with_limit-IsExpired_example :
    All (IsExpired set 8) (ExpireTable.expire_with_limit set 8 0 two_keys).0
expire_with_limit-IsExpired_example =
    expire_with_limit-IsExpired set 8 0 two_keys two_keys-IsConsistent (inl refl)
