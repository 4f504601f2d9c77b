-- ===== src/ExpireTable.antt =====
-- core/impl/btree_expire_table.h: when each document expires, as a map and as an ordered set of the
-- same pairs. Expire times are natural numbers below the largest `ExpireTime`, so that `++` on one
-- does not overflow.
pub mod Pairs
pub mod Consistent
pub mod Expire
pub mod Kept
use red_giant.Prelude.{
  ℕ, zero, suc, ◌+◌, ◌-◌, Bool, Option, none, some, List, [], ◌∷◌, ◌++◌, if◌then◌else◌, ltb, ◌==◌,
  length,
}
use red_giant.Key.{Key}
use red_giant.Key.Assoc.{lookup, assign, erase}
use red_giant.Container.{OrderedSet}
use Pairs.{pair_key}

pub record BTreeExpireTable {K : Type 0} ⦃o : Key K⦄ (s : OrderedSet (K × ℕ)) : Type 0 where
  pub expire_map : List (K × ℕ)
  pub expire_table : s.Set

-- What `expire_internal` carries through its two loops.
pub record Sweep (K : Type 0) : Type 0 where
  pub iter : List (K × ℕ)
  pub expire_map : List (K × ℕ)
  pub results : List (K × ℕ)

-- `n` rounds of a loop of `expire_internal`, or as many as there are entries.
unfoldable pub sweep : {K : Type 0} ⦃o : Key K⦄ → ℕ → Sweep K → Sweep K
sweep zero w = w
sweep (suc n) w = elim w.iter [
  | [] ↦ w
  | e ∷ rest ↦
      sweep n
        (record { iter = rest; expire_map = erase e.0 w.expire_map; results = w.results ++ e ∷ [] })
]

-- `mid` is given by its distance from `begin()`. The first loop runs to `mid`, the second until
-- `min_count` entries are found or none is left.
unfoldable pub sweep_both : {K : Type 0} ⦃o : Key K⦄ → ℕ → ℕ → Sweep K → Sweep K
unfolding sweep
sweep_both mid min_count w =
    let to_mid = sweep mid w in
    let found = length to_mid.results in
    if ltb found min_count then sweep (min_count - found) to_mid else to_mid

module _ {K : Type 0} ⦃o : Key K⦄ (s : OrderedSet (K × ℕ)) where
  abbrev pub empty_table : BTreeExpireTable s
  empty_table = record { expire_map = []; expire_table = s.empty }

  unfoldable pub size : BTreeExpireTable s → ℕ
  size e = s.size e.expire_table

  unfoldable pub update : K → ℕ → BTreeExpireTable s → ℕ × BTreeExpireTable s
  update doc_id expire_time e =
      let table = elim (lookup doc_id e.expire_map) as (λ _. s.Set) [
        | some old ↦ s.erase (doc_id, old) e.expire_table
        | none ↦ e.expire_table
      ] in
      (
        1,
        record {
          expire_map = assign doc_id expire_time e.expire_map;
          expire_table = s.insert (doc_id, expire_time) table;
        },
      )

  unfoldable pub remove : K → BTreeExpireTable s → ℕ × BTreeExpireTable s
  remove doc_id e = elim (lookup doc_id e.expire_map) [
    | some old ↦ (
      1,
      record {
        expire_map = erase doc_id e.expire_map;
        expire_table = s.erase (doc_id, old) e.expire_table;
      },
    )
    | none ↦ (0, e)
  ]

  unfoldable pub expire_internal : ℕ → ℕ → BTreeExpireTable s → List (K × ℕ) × BTreeExpireTable s
  unfolding sweep_both
  expire_internal mid min_count e =
      let start : Sweep K = record {
        iter = s.items e.expire_table;
        expire_map = e.expire_map;
        results = [];
      } in
      let done = sweep_both mid min_count start in
      (
        done.results,
        record {
          expire_map = done.expire_map;
          expire_table = s.erase_front (length done.results) e.expire_table;
        },
      )

  -- The first entry that is not qualified for expiration.
  unfoldable pub expire_mid : ℕ → BTreeExpireTable s → ℕ
  expire_mid expire_time e = s.upper_bound (o.default_key, expire_time + 1) e.expire_table

  unfoldable pub expire_min_count : ℕ → BTreeExpireTable s → ℕ
  expire_min_count size_limit e =
      let size = s.size e.expire_table in
      if size_limit == 0 then 0 else if ltb size_limit size then size - size_limit else 0

  pub expire : ℕ → BTreeExpireTable s → List (K × ℕ) × BTreeExpireTable s
  unfolding expire_internal expire_mid
  expire expire_time e = expire_internal (expire_mid expire_time e) 0 e

  unfoldable pub expire_with_limit : ℕ → ℕ → BTreeExpireTable s → List (K × ℕ) × BTreeExpireTable s
  unfolding expire_internal expire_mid expire_min_count
  expire_with_limit expire_time size_limit e =
      expire_internal (expire_mid expire_time e) (expire_min_count size_limit e) e

  pub force_expire : ℕ → BTreeExpireTable s → List (K × ℕ) × BTreeExpireTable s
  unfolding expire_internal expire_min_count
  force_expire size_limit e = expire_internal 0 (expire_min_count size_limit e) e
