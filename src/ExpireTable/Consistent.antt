-- ===== src/ExpireTable/Consistent.antt =====
-- The map and the ordered set of an expire table hold the same pairs, whatever is done to it.
use Prim.Native.Nat.{min}
use mathlib.Core.List.{append_assoc}
use red_giant.Prelude.{
  ℕ, zero, suc, ◌+◌, ◌≡◌, refl, ◌∙◌, Bool, false, Option, none, some, List, [], ◌∷◌, ◌++◌, arith,
  ◌==◌, length, drop, Option-cases, inl, inr, length-append,
}
use red_giant.Key.{Key}
use red_giant.Key.Assoc.{lookup, erase, lookup-assign, lookup-erase}
use red_giant.Container.{OrderedSet}
use red_giant.Container.SortedSet
use red_giant.Container.SortedSet.{
  mem, IsSorted, mem-insert, mem-erase, mem_above, IsSorted-of_IsAbove,
}
use red_giant.ExpireTable.{BTreeExpireTable, Sweep, sweep, update, remove}
use red_giant.ExpireTable.Pairs.{pair_key, pair_less_irrefl}

-- Is this the time that the map gives?
abbrev pub holds : Option ℕ → ℕ → Bool
holds none t = false
holds (some u) t = u == t

module _ {K : Type 0} ⦃o : Key K⦄ where
  -- The list holds just the pairs of the map.
  abbrev pub SamePairs : List (K × ℕ) → List (K × ℕ) → Type 0
  SamePairs items expire_map = (k : K) (t : ℕ) → mem (k, t) items ≡ holds (lookup k expire_map) t

  -- The first entry leaves both.
  SamePairs-tail :
      (e : K × ℕ) (l em : List (K × ℕ))
      → IsSorted (e ∷ l)
      → SamePairs (e ∷ l) em
      → SamePairs l (erase e.0 em)
  SamePairs-tail e l em s h k t = ground (
    arith,
    lookup-erase e.0 k em,
    o.beq_iff e.0 k,
    h k t,
    h e.0 e.1,
    mem_above e e l s (pair_less_irrefl e),
    o.beq_iff e.0 e.0,
  )

  -- What the two loops of `expire_internal` keep: the results and what is ahead make up the table,
  -- and what is ahead is what the map still holds.
  pub record IsSweep (items : List (K × ℕ)) (w : Sweep K) : Type 0 where
    pub split : w.results ++ w.iter ≡ items
    pub sorted : IsSorted w.iter
    pub same : SamePairs w.iter w.expire_map

  pub sweep-IsSweep :
      (n : ℕ) (items : List (K × ℕ)) (w : Sweep K) → IsSweep items w → IsSweep items (sweep n w)
  unfolding sweep
  sweep-IsSweep zero items w h = h
  sweep-IsSweep (suc n) items w h =
      sweep_on n items w.iter w.expire_map w.results h (sweep-IsSweep n items)
    where
      sweep_on :
          (n : ℕ) (items iter em results : List (K × ℕ))
          → IsSweep items (record { iter = iter; expire_map = em; results = results })
          → ((v : Sweep K) → IsSweep items v → IsSweep items (sweep n v))
          → IsSweep items
              (sweep (suc n) (record { iter = iter; expire_map = em; results = results }))
      sweep_on n items [] em results h ih = h
      sweep_on n items (e ∷ l) em results h ih = ih _ (record {
        split = append_assoc results (e ∷ []) l ∙ h.split;
        sorted = IsSorted-of_IsAbove e l h.sorted;
        same = SamePairs-tail e l em h.sorted h.same;
      })

  pub length-sweep :
      (n : ℕ) (w : Sweep K) → length (sweep n w).results ≡ length w.results + min n (length w.iter)
  unfolding sweep
  length-sweep zero w = omega arith
  length-sweep (suc n) w = sweep_on w.iter w.expire_map w.results (length-sweep n)
    where
      sweep_on :
          (iter em results : List (K × ℕ))
          → ((v : Sweep K) → length (sweep n v).results ≡ length v.results + min n (length v.iter))
          → length
              (sweep (suc n) (record { iter = iter; expire_map = em; results = results })).results
            ≡ length results + min (suc n) (length iter)
      sweep_on [] em results ih = omega arith
      sweep_on (e ∷ l) em results ih = omega (
        arith,
        ih (record { iter = l; expire_map = erase e.0 em; results = results ++ e ∷ [] }),
        length-append results (e ∷ []),
      )

  drop_append : (a l : List (K × ℕ)) → drop (length a) (a ++ l) ≡ l
  drop_append [] l = refl
  drop_append (e ∷ a) l = drop_append a l

module _ {K : Type 0} ⦃o : Key K⦄ (s : OrderedSet (K × ℕ)) where
  -- Map and set hold the same pairs.
  abbrev pub IsConsistent : BTreeExpireTable s → Type 0
  IsConsistent e = SamePairs (s.items e.expire_table) e.expire_map

  update-IsConsistent :
      (k : K) (t : ℕ) (e : BTreeExpireTable s) → IsConsistent e → IsConsistent (update s k t e).1
  unfolding update
  update-IsConsistent k t e h j u =
      let its = s.items e.expire_table in
      elim (Option-cases (lookup k e.expire_map)) [
        | inl c ↦
            rw (c, update)
              (ground (
                arith,
                c,
                s.items-insert (k, t) e.expire_table,
                mem-insert (k, t) (j, u) its,
                lookup-assign k j t e.expire_map,
                h j u,
                o.beq_iff k j,
              ))
        | inr (old, c) ↦
            rw (c, update)
              (ground (
                arith,
                c,
                s.items-insert (k, t) (s.erase (k, old) e.expire_table),
                s.items-erase (k, old) e.expire_table,
                mem-insert (k, t) (j, u) (SortedSet.erase (k, old) its),
                mem-erase (k, old) (j, u) its (s.items_sorted e.expire_table),
                lookup-assign k j t e.expire_map,
                h j u,
                o.beq_iff k j,
              ))
      ]

  remove-IsConsistent :
      (k : K) (e : BTreeExpireTable s) → IsConsistent e → IsConsistent (remove s k e).1
  unfolding remove
  remove-IsConsistent k e h j u =
      let its = s.items e.expire_table in
      elim (Option-cases (lookup k e.expire_map)) [
        | inl c ↦ rw (c, remove) (h j u)
        | inr (old, c) ↦
            rw (c, remove)
              (ground (
                arith,
                c,
                s.items-erase (k, old) e.expire_table,
                mem-erase (k, old) (j, u) its (s.items_sorted e.expire_table),
                lookup-erase k j e.expire_map,
                h j u,
                o.beq_iff k j,
              ))
      ]

  -- Whatever is updated or removed, map and set hold the same pairs.
  pub changes-IsConsistent :
      (k : K) (t : ℕ) (e : BTreeExpireTable s)
      → IsConsistent e
      → IsConsistent (update s k t e).1 × IsConsistent (remove s k e).1
  changes-IsConsistent k t e h = (update-IsConsistent k t e h, remove-IsConsistent k e h)
