-- ===== src/ExpireTable/Expire.antt =====
-- Which entries the expiry functions take out of the table, and what they leave.
use Prim.Native.Nat.{min, max}
use mathlib.Core.Path.{subst}
use red_giant.Prelude.{
  ℕ, ◌+◌, ◌-◌, ◌<◌, ◌≤◌, ◌≡◌, ◌≢◌, ◌⊎◌, refl, sym, ap, ◌∙◌, true, false, List, [], ◌++◌, arith, ltb,
  length, take, drop, All, Bool-cases, inl, inr, length-append, drop_append, take_append,
  All-drop_more, All-imp,
}
use red_giant.Key.{Key}
use red_giant.Container.{OrderedSet}
use red_giant.Container.SortedSet
use red_giant.Container.SortedSet.{above_upper_bound, below_upper_bound}
use red_giant.ExpireTable.{
  BTreeExpireTable, Sweep, sweep, sweep_both, expire_internal, expire_mid, expire_min_count,
  expire_with_limit, size,
}
use red_giant.ExpireTable.Pairs.{pair_key, pair_less}
use red_giant.ExpireTable.Consistent.{IsConsistent, IsSweep, sweep-IsSweep, length-sweep}

module _ {K : Type 0} ⦃o : Key K⦄ where
  sweep_both-IsSweep :
      (mid n : ℕ) (items : List (K × ℕ)) (w : Sweep K)
      → IsSweep items w
      → IsSweep items (sweep_both mid n w)
  unfolding sweep_both
  sweep_both-IsSweep mid n items w h =
      let first = sweep-IsSweep mid items w h in
      let found = length (sweep mid w).results in
      elim (Bool-cases (ltb found n)) [
        | inl c ↦ rw (c, sweep_both) (sweep-IsSweep (n - found) items (sweep mid w) first)
        | inr c ↦ rw (c, sweep_both) first
      ]

  length-sweep_both :
      (mid n : ℕ) (items em : List (K × ℕ))
      → IsSweep items (record { iter = items; expire_map = em; results = [] })
      → length (sweep_both mid n (record { iter = items; expire_map = em; results = [] })).results
        ≡ min (max mid n) (length items)
  unfolding sweep_both
  length-sweep_both mid n items em h =
      let w : Sweep K = record { iter = items; expire_map = em; results = [] } in
      let first = sweep-IsSweep mid items w h in
      let half = sweep mid w in
      ground (
        arith,
        length-sweep mid w,
        length-sweep (n - length half.results) half,
        ap length first.split,
        length-append half.results half.iter,
      )

module _ {K : Type 0} ⦃o : Key K⦄ (s : OrderedSet (K × ℕ)) where
  -- `expire_internal` takes the entries in front, as many as lie before `mid` or as `min_count`
  -- asks for, whichever is more, and leaves the others.
  pub expire_internal_lem :
      (mid min_count : ℕ) (e : BTreeExpireTable s)
      → IsConsistent s e
      → let (results, e') = expire_internal s mid min_count e in
        (results ++ s.items e'.expire_table ≡ s.items e.expire_table)
        × (length results ≡ min (max mid min_count) (length (s.items e.expire_table)))
        × IsConsistent s e'
  unfolding expire_internal
  expire_internal_lem mid n e h =
      let its = s.items e.expire_table in
      let start : Sweep K = record { iter = its; expire_map = e.expire_map; results = [] } in
      let h0 : IsSweep its start = record {
        split = refl;
        sorted = s.items_sorted e.expire_table;
        same = h;
      } in
      let all = sweep_both-IsSweep mid n its start h0 in
      let done = sweep_both mid n start in
      let left : s.items (s.erase_front (length done.results) e.expire_table) ≡ done.iter =
        s.items-erase_front _ _
        ∙ ap (drop (length done.results)) (sym all.split)
        ∙ drop_append done.results done.iter in
      (
        rw left all.split,
        length-sweep_both mid n its e.expire_map h0,
        λ k t. rw left (all.same k t),
      )

  -- What `expire_time` qualifies for expiration.
  abbrev pub IsExpired : ℕ → K × ℕ → Type 0
  IsExpired expire_time p =
      (p.1 ≤ expire_time) ⊎ ((p.1 ≡ expire_time + 1) × (o.lt o.default_key p.0 ≡ false))

  above_mid : (t : ℕ) (p : K × ℕ) → pair_less (o.default_key, t + 1) p ≡ true → t < p.1
  unfolding pair_less
  above_mid t p h = ground arith

  below_mid : (t : ℕ) (p : K × ℕ) → pair_less (o.default_key, t + 1) p ≡ false → IsExpired t p
  unfolding pair_less
  below_mid t p h = ground arith

  mid_lem :
      (t : ℕ) (e : BTreeExpireTable s)
      → expire_mid s t e ≡ SortedSet.upper_bound (o.default_key, t + 1) (s.items e.expire_table)
  unfolding expire_mid
  mid_lem t e = s.upper_bound_lem (o.default_key, t + 1) e.expire_table

  -- The entries behind `mid` have not expired, those in front have.
  later_than :
      (t n : ℕ) (e : BTreeExpireTable s)
      → expire_mid s t e ≤ n
      → All (λ p. t < p.1) (drop n (s.items e.expire_table))
  later_than t n e h =
      All-drop_more (λ p. t < p.1) (expire_mid s t e) n (s.items e.expire_table) h
        (rw mid_lem (
          All-imp (λ p. pair_less (o.default_key, t + 1) p ≡ true) (above_mid t) _
            (above_upper_bound (o.default_key, t + 1) (s.items e.expire_table)
              (s.items_sorted e.expire_table))))

  earlier_than :
      (t : ℕ) (e : BTreeExpireTable s)
      → All (IsExpired t) (take (expire_mid s t e) (s.items e.expire_table))
  earlier_than t e = rw mid_lem (
      All-imp (λ p. pair_less (o.default_key, t + 1) p ≡ false) (below_mid t) _
        (below_upper_bound (o.default_key, t + 1) (s.items e.expire_table)))

  mid_le : (t : ℕ) (e : BTreeExpireTable s) → expire_mid s t e ≤ length (s.items e.expire_table)
  mid_le t e =
      rw mid_lem (SortedSet.upper_bound-le-length (o.default_key, t + 1) (s.items e.expire_table))

  size_after :
      (limit : ℕ) (e : BTreeExpireTable s)
      → limit ≢ 0
      → length (s.items e.expire_table) - expire_min_count s limit e ≤ limit
  unfolding expire_min_count
  size_after limit e h = ground (arith, s.size_lem e.expire_table)

  no_min_count :
      (limit : ℕ) (e : BTreeExpireTable s)
      → (limit ≡ 0) ⊎ (size s e ≤ limit)
      → expire_min_count s limit e ≡ 0
  unfolding expire_min_count size
  no_min_count limit e h = ground arith

  -- What `expire_with_limit` returns, in front of what it leaves, is the table as it was, map and
  -- set agree again, and nothing that is left has expired.
  pub expire_with_limit_lem :
      (t limit : ℕ) (e : BTreeExpireTable s)
      → IsConsistent s e
      → let (results, e') = expire_with_limit s t limit e in
        IsConsistent s e'
        × (results ++ s.items e'.expire_table ≡ s.items e.expire_table)
        × All (λ p. t < p.1) (s.items e'.expire_table)
  unfolding expire_with_limit
  expire_with_limit_lem t limit e h =
      let mid = expire_mid s t e in
      let n = expire_min_count s limit e in
      let all = expire_internal_lem mid n e h in
      let out = expire_internal s mid n e in
      let left : drop (length out.0) (s.items e.expire_table) ≡ s.items out.1.expire_table =
        ap (drop (length out.0)) (sym all.0) ∙ drop_append out.0 _ in
      let le = mid_le t e in
      (all.2, all.0, rw left at (later_than t (length out.0) e (omega (arith, all.1))))

  -- With a limit that is not 0, `expire_with_limit` leaves no more entries than the limit.
  pub size-expire_with_limit :
      (t limit : ℕ) (e : BTreeExpireTable s)
      → IsConsistent s e
      → limit ≢ 0
      → size s (expire_with_limit s t limit e).1 ≤ limit
  unfolding expire_with_limit size
  size-expire_with_limit t limit e h z =
      let mid = expire_mid s t e in
      let n = expire_min_count s limit e in
      let all = expire_internal_lem mid n e h in
      let out = expire_internal s mid n e in
      omega (
        arith,
        s.size_lem out.1.expire_table,
        all.1,
        ap length all.0,
        length-append out.0 (s.items out.1.expire_table),
        size_after limit e z,
      )

  -- Where the limit is not set or not exceeded, `expire_with_limit` returns expired entries only:
  -- those whose time is at most `t`, and, one time unit early, an entry of `DocId()` (or of a
  -- smaller key).
  pub expire_with_limit-IsExpired :
      (t limit : ℕ) (e : BTreeExpireTable s)
      → IsConsistent s e
      → (limit ≡ 0) ⊎ (size s e ≤ limit)
      → All (IsExpired t) (expire_with_limit s t limit e).0
  unfolding expire_with_limit
  expire_with_limit-IsExpired t limit e h z =
      let mid = expire_mid s t e in
      let n = expire_min_count s limit e in
      let all = expire_internal_lem mid n e h in
      let out = expire_internal s mid n e in
      let gone : take (length out.0) (s.items e.expire_table) ≡ out.0 =
        ap (take (length out.0)) (sym all.0) ∙ take_append out.0 _ in
      let c : length out.0 ≡ mid = omega (arith, all.1, no_min_count limit e z, mid_le t e) in
      rw (← gone) (
        subst (λ k. All (IsExpired t) (take k (s.items e.expire_table))) (sym c) (earlier_than t e))
