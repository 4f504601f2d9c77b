-- ===== src/ExpireTable/Kept.antt =====
-- Which keys leave the table when it is swept, and what is known of the others.
use red_giant.Prelude.{
  ℕ, ◌<◌, ◌≡◌, refl, Bool, true, false, ◌||◌, some, List, [], ◌∷◌, ◌++◌, arith, All, inl, inr, ◌≤◌,
  Bool-cases,
}
use red_giant.Key.{Key}
use red_giant.Key.Assoc.{lookup}
use red_giant.Container.{OrderedSet}
use red_giant.Container.SortedSet.{mem}
use red_giant.ExpireTable.{BTreeExpireTable, expire_with_limit}
use red_giant.ExpireTable.Pairs.{pair_key}
use red_giant.ExpireTable.Consistent.{IsConsistent}
use red_giant.ExpireTable.Expire.{expire_with_limit_lem}

module _ {K : Type 0} ⦃o : Key K⦄ where
  -- Is the key among those that have expired?
  abbrev pub expired_in : K → List (K × ℕ) → Bool
  expired_in k [] = false
  expired_in k ((e, t) ∷ results) = o.beq e k || expired_in k results

  mem_front :
      (k : K) (t : ℕ) (a l : List (K × ℕ))
      → expired_in k a ≡ false
      → mem (k, t) (a ++ l) ≡ mem (k, t) l
  mem_front k t [] l h = refl
  mem_front k t ((e, u) ∷ a) l h = ground (arith, mem_front k t a l)

  All-mem :
      (k : K) (t u : ℕ) (l : List (K × ℕ)) → All (λ p. u < p.1) l → mem (k, t) l ≡ true → u < t
  All-mem k t u [] h e = cc
  All-mem k t u ((e, v) ∷ l) h q = ground (arith, All-mem k t u l h.1)

module _ {K : Type 0} ⦃o : Key K⦄ (s : OrderedSet (K × ℕ)) where
  -- A key that does not expire now keeps its expire time, which is still to come.
  pub kept_time :
      (now limit : ℕ) (e : BTreeExpireTable s) (k : K) (t : ℕ)
      → IsConsistent s e
      → let (results, e') = expire_with_limit s now limit e in
        expired_in k results ≡ false
        → lookup k e.expire_map ≡ some t
        → (lookup k e'.expire_map ≡ some t) × (now < t)
  kept_time now limit e k t c out has =
      let (c', split, later) = expire_with_limit_lem s now limit e c in
      let x = expire_with_limit s now limit e in
      let here : mem (k, t) (s.items x.1.expire_table) ≡ true =
        ground (arith, mem_front k t x.0 (s.items x.1.expire_table) out, split, c k t, has) in
      (ground (arith, c' k t, here), All-mem k t now _ later here)

  -- A key whose time has come expires.
  pub due-expired :
      (now limit : ℕ) (e : BTreeExpireTable s) (k : K) (t : ℕ)
      → IsConsistent s e
      → lookup k e.expire_map ≡ some t
      → t ≤ now
      → expired_in k (expire_with_limit s now limit e).0 ≡ true
  due-expired now limit e k t c has due =
      elim (Bool-cases (expired_in k (expire_with_limit s now limit e).0)) [
        | inl h ↦ h
        | inr h ↦ absurd (omega (arith, (kept_time now limit e k t c h has).1))
      ]
