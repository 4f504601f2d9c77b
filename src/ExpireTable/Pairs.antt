-- ===== src/ExpireTable/Pairs.antt =====
-- `ExpirePairLess`: pairs of a document and an expire time, in the order of the times, and of the
-- documents where the times are equal.
use red_giant.Prelude.{ℕ, ◌≡◌, ◌↔◌, Bool, true, false, ◌&&◌, ◌||◌, arith, ltb, ◌==◌}
use red_giant.Key.{Key}

module _ {ℓ} {K : Type ℓ} ⦃o : Key K⦄ where
  unfoldable pub pair_less : K × ℕ → K × ℕ → Bool
  pair_less lhs rhs = ltb lhs.1 rhs.1 || ((lhs.1 == rhs.1) && o.lt lhs.0 rhs.0)

  abbrev pub pair_beq : K × ℕ → K × ℕ → Bool
  pair_beq lhs rhs = o.beq lhs.0 rhs.0 && (lhs.1 == rhs.1)

  pub pair_beq_iff : (a b : K × ℕ) → (pair_beq a b ≡ true) ↔ (a ≡ b)
  pair_beq_iff a b = ground (arith, o.beq_iff a.0 b.0)

  pub pair_less_irrefl : (a : K × ℕ) → pair_less a a ≡ false
  unfolding pair_less
  pair_less_irrefl a = ground (arith, o.lt_irrefl a.0)

  pub pair_less_trans :
      (a b c : K × ℕ) → pair_less a b ≡ true → pair_less b c ≡ true → pair_less a c ≡ true
  unfolding pair_less
  pair_less_trans a b c = ground (arith, o.lt_trans a.0 b.0 c.0)

  pub pair_less_connex : (a b : K × ℕ) → pair_less a b ≡ false → pair_less b a ≡ false → a ≡ b
  unfolding pair_less
  pair_less_connex a b = ground (arith, o.lt_connex a.0 b.0)

  instance abbrev pub pair_key : Key (K × ℕ)
  pair_key = record {
    default_key = (o.default_key, 0);
    beq = pair_beq;
    lt = pair_less;
    beq_iff = pair_beq_iff;
    lt_irrefl = pair_less_irrefl;
    lt_trans = pair_less_trans;
    lt_connex = pair_less_connex;
  }
