-- ===== src/Weight.antt =====
-- What the index asks of a weight: `Weight()` and `operator>`, which orders the weights totally up
-- to equivalence. (For `double` this leaves out NaN.)
use red_giant.Prelude.{ℕ, ◌≡◌, Bool, true, false, arith, ltb}

pub record Weight {ℓ} (W : Type ℓ) : Type ℓ where
  pub zero_weight : W
  pub gt : W → W → Bool
  pub gt_irrefl : (a : W) → gt a a ≡ false
  pub gt_asymm : (a b : W) → gt a b ≡ true → gt b a ≡ false
  pub le_trans : (a b c : W) → gt a b ≡ false → gt b c ≡ false → gt a c ≡ false

pub gt_irrefl : (a : ℕ) → ltb a a ≡ false
gt_irrefl a = ground arith

pub gt_asymm : (a b : ℕ) → ltb b a ≡ true → ltb a b ≡ false
gt_asymm a b = ground arith

pub le_trans : (a b c : ℕ) → ltb b a ≡ false → ltb c b ≡ false → ltb c a ≡ false
le_trans a b c = ground arith

instance abbrev pub nat_weight : Weight ℕ
nat_weight = record {
  zero_weight = 0;
  gt = λ a b. ltb b a;
  gt_irrefl = gt_irrefl;
  gt_asymm = gt_asymm;
  le_trans = le_trans;
}
