-- ===== src/Algorithms.antt =====
-- core/reader/algorithms.h: how weights are merged and scores combined.
use red_giant.Prelude.{if◌then◌else◌}
use red_giant.Weight.{Weight}

module _ {ℓ} {W : Type ℓ} ⦃w : Weight W⦄ where
  -- `MaxWeight::operator()(upper_bound)`
  unfoldable pub max_init : W
  max_init = w.zero_weight

  -- `MaxWeight::operator()(upper_bound, weight)`
  unfoldable pub max_merge : W → W → W
  max_merge upper_bound weight = if w.gt weight upper_bound then weight else upper_bound
