-- ===== src/Util/Clamp.antt =====
-- src/util.rs: `clamp` and its halves over an ordered type, whose `<` is the parameter.
use rusty_fusion.Prelude.{Bool, if◌then◌else◌}

module _ {ℓ} {A : Type ℓ} (lt : A → A → Bool) where
  unfoldable pub clamp : A → A → A → A
  clamp val low high = if lt val low then low else if lt high val then high else val

  unfoldable pub clamp_min : A → A → A
  clamp_min val low = if lt val low then low else val

  unfoldable pub clamp_max : A → A → A
  clamp_max val high = if lt high val then high else val
