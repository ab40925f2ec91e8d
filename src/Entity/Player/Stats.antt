-- ===== src/Entity/Player/Stats.antt =====
-- src/entity/player.rs: the numbers of a player and the limits that their setters keep. What the
-- table data holds for a level is a parameter.
use rusty_fusion.Entity.Player.{Player}
use rusty_fusion.Prelude.{ltb, ℕ, ◌-◌, ◌^◌}
use rusty_fusion.Util.Clamp.{clamp}

abbrev pub pc_candy_max : ℕ
pc_candy_max = 999999999

abbrev pub pc_fusionmatter_max : ℕ
pc_fusionmatter_max = 999999999

abbrev pub pc_battery_max : ℕ
pc_battery_max = 9999

abbrev pub pc_level_max : ℕ
pc_level_max = 36

-- CN_ACCOUNT_LEVEL__DEVELOPER: a lower level has more privileges.
abbrev pub account_level_developer : ℕ
account_level_developer = 50

abbrev pub i32_max : ℕ
i32_max = 2 ^ 31 - 1

unfoldable pub set_taros : Player → ℕ → Player
unfolding clamp
set_taros player taros = record player { taros = clamp ltb taros 0 pc_candy_max }

unfoldable pub set_weapon_boosts : Player → ℕ → Player
unfolding clamp
set_weapon_boosts player weapon_boosts = record player {
  weapon_boosts = clamp ltb weapon_boosts 0 pc_battery_max;
}

unfoldable pub set_nano_potions : Player → ℕ → Player
unfolding clamp
set_nano_potions player nano_potions = record player {
  nano_potions = clamp ltb nano_potions 0 pc_battery_max;
}
