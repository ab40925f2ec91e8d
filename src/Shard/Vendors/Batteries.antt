-- ===== src/Shard/Vendors/Batteries.antt =====
-- src/bin/shard/item.rs, `vendor_battery_buy`: what is paid.
use rusty_fusion.Entity.Player.{Player}
use rusty_fusion.Entity.Player.Stats.{
  pc_battery_max, pc_candy_max, set_nano_potions, set_taros, set_weapon_boosts,
}
use rusty_fusion.Error.{Outcome, err, ok, panics}
use rusty_fusion.Item.{Item}
use rusty_fusion.Prelude.{
  Bool-cases, List, Option, arith, inl, inr, leb, ltb, refl, some, true, ℕ, ◌%◌, ◌*◌, ◌+◌, ◌-◌,
  ◌==◌, ◌^◌, ◌≡◌, ◌≤◌,
}
use rusty_fusion.Shard.Shopper.{Shopper}
use rusty_fusion.Shard.Vendors.{
  battery_type_boost, battery_type_potion, buy_batteries, up_to_max, wanted_quantity,
  with_batteries,
}
use rusty_fusion.Util.Clamp.{clamp}

-- The limits of a player's numbers.
abbrev pub IsCharged : Player → Type 0
IsCharged player =
    (player.taros ≤ pc_candy_max)
    × (player.weapon_boosts ≤ pc_battery_max)
    × (player.nano_potions ≤ pc_battery_max)

abbrev pub wealth : Player → ℕ
wealth player = player.taros + player.weapon_boosts + player.nano_potions

abbrev pub IsExchanged : Player → Player → Type 0
IsExchanged player player' =
    IsCharged player'
    × (wealth player' ≡ wealth player)
    × (player.weapon_boosts ≤ player'.weapon_boosts)
    × (player.nano_potions ≤ player'.nano_potions)
    × (player' ≡ record player {
      taros = player'.taros;
      weapon_boosts = player'.weapon_boosts;
      nano_potions = player'.nano_potions;
    })

-- What a purchase of batteries by a player leaves: it succeeds, or fails and changes nothing.
unfoldable pub IsBattery : Player → Option (List Item) → Outcome Player × Shopper → Type 0
IsBattery player buyback (ok player', s) =
    (s ≡ record { player = some player'; buyback = buyback }) × IsExchanged player player'
IsBattery player buyback (err e, s) = s ≡ record { player = some player; buyback = buyback }
IsBattery player buyback (panics, s) = ⊥

-- Whoever can pay for the batteries has room for them: an addition that wraps asks for more than anyone has.
fits :
    (current quantity taros : ℕ)
    → current ≤ pc_battery_max
    → taros ≤ pc_candy_max
    → up_to_max current quantity ≤ taros
    → current + up_to_max current quantity ≤ pc_battery_max
fits current quantity taros c t enough = ground (arith, c, t, enough)

-- The numbers after a purchase of `n` batteries.
clamped :
    (current n : ℕ)
    → current + n ≤ pc_battery_max
    → clamp ltb ((current + n) % 2 ^ 32) 0 pc_battery_max ≡ current + n
unfolding clamp
clamped current n h = ground arith

paid : (taros n : ℕ) → taros ≤ pc_candy_max → clamp ltb (taros - n) 0 pc_candy_max ≡ taros - n
unfolding clamp
paid taros n h = ground arith

affords : (n taros : ℕ) → leb n taros ≡ true → n ≤ taros
affords n taros h = ground arith

boosted :
    (player : Player) (n : ℕ)
    → IsCharged player
    → n ≤ player.taros
    → player.weapon_boosts + n ≤ pc_battery_max
    → IsExchanged player
        (record player { taros = player.taros - n; weapon_boosts = player.weapon_boosts + n })
boosted player n (t, w, p) enough room =
    ((omega arith, omega arith, p), omega arith, omega arith, omega arith, refl)

restored_potions :
    (player : Player) (n : ℕ)
    → IsCharged player
    → n ≤ player.taros
    → player.nano_potions + n ≤ pc_battery_max
    → IsExchanged player
        (record player { taros = player.taros - n; nano_potions = player.nano_potions + n })
restored_potions player n (t, w, p) enough room =
    ((omega arith, w, omega arith), omega arith, omega arith, omega arith, refl)

-- A purchase of batteries that succeeds exchanges taros for batteries, one for one and within the limits,
-- and changes nothing else. One that fails changes nothing, and none panics.
pub buy_batteries-IsBattery :
    (player : Player) (buyback : Option (List Item)) (battery_type i_opt : ℕ)
    → IsCharged player
    → IsBattery player buyback
        (buy_batteries battery_type i_opt (record { player = some player; buyback = buyback }))
unfolding IsBattery buy_batteries wanted_quantity with_batteries set_taros set_weapon_boosts
    set_nano_potions
buy_batteries-IsBattery player buyback battery_type i_opt (t, w, p) =
    let quantity = i_opt * 100 % 2 ^ 32 in
    elim (Bool-cases (battery_type == battery_type_boost)) [
      | inl boost ↦
          let n = up_to_max player.weapon_boosts quantity in
          elim (Bool-cases (leb n player.taros)) [
            | inl enough ↦
                let room =
                  fits player.weapon_boosts quantity player.taros w t
                    (affords n player.taros enough) in
                rw (boost, enough, clamped player.weapon_boosts n room, paid player.taros n t)
                  (refl, boosted player n (t, w, p) (affords n player.taros enough) room)
            | inr poor ↦ rw (boost, poor) refl
          ]
      | inr not_boost ↦ elim (Bool-cases (battery_type == battery_type_potion)) [
        | inl potion ↦
            let n = up_to_max player.nano_potions quantity in
            elim (Bool-cases (leb n player.taros)) [
              | inl enough ↦
                  let room =
                    fits player.nano_potions quantity player.taros p t
                      (affords n player.taros enough) in
                  rw
                    (
                      not_boost,
                      potion,
                      enough,
                      clamped player.nano_potions n room,
                      paid player.taros n t,
                    )
                    (refl, restored_potions player n (t, w, p) (affords n player.taros enough) room)
              | inr poor ↦ rw (not_boost, potion, poor) refl
            ]
        | inr not_potion ↦ rw (not_boost, not_potion) refl
      ]
    ]
