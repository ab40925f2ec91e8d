-- ===== src/Tests/Trading.antt =====
-- Runs of src/trade.rs and src/bin/shard/trade.rs.
use rusty_fusion.Entity.Id.{default_instance}
use rusty_fusion.Entity.Player.{Player, empty_inventory}
use rusty_fusion.Entity.Player.Inventory.Contents.{main_held}
use rusty_fusion.Entity.Player.Inventory.Slots.{IsShaped}
use rusty_fusion.Error.{Outcome, catch_fail, ok}
use rusty_fusion.Item.{Item}
use rusty_fusion.Item.Kind.{ItemType, general}
use rusty_fusion.Prelude.{
  Bool, List, Option, [], arith, false, if◌then◌else◌, none, refl, replicate, some, true, ℕ, ◌+◌,
  ◌==◌, ◌∷◌, ◌≡◌,
}
use rusty_fusion.Shard.State.{
  Message, ShardState, catching, get_player, lift, put_player, put_trade, tell, update, ◌>>=◌,
}
use rusty_fusion.Shard.Trading.{tell_other, trade_confirm}
use rusty_fusion.Shard.Trading.Offers.{offered_to, trade_offer_accept}
use rusty_fusion.Shard.Trading.Confirm.{trade_confirm-IsConserved}
use rusty_fusion.Shard.Trading.Conserving.{IsConserved}
use rusty_fusion.Shard.Trading.Keeping.{IsKept}
use rusty_fusion.Shard.Trading.Requests.{
  Reaches-IsSound, Surroundings, handle, req_accept, requested, start,
}
use rusty_fusion.Shard.Trading.Sound.{IsSound}
use rusty_fusion.Trade.{ItemTrade, TradeContext, TradeOffer, get_offer, get_other_id, resolve}
use rusty_fusion.Trade.Completes.{resolve-completes}
use rusty_fusion.Trade.Resolve.{IsTraded}

abbrev stack_of : ℕ → Item
stack_of n = record {
  ty = general;
  id = 119;
  appearance_id = none;
  quantity = n;
  expiry_time = none;
}

abbrev pub trader : ℕ → ℕ → Option ℕ → Player
trader pc_id money trade_id = record {
  id = some pc_id;
  uid = pc_id;
  perms = 99;
  level = 1;
  hp = 400;
  taros = money;
  fusion_matter = 0;
  nano_potions = 0;
  weapon_boosts = 0;
  inventory = record empty_inventory { main = some (stack_of 5) ∷ replicate 49 none };
  position = record { x = 0; y = 0; z = 0 };
  instance_id = default_instance;
  trade_id = trade_id;
  trade_offered_to = none;
  group_id = none;
  group_offered_to = none;
  vehicle_speed = none;
}

abbrev shaped : IsShaped (trader 1 100 none).inventory
shaped = (refl, refl, refl, refl)

-- Player 1 offers 30 taros and 3 of its stack for 10 taros.
abbrev offer_one : TradeOffer
offer_one = record {
  taros = 30;
  items = none ∷ some (record { inven_slot_num = 0; quantity = 3 }) ∷ replicate 3 none;
  confirmed = false;
}

abbrev offer_two : TradeOffer
offer_two = record { taros = 10; items = replicate 5 none; confirmed = true }

abbrev a_trade : TradeContext
a_trade = record { from_pc_id = 1; from_offer = offer_one; to_pc_id = 2; to_offer = offer_two }

resolve-completes_example :
    (a' : Player) × (b' : Player) × (items_b : List ItemTrade) × (items_a : List ItemTrade)
    × (resolve a_trade (trader 1 100 none) (trader 2 50 none) ≡ ok (a', b', items_b, items_a))
    × (IsTraded (trader 1 100 none) a')
    × (IsTraded (trader 2 50 none) b')
    × (a'.taros + 30 ≡ 100 + 10)
    × (b'.taros + 10 ≡ 50 + 30)
    × ((ty : ItemType) (id : ℕ)
        → main_held ty id a' + main_held ty id b'
          ≡ main_held ty id (trader 1 100 none) + main_held ty id (trader 2 50 none))
unfolding get_offer
resolve-completes_example =
    resolve-completes a_trade (trader 1 100 none) (trader 2 50 none) 1 2 offer_one offer_two shaped
      shaped refl refl refl refl
      (refl, refl, (omega arith, (stack_of 5, refl), tt, tt), tt, omega arith, omega arith)
      (omega arith) (omega arith) (omega arith)

abbrev a_shard : ShardState
a_shard = record {
  players = λ j.
      if j == 1
      then some (trader 1 100 (some 7))
      else if j == 2
      then some (trader 2 50 (some 7))
      else none;
  ongoing_trades = λ t. if t == 7 then some a_trade else none;
  npcs = λ j. none;
  groups = λ t. none;
  buyback_lists = λ t. none;
  outbox = [];
}

abbrev pub all_connected : ℕ → Bool
all_connected j = true

abbrev pub sends : Message → Outcome (Unit {0})
sends message = ok tt

trade_confirm-IsConserved_example :
    IsKept
      (IsConserved a_shard 1 2 (trader 1 100 (some 7)) (trader 2 50 (some 7)))
      (trade_confirm (ok 1) all_connected sends a_shard)
unfolding get_offer get_other_id
trade_confirm-IsConserved_example =
    trade_confirm-IsConserved 1 all_connected sends a_shard 2 (trader 1 100 (some 7))
      (trader 2 50 (some 7)) offer_one offer_two a_trade 7 (omega arith) shaped shaped refl refl
      (omega arith) (omega arith) (omega arith) refl refl refl refl refl refl refl

abbrev calm : Surroundings
calm = record {
  self_id = ok 3;
  connected = all_connected;
  send = sends;
  validate_proximity = λ a b. ok tt;
  is_tradeable = λ item. ok true;
  new_trade_id = 8;
}

-- Players 3 and 4 with no trade; 4 has been made an offer by 3.
abbrev quiet_shard : ShardState
quiet_shard = record {
  players = λ j.
      if j == 3
      then some (trader 3 100 none)
      else if j == 4
      then some (record (trader 4 50 none) { trade_offered_to = some 3 })
      else none;
  ongoing_trades = λ t. none;
  npcs = λ j. none;
  groups = λ t. none;
  buyback_lists = λ t. none;
  outbox = [];
}

quiet : IsSound quiet_shard
quiet j p t e h = ground (arith, e, h)

accepted : (handle calm (req_accept 4 3) quiet_shard).0 ≡ ok tt
unfolding handle trade_offer_accept catching ◌>>=◌ lift get_player put_player put_trade tell_other
    tell update offered_to catch_fail
accepted = refl

Reaches-IsSound_example : IsSound (handle calm (req_accept 4 3) quiet_shard).1
Reaches-IsSound_example =
    Reaches-IsSound quiet_shard (handle calm (req_accept 4 3) quiet_shard).1 quiet
      (requested start calm (req_accept 4 3) refl (λ h. cc (accepted, h)))
