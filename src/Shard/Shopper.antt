-- ===== src/Shard/Shopper.antt =====
-- src/bin/shard/item.rs: what the item handlers change, as the references of the source do: one player
-- and its list of items to buy back. A change that was made stays when a later step fails.
use rusty_fusion.Entity.Player.{Player}
use rusty_fusion.Entity.Player.Inventory.{set_item}
use rusty_fusion.Error.{Outcome, build, err, ok, ok_or, panics, unwrap_result, warning}
use rusty_fusion.Item.{Item}
use rusty_fusion.Item.Kind.{ItemLocation}
use rusty_fusion.Prelude.{List, Option, some, ℕ}
use rusty_fusion.Shard.State.{ShardState, update}

pub record Shopper : Type 0 where
  pub player : Option Player
  pub buyback : Option (List Item)

abbrev pub Edit : Type 0 → Type 0
Edit A = Shopper → Outcome A × Shopper

module _ {A : Type 0} {B : Type 0} where
  abbrev pub proceed : Outcome A → (A → Edit B) → Edit B
  proceed (ok a) f s = f a s
  proceed (err e) f s = (err e, s)
  proceed panics f s = (panics, s)

  infixl 5 ◌>>=◌
  abbrev pub ◌>>=◌ : Edit A → (A → Edit B) → Edit B
  (m >>= f) s = proceed (m s).0 f (m s).1

infixl 5 ◌>>◌
abbrev pub ◌>>◌ : {B : Type 0} → Edit (Unit {0}) → Edit B → Edit B
m >> k = m >>= λ _. k

abbrev pub give : {A : Type 0} → Outcome A → Edit A
give m s = (m, s)

-- `state.get_player_mut(pc_id)?`
abbrev pub the_player : Edit Player
the_player s = (ok_or s.player (build warning "Player doesn't exist"), s)

abbrev pub store : Player → Edit (Unit {0})
store player s = (ok tt, record s { player = some player })

abbrev pub store_buyback : Option (List Item) → Edit (Unit {0})
store_buyback buyback s = (ok tt, record s { buyback = buyback })

abbrev pub the_buyback : Edit (Option (List Item))
the_buyback s = (ok s.buyback, s)

-- `player.set_item`, and the same where its result is unwrapped.
unfoldable pub put_item : ItemLocation → ℕ → Option Item → Edit (Option Item)
put_item location slot_num item = do
  player ← the_player
  (player', old_item) ← give (set_item player location slot_num item)
  store player'
  give (ok old_item)

unfoldable pub put_item_unwrap : ItemLocation → ℕ → Option Item → Edit (Option Item)
put_item_unwrap location slot_num item = do
  player ← the_player
  (player', old_item) ← give (unwrap_result (set_item player location slot_num item))
  store player'
  give (ok old_item)

-- A handler's run on the player and the list of one client.
unfoldable pub on_shopper : {A : Type 0} → ℕ → Edit A → ShardState → Outcome A × ShardState
on_shopper pc_id edit s =
    let (result, s') =
      edit (record { player = s.players pc_id; buyback = s.buyback_lists pc_id }) in
    (
      result,
      record s {
        players = update s.players pc_id s'.player;
        buyback_lists = update s.buyback_lists pc_id s'.buyback;
      },
    )
