-- ===== src/Trade/Context.antt =====
-- src/trade.rs: the two sides of a trade, which no operation changes.
use rusty_fusion.Error.{FfError, Outcome, err, ok, panics}
use rusty_fusion.Error.Results.{>>=-ok}
use rusty_fusion.Prelude.{Bool, arith, false, refl, true, ℕ, ◌≡◌, ◌≢◌, ◌⊎◌}
use rusty_fusion.Trade.{
  TradeContext, TradeOffer, change_offer, get_offer, get_other_id, is_ready, lock_in,
  offer_add_item, offer_remove_item, stored, trade_add_item, trade_remove_item, trade_set_taros,
  write_offer,
}

abbrev pub IsSameSides : TradeContext → TradeContext → Type 0
IsSameSides trade trade' =
    (trade'.from_pc_id ≡ trade.from_pc_id) × (trade'.to_pc_id ≡ trade.to_pc_id)

write_offer-IsSameSides :
    (trade : TradeContext) (pc_id : ℕ) (offer : TradeOffer)
    → IsSameSides trade (write_offer trade pc_id offer)
unfolding write_offer
write_offer-IsSameSides trade pc_id offer = (ground arith, ground arith)

pub trade_set_taros-IsSameSides :
    (trade : TradeContext) (pc_id taros : ℕ) (trade' : TradeContext)
    → trade_set_taros trade pc_id taros ≡ ok trade'
    → IsSameSides trade trade'
unfolding trade_set_taros
trade_set_taros-IsSameSides trade pc_id taros trade' h =
    let (offer, _, e) = >>=-ok (get_offer trade pc_id) _ _ h in
    let cleared = record offer { taros = taros; confirmed = false } in
    let same : write_offer trade pc_id cleared ≡ trade' = cc e in
    rw same at (write_offer-IsSameSides trade pc_id cleared)

pub lock_in-IsSameSides :
    (trade : TradeContext) (pc_id : ℕ) (trade' : TradeContext) (ready : Bool)
    → lock_in trade pc_id ≡ ok (trade', ready)
    → IsSameSides trade trade'
unfolding lock_in
lock_in-IsSameSides trade pc_id trade' ready h =
    let (offer, _, e) = >>=-ok (get_offer trade pc_id) _ _ h in
    let locked = record offer { confirmed = true } in
    let same : write_offer trade pc_id locked ≡ trade' = cc e in
    rw same at (write_offer-IsSameSides trade pc_id locked)

stored-IsSameSides :
    {A : Type 0} (trade : TradeContext) (pc_id : ℕ) (cleared : TradeOffer)
    (r : Outcome (TradeOffer × A))
    → IsSameSides trade (stored trade pc_id cleared r).1
unfolding stored
stored-IsSameSides trade pc_id cleared (ok (offer', a)) = write_offer-IsSameSides trade pc_id offer'
stored-IsSameSides trade pc_id cleared (err e) = write_offer-IsSameSides trade pc_id cleared
stored-IsSameSides trade pc_id cleared panics = write_offer-IsSameSides trade pc_id cleared

change_offer-IsSameSides :
    {A : Type 0} (trade : TradeContext) (pc_id : ℕ) (change : TradeOffer → Outcome (TradeOffer × A))
    (offer : Outcome TradeOffer)
    → IsSameSides trade (change_offer trade pc_id change offer).1
unfolding change_offer
change_offer-IsSameSides trade pc_id change (ok offer) =
    stored-IsSameSides trade pc_id (record offer { confirmed = false })
      (change (record offer { confirmed = false }))
change_offer-IsSameSides trade pc_id change (err e) = (refl, refl)
change_offer-IsSameSides trade pc_id change panics = (refl, refl)

pub trade_add_item-IsSameSides :
    (trade : TradeContext) (pc_id trade_slot inven_slot quantity : ℕ)
    → IsSameSides trade (trade_add_item trade pc_id trade_slot inven_slot quantity).1
unfolding trade_add_item
trade_add_item-IsSameSides trade pc_id trade_slot inven_slot quantity =
    change_offer-IsSameSides trade pc_id
      (λ offer. offer_add_item offer trade_slot inven_slot quantity) (get_offer trade pc_id)

pub trade_remove_item-IsSameSides :
    (trade : TradeContext) (pc_id trade_slot : ℕ)
    → IsSameSides trade (trade_remove_item trade pc_id trade_slot).1
unfolding trade_remove_item
trade_remove_item-IsSameSides trade pc_id trade_slot =
    change_offer-IsSameSides trade pc_id (λ offer. offer_remove_item offer trade_slot)
      (get_offer trade pc_id)

-- The other side, as a side of the trade itself.
pub get_other_id-side :
    (trade : TradeContext) (pc_id other : ℕ)
    → (trade.from_pc_id ≡ pc_id) ⊎ (trade.to_pc_id ≡ pc_id)
    → get_other_id trade pc_id ≡ ok other
    → (pc_id ≢ other)
      × (((trade.from_pc_id ≡ pc_id) × (trade.to_pc_id ≡ other))
          ⊎ ((trade.to_pc_id ≡ pc_id) × (trade.from_pc_id ≡ other)))
unfolding get_other_id
get_other_id-side trade pc_id other side h = ground (arith, side, h)

pub get_other_id-sure :
    (trade : TradeContext) (pc_id : ℕ) (e : FfError) → get_other_id trade pc_id ≢ err e
unfolding get_other_id
get_other_id-sure trade pc_id e h = ground (arith, h)

-- Locking in one offer changes its confirmation only, and nothing of the other offer.
pub lock_in-ok :
    (trade : TradeContext) (pc_id other : ℕ) (mine theirs : TradeOffer)
    → pc_id ≢ other
    → get_offer trade pc_id ≡ ok mine
    → get_offer trade other ≡ ok theirs
    → (trade' : TradeContext) × (lock_in trade pc_id ≡ ok (trade', theirs.confirmed))
      × (get_offer trade' pc_id ≡ ok (record mine { confirmed = true }))
      × (get_offer trade' other ≡ ok theirs)
unfolding lock_in get_offer write_offer is_ready
lock_in-ok trade pc_id other mine theirs ne m t = (
  write_offer trade pc_id (record mine { confirmed = true }),
  ground (arith, m, t, ne),
  ground (arith, m, t, ne),
  ground (arith, m, t, ne),
)
