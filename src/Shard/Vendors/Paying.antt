-- ===== src/Shard/Vendors/Paying.antt =====
-- src/bin/shard/item.rs, `vendor_battery_buy`: the whole handler, in a shard with any players.
use rusty_fusion.Entity.Player.{Player}
use rusty_fusion.Error.{FfError, Outcome, catch_fail, err, ok, panics, report}
use rusty_fusion.Item.{Item}
use rusty_fusion.Prelude.{
  Bool-cases, List, Option, [], ap, arith, inl, inr, refl, some, sym, ℕ, ◌==◌, ◌∷◌, ◌≡◌,
}
use rusty_fusion.Shard.Shopper.{Shopper, on_shopper}
use rusty_fusion.Shard.State.{
  Message, Run, ShardState, catching, continue, lift, tell, update, vendor_battery_buy_fail, ◌>>=◌,
}
use rusty_fusion.Shard.Vendors.{buy_batteries}
use rusty_fusion.Shard.Vendors.Batteries.{
  IsBattery, IsCharged, IsExchanged, buy_batteries-IsBattery,
}
use rusty_fusion.Shard.Vendors.Requests.{
  any_valid, reply, validate_npc, validate_vendor, vendor_battery_buy,
}

-- Every player keeps its taros and batteries together, and all else.
abbrev IsPaidFor : ShardState → ShardState → Type 0
IsPaidFor s s' =
    (j : ℕ) (player : Player)
    → s.players j ≡ some player
    → IsCharged player
    → (player' : Player) × (s'.players j ≡ some player') × IsExchanged player player'

unpaid : (s s' : ShardState) → s'.players ≡ s.players → IsPaidFor s s'
unpaid s s' same j player here charged =
    (player, rw same here, (charged, refl, omega arith, omega arith, refl))

-- What holds of the state after a run, from what holds after its first part.
after_bind :
    {A : Type 0} {B : Type 0} (P R : ShardState → Type 0) (m : Run A) (f : A → Run B)
    (s : ShardState)
    → P (m s).1
    → ((s' : ShardState) → P s' → R s')
    → ((a : A) (s' : ShardState) → P s' → R (f a s').1)
    → R ((m >>= f) s).1
unfolding ◌>>=◌
after_bind {A = A} {B = B} P R m f s p stops goes = go (m s) p
  where
    go : (r : Outcome A × ShardState) → P r.1 → R (continue r.0 f r.1).1
    go (ok a, s') q = goes a s' q
    go (err e, s') q = stops s' q
    go (panics, s') q = stops s' q

after_catch :
    {A : Type 0} (R : ShardState → Type 0) (body : Run A) (on_fail : Run (Unit {0}))
    (s : ShardState)
    → R (body s).1
    → ((s' : ShardState) → R s' → R (on_fail s').1)
    → R (catching body on_fail s).1
unfolding catching catch_fail report
after_catch {A = A} R body on_fail s p then_kept = go (body s) p
  where
    reported :
        (e : FfError) (o : Outcome (Unit {0}) × ShardState) → R o.1 → R (report {A = A} e o).1
    reported e (ok u, s') q = q
    reported e (err x, s') q = q
    reported e (panics, s') q = q

    go : (r : Outcome A × ShardState) → R r.1 → R (catch_fail r.0 on_fail r.1).1
    go (ok a, s') q = q
    go (err e, s') q = reported e (on_fail s') (then_kept s' q)
    go (panics, s') q = q

exchanged :
    (player : Player) (buyback : Option (List Item)) (r : Outcome Player × Shopper)
    → IsCharged player
    → IsBattery player buyback r
    → (player' : Player) × (r.1.player ≡ some player') × IsExchanged player player'
unfolding IsBattery
exchanged player buyback (ok player', s) charged (same, done_with) =
    (player', rw same refl, done_with)
exchanged player buyback (err e, s) charged same =
    (player, rw same refl, (charged, refl, omega arith, omega arith, refl))
exchanged player buyback (panics, s) charged h = absurd h

-- The purchase of one player, carried over to the shard.
on_shopper-IsPaidFor :
    (s : ShardState) (pc_id battery_type i_opt : ℕ)
    → IsPaidFor s (on_shopper pc_id (buy_batteries battery_type i_opt) s).1
unfolding on_shopper update
on_shopper-IsPaidFor s pc_id battery_type i_opt j player here charged =
    elim (Bool-cases (j == pc_id)) [
      | inl own ↦
          let same : j ≡ pc_id = ground (arith, own) in
          let mine : s.players pc_id ≡ some player = rw (sym same) here in
          let bought =
            exchanged player (s.buyback_lists pc_id)
              (buy_batteries battery_type i_opt
                (record { player = some player; buyback = s.buyback_lists pc_id }))
              charged
              (buy_batteries-IsBattery player (s.buyback_lists pc_id) battery_type i_opt charged) in
          rw (own, mine) bought
      | inr other ↦ (player, rw other here, (charged, refl, omega arith, omega arith, refl))
    ]

module _ (self_id : Outcome ℕ) (send : Message → Outcome (Unit {0})) (npcs_of_type : ℕ → List ℕ)
    (validate_proximity : ℕ → ℕ → Outcome (Unit {0})) where
  validate_npc-still :
      (npc_id vendor_id : ℕ) (s : ShardState)
      → (validate_npc self_id send npcs_of_type validate_proximity npc_id vendor_id s).1 ≡ s
  unfolding validate_npc ◌>>=◌ lift
  validate_npc-still npc_id vendor_id s = ground arith

  any_valid-still :
      (vendor_id : ℕ) (npc_ids : List ℕ) (s : ShardState)
      → (any_valid self_id send npcs_of_type validate_proximity vendor_id npc_ids s).1 ≡ s
  unfolding any_valid
  any_valid-still vendor_id [] s = refl
  any_valid-still vendor_id (npc_id ∷ npc_ids) s =
      ground (arith, any_valid-still vendor_id npc_ids s)

  validate_vendor-still :
      (npc_id vendor_id : ℕ) (s : ShardState)
      → (validate_vendor self_id send npcs_of_type validate_proximity npc_id vendor_id s).1 ≡ s
  unfolding validate_vendor ◌>>=◌ lift
  validate_vendor-still npc_id vendor_id s = ground (
    arith,
    validate_npc-still npc_id vendor_id s,
    any_valid-still vendor_id (npcs_of_type vendor_id) s,
  )

  reply-IsPaidFor :
      (s s' : ShardState) (message : Message)
      → IsPaidFor s s'
      → IsPaidFor s (reply self_id send npcs_of_type validate_proximity message s').1
  unfolding ◌>>=◌ tell lift
  reply-IsPaidFor s s' message kept = kept

  vendor_battery_buy-IsPaidFor :
      (npc_id vendor_id battery_type i_opt : ℕ) (s : ShardState)
      → IsPaidFor s
          (vendor_battery_buy self_id send npcs_of_type validate_proximity npc_id vendor_id
            battery_type i_opt s).1
  unfolding vendor_battery_buy lift
  vendor_battery_buy-IsPaidFor npc_id vendor_id battery_type i_opt s =
      after_catch (IsPaidFor s) _ _ s
        (after_bind (λ s'. s' ≡ s) (IsPaidFor s)
          (validate_vendor self_id send npcs_of_type validate_proximity npc_id vendor_id) _ s
          (validate_vendor-still npc_id vendor_id s) same_is
          (λ _ s1 same1.
            after_bind (λ s'. s' ≡ s) (IsPaidFor s) (lift self_id) _ s1 same1 same_is
              (λ pc_id s2 same2.
                after_bind (IsPaidFor s) (IsPaidFor s)
                  (on_shopper pc_id (buy_batteries battery_type i_opt)) _ s2
                  (rw same2 (on_shopper-IsPaidFor s pc_id battery_type i_opt)) (λ s3 kept. kept)
                  (λ player s3 kept. reply-IsPaidFor s s3 _ kept))))
        (λ s' kept. reply-IsPaidFor s s' vendor_battery_buy_fail kept)
    where
      same_is : (s' : ShardState) → s' ≡ s → IsPaidFor s s'
      same_is s' e = unpaid s s' (ap (λ (t : ShardState). t.players) e)

  -- Whoever requests batteries and whatever comes of it, a player with taros, potions and boosts within their
  -- limits still has them so afterwards, and has exchanged taros for batteries one for one or nothing.
  pub vendor_battery_buy-IsExchanged :
      (npc_id vendor_id battery_type i_opt : ℕ) (s : ShardState) (j : ℕ) (player : Player)
      → s.players j ≡ some player
      → IsCharged player
      → (player' : Player) × ((vendor_battery_buy self_id send npcs_of_type validate_proximity
              npc_id vendor_id battery_type i_opt s).1.players
            j
          ≡ some player')
        × IsExchanged player player'
  vendor_battery_buy-IsExchanged npc_id vendor_id battery_type i_opt s j player here charged =
      vendor_battery_buy-IsPaidFor npc_id vendor_id battery_type i_opt s j player here charged
