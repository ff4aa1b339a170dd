-- ===== src/Contract/Cancel.antt =====
-- lib.rs: `cancel_will` and `close_will`.
use sorowill_contracts.Prelude.{ℕ, not, ◌&&◌, [], ◌∷◌, length}
use sorowill_contracts.Prelude.Int.{ℤ, pos, negsuc, ltb_ℤ}
use sorowill_contracts.Errors.{will_not_active, will_not_released}
use sorowill_contracts.Types.{
  Address, TokenMap, Will, active, pending_confirmation, released, cancelled, settled, is_status,
}
use sorowill_contracts.Env.{will_cancelled, will_closed}
use sorowill_contracts.Env.Action.{
  Action, choose, pure, lift, query, gets, panic_if, modify, require_auth, publish, transfer, ◌>>=◌,
  ◌>>◌,
}
use sorowill_contracts.Storage.Stats.{decrement_active_will_count, adjust_locked_for_balances}
use sorowill_contracts.Storage.Wills.{save_will}
use sorowill_contracts.Storage.Indexes.{remove_owner_index}
use sorowill_contracts.Storage.History.{record_transition}
use sorowill_contracts.Validation.{load_owned, assert_status}
use sorowill_contracts.Distribute.Payout.{remove_beneficiary_indexes}
use sorowill_contracts.Contract.Release.{unlock_balances}

abbrev pub refund_balance : Address → Address → Address → ℤ → Action (Unit {0})
refund_balance contract owner token balance =
    choose (ltb_ℤ (pos 0) balance)
      (transfer (record { token = token; source = contract; recipient = owner; amount = balance }))
      (pure tt)

-- The loop that returns every balance above zero to the owner.
unfoldable pub refund_balances : Address → TokenMap → Action (Unit {0})
refund_balances owner [] = pure tt
refund_balances owner ((token, balance) ∷ balances) = do
  contract ← gets (λ env. env.contract_address)
  refund_balance contract owner token balance
  refund_balances owner balances

abbrev pub cancelled_will : Will → Will
cancelled_will will = record will { balance = pos 0; balances = []; status = cancelled }

unfoldable pub cancel_will : ℕ → Address → Action (Unit {0})
unfolding refund_balances
cancel_will will_id owner = do
  require_auth owner
  will ← query (load_owned will_id owner)
  panic_if (not (is_status will.status active) && not (is_status will.status pending_confirmation))
      will_not_active
  modify decrement_active_will_count
  adjust_locked_for_balances will.balances (negsuc 0)
  unlock_balances will.balances
  modify (remove_owner_index owner will_id)
  modify (remove_beneficiary_indexes will.beneficiaries will_id)
  save_will (cancelled_will will)
  record_transition will_id will.status cancelled owner "cancel"
  refund_balances owner will.balances
  publish (will_cancelled will_id owner (length will.balances))

unfoldable pub close_will : ℕ → Address → Action (Unit {0})
close_will will_id owner = do
  require_auth owner
  will ← query (load_owned will_id owner)
  lift (assert_status will released will_not_released)
  save_will (record will { status = settled })
  record_transition will_id released settled owner "close"
  publish (will_closed will_id owner)
