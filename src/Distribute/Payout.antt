-- ===== src/Distribute/Payout.antt =====
-- The second part of `distribute`: storage first, then the token transfers.
pub mod Frame
use sorowill_contracts.Prelude.{
  ℕ, Bool, true, false, not, ◌&&◌, Option, none, some, List, [], ◌∷◌, ◌==◌, length, if◌then◌else◌,
}
use sorowill_contracts.Prelude.Int.{ℤ, pos, negsuc, ltb_ℤ}
use sorowill_contracts.Errors.{will_not_triggered, Result, ok}
use sorowill_contracts.Types.{
  Address, TokenMap, Beneficiary, Will, active, triggered, released, is_status,
}
use sorowill_contracts.Types.Balances.{get_or_zero}
use sorowill_contracts.Env.{
  Env, inheritance_released, keeper_bounty_paid, leftover_refunded, payout_failed,
}
use sorowill_contracts.Env.Action.{
  Action, choose, gets, lift, modify, panic_if, publish, try_transfer, ◌>>=◌, ◌>>◌, pure,
}
use sorowill_contracts.Shares.{assert_payout_budget}
use sorowill_contracts.Storage.Stats.{decrement_active_will_count, adjust_locked_for_balances}
use sorowill_contracts.Storage.Wills.{save_will, set_failed_payout}
use sorowill_contracts.Storage.Indexes.{
  remove_owner_index, remove_beneficiary_index, unindex_triggered_will,
}
use sorowill_contracts.Validation.{unclaimed_hashed_bps}
use sorowill_contracts.Distribute.Plan.{
  Payments, Plan, Terms, percentage_count, should_pay_bounty, pick_bounty, empty_plan, plan_tokens,
}

unfoldable pub pay_or_record_failure : Address → Address → Address → ℤ → ℕ → Action Bool
pay_or_record_failure token source recipient amount will_id env =
    (do
      paid ←
          try_transfer
            (record { token = token; source = source; recipient = recipient; amount = amount })
      choose paid (pure true) (do
        modify (set_failed_payout will_id token recipient amount)
        publish (payout_failed will_id token recipient amount)
        pure false))
      env

-- A payment above zero, with the event of one that goes through.
unfoldable pub pay_if_positive : ℕ → Address → Address → ℤ → Action (Unit {0}) → Action (Unit {0})
unfolding pay_or_record_failure
pay_if_positive will_id token recipient amount on_success =
    choose (ltb_ℤ (pos 0) amount)
      (do
        contract ← gets (λ env. env.contract_address)
        paid ← pay_or_record_failure token contract recipient amount will_id
        choose paid on_success (pure tt))
      (pure tt)

-- The loop over `refund_plan`.
unfoldable pub pay_refunds : ℕ → Address → Payments → Action (Unit {0})
unfolding pay_if_positive
pay_refunds will_id owner [] = pure tt
pay_refunds will_id owner ((token, amount) ∷ refunds) = do
  pay_if_positive will_id token owner amount
      (publish (leftover_refunded will_id token owner amount))
  pay_refunds will_id owner refunds

-- The loop over one token's shares.
unfoldable pub pay_shares : ℕ → Address → Payments → Action (Unit {0})
unfolding pay_if_positive
pay_shares will_id token [] = pure tt
pay_shares will_id token ((recipient, share) ∷ shares) = do
  pay_if_positive will_id token recipient share (pure tt)
  pay_shares will_id token shares

unfoldable pub pay_bounty : ℕ → Address → Option (ℕ × ℤ) → Option Address → Action (Unit {0})
unfolding pay_if_positive
pay_bounty will_id token none keeper = pure tt
pay_bounty will_id token (some bounty) none = pure tt
pay_bounty will_id token (some (bounty_token, amount)) (some keeper) =
    choose (bounty_token == token)
      (pay_if_positive will_id token keeper amount
        (publish (keeper_bounty_paid will_id keeper amount)))
      (pure tt)

-- The loop over `transfer_plan`: a token's shares, then its bounty.
unfoldable pub pay_plan :
    ℕ → Option (ℕ × ℤ) → Option Address → List (ℕ × List (ℕ × ℤ)) → Action (Unit {0})
pay_plan will_id bounty_token keeper [] = pure tt
pay_plan will_id bounty_token keeper ((token, shares) ∷ plan) = do
  pay_shares will_id token shares
  pay_bounty will_id token bounty_token keeper
  pay_plan will_id bounty_token keeper plan

unfoldable pub remove_beneficiary_indexes : List Beneficiary → ℕ → Env → Env
remove_beneficiary_indexes [] will_id env = env
remove_beneficiary_indexes (b ∷ bs) will_id env =
    remove_beneficiary_indexes bs will_id (remove_beneficiary_index b.address will_id env)

-- The will as `distribute` leaves it.
unfoldable pub released_will : Will → TokenMap → Will
released_will will reserves = record will {
  balances = reserves;
  balance = get_or_zero reserves will.token;
  status = released;
  triggered_beneficiaries = none;
}

-- The storage effects between the plan and the payouts.
unfoldable pub settle : Will → TokenMap → Action (Unit {0})
settle will reserves = do
  modify decrement_active_will_count
  adjust_locked_for_balances will.balances (negsuc 0)
  modify (remove_owner_index will.owner will.id)
  modify (remove_beneficiary_indexes will.beneficiaries will.id)
  modify (unindex_triggered_will will.id)
  save_will (released_will will reserves)

abbrev no_bounty : Option (ℕ × ℤ)
no_bounty = none

unfoldable pub terms_of : Will → Bool → Option (ℕ × ℤ) → Terms
terms_of will pays bounty_token = record {
  will = will;
  pays_bounty = pays;
  bounty_token = bounty_token;
  share_count = percentage_count will.beneficiaries;
  hashed_bps = unclaimed_hashed_bps will.hashed_beneficiaries 0;
}

abbrev pub pick_if : Bool → Will → Result (Option (ℕ × ℤ))
pick_if pays will = if pays then pick_bounty will.balances will.keeper_bounty_bps else ok no_bounty

unfoldable pub distribute : Will → Option Address → Action (Unit {0})
unfolding settle pay_refunds pay_plan terms_of
distribute will keeper = do
  panic_if (not (is_status will.status active) && not (is_status will.status triggered))
      will_not_triggered
  let count = length will.beneficiaries
  let token_count = length will.balances
  lift (assert_payout_budget count token_count)
  contract ← gets (λ env. env.contract_address)
  let pays = should_pay_bounty keeper contract will
  bounty_token ← lift (pick_if pays will)
  plan ← lift (plan_tokens (terms_of will pays bounty_token) empty_plan will.balances)
  settle will plan.hashed_reserves
  pay_refunds will.id will.owner plan.refund_plan
  pay_plan will.id bounty_token keeper plan.transfer_plan
  publish (inheritance_released will.id token_count count)
