-- ===== src/Contract/Release.antt =====
-- lib.rs: `release_inheritance` and `retry_failed_payout`; release_lock.rs.
pub mod Stuck
pub mod Retry
pub mod Unlock
use sorowill_contracts.Prelude.{
  ℕ, Bool, true, false, not, Option, none, some, List, [], ◌∷◌, update, if◌then◌else◌,
}
use sorowill_contracts.Prelude.Int.{ℤ, pos, ltb_ℤ, ◌-ℤ◌}
use sorowill_contracts.Errors.{
  will_not_triggered, grace_period_not_expired, release_in_progress, no_failed_payout, Result,
}
use sorowill_contracts.Types.{Address, TokenMap, Will, triggered, released}
use sorowill_contracts.Env.{Env, payout_retried}
use sorowill_contracts.Env.Action.{
  Action, choose, pure, panic, lift, query, gets, panic_if, modify, publish, transfer, sub_i128,
  ◌>>=◌, ◌>>◌,
}
use sorowill_contracts.Storage.Stats.{adjust_locked_value}
use sorowill_contracts.Storage.Wills.{load_will, get_failed_payout, remove_failed_payout}
use sorowill_contracts.Storage.History.{record_transition}
use sorowill_contracts.Validation.{
  assert_status, assert_release_preconditions, grace_deadline, grace_elapsed,
}
use sorowill_contracts.Distribute.Payout.{distribute}

unfoldable pub acquire : ℕ → Action (Unit {0})
acquire will_id = do
  held ← gets (λ env. env.release_lock will_id)
  panic_if held release_in_progress
  modify (λ env. record env { release_lock = update env.release_lock will_id true })

unfoldable pub release : ℕ → Env → Env
release will_id env = record env { release_lock = update env.release_lock will_id false }

unfoldable pub unlock_balance : Address → ℤ → Action (Unit {0})
unlock_balance token balance =
    choose (ltb_ℤ (pos 0) balance)
      (do delta ← lift (sub_i128 (pos 0) balance); adjust_locked_value token delta) (pure tt)

-- `for (token, balance) in balances { if balance > 0 { adjust_locked_value(token, -balance) } }`, of
-- `release_inheritance` and of `cancel_will`.
unfoldable pub unlock_balances : TokenMap → Action (Unit {0})
unfolding unlock_balance
unlock_balances [] = pure tt
unlock_balances ((token, balance) ∷ balances) = do
  unlock_balance token balance
  unlock_balances balances

unfoldable pub release_inheritance : ℕ → Option Address → Action (Unit {0})
unfolding acquire unlock_balances
release_inheritance will_id caller = do
  acquire will_id
  will ← query (load_will will_id)
  lift (assert_status will triggered will_not_triggered)
  now ← gets (λ env. env.now)
  deadline ← lift (grace_deadline will)
  panic_if (not (grace_elapsed now deadline)) grace_period_not_expired
  contract ← gets (λ env. env.contract_address)
  record_transition will_id triggered released contract "release"
  unlock_balances will.balances
  query (assert_release_preconditions will_id will)
  distribute will caller
  modify (release will_id)

abbrev owed : Option ℤ → Action ℤ
owed none = panic no_failed_payout
owed (some amount) = pure amount

unfoldable pub retry_failed_payout : ℕ → Address → Address → Action (Unit {0})
retry_failed_payout will_id token recipient = do
  amount ← (λ (env : Env). owed (get_failed_payout will_id token recipient env) env)
  contract ← gets (λ env. env.contract_address)
  transfer (record { token = token; source = contract; recipient = recipient; amount = amount })
  modify (remove_failed_payout will_id token recipient)
  publish (payout_retried will_id token recipient amount)
