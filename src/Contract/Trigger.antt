-- ===== src/Contract/Trigger.antt =====
-- lib.rs: `trigger_will` and `emergency_checkin`; balance_consistency.rs.
pub mod Outcome
pub mod Live
use sorowill_contracts.Prelude.{ℕ, Bool, Option, none, some, ltb, if◌then◌else◌}
use sorowill_contracts.Errors.{
  will_not_active, will_not_triggered, checkin_not_due, grace_period_expired, Result,
}
use sorowill_contracts.Types.{Address, Will, active, triggered}
use sorowill_contracts.Types.Balances.{get_or_zero}
use sorowill_contracts.Env.{Env, will_triggered, Event}
use sorowill_contracts.Env.Action.{
  Action, pure, lift, query, gets, panic_if, modify, require_auth, publish, ◌>>=◌, ◌>>◌,
}
use sorowill_contracts.Storage.Wills.{load_will, save_will}
use sorowill_contracts.Storage.Indexes.{index_triggered_will, unindex_triggered_will}
use sorowill_contracts.Storage.Votes.{reset_guardian_votes, reset_guardian_cancel_votes}
use sorowill_contracts.Storage.History.{record_transition}
use sorowill_contracts.Validation.{load_owned, assert_status, days_after, grace_deadline}

-- The will as `trigger_will` leaves it: the grace period starts at the missed deadline.
abbrev pub triggered_will : Will → ℕ → Will
triggered_will will deadline = record will { status = triggered; trigger_time = some deadline }

unfoldable pub trigger_will : ℕ → Action (Unit {0})
trigger_will will_id = do
  will ← query (load_will will_id)
  lift (assert_status will active will_not_active)
  now ← gets (λ env. env.now)
  deadline ← lift (days_after will.last_checkin will.checkin_period_days)
  panic_if (ltb now deadline) checkin_not_due
  grace_period_ends ← lift (grace_deadline (triggered_will will deadline))
  save_will (triggered_will will deadline)
  modify (index_triggered_will will_id)
  contract ← gets (λ env. env.contract_address)
  record_transition will_id active triggered contract "trigger"
  publish (will_triggered will_id grace_period_ends)

unfoldable pub sync_primary_balance : Will → Will
sync_primary_balance will = record will { balance = get_or_zero will.balances will.token }

-- The will as a cancelled trigger leaves it.
abbrev pub reactivated_will : Will → ℕ → Will
reactivated_will will now = record will {
  status = active;
  trigger_time = none;
  last_checkin = now;
  guardian_vote_weight = 0;
  guardian_votes = 0;
  guardian_cancel_vote_weight = 0;
  guardian_cancel_votes = 0;
}

unfoldable pub emergency_checkin : ℕ → Address → Action (Unit {0})
unfolding sync_primary_balance
emergency_checkin will_id owner = do
  require_auth owner
  will ← query (load_owned will_id owner)
  lift (assert_status will triggered will_not_triggered)
  now ← gets (λ env. env.now)
  deadline ← lift (grace_deadline will)
  panic_if (ltb deadline now) grace_period_expired
  modify (reset_guardian_votes will)
  modify (reset_guardian_cancel_votes will)
  save_will (sync_primary_balance (reactivated_will will now))
  modify (unindex_triggered_will will_id)
  record_transition will_id triggered active owner "emerg"
  next_deadline ← lift (days_after now will.checkin_period_days)
  publish (Event.emergency_checkin will_id owner next_deadline)
