-- ===== src/Contract/Clone.antt =====
-- lib.rs: `clone_will`, which makes a new will after the pattern of another.
use sorowill_contracts.Prelude.{
  ℕ, false, not, ◌&&◌, ◌||◌, none, List, [], ◌∷◌, ltb, length, is_empty,
}
use sorowill_contracts.Prelude.Int.{ℤ, pos, leb_ℤ}
use sorowill_contracts.Errors.{invalid_token_count, zero_amount, will_not_active}
use sorowill_contracts.Types.{
  Address, TokenMap, Guardian, pending, Will, active, triggered, is_status,
}
use sorowill_contracts.Types.Balances.{set, get_or_zero}
use sorowill_contracts.Env.{will_created, will_cloned}
use sorowill_contracts.Env.Action.{
  Action, pure, lift, query, gets, panic_if, require_auth, publish, transfer, add_i128, ◌>>=◌, ◌>>◌,
}
use sorowill_contracts.Shares.{max_tokens}
use sorowill_contracts.Storage.Stats.{
  next_will_id, increment_active_will_count, adjust_locked_for_balances,
}
use sorowill_contracts.Storage.Wills.{load_will, save_will}
use sorowill_contracts.Storage.Indexes.{index_by_owner}
use sorowill_contracts.Storage.History.{record_transition}
use sorowill_contracts.Validation.{assert_valid_allocations, assert_valid_guardians, days_after}
use sorowill_contracts.Contract.Create.{primary_token, index_beneficiaries, current_schema_version}

-- The loop that takes the deposits, without a check of the token.
unfoldable pub take_deposits : Address → List (ℕ × ℤ) → TokenMap → Action TokenMap
take_deposits owner [] balances = pure balances
take_deposits owner ((token, amount) ∷ tokens) balances = do
  panic_if (leb_ℤ amount (pos 0)) zero_amount
  contract ← gets (λ env. env.contract_address)
  transfer (record { token = token; source = owner; recipient = contract; amount = amount })
  total ← lift (add_i128 (get_or_zero balances token) amount)
  take_deposits owner tokens (set balances token total)

unfoldable pub reset_guardian_consent : List Guardian → List Guardian
reset_guardian_consent [] = []
reset_guardian_consent (g ∷ guardians) =
    record { address = g.address; weight = g.weight; consent = pending }
    ∷ reset_guardian_consent guardians

abbrev pub guardian_addresses : List Guardian → List Address
guardian_addresses [] = []
guardian_addresses (g ∷ guardians) = g.address ∷ guardian_addresses guardians

-- The amount of the first deposit.
abbrev first_amount : List (ℕ × ℤ) → ℤ
first_amount [] = pos 0
first_amount ((_, amount) ∷ tokens) = amount

-- The new will.
abbrev pub cloned_will : Will → ℕ → Address → TokenMap → Address → ℤ → ℕ → Will
cloned_will source will_id owner balances token balance now = record {
  id = will_id;
  owner = owner;
  balances = balances;
  token = token;
  is_native = false;
  balance = balance;
  beneficiaries = source.beneficiaries;
  hashed_beneficiaries = [];
  checkin_period_days = source.checkin_period_days;
  grace_period_days = source.grace_period_days;
  last_checkin = now;
  trigger_time = none;
  confirmation_deadline = none;
  status = active;
  guardians = reset_guardian_consent source.guardians;
  guardian_vote_weight = 0;
  guardian_votes = 0;
  guardian_cancel_vote_weight = 0;
  guardian_cancel_votes = 0;
  guardian_threshold = source.guardian_threshold;
  guardian_list_updated_at = now;
  schema_version = current_schema_version;
  keeper_bounty_bps = source.keeper_bounty_bps;
  delegate = none;
  triggered_beneficiaries = none;
}

-- A new will enters the storage: its entry, the owner's index, the statistics, the audit trail.
unfoldable pub store_new_will : Will → Action (Unit {0})
store_new_will will = do
  save_will will
  index_by_owner will.owner will.id
  increment_active_will_count
  adjust_locked_for_balances will.balances (pos 1)
  record_transition will.id active active will.owner "create"

unfoldable pub clone_will : ℕ → Address → List (ℕ × ℤ) → Action ℕ
unfolding take_deposits store_new_will
clone_will source_will_id owner tokens = do
  require_auth owner
  panic_if (is_empty tokens || ltb max_tokens (length tokens)) invalid_token_count
  source ← query (load_will source_will_id)
  panic_if (not (is_status source.status active) && not (is_status source.status triggered))
      will_not_active
  lift (assert_valid_guardians owner (guardian_addresses source.guardians))
  balances ← take_deposits owner tokens []
  lift (assert_valid_allocations source.beneficiaries (get_or_zero balances (primary_token tokens)))
  will_id ← next_will_id
  now ← gets (λ env. env.now)
  index_beneficiaries source.beneficiaries will_id
  store_new_will
      (cloned_will source will_id owner balances (primary_token tokens) (first_amount tokens) now)
  deadline ← lift (days_after now source.checkin_period_days)
  publish (will_created will_id owner (length balances) source.beneficiaries deadline)
  publish (will_cloned source_will_id will_id owner)
  pure will_id
