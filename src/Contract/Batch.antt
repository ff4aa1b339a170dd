-- ===== src/Contract/Batch.antt =====
-- lib.rs: `batch_create_wills`, which creates several wills of one owner in one call.
use sorowill_contracts.Prelude.{ℕ, false, ◌||◌, none, List, [], ◌∷◌, ltb, length, is_empty}
use sorowill_contracts.Prelude.Int.{ℤ}
use sorowill_contracts.Errors.{invalid_token_count, too_many_beneficiaries}
use sorowill_contracts.Types.{Address, TokenMap, Beneficiary, Will, active}
use sorowill_contracts.Types.Balances.{get_or_zero}
use sorowill_contracts.Env.{will_created, batch_created}
use sorowill_contracts.Env.Action.{
  Action, pure, lift, gets, panic_if, require_auth, publish, ◌>>=◌, ◌>>◌,
}
use sorowill_contracts.Shares.{max_tokens}
use sorowill_contracts.Storage.Stats.{next_will_id}
use sorowill_contracts.Validation.{
  assert_beneficiary_count, assert_valid_allocations, assert_valid_guardians, assert_valid_periods,
  days_after,
}
use sorowill_contracts.Contract.Create.{
  check_tokens, checked_threshold, new_guardians, primary_token, index_beneficiaries,
  current_schema_version,
}
use sorowill_contracts.Contract.Clone.{take_deposits, store_new_will}

abbrev pub batch_max : ℕ
batch_max = 10

-- The tuple that describes one will.
pub record WillSpec : Type 0 where
  pub tokens : List (ℕ × ℤ)
  pub beneficiaries : List Beneficiary
  pub checkin_period_days : ℕ
  pub grace_period_days : ℕ
  pub guardians : List Address
  pub guardian_threshold : ℕ

-- The new will of one description.
abbrev pub specified_will : WillSpec → ℕ → Address → TokenMap → ℕ → ℕ → Will
specified_will spec will_id owner balances threshold now = record {
  id = will_id;
  owner = owner;
  balances = balances;
  token = primary_token spec.tokens;
  is_native = false;
  balance = get_or_zero balances (primary_token spec.tokens);
  beneficiaries = spec.beneficiaries;
  hashed_beneficiaries = [];
  checkin_period_days = spec.checkin_period_days;
  grace_period_days = spec.grace_period_days;
  last_checkin = now;
  trigger_time = none;
  confirmation_deadline = none;
  status = active;
  guardians = new_guardians spec.guardians;
  guardian_vote_weight = 0;
  guardian_votes = 0;
  guardian_cancel_vote_weight = 0;
  guardian_cancel_votes = 0;
  guardian_threshold = threshold;
  guardian_list_updated_at = now;
  schema_version = current_schema_version;
  keeper_bounty_bps = 0;
  delegate = none;
  triggered_beneficiaries = none;
}

-- One iteration of the loop, which gives the new id.
unfoldable pub create_one : Address → WillSpec → Action ℕ
create_one owner spec = do
  panic_if (is_empty spec.tokens || ltb max_tokens (length spec.tokens)) invalid_token_count
  lift (check_tokens spec.tokens [])
  lift (assert_beneficiary_count spec.beneficiaries)
  lift (assert_valid_guardians owner spec.guardians)
  lift (assert_valid_periods spec.checkin_period_days spec.grace_period_days)
  threshold ← lift (checked_threshold spec.guardians spec.guardian_threshold)
  balances ← take_deposits owner spec.tokens []
  lift (
      assert_valid_allocations spec.beneficiaries
        (get_or_zero balances (primary_token spec.tokens)))
  will_id ← next_will_id
  now ← gets (λ env. env.now)
  index_beneficiaries spec.beneficiaries will_id
  store_new_will (specified_will spec will_id owner balances threshold now)
  deadline ← lift (days_after now spec.checkin_period_days)
  publish (will_created will_id owner (length balances) spec.beneficiaries deadline)
  pure will_id

unfoldable pub create_all : Address → List WillSpec → Action (List ℕ)
unfolding create_one
create_all owner [] = pure []
create_all owner (spec ∷ specs) = do
  will_id ← create_one owner spec
  ids ← create_all owner specs
  pure (will_id ∷ ids)

unfoldable pub batch_create_wills : Address → List WillSpec → Action (List ℕ)
unfolding create_all
batch_create_wills owner will_specs = do
  require_auth owner
  panic_if (is_empty will_specs || ltb batch_max (length will_specs)) too_many_beneficiaries
  ids ← create_all owner will_specs
  publish (batch_created owner ids)
  pure ids
