-- ===== src/Contract/Settings.antt =====
-- lib.rs: `update_beneficiaries`, `update_guardians`, `update_guardians_weighted`,
-- `update_periods` and `top_up`; guardian_vote_purge.rs and balance_consistency.rs.
pub mod Update
use sorowill_contracts.Prelude.{
  ℕ, ◌+◌, not, ◌&&◌, ◌||◌, Option, none, some, List, [], ◌∷◌, ltb, leb, ◌==◌, length, is_empty,
  if◌then◌else◌,
}
use sorowill_contracts.Prelude.Int.{ℤ, pos, leb_ℤ}
use sorowill_contracts.Prelude.Words.{u32_max}
use sorowill_contracts.Errors
use sorowill_contracts.Errors.{
  will_not_active, too_many_beneficiaries, invalid_guardian_threshold, invalid_period,
  invalid_token_count, zero_amount, contract_error, Result, ok, err,
}
use sorowill_contracts.Types.{Address, Beneficiary, Guardian, GuardianSpec, pending, Will, active}
use sorowill_contracts.Types.Balances.{get_or_zero, contains_key, set}
use sorowill_contracts.Env.{Env, beneficiaries_updated, guardians_updated, periods_updated, Event}
use sorowill_contracts.Env.Action.{
  Action, pure, lift, query, gets, panic_if, modify, require_auth, publish, transfer, choose,
  add_i128, ◌>>=◌, ◌>>◌,
}
use sorowill_contracts.Shares.{max_beneficiaries, max_tokens}
use sorowill_contracts.Storage.Stats.{adjust_locked_value}
use sorowill_contracts.Storage.Wills.{save_will}
use sorowill_contracts.Storage.Indexes.{remove_beneficiary_index, index_by_beneficiary}
use sorowill_contracts.Storage.Votes.{clear_all, reset_guardian_votes, reset_guardian_cancel_votes}
use sorowill_contracts.Validation.{
  load_owned, assert_status, assert_beneficiary_count, assert_valid_allocations, names_address,
  total_balance, assert_valid_guardians, assert_no_guardian_cancel_in_flight, is_valid_period,
  days_after,
}
use sorowill_contracts.Contract.Create.{new_guardians}
use sorowill_contracts.Contract.Trigger.{sync_primary_balance}

-- The first loop of `update_beneficiaries`: who is not named any more leaves the index.
unfoldable pub unindex_removed : List Beneficiary → List Beneficiary → ℕ → Env → Env
unindex_removed [] beneficiaries will_id env = env
unindex_removed (old ∷ olds) beneficiaries will_id env =
    unindex_removed olds beneficiaries will_id (
      if names_address beneficiaries old.address
      then env
      else remove_beneficiary_index old.address will_id env)

-- The second loop: who was not named before enters it.
unfoldable pub index_added : List Beneficiary → List Beneficiary → ℕ → Action (Unit {0})
index_added [] olds will_id = pure tt
index_added (new ∷ news) olds will_id = do
  choose (names_address olds new.address) (pure tt) (index_by_beneficiary new.address will_id)
  index_added news olds will_id

-- The checks of a new beneficiary list, which the two entry points make alike.
unfoldable pub assert_new_beneficiaries : List Beneficiary → Will → Result (Unit {0})
assert_new_beneficiaries beneficiaries will = Errors.◌>>◌ (assert_beneficiary_count beneficiaries) (
    Errors.◌>>◌ (assert_valid_allocations beneficiaries (total_balance will.balances (pos 0))) (
      Errors.◌>>◌
        (Errors.panic_if (is_empty beneficiaries || ltb max_beneficiaries (length beneficiaries))
          too_many_beneficiaries)
        (assert_valid_allocations beneficiaries (get_or_zero will.balances will.token))))

unfoldable pub update_beneficiaries : ℕ → Address → List Beneficiary → Action (Unit {0})
unfolding assert_new_beneficiaries unindex_removed index_added
update_beneficiaries will_id owner beneficiaries = do
  require_auth owner
  will ← query (load_owned will_id owner)
  lift (assert_status will active will_not_active)
  lift (assert_new_beneficiaries beneficiaries will)
  modify (unindex_removed will.beneficiaries beneficiaries will_id)
  index_added beneficiaries will.beneficiaries will_id
  save_will (record will { beneficiaries = beneficiaries })
  publish (beneficiaries_updated will_id owner (length beneficiaries) beneficiaries)

-- guardian_vote_purge.rs
unfoldable pub purge_guardian_vote_records : Will → Env → Env
unfolding clear_all
purge_guardian_vote_records will env = record env {
  guardian_vote = clear_all will.id will.guardians env.guardian_vote;
}

unfoldable pub reset_votes : Will → Action (Unit {0})
reset_votes will = do
  modify (reset_guardian_votes will)
  modify (purge_guardian_vote_records will)
  modify (reset_guardian_cancel_votes will)

-- The will with a new guardian list and no votes.
abbrev pub with_guardians : Will → List Guardian → ℕ → ℕ → Will
with_guardians will guardians threshold now = record will {
  guardians = guardians;
  guardian_threshold = threshold;
  guardian_votes = 0;
  guardian_vote_weight = 0;
  guardian_cancel_votes = 0;
  guardian_cancel_vote_weight = 0;
  guardian_list_updated_at = now;
}

unfoldable pub assert_new_guardians : Address → List Address → Will → Result (Unit {0})
assert_new_guardians owner guardians will = Errors.◌>>◌ (assert_valid_guardians owner guardians) (
    Errors.◌>>◌ (assert_no_guardian_cancel_in_flight will) (
      Errors.panic_if (not (is_empty guardians) && ltb (length guardians) will.guardian_threshold)
        invalid_guardian_threshold))

unfoldable pub update_guardians : ℕ → Address → List Address → Action (Unit {0})
unfolding assert_new_guardians reset_votes
update_guardians will_id owner guardians = do
  require_auth owner
  will ← query (load_owned will_id owner)
  lift (assert_status will active will_not_active)
  lift (assert_new_guardians owner guardians will)
  now ← gets (λ env. env.now)
  reset_votes will
  save_will (with_guardians will (new_guardians guardians) will.guardian_threshold now)
  publish (guardians_updated will_id owner (new_guardians guardians))

abbrev pub max_guardian_weight : ℕ
max_guardian_weight = 1000000

unfoldable pub spec_addresses : List GuardianSpec → List Address
spec_addresses [] = []
spec_addresses (g ∷ guardians) = g.address ∷ spec_addresses guardians

unfoldable pub spec_guardians : List GuardianSpec → List Guardian
spec_guardians [] = []
spec_guardians (g ∷ guardians) =
    record { address = g.address; weight = g.weight; consent = pending } ∷ spec_guardians guardians

-- The loop that sums the weights, each from 1 to the maximum.
unfoldable pub sum_weights : List GuardianSpec → ℕ → Result ℕ
sum_weights [] total = ok total
sum_weights (g ∷ guardians) total =
    Errors.◌>>◌ (Errors.panic_if (g.weight == 0) invalid_guardian_threshold) (
      Errors.◌>>◌ (Errors.panic_if (ltb max_guardian_weight g.weight) invalid_guardian_threshold) (
        Errors.◌>>◌ (Errors.panic_if (ltb u32_max (total + g.weight)) invalid_guardian_threshold)
          (sum_weights guardians (total + g.weight))))

unfoldable pub assert_reachable : List GuardianSpec → ℕ → Result (Unit {0})
unfolding sum_weights
assert_reachable guardians threshold =
    if is_empty guardians
    then ok tt
    else Errors.◌>>=◌ (sum_weights guardians 0) (λ total.
      Errors.panic_if (not (leb 1 threshold && leb threshold total)) invalid_guardian_threshold)

abbrev pub or_else : Option ℕ → ℕ → ℕ
or_else none d = d
or_else (some n) d = n

unfoldable pub update_guardians_weighted :
    ℕ → Address → List GuardianSpec → Option ℕ → Action (Unit {0})
unfolding assert_reachable reset_votes
update_guardians_weighted will_id owner guardians guardian_threshold = do
  require_auth owner
  will ← query (load_owned will_id owner)
  lift (assert_status will active will_not_active)
  lift (assert_valid_guardians owner (spec_addresses guardians))
  lift (assert_no_guardian_cancel_in_flight will)
  let threshold = or_else guardian_threshold will.guardian_threshold
  lift (assert_reachable guardians threshold)
  now ← gets (λ env. env.now)
  reset_votes will
  save_will (with_guardians will (spec_guardians guardians) threshold now)
  publish (guardians_updated will_id owner (spec_guardians guardians))

-- One of the two periods: the new one, if it is given and valid.
unfoldable pub new_period : Option ℕ → ℕ → Result ℕ
new_period none current = ok current
new_period (some days) current =
    if is_valid_period days then ok days else err (contract_error invalid_period)

abbrev pub with_periods : Will → ℕ → ℕ → Will
with_periods will checkin grace = record will {
  checkin_period_days = checkin;
  grace_period_days = grace;
}

unfoldable pub update_periods : ℕ → Address → Option ℕ → Option ℕ → Action (Unit {0})
unfolding new_period
update_periods will_id owner checkin_period_days grace_period_days = do
  require_auth owner
  will ← query (load_owned will_id owner)
  lift (assert_status will active will_not_active)
  checkin ← lift (new_period checkin_period_days will.checkin_period_days)
  grace ← lift (new_period grace_period_days will.grace_period_days)
  next_deadline ← lift (days_after will.last_checkin checkin)
  save_will (with_periods will checkin grace)
  publish (periods_updated will_id owner checkin grace next_deadline)

-- balance_consistency.rs
unfoldable pub record_balance : Will → Address → ℤ → Will
unfolding sync_primary_balance
record_balance will token new_balance =
    sync_primary_balance (record will { balances = set will.balances token new_balance })

unfoldable pub top_up : ℕ → Address → Address → ℤ → Action (Unit {0})
unfolding record_balance
top_up will_id owner token amount = do
  require_auth owner
  will ← query (load_owned will_id owner)
  lift (assert_status will active will_not_active)
  panic_if (leb_ℤ amount (pos 0)) zero_amount
  panic_if (leb max_tokens (length will.balances) && not (contains_key will.balances token))
      invalid_token_count
  new_balance ← lift (add_i128 (get_or_zero will.balances token) amount)
  save_will (record_balance will token new_balance)
  adjust_locked_value token amount
  contract ← gets (λ env. env.contract_address)
  transfer (record { token = token; source = owner; recipient = contract; amount = amount })
  publish (Event.top_up will_id owner token amount new_balance)
