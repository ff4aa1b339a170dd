-- ===== src/Contract/Split.antt =====
-- lib.rs: `split_will`, which moves beneficiaries and tokens of a will to a new one;
-- split_uniqueness_check.rs.
pub mod Conserves
pub mod Child
pub mod Count
use sorowill_contracts.Prelude.{
  ℕ, true, false, not, ◌||◌, none, List, [], ◌∷◌, ltb, ◌==◌, length, is_empty, if◌then◌else◌,
}
use sorowill_contracts.Prelude.Int.{ℤ, pos, leb_ℤ, ltb_ℤ}
use sorowill_contracts.Errors
use sorowill_contracts.Errors.{
  will_not_active, invalid_token_count, invalid_split, zero_amount, insufficient_balance,
  too_many_beneficiaries, duplicate_beneficiary, beneficiary_not_found, Result, ok,
}
use sorowill_contracts.Types.{Address, TokenMap, Beneficiary, Will, active}
use sorowill_contracts.Types.Balances.{set, get_or_zero}
use sorowill_contracts.Env.{Env, will_created, will_split, Event}
use sorowill_contracts.Env.Action.{
  Action, pure, lift, query, gets, panic_if, modify, require_auth, publish, add_i128, sub_i128,
  ◌>>=◌, ◌>>◌,
}
use sorowill_contracts.Shares.{max_beneficiaries, max_tokens}
use sorowill_contracts.Storage.Stats.{next_will_id, increment_active_will_count}
use sorowill_contracts.Storage.Wills.{save_will}
use sorowill_contracts.Storage.Indexes.{index_by_owner}
use sorowill_contracts.Storage.History.{record_transition}
use sorowill_contracts.Validation.{
  load_owned, assert_status, names_address, assert_valid_allocations, days_after,
}
use sorowill_contracts.Distribute.Payout.{remove_beneficiary_indexes}
use sorowill_contracts.Contract.Create.{primary_token, index_beneficiaries, current_schema_version}
use sorowill_contracts.Contract.Clone.{reset_guardian_consent}
use sorowill_contracts.Contract.Renormalize.{renormalize_percentages}

-- split_uniqueness_check.rs
unfoldable pub assert_split_addresses_unique : List Beneficiary → Result (Unit {0})
unfolding names_address
assert_split_addresses_unique [] = ok tt
assert_split_addresses_unique (b ∷ bs) =
    Errors.◌>>◌ (Errors.panic_if (names_address bs b.address) invalid_split)
      (assert_split_addresses_unique bs)

-- The loop that adds up the requested amounts by token.
unfoldable pub requested_balances : List (ℕ × ℤ) → TokenMap → Result TokenMap
requested_balances [] requested = ok requested
requested_balances ((token, amount) ∷ tokens) requested =
    Errors.◌>>◌ (Errors.panic_if (leb_ℤ amount (pos 0)) zero_amount) (
      Errors.◌>>=◌ (add_i128 (get_or_zero requested token) amount)
        (λ total. requested_balances tokens (set requested token total)))

-- The loop that compares each with what the source holds.
unfoldable pub assert_held : TokenMap → TokenMap → Result (Unit {0})
assert_held held [] = ok tt
assert_held held ((token, amount) ∷ requested) =
    Errors.◌>>◌ (Errors.panic_if (ltb_ℤ (get_or_zero held token) amount) insufficient_balance)
      (assert_held held requested)

-- The loop over the beneficiaries to move.
unfoldable pub assert_movable : List Beneficiary → List Beneficiary → Result (Unit {0})
unfolding names_address
assert_movable source [] = ok tt
assert_movable source (s ∷ moved) =
    Errors.◌>>◌ (Errors.panic_if (names_address moved s.address) duplicate_beneficiary) (
      Errors.◌>>◌ (Errors.panic_if (not (names_address source s.address)) beneficiary_not_found)
        (assert_movable source moved))

-- The two lists of the loop over the source's beneficiaries.
unfoldable pub remaining_of : List Beneficiary → List Beneficiary → List Beneficiary
unfolding names_address
remaining_of [] moved = []
remaining_of (b ∷ source) moved =
    let rest = remaining_of source moved in if names_address moved b.address then rest else b ∷ rest

unfoldable pub moved_of : List Beneficiary → List Beneficiary → List Beneficiary
unfolding names_address
moved_of [] moved = []
moved_of (b ∷ source) moved =
    let rest = moved_of source moved in if names_address moved b.address then b ∷ rest else rest

-- The loop that takes the child's balances off the source's.
unfoldable pub subtract_balances : TokenMap → TokenMap → Result TokenMap
subtract_balances held [] = ok held
subtract_balances held ((token, amount) ∷ requested) =
    Errors.◌>>=◌ (sub_i128 (get_or_zero held token) amount)
      (λ left. subtract_balances (set held token left) requested)

-- What the checks and computations before the first change come to.
pub record SplitPlan : Type 0 where
  pub child_balances : TokenMap
  pub source_balances : TokenMap
  pub remaining : List Beneficiary
  pub moved : List Beneficiary

-- The part of the checks that is about the amounts.
unfoldable pub plan_amounts : Will → List Beneficiary → List (ℕ × ℤ) → Result TokenMap
unfolding assert_split_addresses_unique requested_balances assert_held
plan_amounts source moved tokens =
    Errors.◌>>◌
      (Errors.panic_if (is_empty tokens || ltb max_tokens (length tokens)) invalid_token_count)
      (Errors.◌>>◌ (Errors.panic_if (is_empty moved) invalid_split) (
        Errors.◌>>◌ (assert_split_addresses_unique moved) (
          Errors.◌>>=◌ (requested_balances tokens [])
            (λ requested. Errors.◌>>◌ (assert_held source.balances requested) (ok requested)))))

-- The part that is about the beneficiaries.
unfoldable pub plan_beneficiaries :
    Will → List Beneficiary → Result (List Beneficiary × List Beneficiary)
unfolding assert_movable remaining_of moved_of renormalize_percentages
plan_beneficiaries source moved =
    Errors.◌>>◌ (Errors.panic_if (ltb max_beneficiaries (length moved)) too_many_beneficiaries) (
      Errors.◌>>◌ (assert_movable source.beneficiaries moved) (
        let remaining = remaining_of source.beneficiaries moved in
        Errors.◌>>◌ (Errors.panic_if (is_empty remaining) invalid_split) (
          Errors.◌>>=◌ (renormalize_percentages remaining) (λ normalised_remaining.
            Errors.◌>>=◌ (renormalize_percentages (moved_of source.beneficiaries moved))
              (λ normalised_split. ok (normalised_remaining, normalised_split))))))

unfoldable pub plan_split : Will → List Beneficiary → List (ℕ × ℤ) → Result SplitPlan
unfolding plan_amounts plan_beneficiaries subtract_balances
plan_split source moved tokens = Errors.◌>>=◌ (plan_amounts source moved tokens) (λ child.
    Errors.◌>>=◌ (plan_beneficiaries source moved) (λ (remaining, split).
      Errors.◌>>=◌ (subtract_balances source.balances child) (λ left.
        Errors.◌>>◌ (assert_valid_allocations remaining (get_or_zero left source.token)) (
          Errors.◌>>◌ (assert_valid_allocations split (get_or_zero child (primary_token tokens))) (
            ok (record {
              child_balances = child;
              source_balances = left;
              remaining = remaining;
              moved = split;
            }))))))

-- The source as the split leaves it.
abbrev pub split_source : Will → SplitPlan → Will
split_source source plan = record source {
  balances = plan.source_balances;
  balance = get_or_zero plan.source_balances source.token;
  beneficiaries = plan.remaining;
}

-- The new will.
abbrev pub split_child : Will → SplitPlan → ℕ → Address → ℕ → Will
split_child source plan will_id token now = record {
  id = will_id;
  owner = source.owner;
  balances = plan.child_balances;
  token = token;
  is_native = false;
  balance = get_or_zero plan.child_balances token;
  beneficiaries = plan.moved;
  hashed_beneficiaries = [];
  checkin_period_days = source.checkin_period_days;
  grace_period_days = source.grace_period_days;
  last_checkin = now;
  trigger_time = none;
  confirmation_deadline = none;
  status = active;
  guardians = reset_guardian_consent source.guardians;
  guardian_vote_weight = 0;
  guardian_votes = 0;
  guardian_cancel_vote_weight = 0;
  guardian_cancel_votes = 0;
  guardian_threshold = source.guardian_threshold;
  guardian_list_updated_at = now;
  schema_version = current_schema_version;
  keeper_bounty_bps = 0;
  delegate = none;
  triggered_beneficiaries = none;
}

-- The source is stored without what moved, and the new will with it; gives the new id.
unfoldable pub store_parts : ℕ → Will → List Beneficiary → Address → SplitPlan → Action ℕ
store_parts will_id source moved token plan = do
  modify (remove_beneficiary_indexes moved will_id)
  save_will (split_source source plan)
  new_id ← next_will_id
  now ← gets (λ env. env.now)
  index_beneficiaries plan.moved new_id
  save_will (split_child source plan new_id token now)
  index_by_owner source.owner new_id
  pure new_id

-- The audit trail and the events.
unfoldable pub announce_split : ℕ → ℕ → Address → Will → Address → SplitPlan → Action ℕ
announce_split will_id new_id owner source token plan = do
  record_transition new_id active active owner "create"
  publish (will_split will_id new_id owner (get_or_zero plan.child_balances token))
  now ← gets (λ env. env.now)
  deadline ← lift (days_after now source.checkin_period_days)
  publish (will_created new_id owner (length plan.child_balances) plan.moved deadline)
  pure new_id

-- The count of active wills goes up twice.
unfoldable pub store_split : ℕ → Address → Will → List Beneficiary → Address → SplitPlan → Action ℕ
unfolding store_parts announce_split
store_split will_id owner source moved token plan = do
  new_id ← store_parts will_id source moved token plan
  increment_active_will_count
  increment_active_will_count
  announce_split will_id new_id owner source token plan

unfoldable pub split_will : ℕ → Address → List Beneficiary → List (ℕ × ℤ) → Action ℕ
unfolding plan_split store_split
split_will will_id owner moved tokens = do
  require_auth owner
  source ← query (load_owned will_id owner)
  lift (assert_status source active will_not_active)
  plan ← lift (plan_split source moved tokens)
  store_split will_id owner source moved (primary_token tokens) plan
