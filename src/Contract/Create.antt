-- ===== src/Contract/Create.antt =====
-- lib.rs: `create_will` and `confirm_will`.
use sorowill_contracts.Prelude.{
  ℕ, Bool, false, not, ◌&&◌, ◌||◌, Option, none, some, List, [], ◌∷◌, ltb, leb, length, contains,
  is_empty, if◌then◌else◌,
}
use sorowill_contracts.Prelude.Int.{ℤ, pos, leb_ℤ}
use sorowill_contracts.Prelude.Words.{saturating_add_u64}
use sorowill_contracts.Errors
use sorowill_contracts.Errors.{
  too_many_beneficiaries, keeper_bounty_exceeds_max, invalid_token_count, duplicate_token,
  invalid_guardian_threshold, zero_amount, invalid_token, will_not_confirmed,
  confirmation_window_expired, contract_error, Result, ok, err,
}
use sorowill_contracts.Types.{
  Address, TokenMap, Beneficiary, Guardian, pending, Will, WillStatus, pending_confirmation, active,
  is_status,
}
use sorowill_contracts.Types.Balances.{set, get_or_zero}
use sorowill_contracts.Env.{will_created, will_confirmed}
use sorowill_contracts.Env.Action.{
  Action, choose, pure, lift, query, gets, panic_if, require_auth, publish, transfer, add_u64,
  add_i128, ◌>>=◌, ◌>>◌,
}
use sorowill_contracts.Shares.{max_beneficiaries, max_tokens}
use sorowill_contracts.Storage.Stats.{
  next_will_id, increment_active_will_count, adjust_locked_value,
}
use sorowill_contracts.Storage.Wills.{save_will}
use sorowill_contracts.Storage.Indexes.{assert_index_capacity, index_by_owner, index_by_beneficiary}
use sorowill_contracts.Storage.History.{record_transition}
use sorowill_contracts.Validation.{
  load_owned, assert_beneficiary_count, assert_valid_allocations, assert_valid_percentages,
  assert_valid_guardians, assert_valid_periods, days_after, total_balance,
}

abbrev pub current_schema_version : ℕ
current_schema_version = 1

abbrev pub max_keeper_bounty_bps : ℕ
max_keeper_bounty_bps = 100

unfoldable pub checked_bounty : Option ℕ → Result ℕ
checked_bounty none = ok 0
checked_bounty (some bps) =
    if leb bps max_keeper_bounty_bps then ok bps else err (contract_error keeper_bounty_exceeds_max)

-- The loop that rejects a token named twice.
unfoldable pub check_tokens : List (ℕ × ℤ) → List Address → Result (Unit {0})
unfolding contains
check_tokens [] seen = ok tt
check_tokens ((token, _) ∷ tokens) seen =
    Errors.◌>>◌ (Errors.panic_if (contains seen token) duplicate_token)
      (check_tokens tokens (token ∷ seen))

unfoldable pub checked_threshold : List Address → ℕ → Result ℕ
checked_threshold guardians guardian_threshold =
    if is_empty guardians
    then ok 0
    else if leb 1 guardian_threshold && leb guardian_threshold (length guardians)
    then ok guardian_threshold
    else err (contract_error invalid_guardian_threshold)

-- Each address as a guardian of weight 1 that has not answered.
unfoldable pub new_guardians : List Address → List Guardian
new_guardians [] = []
new_guardians (address ∷ guardians) =
    record { address = address; weight = 1; consent = pending } ∷ new_guardians guardians

-- The loop that takes the deposits and builds the balances.
unfoldable pub deposit : Address → List (ℕ × ℤ) → TokenMap → Action TokenMap
deposit owner [] balances = pure balances
deposit owner ((token, amount) ∷ tokens) balances = do
  panic_if (leb_ℤ amount (pos 0)) zero_amount
  known ← gets (λ env. env.answers_decimals token)
  panic_if (not known) invalid_token
  contract ← gets (λ env. env.contract_address)
  transfer (record { token = token; source = owner; recipient = contract; amount = amount })
  total ← lift (add_i128 (get_or_zero balances token) amount)
  deposit owner tokens (set balances token total)

abbrev pub primary_token : List (ℕ × ℤ) → Address
primary_token [] = 0
primary_token ((token, _) ∷ tokens) = token

unfoldable pub index_beneficiaries : List Beneficiary → ℕ → Action (Unit {0})
index_beneficiaries [] will_id = pure tt
index_beneficiaries (b ∷ bs) will_id = do
  index_by_beneficiary b.address will_id
  index_beneficiaries bs will_id

unfoldable pub lock_tokens : List (ℕ × ℤ) → Action (Unit {0})
lock_tokens [] = pure tt
lock_tokens ((token, amount) ∷ tokens) = do adjust_locked_value token amount; lock_tokens tokens

-- The initial status, with the deadline to confirm it.
unfoldable pub initial_status : ℕ → ℕ → Action (WillStatus × Option ℕ)
initial_status now delay =
    choose (ltb 0 delay)
      (do deadline ← lift (add_u64 now delay); pure (pending_confirmation, some deadline))
      (pure (active, none))

-- The new will.
abbrev pub created_will :
    ℕ
    → Address
    → List (ℕ × ℤ)
    → TokenMap
    → List Beneficiary
    → ℕ
    → ℕ
    → List Address
    → ℕ
    → ℕ
    → WillStatus
    → Option ℕ
    → ℕ
    → Will
created_will will_id owner tokens balances beneficiaries checkin_period_days grace_period_days
      guardians threshold keeper_bounty status confirmation_deadline now =
    record {
      id = will_id;
      owner = owner;
      balances = balances;
      token = primary_token tokens;
      is_native = false;
      balance = get_or_zero balances (primary_token tokens);
      beneficiaries = beneficiaries;
      hashed_beneficiaries = [];
      checkin_period_days = checkin_period_days;
      grace_period_days = grace_period_days;
      last_checkin = now;
      trigger_time = none;
      confirmation_deadline = confirmation_deadline;
      status = status;
      guardians = new_guardians guardians;
      guardian_vote_weight = 0;
      guardian_votes = 0;
      guardian_cancel_vote_weight = 0;
      guardian_cancel_votes = 0;
      guardian_threshold = threshold;
      guardian_list_updated_at = now;
      schema_version = current_schema_version;
      keeper_bounty_bps = keeper_bounty;
      delegate = none;
      triggered_beneficiaries = none;
    }

unfoldable pub create_will :
    Address → List (ℕ × ℤ) → List Beneficiary → ℕ → ℕ → List Address → ℕ → Option ℕ → ℕ → Action ℕ
create_will owner tokens beneficiaries checkin_period_days grace_period_days guardians
      guardian_threshold keeper_bounty_bps confirmation_delay_seconds =
    do
      require_auth owner
      keeper_bounty ← lift (checked_bounty keeper_bounty_bps)
      panic_if (is_empty tokens || ltb max_tokens (length tokens)) invalid_token_count
      lift (check_tokens tokens [])
      lift (assert_beneficiary_count beneficiaries)
      lift (assert_valid_guardians owner guardians)
      lift (assert_valid_periods checkin_period_days grace_period_days)
      threshold ← lift (checked_threshold guardians guardian_threshold)
      query (assert_index_capacity owner beneficiaries)
      balances ← deposit owner tokens []
      let primary_amount = get_or_zero balances (primary_token tokens)
      lift (assert_valid_allocations beneficiaries primary_amount)
      will_id ← next_will_id
      now ← gets (λ env. env.now)
      index_beneficiaries beneficiaries will_id
      (status, confirmation_deadline) ← initial_status now confirmation_delay_seconds
      save_will (
          created_will will_id owner tokens balances beneficiaries checkin_period_days
            grace_period_days guardians threshold keeper_bounty status confirmation_deadline now)
      index_by_owner owner will_id
      increment_active_will_count
      lock_tokens tokens
      record_transition will_id status status owner "create"
      deadline ← lift (days_after now checkin_period_days)
      publish (will_created will_id owner (length balances) beneficiaries deadline)
      pure will_id

-- deadline_precision.rs
abbrev pub confirmation_deadline_buffer_seconds : ℕ
confirmation_deadline_buffer_seconds = 5

unfoldable pub confirmation_expired : ℕ → ℕ → Bool
unfolding saturating_add_u64
confirmation_expired now deadline =
    ltb (saturating_add_u64 deadline confirmation_deadline_buffer_seconds) now

abbrev is_expired : Option ℕ → ℕ → Bool
is_expired none now = false
is_expired (some deadline) now = confirmation_expired now deadline

-- The will as `confirm_will` leaves it.
abbrev pub confirmed_will : Will → ℕ → Will
confirmed_will will now = record will {
  status = active;
  last_checkin = now;
  confirmation_deadline = none;
}

unfoldable pub confirm_will : ℕ → Address → Action (Unit {0})
unfolding confirmation_expired
confirm_will will_id owner = do
  require_auth owner
  will ← query (load_owned will_id owner)
  panic_if (not (is_status will.status pending_confirmation)) will_not_confirmed
  now ← gets (λ env. env.now)
  panic_if (is_expired will.confirmation_deadline now) confirmation_window_expired
  panic_if (is_empty will.beneficiaries || ltb max_beneficiaries (length will.beneficiaries))
      too_many_beneficiaries
  lift (assert_valid_allocations will.beneficiaries (total_balance will.balances (pos 0)))
  lift (assert_valid_percentages will.beneficiaries will.hashed_beneficiaries)
  save_will (confirmed_will will now)
  record_transition will_id pending_confirmation active owner "confirm"
  publish (will_confirmed will_id owner)
