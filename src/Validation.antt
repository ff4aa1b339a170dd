-- ===== src/Validation.antt =====
-- The guards of lib.rs that the entry points share. Each returns, or panics with its error.
pub mod Allocations
use sorowill_contracts.Prelude.{
  ℕ, ◌+◌, ◌*◌, Bool, true, false, not, ◌&&◌, ◌||◌, Option, none, some, List, [], ◌∷◌, ltb, leb,
  ◌==◌, length, contains, is_none, if◌then◌else◌,
}
use sorowill_contracts.Prelude.Int.{ℤ, pos, leb_ℤ, ltb_ℤ}
use sorowill_contracts.Prelude.Words.{u32_max, u64_max, saturating_add_u32, saturating_add_i128}
use sorowill_contracts.Errors.{
  WillError, will_not_active, will_not_triggered, not_owner, invalid_percentages, invalid_period,
  too_many_beneficiaries, duplicate_guardian, owner_cannot_be_guardian, invalid_token_count,
  duplicate_beneficiary, fixed_amount_exceeds_balance, guardian_cancel_in_progress,
  invalid_commitment_length, duplicate_commitment, contract_error, overflow, Result, ok, err,
  panic_if, ◌>>=◌, ◌>>◌,
}
use sorowill_contracts.Types.{
  Address, TokenMap, Allocation, percentage, fixed_amount, Beneficiary, Guardian, HashedBeneficiary,
  Will, WillStatus, pending_confirmation, active, triggered, released, cancelled, settled,
  is_status,
}
use sorowill_contracts.Env.{Env}
use sorowill_contracts.Shares.{max_beneficiaries, max_tokens}
use sorowill_contracts.Storage.Wills
use sorowill_contracts.Storage.Votes.{seconds_per_day}

abbrev pub max_guardians : ℕ
max_guardians = 3

abbrev pub max_period_days : ℕ
max_period_days = 3650

-- `let status = is_status` of the will is the one that the caller expects.
unfoldable pub assert_status : Will → WillStatus → WillError → Result (Unit {0})
assert_status will expected e = panic_if (not (is_status will.status expected)) e

unfoldable pub load_owned : ℕ → Address → Env → Result Will
load_owned will_id owner env = do
  will ← Wills.load_will will_id env
  panic_if (not (will.owner == owner)) not_owner
  ok will

abbrev is_delegate : Option Address → Address → Bool
is_delegate none caller = false
is_delegate (some d) caller = d == caller

unfoldable pub assert_owner_or_delegate : Will → Address → Result (Unit {0})
assert_owner_or_delegate will caller =
    panic_if (not (caller == will.owner) && not (is_delegate will.delegate caller)) not_owner

unfoldable pub assert_beneficiary_count : List Beneficiary → Result (Unit {0})
assert_beneficiary_count beneficiaries = do
  panic_if (length beneficiaries == 0) too_many_beneficiaries
  panic_if (ltb max_beneficiaries (length beneficiaries)) too_many_beneficiaries

unfoldable pub names_address : List Beneficiary → Address → Bool
names_address [] address = false
names_address (b ∷ beneficiaries) address =
    b.address == address || names_address beneficiaries address

unfoldable pub total_checked_add : ℕ → ℕ → Result ℕ
total_checked_add total value =
    if leb (total + value) u32_max
    then ok (total + value)
    else err (contract_error invalid_percentages)

-- The running totals of `assert_valid_allocations`.
pub record Totals : Type 0 where
  pub percentage_total : ℕ
  pub fixed_total : ℤ
  pub has_percentage : Bool

unfoldable pub count_allocation : Allocation → Totals → Result Totals
unfolding total_checked_add saturating_add_i128
count_allocation (percentage bp) t = do
  panic_if (bp == 0) invalid_percentages
  total ← total_checked_add t.percentage_total bp
  ok (record t { percentage_total = total; has_percentage = true })
count_allocation (fixed_amount amount) t = do
  panic_if (leb_ℤ amount (pos 0)) invalid_percentages
  ok (record t { fixed_total = saturating_add_i128 t.fixed_total amount })

-- The loop of `assert_valid_allocations`; the inner loop looks for the address further on.
unfoldable pub count_allocations : List Beneficiary → Totals → Result Totals
unfolding count_allocation names_address
count_allocations [] t = ok t
count_allocations (b ∷ beneficiaries) t = do
  t' ← count_allocation b.allocation t
  panic_if (names_address beneficiaries b.address) duplicate_beneficiary
  count_allocations beneficiaries t'

abbrev pub no_totals : Totals
no_totals = record { percentage_total = 0; fixed_total = pos 0; has_percentage = false }

unfoldable pub assert_valid_allocations : List Beneficiary → ℤ → Result (Unit {0})
unfolding count_allocations
assert_valid_allocations beneficiaries primary_balance = do
  t ← count_allocations beneficiaries no_totals
  panic_if (ltb_ℤ primary_balance t.fixed_total) fixed_amount_exceeds_balance
  panic_if (t.has_percentage && not (t.percentage_total == 10000)) invalid_percentages

abbrev add_bps : Allocation → ℕ → Result ℕ
add_bps (percentage bp) total = total_checked_add total bp
add_bps (fixed_amount _) total = ok total

-- The two loops of `assert_valid_percentages`.
unfoldable pub add_visible_bps : List Beneficiary → ℕ → Result ℕ
unfolding total_checked_add
add_visible_bps [] total = ok total
add_visible_bps (b ∷ bs) total = do total' ← add_bps b.allocation total; add_visible_bps bs total'

unfoldable pub add_hashed_bps : List HashedBeneficiary → ℕ → Result ℕ
unfolding total_checked_add
add_hashed_bps [] total = ok total
add_hashed_bps (hb ∷ hbs) total = do
  total' ← total_checked_add total hb.share_bps
  add_hashed_bps hbs total'

unfoldable pub assert_valid_percentages :
    List Beneficiary → List HashedBeneficiary → Result (Unit {0})
unfolding add_visible_bps add_hashed_bps
assert_valid_percentages beneficiaries hashed_beneficiaries = do
  visible ← add_visible_bps beneficiaries 0
  total ← add_hashed_bps hashed_beneficiaries visible
  panic_if (ltb 10000 total) invalid_percentages

unfoldable pub unclaimed_hashed_bps : List HashedBeneficiary → ℕ → ℕ
unfolding saturating_add_u32
unclaimed_hashed_bps [] total = total
unclaimed_hashed_bps (hb ∷ hbs) total =
    unclaimed_hashed_bps hbs (if hb.claimed then total else saturating_add_u32 total hb.share_bps)

unfoldable pub total_balance : TokenMap → ℤ → ℤ
unfolding saturating_add_i128
total_balance [] total = total
total_balance ((_, amount) ∷ balances) total =
    total_balance balances (saturating_add_i128 total amount)

-- The loop of `assert_valid_guardians`.
unfoldable pub check_guardians : Address → List Address → Result (Unit {0})
unfolding contains
check_guardians owner [] = ok tt
check_guardians owner (guardian ∷ guardians) = do
  panic_if (guardian == owner) owner_cannot_be_guardian
  panic_if (contains guardians guardian) duplicate_guardian
  check_guardians owner guardians

unfoldable pub assert_valid_guardians : Address → List Address → Result (Unit {0})
unfolding check_guardians
assert_valid_guardians owner guardians = do
  panic_if (ltb max_guardians (length guardians)) too_many_beneficiaries
  check_guardians owner guardians

-- `(1..=MAX_PERIOD_DAYS).contains(..)`
abbrev pub is_valid_period : ℕ → Bool
is_valid_period days = leb 1 days && leb days max_period_days

unfoldable pub assert_valid_periods : ℕ → ℕ → Result (Unit {0})
assert_valid_periods checkin_period_days grace_period_days =
    panic_if (not (is_valid_period checkin_period_days) || not (is_valid_period grace_period_days))
      invalid_period

unfoldable pub assert_no_guardian_cancel_in_flight : Will → Result (Unit {0})
assert_no_guardian_cancel_in_flight will =
    panic_if (ltb 0 will.guardian_cancel_votes || ltb 0 will.guardian_cancel_vote_weight)
      guardian_cancel_in_progress

unfoldable pub assert_consent_changeable : Will → Result (Unit {0})
assert_consent_changeable will =
    panic_if
      (is_status will.status released
        || is_status will.status cancelled
        || is_status will.status settled)
      will_not_active

unfoldable pub assert_release_preconditions : ℕ → Will → Env → Result (Unit {0})
assert_release_preconditions will_id will env = do
  stored ← Wills.load_will will_id env
  panic_if
      (not (is_status will.status triggered)
        || not (is_status stored.status triggered)
        || is_none stored.trigger_time)
      will_not_triggered
  panic_if (ltb max_beneficiaries (length will.beneficiaries)) too_many_beneficiaries
  panic_if (ltb max_tokens (length will.balances)) invalid_token_count

-- Checked u64 arithmetic of a deadline: a number of days after a start.
unfoldable pub days_after : ℕ → ℕ → Result ℕ
days_after start days =
    if leb (days * seconds_per_day) u64_max && leb (start + days * seconds_per_day) u64_max
    then ok (start + days * seconds_per_day)
    else err overflow

-- `trigger_time.unwrap_or(..)`: the default is computed, and checked, in either case.
abbrev or_default : Option ℕ → ℕ → ℕ
or_default none d = d
or_default (some t) d = t

unfoldable pub grace_deadline : Will → Result ℕ
unfolding days_after
grace_deadline will = do
  default ← days_after will.last_checkin will.checkin_period_days
  days_after (or_default will.trigger_time default) will.grace_period_days

-- grace_boundary.rs
unfoldable pub grace_elapsed : ℕ → ℕ → Bool
grace_elapsed now deadline = ltb deadline now
