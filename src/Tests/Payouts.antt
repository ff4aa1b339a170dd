-- ===== src/Tests/Payouts.antt =====
-- The arithmetic of a release at concrete amounts.
use sorowill_contracts.Prelude.{
  ℕ, ◌+◌, ◌≤◌, ◌≡◌, refl, Bool, true, false, Option, none, some, List, [], ◌∷◌, ◌++◌, max, arith,
  ◌*◌, ◌/◌, ◌⊎◌,
}
use sorowill_contracts.Prelude.Int.{ℤ, pos, ◌+ℤ◌}
use sorowill_contracts.Errors.{ok, err, contract_error, no_failed_payout}
use sorowill_contracts.Types.{Will, triggered, fixed_amount, Beneficiary}
use sorowill_contracts.Env.{Env}
use sorowill_contracts.Shares.{proportional_share, min_one_unit_share}
use sorowill_contracts.Shares.Bounds.{proportional_share-eq-floor}
use sorowill_contracts.Shares.MinOne.{min_one_unit_share-bounds}
use sorowill_contracts.Distribute.Plan.{
  Payments, Plan, Terms, empty_plan, percentage_count, pay_percentages, plan_balance, token_bounty,
  fixed_part,
}
use sorowill_contracts.Distribute.Plan.Sums.{sum, sum_in}
use sorowill_contracts.Distribute.Plan.Conservation.{plan_balance-conserves, plan_balance-fails}
use sorowill_contracts.Distribute.Payout.{pay_or_record_failure}
use sorowill_contracts.Contract.Release.{retry_failed_payout}
use sorowill_contracts.Contract.Release.Retry.{
  payout, made, pay_or_record_failure-outcome, retry_failed_payout-once,
}
use sorowill_contracts.Storage.Wills.{get_failed_payout, set_failed_payout}
use sorowill_contracts.Tests.Sample.{heir, second_heir, will, state, after}

proportional_share-eq-floor_example :
    proportional_share (pos 1001) 3333 ≡ ok (pos (1001 * 3333 / 10000))
proportional_share-eq-floor_example =
    proportional_share-eq-floor 1001 3333 (omega arith) (omega arith)

min_one_unit_share-bounds_example :
    (share : ℕ) × (min_one_unit_share (pos 0) (pos 5) 2 ≡ ok (pos share))
    × (1 ≤ share)
    × (share + 2 ≤ 5)
    × (share ≤ max 0 1)
min_one_unit_share-bounds_example = min_one_unit_share-bounds 0 5 2 (omega arith) (omega arith)

-- Heirs of 60 and 40 percent.
abbrev heirs : List Beneficiary
heirs = heir ∷ second_heir ∷ []

one_or_more : 1 ≤ percentage_count heirs
unfolding percentage_count
one_or_more = omega arith

-- A will that leaves 400 to an heir: the rest of 1,000 goes back to the owner.
abbrev fixed_will : Will
fixed_will = record (will triggered (some 0)) {
  beneficiaries = record { address = 20; allocation = fixed_amount (pos 400) } ∷ [];
}

abbrev fixed_terms : Terms
fixed_terms = record {
  will = fixed_will;
  pays_bounty = false;
  bounty_token = none;
  share_count = 0;
  hashed_bps = 0;
}

abbrev fixed_plan : Plan
fixed_plan = record {
  bounty_computed = false;
  hashed_reserves = [];
  refund_plan = (5, pos 600) ∷ [];
  transfer_plan = (5, (20, pos 400) ∷ []) ∷ [];
}

fixed_planned : plan_balance fixed_terms empty_plan 5 (pos 1000) ≡ ok fixed_plan
unfolding plan_balance sorowill_contracts.Prelude.Int.◌-ℤ◌ sorowill_contracts.Prelude.Int.max_ℤ
    sorowill_contracts.Prelude.Int.min_ℤ ◌+ℤ◌
fixed_planned = refl

plan_balance-conserves_example :
    (bounty : ℤ) × (shares : Payments) × (token_bounty fixed_terms empty_plan (pos 1000)
      ≡ ok bounty)
    × (fixed_plan.transfer_plan ≡ empty_plan.transfer_plan ++ (5, shares) ∷ [])
    × (bounty +ℤ sum shares +ℤ sum_in 5 fixed_plan.refund_plan ≡ pos 1000)
plan_balance-conserves_example =
    plan_balance-conserves fixed_terms empty_plan fixed_plan 5 (pos 1000) fixed_planned

abbrev shared_terms : Terms
shared_terms = record fixed_terms { will = will triggered (some 0); share_count = 2 }

count_heirs : 2 ≡ percentage_count heirs
unfolding percentage_count
count_heirs = refl

nothing_before : sum_in 5 [] ≡ pos 0
unfolding sum_in
nothing_before = refl

all_remains : fixed_part (will triggered (some 0)) 5 (pos 1000) ≡ ok (pos 1000, [])
unfolding sorowill_contracts.Distribute.Plan.pay_fixed
all_remains = refl

plan_balance-fails_example : ¬ (plan_balance shared_terms empty_plan 5 (pos 1000) ≡ ok fixed_plan)
plan_balance-fails_example =
    plan_balance-fails shared_terms empty_plan fixed_plan 5 (pos 1000) (pos 1000) [] 999 refl refl
      refl count_heirs one_or_more nothing_before all_remains refl

abbrev start : Env
start = state 5 (will triggered (some 0))

pay_or_record_failure-outcome_example :
    (pay_or_record_failure 5 99 20 (pos 7) 1 start ≡ ok (true, made (payout 5 99 20 (pos 7)) start))
    ⊎ ((env' : Env) × (pay_or_record_failure 5 99 20 (pos 7) 1 start ≡ ok (false, env'))
        × (env'.transfers ≡ [])
        × (get_failed_payout 1 5 20 env' ≡ some (pos 7)))
pay_or_record_failure-outcome_example = pay_or_record_failure-outcome 5 99 20 (pos 7) 1 start

abbrev owing : Env
owing = set_failed_payout 1 5 20 (pos 7) start

owed : get_failed_payout 1 5 20 owing ≡ some (pos 7)
unfolding get_failed_payout set_failed_payout
owed = refl

retried : retry_failed_payout 1 5 20 owing ≡ ok (tt, after owing (retry_failed_payout 1 5 20 owing))
unfolding retry_failed_payout get_failed_payout set_failed_payout
retried = refl

retry_failed_payout-once_example :
    ((after owing (retry_failed_payout 1 5 20 owing)).transfers
      ≡ owing.transfers ++ payout 5 owing.contract_address 20 (pos 7) ∷ [])
    × (retry_failed_payout 1 5 20 (after owing (retry_failed_payout 1 5 20 owing))
        ≡ err (contract_error no_failed_payout))
retry_failed_payout-once_example =
    retry_failed_payout-once 1 5 20 (pos 7) owing (after owing (retry_failed_payout 1 5 20 owing))
      owed retried
