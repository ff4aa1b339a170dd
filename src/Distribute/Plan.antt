-- ===== src/Distribute/Plan.antt =====
-- The first part of `distribute`, which computes every payment from the balances before it.
pub mod Sums
pub mod Conservation
use sorowill_contracts.Prelude.{
  ℕ, ◌+◌, ◌-◌, Bool, true, false, not, ◌&&◌, ◌||◌, Option, none, some, List, [], ◌∷◌, ◌++◌, ltb,
  leb, ◌==◌, if◌then◌else◌,
}
use sorowill_contracts.Prelude.Int.{ℤ, pos, ◌+ℤ◌, ltb_ℤ, eqb_ℤ, is_zero, min_ℤ, max_ℤ}
use sorowill_contracts.Errors.{
  distribution_mismatch, contract_error, Result, ok, err, panic_if, ◌>>=◌, ◌>>◌,
}
use sorowill_contracts.Types.{
  Address, TokenMap, Allocation, percentage, fixed_amount, Beneficiary, Will,
}
use sorowill_contracts.Types.Balances.{set}
use sorowill_contracts.Env.Action.{fits_i128, sub_i128}
use sorowill_contracts.Shares.{proportional_share, keeper_bounty, min_one_unit_share}

-- Amounts by address, in the order in which they are paid.
abbrev pub Payments : Type 0
Payments = List (ℕ × ℤ)

abbrev pub is_percentage : Allocation → Bool
is_percentage (percentage _) = true
is_percentage (fixed_amount _) = false

unfoldable pub percentage_count : List Beneficiary → ℕ
percentage_count [] = 0
percentage_count (b ∷ bs) =
    if is_percentage b.allocation then percentage_count bs + 1 else percentage_count bs

-- `should_pay_bounty`
unfoldable pub should_pay_bounty : Option Address → Address → Will → Bool
should_pay_bounty none contract_address will = false
should_pay_bounty (some keeper) contract_address will =
    not (keeper == will.owner) && not (keeper == contract_address) && ltb 0 will.keeper_bounty_bps

-- The first token whose bounty is above zero.
unfoldable pub pick_bounty : TokenMap → ℕ → Result (Option (ℕ × ℤ))
pick_bounty [] bps = ok none
pick_bounty ((token, total) ∷ balances) bps =
    let later = pick_bounty balances bps in
    if is_zero total then later else (do
      amount ← keeper_bounty total bps
      if ltb_ℤ (pos 0) amount then ok (some (token, amount)) else later)

-- What the loop over the tokens has gathered.
pub record Plan : Type 0 where
  pub bounty_computed : Bool
  pub hashed_reserves : TokenMap
  pub refund_plan : Payments
  pub transfer_plan : List (ℕ × List (ℕ × ℤ))

abbrev pub empty_plan : Plan
empty_plan = record {
  bounty_computed = false;
  hashed_reserves = [];
  refund_plan = [];
  transfer_plan = [];
}

-- The balance after the bounty, for the token that the bounty is paid from.
abbrev pub after_bounty : Option (ℕ × ℤ) → Address → ℤ → Result ℤ
after_bounty none token total = ok total
after_bounty (some (bounty_token, bounty)) token total =
    if bounty_token == token
    then (sub_i128 total bounty >>= λ left. ok (max_ℤ left (pos 0)))
    else ok total

-- The fixed amounts in order, each capped by what remains; also what remains after them.
unfoldable pub pay_fixed : List Beneficiary → ℤ → Result (ℤ × Payments)
pay_fixed [] remaining = ok (remaining, [])
pay_fixed (b ∷ bs) remaining = elim b.allocation [
  | percentage _ ↦ pay_fixed bs remaining
  | fixed_amount amount ↦
      (let share = max_ℤ (min_ℤ amount remaining) (pos 0) in
        sub_i128 remaining share >>= λ left.
        pay_fixed bs left >>= λ (rest, shares). ok (rest, (b.address, share) ∷ shares))
]

-- The percentage shares of `remaining`: `index` of `count` have been given, `left` is not given yet.
unfoldable pub pay_percentages : ℤ → ℕ → List Beneficiary → ℕ → ℤ → Result Payments
pay_percentages remaining count [] index left = ok []
pay_percentages remaining count (b ∷ bs) index left = elim b.allocation [
  | fixed_amount _ ↦ pay_percentages remaining count bs index left
  | percentage bp ↦ elim ((index + 1) == count) [
    | true ↦ pay_percentages remaining count bs (index + 1) left >>= λ shares.
        ok ((b.address, left) ∷ shares)
    | false ↦ proportional_share remaining bp >>= λ floor_share.
        min_one_unit_share floor_share left (count - (index + 1)) >>= λ portion.
        sub_i128 left portion >>= λ left'.
        pay_percentages remaining count bs (index + 1) left' >>= λ shares.
        ok ((b.address, portion) ∷ shares)
  ]
]

-- `planned.checked_add(..)`
abbrev pub plan_add : ℤ → ℤ → Result ℤ
plan_add planned amount =
    if fits_i128 (planned +ℤ amount)
    then ok (planned +ℤ amount)
    else err (contract_error distribution_mismatch)

unfoldable pub add_shares : Payments → ℤ → Result ℤ
add_shares [] planned = ok planned
add_shares ((_, share) ∷ shares) planned = do
  panic_if (ltb_ℤ share (pos 0)) distribution_mismatch
  planned' ← plan_add planned share
  add_shares shares planned'

unfoldable pub add_refunds : Payments → Address → ℤ → Result ℤ
add_refunds [] token planned = ok planned
add_refunds ((t, amount) ∷ refunds) token planned = do
  planned' ← (if t == token then plan_add planned amount else ok planned)
  add_refunds refunds token planned'

-- The conservation check (#456).
unfoldable pub check_planned : ℤ → Payments → Payments → Address → ℤ → Result (Unit {0})
unfolding add_shares add_refunds
check_planned token_bounty shares refunds token total = do
  planned ← add_shares shares token_bounty
  planned' ← add_refunds refunds token planned
  panic_if (not (eqb_ℤ planned' total)) distribution_mismatch

-- What the iterations share: the parameters of `distribute`'s loop.
pub record Terms : Type 0 where
  pub will : Will
  pub pays_bounty : Bool
  pub bounty_token : Option (ℕ × ℤ)
  pub share_count : ℕ
  pub hashed_bps : ℕ

-- The bounty charged to this token: that of the first token with a balance.
abbrev pub token_bounty : Terms → Plan → ℤ → Result ℤ
token_bounty terms plan total =
    if terms.pays_bounty && not plan.bounty_computed
    then keeper_bounty total terms.will.keeper_bounty_bps
    else ok (pos 0)

-- The reserve for hashed beneficiaries: what is left, and the reserves.
abbrev pub reserve : ℕ → Address → ℤ → TokenMap → Result (ℤ × TokenMap)
reserve hashed_bps token available reserves =
    if ltb 0 hashed_bps
    then (proportional_share available hashed_bps >>= λ hashed_reserve.
        sub_i128 available hashed_reserve >>= λ left. ok (left, set reserves token hashed_reserve))
    else ok (available, reserves)

abbrev pub fixed_part : Will → Address → ℤ → Result (ℤ × Payments)
fixed_part will token available =
    if token == will.token then pay_fixed will.beneficiaries available else ok (available, [])

abbrev pub with_refund : Payments → Address → ℤ → Payments
with_refund refunds token remaining =
    if ltb_ℤ (pos 0) remaining then refunds ++ (token, remaining) ∷ [] else refunds

-- One iteration of the loop over the tokens that has a balance.
unfoldable pub plan_balance : Terms → Plan → Address → ℤ → Result Plan
unfolding pay_fixed pay_percentages check_planned
plan_balance terms plan token total = do
  bounty ← token_bounty terms plan total
  net ← after_bounty terms.bounty_token token total
  (available, reserves) ← reserve terms.hashed_bps token net plan.hashed_reserves
  (remaining, fixed_shares) ← fixed_part terms.will token available
  percentage_shares ←
      pay_percentages remaining terms.share_count terms.will.beneficiaries 0 remaining
  let shares = fixed_shares ++ percentage_shares
  let refunds = with_refund plan.refund_plan token remaining
  check_planned bounty shares refunds token total
  ok (record {
    bounty_computed = terms.pays_bounty || plan.bounty_computed;
    hashed_reserves = reserves;
    refund_plan = refunds;
    transfer_plan = plan.transfer_plan ++ (token, shares) ∷ [];
  })

unfoldable pub plan_tokens : Terms → Plan → TokenMap → Result Plan
unfolding plan_balance
plan_tokens terms plan [] = ok plan
plan_tokens terms plan ((token, total) ∷ balances) = do
  plan' ← (if is_zero total then ok plan else plan_balance terms plan token total)
  plan_tokens terms plan' balances
