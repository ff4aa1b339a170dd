-- ===== src/Shares.antt =====
-- The share arithmetic of a release: `proportional_share` of lib.rs, distribute_limits.rs and
-- bounty_rounding.rs.
pub mod Bounds
pub mod MinOne
use sorowill_contracts.Prelude.{ℕ, ◌*◌, Bool, leb, ltb, if◌then◌else◌}
use sorowill_contracts.Prelude.Int.{ℤ, pos, ◌+ℤ◌, ◌-ℤ◌, div_ℤ, mod_ℤ, min_ℤ, max_ℤ}
use sorowill_contracts.Prelude.Words.{u32_max}
use sorowill_contracts.Errors.{
  distribution_too_large, contract_error, Result, ok, err, panic_if, ◌>>=◌, ◌>>◌,
}
use sorowill_contracts.Env.Action.{add_i128, sub_i128, mul_i128}

abbrev pub basis_points_total : ℕ
basis_points_total = 10000

abbrev pub max_beneficiaries : ℕ
max_beneficiaries = 10

abbrev pub max_tokens : ℕ
max_tokens = 10

abbrev pub max_release_payouts : ℕ
max_release_payouts = max_beneficiaries * max_tokens

unfoldable pub proportional_share : ℤ → ℕ → Result ℤ
proportional_share total basis_points = do
  let whole = div_ℤ total basis_points_total
  let remainder = mod_ℤ total basis_points_total
  a ← mul_i128 whole (pos basis_points)
  b ← mul_i128 remainder (pos basis_points)
  add_i128 a (div_ℤ b basis_points_total)

unfoldable pub keeper_bounty : ℤ → ℕ → Result ℤ
unfolding proportional_share
keeper_bounty balance bps = proportional_share balance bps

-- `later_count as i128` is exact.
unfoldable pub min_one_unit_share : ℤ → ℤ → ℕ → Result ℤ
min_one_unit_share floor_share percentage_remaining later_count = do
  left ← sub_i128 percentage_remaining (pos later_count)
  ok (min_ℤ (max_ℤ floor_share (pos 1)) (max_ℤ left (pos 0)))

unfoldable pub assert_payout_budget : ℕ → ℕ → Result (Unit {0})
assert_payout_budget beneficiaries tokens = do
  panic_if (ltb u32_max (beneficiaries * tokens)) distribution_too_large
  panic_if (ltb max_release_payouts (beneficiaries * tokens)) distribution_too_large
